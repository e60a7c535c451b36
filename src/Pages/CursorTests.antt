-- ===== src/Pages/CursorTests.antt =====
-- The cursors with small stand-ins for the library's texts: a document is written in bits.
use multi_tenant_saas.Base.{
  ℕ, zero, suc, ◌≡◌, refl, ap, ◌∙◌, Option, none, some, List, [], ◌∷◌, arith,
}
use multi_tenant_saas.Text.{Text, IsAscii}
use multi_tenant_saas.Pages.Cursor.{
  PythonTexts, item, encode_cursor, decode_cursor, decode_cursor-encode_cursor,
}

-- Numbers in unary, each ended by a 0.
abbrev bits_of_one : ℕ → Text → Text
bits_of_one zero rest = 0 ∷ rest
bits_of_one (suc n) rest = 1 ∷ bits_of_one n rest

abbrev bits : Text → Text
bits [] = []
bits (n ∷ numbers) = bits_of_one n (bits numbers)

abbrev bump : Text → Text
bump [] = 1 ∷ []
bump (n ∷ numbers) = suc n ∷ numbers

abbrev numbers_of : Text → Text
numbers_of [] = []
numbers_of (zero ∷ rest) = 0 ∷ numbers_of rest
numbers_of (suc _ ∷ rest) = bump (numbers_of rest)

abbrev added : ℕ → Text → Text
added n numbers = n ∷ numbers

numbers_of-bits_of_one :
    (n : ℕ) (rest : Text) → numbers_of (bits_of_one n rest) ≡ n ∷ numbers_of rest
numbers_of-bits_of_one zero rest = refl
numbers_of-bits_of_one (suc n) rest = ap bump (numbers_of-bits_of_one n rest)

numbers_of-bits : (t : Text) → numbers_of (bits t) ≡ t
numbers_of-bits [] = refl
numbers_of-bits (n ∷ t) = numbers_of-bits_of_one n (bits t) ∙ ap (added n) (numbers_of-bits t)

bits_of_one-IsAscii : (n : ℕ) (rest : Text) → IsAscii rest → IsAscii (bits_of_one n rest)
bits_of_one-IsAscii zero rest h = (omega arith, h)
bits_of_one-IsAscii (suc n) rest h = (omega arith, bits_of_one-IsAscii n rest h)

bits-IsAscii : (t : Text) → IsAscii (bits t)
bits-IsAscii [] = tt
bits-IsAscii (n ∷ t) = bits_of_one-IsAscii n (bits t) (bits-IsAscii t)

-- Texts one after another, each ended by a 0.
abbrev put : Text → Text → Text
put [] rest = 0 ∷ rest
put (c ∷ t) rest = suc c ∷ put t rest

abbrev first_char : ℕ → List Text → List Text
first_char c [] = (c ∷ []) ∷ []
first_char c (t ∷ texts) = (c ∷ t) ∷ texts

abbrev texts_of : Text → List Text
texts_of [] = []
texts_of (zero ∷ rest) = [] ∷ texts_of rest
texts_of (suc c ∷ rest) = first_char c (texts_of rest)

texts_of-put : (t rest : Text) → texts_of (put t rest) ≡ t ∷ texts_of rest
texts_of-put [] rest = refl
texts_of-put (c ∷ t) rest = ap (first_char c) (texts_of-put t rest)

abbrev flat : List (Text × Text) → Text
flat [] = []
flat ((k, v) ∷ members) = put k (put v (flat members))

abbrev paired : List Text → List (Text × Text)
paired (k ∷ v ∷ texts) = (k, v) ∷ paired texts
paired _ = []

paired-flat : (members : List (Text × Text)) → paired (texts_of (flat members)) ≡ members
paired-flat [] = refl
paired-flat ((k, v) ∷ members) =
    ap paired (texts_of-put k (put v (flat members)))
    ∙ ap (λ texts. paired (k ∷ texts)) (texts_of-put v (flat members))
    ∙ ap (◌∷◌ (k, v)) (paired-flat members)

abbrev dumps : List (Text × Text) → Text
dumps members = bits (flat members)

abbrev loads : Text → Option (List (Text × Text))
loads document = some (paired (texts_of (numbers_of document)))

loads-dumps :
    (members : List (Text × Text))
    → (document : List (Text × Text)) × (loads (dumps members) ≡ some document)
      × ((key : Text) → item key document ≡ item key members)
loads-dumps members = (
  members,
  ap (λ t. some (paired (texts_of t))) (numbers_of-bits (flat members))
      ∙ ap some (paired-flat members),
  λ key. refl,
)

abbrev one_char : Text → Option ℕ
one_char [] = none
one_char (c ∷ t) = some c

abbrev sample_python : PythonTexts
sample_python = record {
  isoformat = λ t. t ∷ [];
  fromisoformat = one_char;
  uuid_str = λ u. u ∷ [];
  uuid_of = one_char;
  Json = List (Text × Text);
  json_dumps = dumps;
  json_loads = loads;
  json_item = λ document key. item key document;
  utf8_encode = λ t. t;
  utf8_decode = λ b. some b;
  fromisoformat-isoformat = λ t. refl;
  uuid_of-uuid_str = λ u. refl;
  json_dumps-IsAscii = λ members. bits-IsAscii (flat members);
  json_loads-json_dumps = loads-dumps;
  utf8_encode_ascii = λ t h. refl;
  utf8_decode_ascii = λ t h. refl;
}

decode_cursor-encode_cursor_example :
    decode_cursor sample_python (encode_cursor sample_python (1700, 31)) ≡ some (1700, 31)
decode_cursor-encode_cursor_example = decode_cursor-encode_cursor sample_python (1700, 31)
