-- ===== src/Pages/Base64.antt =====
-- `base64.urlsafe_b64encode` and `base64.urlsafe_b64decode`, as app/core/pagination.py uses them:
-- on lists of bytes. The decoder skips characters outside of the alphabet and takes that of the
-- plain variant too.
pub mod Laws
use multi_tenant_saas.Base.{
  ℕ, zero, suc, ◌+◌, ◌-◌, ◌*◌, ◌/◌, ◌%◌, Bool, true, false, ◌&&◌, ◌||◌, Option, none, some, List,
  [], ◌∷◌, ◌==◌, ltb, leb, if◌then◌else◌,
}

unfoldable pub b64_char : ℕ → ℕ
b64_char n =
    if ltb n 26
    then n + b'A'
    else if ltb n 52
    then n - 26 + b'a'
    else if ltb n 62
    then n - 52 + b'0'
    else if n == 62
    then b'-'
    else b'_'

unfoldable pub b64encode : List ℕ → List ℕ
b64encode [] = []
b64encode (a ∷ []) = b64_char (a / 4) ∷ b64_char (a % 4 * 16) ∷ b'=' ∷ b'=' ∷ []
b64encode (a ∷ b ∷ []) =
    b64_char (a / 4) ∷ b64_char (a % 4 * 16 + b / 16) ∷ b64_char (b % 16 * 4) ∷ b'=' ∷ []
b64encode (a ∷ b ∷ c ∷ bytes) =
    b64_char (a / 4)
    ∷ b64_char (a % 4 * 16 + b / 16)
    ∷ b64_char (b % 16 * 4 + c / 64)
    ∷ b64_char (c % 64)
    ∷ b64encode bytes

unfoldable pub sextet : ℕ → Option ℕ
sextet c =
    if leb b'A' c && leb c b'Z'
    then some (c - b'A')
    else if leb b'a' c && leb c b'z'
    then some (c - b'a' + 26)
    else if leb b'0' c && leb c b'9'
    then some (c - b'0' + 52)
    else if (c == b'-') || (c == b'+')
    then some 62
    else if (c == b'_') || (c == b'/')
    then some 63
    else none

-- Where in a group of four characters the decoder stands, with the bits that are left over.
pub data Quad : Type 0 where
  start : Quad
  after_one after_two after_two_padded after_three : (left : ℕ) → Quad

-- A character either ends the decoding or leads on, with the byte that it completes.
pub data Progress : Type 0 where
  done : Progress
  more : Quad → Option ℕ → Progress

abbrev pub padding : Quad → Progress
padding start = more start none
padding (after_one left) = more (after_one left) none
padding (after_two left) = more (after_two_padded left) none
padding (after_two_padded left) = done
padding (after_three left) = done

abbrev pub digit : Quad → ℕ → Progress
digit start v = more (after_one v) none
digit (after_one left) v = more (after_two (v % 16)) (some (left * 4 + v / 16))
digit (after_two left) v = more (after_three (v % 4)) (some (left * 16 + v / 4))
digit (after_two_padded left) v = more (after_three (v % 4)) (some (left * 16 + v / 4))
digit (after_three left) v = more start (some (left * 64 + v))

abbrev pub digit_or_skip : Quad → Option ℕ → Progress
digit_or_skip q none = more q none
digit_or_skip q (some v) = digit q v

unfoldable pub b64_step : Quad → ℕ → Progress
unfolding sextet
b64_step q c = if c == b'=' then padding q else digit_or_skip q (sextet c)

abbrev pub prepend : Option ℕ → Option (List ℕ) → Option (List ℕ)
prepend none rest = rest
prepend (some b) none = none
prepend (some b) (some bytes) = some (b ∷ bytes)

-- None is the exception for an incomplete group.
abbrev pub at_end : Quad → Option (List ℕ)
at_end start = some []
at_end q = none

abbrev pub proceed : Progress → (Quad → Option (List ℕ)) → Option (List ℕ)
proceed done rest = some []
proceed (more next byte) rest = prepend byte (rest next)

unfoldable pub b64decode_from : Quad → List ℕ → Option (List ℕ)
unfolding b64_step
b64decode_from q [] = at_end q
b64decode_from q (c ∷ chars) = proceed (b64_step q c) (λ next. b64decode_from next chars)

unfoldable pub b64decode : List ℕ → Option (List ℕ)
unfolding b64decode_from
b64decode chars = b64decode_from start chars
