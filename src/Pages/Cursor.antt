-- ===== src/Pages/Cursor.antt =====
-- `encode_cursor` and `decode_cursor` of app/core/pagination.py. Of Python's library, JSON, UTF-8,
-- ISO timestamps and the text of a UUID are a parameter; base64 is written out.
use multi_tenant_saas.Base.{
  ℕ, ◌<◌, ◌≡◌, ap, ◌∙◌, Option, none, some, List, [], ◌∷◌, if◌then◌else◌, arith, All,
}
use multi_tenant_saas.Text.{Text, text_eq, IsAscii}
use multi_tenant_saas.Models.{Uuid, Timestamp}
use multi_tenant_saas.Pages.{Position, CursorCodec}
use multi_tenant_saas.Pages.Base64.{b64encode, b64decode}
use multi_tenant_saas.Pages.Base64.Laws.{b64decode-b64encode, b64encode_ascii}

-- `payload[key]` of a dictionary; none is a `KeyError`.
abbrev pub item : Text → List (Text × Text) → Option Text
item key [] = none
item key ((k, value) ∷ members) = if text_eq key k then some value else item key members

-- A timestamp stands for an instant. `json_item` reads a member that is a string, none for a
-- document that has none.
pub record PythonTexts : Type 1 where
  pub isoformat : Timestamp → Text
  pub fromisoformat : Text → Option Timestamp
  pub uuid_str : Uuid → Text
  pub uuid_of : Text → Option Uuid
  pub Json : Type 0
  pub json_dumps : List (Text × Text) → Text
  pub json_loads : Text → Option Json
  pub json_item : Json → Text → Option Text
  pub utf8_encode : Text → List ℕ
  pub utf8_decode : List ℕ → Option Text
  pub fromisoformat-isoformat : (t : Timestamp) → fromisoformat (isoformat t) ≡ some t
  pub uuid_of-uuid_str : (u : Uuid) → uuid_of (uuid_str u) ≡ some u
  pub json_dumps-IsAscii : (members : List (Text × Text)) → IsAscii (json_dumps members)
  pub json_loads-json_dumps :
      (members : List (Text × Text))
      → (document : Json) × (json_loads (json_dumps members) ≡ some document)
        × ((key : Text) → json_item document key ≡ item key members)
  pub utf8_encode_ascii : (t : Text) → IsAscii t → utf8_encode t ≡ t
  pub utf8_decode_ascii : (t : Text) → IsAscii t → utf8_decode t ≡ some t

abbrev pub ts_text : Text
ts_text = b't' ∷ b's' ∷ []

abbrev pub id_text : Text
id_text = b'i' ∷ b'd' ∷ []

module _ (python : PythonTexts) where
  open python use {
    isoformat, fromisoformat, uuid_str, uuid_of, Json, json_dumps, json_loads, json_item,
    utf8_encode, utf8_decode,
  }

  abbrev pub cursor_payload : Position → List (Text × Text)
  cursor_payload (created_at, entity_id) =
      (ts_text, isoformat created_at) ∷ (id_text, uuid_str entity_id) ∷ []

  -- The final `.decode("utf-8")` is of base64 characters, which are ASCII: the same text.
  unfoldable pub encode_cursor : Position → Text
  encode_cursor position = b64encode (utf8_encode (json_dumps (cursor_payload position)))

  abbrev pub both : Option Timestamp → Option Uuid → Option Position
  both none id = none
  both (some ts) none = none
  both (some ts) (some entity_id) = some (ts, entity_id)

  abbrev pub parsed_item : {A : Type 0} → (Text → Option A) → Option Text → Option A
  parsed_item parse none = none
  parsed_item parse (some value) = parse value

  abbrev pub position_of : Option Json → Option Position
  position_of none = none
  position_of (some payload) =
      both (parsed_item fromisoformat (json_item payload ts_text))
        (parsed_item uuid_of (json_item payload id_text))

  abbrev pub loaded : Option Text → Option Json
  loaded none = none
  loaded (some document) = json_loads document

  abbrev pub decoded : Option (List ℕ) → Option Text
  decoded none = none
  decoded (some raw_bytes) = utf8_decode raw_bytes

  unfoldable pub decode_cursor : Text → Option Position
  decode_cursor cursor_str = position_of (loaded (decoded (b64decode (utf8_encode cursor_str))))

  as_bytes : (t : List ℕ) → IsAscii t → All (λ b. b < 256) t
  as_bytes [] h = tt
  as_bytes (c ∷ t) (h, rest) = (omega (arith, h), as_bytes t rest)

  -- Decoding the cursor that was encoded for a timestamp and a UUID gives both back.
  pub decode_cursor-encode_cursor : (p : Position) → decode_cursor (encode_cursor p) ≡ some p
  unfolding decode_cursor encode_cursor
  decode_cursor-encode_cursor (created_at, entity_id) =
      let payload = cursor_payload (created_at, entity_id) in
      let document = json_dumps payload in
      let ascii = python.json_dumps-IsAscii payload in
      let (parsed, loads, items) = python.json_loads-json_dumps payload in
      ap (λ t. position_of (loaded (decoded (b64decode (utf8_encode (b64encode t))))))
        (python.utf8_encode_ascii document ascii)
      ∙ ap (λ t. position_of (loaded (decoded (b64decode t))))
          (python.utf8_encode_ascii (b64encode document) (b64encode_ascii document))
      ∙ ap (λ b. position_of (loaded (decoded b)))
          (b64decode-b64encode document (as_bytes document ascii))
      ∙ ap (λ t. position_of (loaded t)) (python.utf8_decode_ascii document ascii)
      ∙ ap position_of loads
      ∙ ap
          (λ t. both (parsed_item fromisoformat t) (parsed_item uuid_of (json_item parsed id_text)))
          (items ts_text)
      ∙ ap (λ t. both (fromisoformat (isoformat created_at)) (parsed_item uuid_of t))
          (items id_text)
      ∙ ap (λ t. both t (uuid_of (uuid_str entity_id))) (python.fromisoformat-isoformat created_at)
      ∙ ap (both (some created_at)) (python.uuid_of-uuid_str entity_id)

  -- The codec that the pages need.
  abbrev pub cursor_codec : CursorCodec
  cursor_codec = record {
    Cursor = Text;
    encode_cursor = encode_cursor;
    decode_cursor = decode_cursor;
    decode_cursor-encode_cursor = decode_cursor-encode_cursor;
  }
