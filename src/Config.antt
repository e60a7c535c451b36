-- ===== src/Config.antt =====
-- `parse_cors` of app/core/config.py.
use multi_tenant_saas.Base.{ℕ, Bool, false, List, [], ◌∷◌, ◌==◌, if◌then◌else◌, map}
use multi_tenant_saas.Text.{Text, strip}

-- The value of the setting: a text, a list, or anything else.
pub data CorsValue : Type 0 where
  cors_text : Text → CorsValue
  cors_list : List Text → CorsValue
  cors_other : CorsValue

-- A list or a text, or a `ValueError`.
pub data ParsedCors : Type 0 where
  origins : List Text → ParsedCors
  unparsed : Text → ParsedCors
  value_error : ParsedCors

abbrev pub onto_first : ℕ → List Text → List Text
onto_first c [] = (c ∷ []) ∷ []
onto_first c (p ∷ parts) = (c ∷ p) ∷ parts

-- `v.split(",")`
abbrev pub split_commas : Text → List Text
split_commas [] = [] ∷ []
split_commas (c ∷ t) =
    let parts = split_commas t in if c == b',' then [] ∷ parts else onto_first c parts

abbrev pub starts_with_bracket : Text → Bool
starts_with_bracket [] = false
starts_with_bracket (c ∷ t) = c == b'['

unfoldable pub parse_cors : CorsValue → ParsedCors
parse_cors (cors_text v) =
    if starts_with_bracket v then unparsed v else origins (map strip (split_commas v))
parse_cors (cors_list v) = origins v
parse_cors cors_other = value_error
