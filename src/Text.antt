-- ===== src/Text.antt =====
-- Python's `str` as the list of its code points, with the methods that app/ calls: `lower`,
-- `upper`, `strip` and the two `re.sub` calls of `slugify` (app/services/auth.py). White space is
-- that of Unicode; the case of letters and the class `\w` are those of ASCII text, and on other
-- letters Python's differ.
pub mod Laws
pub mod Slug
pub mod Split
mod Tests
use multi_tenant_saas.Base.{
  ℕ, ◌+◌, ◌-◌, Bool, true, false, ◌&&◌, ◌||◌, not, List, [], ◌∷◌, map, ltb, leb, ◌==◌,
  if◌then◌else◌, filter, ◌<◌, All, Option, none, some,
}

abbrev pub Text : Type 0
Text = List ℕ

-- The characters on which the case of letters and `\w` are Python's.
abbrev pub IsAscii : Text → Type 0
IsAscii = All (λ c. c < 128)

abbrev pub IsAsciiOrNull : Option Text → Type 0
IsAsciiOrNull none = Unit
IsAsciiOrNull (some t) = IsAscii t

abbrev pub text_eq : Text → Text → Bool
text_eq [] [] = true
text_eq [] (_ ∷ _) = false
text_eq (_ ∷ _) [] = false
text_eq (a ∷ s) (b ∷ t) = (a == b) && text_eq s t

-- `str.isspace` on one character: the white space of Unicode, which `strip` and `\s` know.
unfoldable pub is_space : ℕ → Bool
is_space c =
    (leb 9 c && leb c 13)
    || (leb 28 c && leb c 32)
    || c == 133
    || c == 160
    || c == 5760
    || (leb 8192 c && leb c 8202)
    || c == 8232
    || c == 8233
    || c == 8239
    || c == 8287
    || c == 12288

unfoldable pub to_lower : ℕ → ℕ
to_lower c = if leb b'A' c && leb c b'Z' then c + 32 else c

unfoldable pub to_upper : ℕ → ℕ
to_upper c = if leb b'a' c && leb c b'z' then c - 32 else c

unfoldable pub lower : Text → Text
lower = map to_lower

unfoldable pub upper : Text → Text
upper = map to_upper

unfoldable pub lstrip : Text → Text
lstrip [] = []
lstrip (c ∷ s) = if is_space c then lstrip s else c ∷ s

-- A character in front of a stripped rest: dropped where it is blank and nothing follows.
abbrev pub keep_before : ℕ → Text → Text
keep_before c [] = if is_space c then [] else c ∷ []
keep_before c (d ∷ r) = c ∷ d ∷ r

unfoldable pub rstrip : Text → Text
rstrip [] = []
rstrip (c ∷ s) = keep_before c (rstrip s)

-- `text.strip()`
unfoldable pub strip : Text → Text
strip t = rstrip (lstrip t)

-- `email.lower().strip()`
unfoldable pub clean_email : Text → Text
clean_email email = strip (lower email)

-- `key.upper().strip()`
unfoldable pub clean_key : Text → Text
clean_key key = strip (upper key)

-- The class `\w`.
unfoldable pub is_word : ℕ → Bool
is_word c =
    (leb b'a' c && leb c b'z')
    || (leb b'A' c && leb c b'Z')
    || (leb b'0' c && leb c b'9')
    || c == b'_'

-- What `[^\w\s-]` does not match.
unfoldable pub is_kept : ℕ → Bool
unfolding is_word is_space
is_kept c = is_word c || is_space c || c == b'-'

-- The class `[\s_-]`.
unfoldable pub is_separator : ℕ → Bool
unfolding is_space
is_separator c = is_space c || c == b'_' || c == b'-'

-- `re.sub(r"[\s_-]+", "-", text)`; the flag says that a run has begun.
unfoldable pub collapse : Bool → Text → Text
collapse in_run [] = []
collapse in_run (c ∷ s) =
    let rest = collapse (is_separator c) s in
    if is_separator c then (if in_run then rest else b'-' ∷ rest) else c ∷ rest

unfoldable pub slugify : Text → Text
unfolding is_kept
slugify text = collapse false (filter is_kept (strip (lower text)))
