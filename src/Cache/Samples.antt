-- ===== src/Cache/Samples.antt =====
-- A small Redis for the tests: a list of entries, of which `SCAN` returns those with a colon in a
-- second page.
use multi_tenant_saas.Base.{
  ℕ, zero, suc, ◌<◌, ◌≡◌, ◌≢◌, refl, sym, ap, ◌∙◌, Bool, true, false, ◌&&◌, ◌||◌, not, Option, none,
  some, List, [], ◌∷◌, ◌==◌, arith, inl, inr, ◌⊎◌, if◌then◌else◌, any, Bool-cases,
}
use multi_tenant_saas.Text.{Text, text_eq, strip, lstrip, rstrip, is_space, keep_before}
use multi_tenant_saas.Text.Laws.{text_eq_sound}
use multi_tenant_saas.Models.{Uuid, Timestamp}
use multi_tenant_saas.Cache.{RedisStrings}
use multi_tenant_saas.Cache.Keys.{UuidText}
use multi_tenant_saas.Cache.Scan.{RedisScan}

abbrev pub Entries : Type 0
Entries = List (Text × Text)

abbrev pub lookup : Entries → Text → Option Text
lookup [] k = none
lookup ((x, v) ∷ s) k = if text_eq k x then some v else lookup s k

abbrev pub without : List Text → Entries → Entries
without keys [] = []
without keys ((x, v) ∷ s) = if any (text_eq x) keys then without keys s else (x, v) ∷ without keys s

lookup-without :
    (keys : List Text) (s : Entries) (k : Text)
    → lookup (without keys s) k ≡ (if any (text_eq k) keys then none else lookup s k)
lookup-without keys [] k = ground arith
lookup-without keys ((x, v) ∷ s) k = elim (Bool-cases (text_eq k x)) [
  | inr e ↦ ground (arith, lookup-without keys s k)
  | inl e ↦
      let same = text_eq_sound k x e in
      ground (arith, lookup-without keys s k, ap (λ y. any (text_eq y) keys) same)
]

pub lookup-without_one :
    (key : Text) (s s' : Entries) (k : Text)
    → Path (Option Entries) (some (without (key ∷ []) s)) (some s')
    → lookup s' k ≡ (if text_eq k key then none else lookup s k)
lookup-without_one key s s' k e = ground (arith, lookup-without (key ∷ []) s k)

pub found_lem :
    (now : Timestamp) (key value : Text) (s : Entries)
    → Path (Option (Option Text)) (some (lookup s key)) (some (some value))
    → lookup s key ≡ some value
found_lem now key value s e = cc

pub stored_lem :
    (now : Timestamp) (key value : Text) (ttl : ℕ) (s s' : Entries) (other : Text)
    → Path (Option Entries) (some ((key, value) ∷ s)) (some s')
    → lookup s' other ≡ (if text_eq other key then some value else lookup s other)
stored_lem now key value ttl s s' other e =
    ap (λ (o : Option Entries). elim o [ none ↦ none | some t ↦ lookup t other ]) (sym e)

abbrev pub sample_redis : RedisStrings
sample_redis = record {
  State = Entries;
  get = λ _ key s. some (lookup s key);
  set_ex = λ _ key value _ s. some ((key, value) ∷ s);
  delete = λ key s. some (without (key ∷ []) s);
  entry = lookup;
  entry-get = found_lem;
  entry-set_ex = stored_lem;
  entry-delete = lookup-without_one;
}

-- A key with a colon.
abbrev pub late : Text → Bool
late k = any (λ c. c == b':') k

abbrev pub page : Bool → (Text → Bool) → Entries → List Text
page second chosen [] = []
page second chosen ((x, _) ∷ s) =
    if (if second then late x else not (late x)) && chosen x
    then x ∷ page second chosen s
    else page second chosen s

-- A pattern is a text, with a star at its end or not.
abbrev pub glob : Text → Text → Bool
glob [] [] = true
glob [] (_ ∷ _) = false
glob (c ∷ p) [] = c == b'*'
glob (c ∷ p) (d ∷ k) = (c == b'*') || ((c == d) && glob p k)

abbrev pub scan_page : ℕ → Text → ℕ → Entries → Option (ℕ × List Text)
scan_page zero pattern _ s = some (1, page false (glob pattern) s)
scan_page (suc _) pattern _ s = some (0, page true (glob pattern) s)

abbrev pub calls_left : ℕ → ℕ
calls_left zero = 1
calls_left (suc _) = 0

abbrev pub due : ℕ → Text → Bool
due zero _ = true
due (suc _) k = late k

page_has :
    (second : Bool) (chosen : Text → Bool) (s : Entries) (k value : Text)
    → lookup s k ≡ some value
    → chosen k ≡ true
    → (if second then late k else not (late k)) ≡ true
    → any (text_eq k) (page second chosen s) ≡ true
page_has second chosen [] k value e m p = cc
page_has second chosen ((x, v) ∷ s) k value e m p = elim (Bool-cases (text_eq k x)) [
  | inl same ↦ let eq = text_eq_sound k x same in ground (arith, ap chosen eq, ap late eq)
  | inr other ↦ ground (arith, page_has second chosen s k value)
]

page_chosen :
    (second : Bool) (chosen : Text → Bool) (s : Entries) (k : Text)
    → any (text_eq k) (page second chosen s) ≡ true
    → chosen k ≡ true
page_chosen second chosen [] k e = cc
page_chosen second chosen ((x, v) ∷ s) k e = elim (Bool-cases (text_eq k x)) [
  | inl same ↦
      let eq = text_eq_sound k x same in ground (arith, ap chosen eq, page_chosen second chosen s k)
  | inr other ↦ ground (arith, page_chosen second chosen s k)
]

pub entry-delete_all_lem :
    (keys : List Text) (s s' : Entries) (k : Text)
    → Path (Option Entries) (some (without keys s)) (some s')
    → lookup s' k ≡ (if any (text_eq k) keys then none else lookup s k)
entry-delete_all_lem keys s s' k e = ground (arith, lookup-without keys s k)

pub page_progress :
    (cursor next count : ℕ) (pattern : Text) (s : Entries) (keys : List Text)
    → scan_page cursor pattern count s ≡ some (next, keys)
    → next ≢ 0
    → calls_left next < calls_left cursor
page_progress zero next count pattern s keys e h =
    let same : ◌≡◌ {A = ℕ} 1 next = cc in rw (sym same) (omega arith)
page_progress (suc c) next count pattern s keys e h =
    let same : ◌≡◌ {A = ℕ} 0 next = cc in absurd (h (sym same))

pub page_returns :
    (cursor next count : ℕ) (pattern : Text) (s : Entries) (keys : List Text) (k value : Text)
    → scan_page cursor pattern count s ≡ some (next, keys)
    → glob pattern k ≡ true
    → lookup s k ≡ some value
    → due cursor k ≡ true
    → (any (text_eq k) keys ≡ true) ⊎ ((next ≢ 0) × (due next k ≡ true))
page_returns zero next count pattern s keys k value e m f d =
    let n : ◌≡◌ {A = ℕ} 1 next = cc in
    let l : page false (glob pattern) s ≡ keys = cc in
    elim (Bool-cases (late k)) [
      | inl second ↦ inr ((omega arith), (rw (sym n) second))
      | inr first ↦ inl (rw (sym l) (page_has false (glob pattern) s k value f m (rw first refl)))
    ]
page_returns (suc c) next count pattern s keys k value e m f d =
    let l : page true (glob pattern) s ≡ keys = cc in
    inl (rw (sym l) (page_has true (glob pattern) s k value f m d))

pub page_matches :
    (cursor next count : ℕ) (pattern : Text) (s : Entries) (keys : List Text) (k : Text)
    → scan_page cursor pattern count s ≡ some (next, keys)
    → any (text_eq k) keys ≡ true
    → glob pattern k ≡ true
page_matches zero next count pattern s keys k e m =
    let l : page false (glob pattern) s ≡ keys = cc in page_chosen false (glob pattern) s k (rw l m)
page_matches (suc c) next count pattern s keys k e m =
    let l : page true (glob pattern) s ≡ keys = cc in page_chosen true (glob pattern) s k (rw l m)

abbrev pub sample_scanner : RedisScan sample_redis
sample_scanner = record {
  scan = scan_page;
  delete_all = λ keys s. some (without keys s);
  matches = glob;
  rank = calls_left;
  pending = due;
  entry-delete_all = entry-delete_all_lem;
  pending_at_start = λ k. refl;
  scan_progress = page_progress;
  scan_returns = page_returns;
  scan_matches = page_matches;
}

-- A uuid as that many letters.
abbrev pub unary : Uuid → Text
unary zero = []
unary (suc n) = b'a' ∷ unary n

abbrev count : Text → ℕ
count [] = 0
count (_ ∷ t) = suc (count t)

count-unary : (n : Uuid) → count (unary n) ≡ n
count-unary zero = refl
count-unary (suc n) = ap suc (count-unary n)

pub unary_injective : (a b : Uuid) → unary a ≡ unary b → a ≡ b
unary_injective a b e = sym (count-unary a) ∙ (ap count e ∙ count-unary b)

pub unary_without_colon : (n : Uuid) → any (λ c. c == b':') (unary n) ≡ false
unary_without_colon zero = refl
unary_without_colon (suc n) = unary_without_colon n

pub unary_without_slash : (n : Uuid) → any (λ c. c == b'/') (unary n) ≡ false
unary_without_slash zero = refl
unary_without_slash (suc n) = unary_without_slash n

rstrip-unary : (n : Uuid) → rstrip (unary n) ≡ unary n
unfolding rstrip is_space
rstrip-unary zero = refl
rstrip-unary (suc zero) = refl
rstrip-unary (suc (suc n)) = ap (keep_before b'a') (rstrip-unary (suc n))

lstrip-unary : (n : Uuid) → lstrip (unary n) ≡ unary n
unfolding lstrip is_space
lstrip-unary zero = refl
lstrip-unary (suc n) = refl

pub strip-unary : (n : Uuid) → strip (unary n) ≡ unary n
unfolding strip
strip-unary n = ap rstrip (lstrip-unary n) ∙ rstrip-unary n

abbrev pub sample_uuids : UuidText
sample_uuids = record {
  uuid_text = unary;
  uuid_text_injective = unary_injective;
  without_colon = unary_without_colon;
  without_slash = unary_without_slash;
  strip-uuid_text = strip-unary;
}
