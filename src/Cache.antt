-- ===== src/Cache.antt =====
-- `CacheService` of app/core/cache.py. Redis and the JSON of a schema are outside the repository:
-- they are parameters. A command returns none where the client raises.
pub mod Keys
pub mod Scan
pub mod Samples
mod Tests
use multi_tenant_saas.Base.{
  ℕ, zero, suc, ◌+◌, ◌≡◌, Bool, true, false, ◌&&◌, ◌||◌, not, Option, none, some, List, [], ◌∷◌,
  ◌++◌, ◌==◌, if◌then◌else◌, filter, any, map,
}
use multi_tenant_saas.Text.{Text, text_eq, strip}
use multi_tenant_saas.Models.{Timestamp}

-- Redis strings. `entry` is what was stored last under a key and has not been deleted: what a `GET`
-- returns, unless the key has expired or been evicted.
pub record RedisStrings : Type 1 where
  pub State : Type 0
  pub get : Timestamp → Text → State → Option (Option Text)
  pub set_ex : Timestamp → Text → Text → ℕ → State → Option State
  pub delete : Text → State → Option State
  pub entry : State → Text → Option Text
  pub entry-get :
      (now : Timestamp) (key value : Text) (s : State)
      → get now key s ≡ some (some value)
      → entry s key ≡ some value
  pub entry-set_ex :
      (now : Timestamp) (key value : Text) (ttl : ℕ) (s s' : State) (other : Text)
      → set_ex now key value ttl s ≡ some s'
      → entry s' other ≡ (if text_eq other key then some value else entry s other)
  pub entry-delete :
      (key : Text) (s s' : State) (other : Text)
      → delete key s ≡ some s'
      → entry s' other ≡ (if text_eq other key then none else entry s other)

-- `model_dump_json`, and `json.loads` with `model_validate`, none for an exception.
pub record JsonCodec (A : Type 0) : Type 0 where
  pub model_dump_json : A → Text
  pub model_validate : Text → Option A
  pub model_validate-dump : (a : A) → model_validate (model_dump_json a) ≡ some a

-- `[str(p).strip() for p in parts if p is not None]`
abbrev pub clean_parts : List (Option Text) → List Text
clean_parts [] = []
clean_parts (none ∷ parts) = clean_parts parts
clean_parts (some p ∷ parts) = strip p ∷ clean_parts parts

-- `':'.join(parts)`
abbrev pub join : List Text → Text
join [] = []
join (p ∷ []) = p
join (p ∷ q ∷ parts) = p ++ b':' ∷ join (q ∷ parts)

-- `CacheService.build_key`
unfoldable pub build_key : Text → List (Option Text) → Text
build_key namespace parts = namespace ++ b':' ∷ join (clean_parts parts)

module _ (redis : RedisStrings) {A : Type 0} (json : JsonCodec A) where
  open redis use {State}
  open json use {model_dump_json, model_validate}

  -- `if not cached_val`: missing or empty.
  abbrev pub parsed : Option (Option Text) → Option A
  parsed none = none
  parsed (some none) = none
  parsed (some (some [])) = none
  parsed (some (some (c ∷ value))) = model_validate (c ∷ value)

  -- `CacheService.get`
  unfoldable pub cache_get : Timestamp → Text → State → Option A
  cache_get now key s = parsed (redis.get now key s)

  -- `CacheService.set`
  unfoldable pub cache_set : Timestamp → Text → A → ℕ → State → State
  cache_set now key value ttl_seconds s =
      elim (redis.set_ex now key (model_dump_json value) ttl_seconds s) [ none ↦ s | some s' ↦ s' ]

-- `CacheService.delete`
unfoldable pub cache_delete : (redis : RedisStrings) → Text → redis.State → redis.State
cache_delete redis key s = elim (redis.delete key s) [ none ↦ s | some s' ↦ s' ]
