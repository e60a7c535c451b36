-- ===== src/RateLimit.antt =====
-- app/core/rate_limit.py: the sliding-window rate limiter over Redis sorted sets.
-- Redis is outside the repository: a sorted set with its expiry is a parameter, with the documented
-- effect of each command as a law. A time is a number of microseconds.
pub mod Window
pub mod Bound
mod Tests
use multi_tenant_saas.Base.{
  ℕ, ◌+◌, ◌-◌, ◌*◌, ◌/◌, ◌≡◌, ◌≤◌, Bool, true, ◌&&◌, not, Option, none, some, List, [], ◌∷◌, ◌==◌,
  ltb, leb, if◌then◌else◌,
}
use multi_tenant_saas.Text.{Text, text_eq}

-- A member `f"{current_ts}:{time.perf_counter()}"` is told apart by its second part.
pub record Entry : Type 0 where
  pub perf_counter : ℕ
  pub score : ℕ

pub record SortedSets : Type 1 where
  pub SortedSet : Type 0
  pub empty : SortedSet
  pub zremrangebyscore : ℕ → ℕ → SortedSet → SortedSet
  pub zadd : Entry → SortedSet → SortedSet
  pub zcard : SortedSet → ℕ
  -- The expiry is a time; a key that has expired reads as empty.
  pub expire_at : ℕ → SortedSet → SortedSet
  pub at_time : ℕ → SortedSet → SortedSet
  -- What the laws speak of: how many entries pass a test, and when the key expires.
  pub count_if : (Entry → Bool) → SortedSet → ℕ
  pub expiry : SortedSet → Option ℕ
  pub count_if-empty : (p : Entry → Bool) → count_if p empty ≡ 0
  pub count_if-and :
      (p q : Entry → Bool) (z : SortedSet) → count_if (λ e. p e && q e) z ≤ count_if p z
  pub expiry-empty : expiry empty ≡ none
  pub zcard-count_if : (z : SortedSet) → zcard z ≡ count_if (λ _. true) z
  pub count_if-zremrangebyscore :
      (p : Entry → Bool) (lo hi : ℕ) (z : SortedSet)
      → count_if p (zremrangebyscore lo hi z)
        ≡ count_if (λ e. p e && not (leb lo e.score && leb e.score hi)) z
  pub count_if-zadd :
      (p : Entry → Bool) (e : Entry) (z : SortedSet)
      → count_if (λ f. f.perf_counter == e.perf_counter) z ≡ 0
      → count_if p (zadd e z) ≡ count_if p z + (if p e then 1 else 0)
  pub count_if-expire_at :
      (p : Entry → Bool) (t : ℕ) (z : SortedSet) → count_if p (expire_at t z) ≡ count_if p z
  pub expiry-expire_at : (t : ℕ) (z : SortedSet) → expiry (expire_at t z) ≡ some t
  pub count_if-at_time_none :
      (p : Entry → Bool) (t : ℕ) (z : SortedSet)
      → expiry z ≡ none
      → count_if p (at_time t z) ≡ count_if p z
  pub count_if-at_time_some :
      (p : Entry → Bool) (t d : ℕ) (z : SortedSet)
      → expiry z ≡ some d
      → count_if p (at_time t z) ≡ (if ltb t d then count_if p z else 0)

-- `RateLimiter(requests_per_window, window_seconds)`
pub record RateLimiter : Type 0 where
  pub limit : ℕ
  pub window_seconds : ℕ

-- What a call reads of the request and of the two clocks.
pub record Call : Type 0 where
  pub current_ts : ℕ
  pub perf_counter : ℕ

-- The three headers; `reset` is whole seconds.
pub record RateHeaders : Type 0 where
  pub limit : ℕ
  pub remaining : ℕ
  pub reset : ℕ

-- Passed on, or the 429 with its `Retry-After`.
pub data Verdict : Type 0 where
  admitted : RateHeaders → Verdict
  too_many_requests : (retry_after : ℕ) → RateHeaders → Verdict

abbrev pub second : ℕ
second = 1000000

module _ (redis : SortedSets) (limiter : RateLimiter) where
  open redis use {SortedSet, zremrangebyscore, zadd, zcard, expire_at, at_time}

  abbrev pub window : ℕ
  window = limiter.window_seconds * second

  -- `zremrangebyscore(identifier, 0, window_start)`, where a negative bound removes nothing.
  abbrev pub drop_old : ℕ → SortedSet → SortedSet
  drop_old current_ts z =
      if ltb current_ts window then z else zremrangebyscore 0 (current_ts - window) z

  -- The set after the pipeline's first two commands.
  abbrev pub pushed : Call → SortedSet → SortedSet
  pushed c z =
      zadd (record { perf_counter = c.perf_counter; score = c.current_ts })
        (drop_old c.current_ts (at_time c.current_ts z))

  abbrev pub headers : ℕ → ℕ → RateHeaders
  headers current_ts remaining = record {
    limit = limiter.limit;
    remaining = remaining;
    reset = (current_ts + window) / second;
  }

  -- `RateLimiter.__call__` on the sorted set of its identifier.
  unfoldable pub call : Call → SortedSet → Verdict × SortedSet
  call c z =
      let request_count = zcard (pushed c z) in
      (
        if ltb limiter.limit request_count
            then too_many_requests limiter.window_seconds (headers c.current_ts 0)
            else admitted (headers c.current_ts (limiter.limit - request_count)),
        expire_at (c.current_ts + window) (pushed c z),
      )

  -- Calls for one identifier, one after another.
  unfoldable pub run : List Call → SortedSet → SortedSet
  unfolding call
  run [] z = z
  run (c ∷ calls) z = run calls (call c z).1
