-- ===== src/RateLimit/Tests.antt =====
-- Sorted sets as lists of entries, and the theorem on the window at a run of calls.
use multi_tenant_saas.Base.{
  ℕ, suc, ◌+◌, ◌*◌, ◌≡◌, ◌≤◌, ap, refl, arith, Bool, true, ◌&&◌, not, Option, none, some, List, [],
  ◌∷◌, ◌++◌, ◌==◌, ltb, leb, if◌then◌else◌, filter, length,
}
use multi_tenant_saas.RateLimit.{Entry, SortedSets, RateLimiter, Call, call, run}
use multi_tenant_saas.RateLimit.Bound.{admitted_bounded, admitted_in_span}
use multi_tenant_saas.RateLimit.Window.{call_window, answer, recent_calls}

abbrev Listed : Type 0
Listed = List Entry × Option ℕ

abbrev tally : (Entry → Bool) → Listed → ℕ
tally p (l, _) = length (filter p l)

abbrev add_entry : Entry → Listed → Listed
add_entry e (l, x) = (filter (λ f. not (f.perf_counter == e.perf_counter)) l ++ e ∷ [], x)

abbrev alive_at : ℕ → Listed → Listed
alive_at t (l, none) = (l, none)
alive_at t (l, some d) = if ltb t d then (l, some d) else ([], none)

tally-filter :
    (p q : Entry → Bool) (l : List Entry)
    → length (filter p (filter q l)) ≡ length (filter (λ e. p e && q e) l)
tally-filter p q [] = refl
tally-filter p q (e ∷ l) = ground (arith, tally-filter p q l)

tally-add :
    (p : Entry → Bool) (e : Entry) (l : List Entry)
    → length (filter (λ f. f.perf_counter == e.perf_counter) l) ≡ 0
    → length (filter p (filter (λ f. not (f.perf_counter == e.perf_counter)) l ++ e ∷ []))
      ≡ length (filter p l) + (if p e then 1 else 0)
tally-add p e [] h = ground arith
tally-add p e (f ∷ l) h = ground (arith, tally-add p e l)

tally-and :
    (p q : Entry → Bool) (l : List Entry)
    → length (filter (λ e. p e && q e) l) ≤ length (filter p l)
tally-and p q [] = omega arith
tally-and p q (e ∷ l) = ground (arith, tally-and p q l)

tally-all : (l : List Entry) → length l ≡ length (filter (λ _. true) l)
tally-all [] = refl
tally-all (e ∷ l) = ap suc (tally-all l)

alive_none :
    (p : Entry → Bool) (t : ℕ) (z : Listed) → z.1 ≡ none → tally p (alive_at t z) ≡ tally p z
alive_none p t (l, none) h = refl
alive_none p t (l, some d) h = cc

alive_some :
    (p : Entry → Bool) (t d : ℕ) (z : Listed)
    → z.1 ≡ some d
    → tally p (alive_at t z) ≡ (if ltb t d then tally p z else 0)
alive_some p t d (l, none) h = cc
alive_some p t d (l, some x) h = ground arith

abbrev listed_sets : SortedSets
listed_sets = record {
  SortedSet = Listed;
  empty = ([], none);
  zremrangebyscore = λ lo hi z. (filter (λ e. not (leb lo e.score && leb e.score hi)) z.0, z.1);
  zadd = add_entry;
  zcard = λ z. length z.0;
  expire_at = λ t z. (z.0, some t);
  at_time = alive_at;
  count_if = tally;
  expiry = λ z. z.1;
  count_if-empty = λ p. refl;
  count_if-and = λ p q z. tally-and p q z.0;
  expiry-empty = refl;
  zcard-count_if = λ z. tally-all z.0;
  count_if-zremrangebyscore =
      λ p lo hi z. tally-filter p (λ e. not (leb lo e.score && leb e.score hi)) z.0;
  count_if-zadd = λ p e z. tally-add p e z.0;
  count_if-expire_at = λ p t z. refl;
  expiry-expire_at = λ t z. refl;
  count_if-at_time_none = alive_none;
  count_if-at_time_some = alive_some;
}

abbrev two_a_minute : RateLimiter
two_a_minute = record { limit = 2; window_seconds = 60 }

abbrev at_second : ℕ → ℕ → Call
at_second s n = record { current_ts = s * 1000000; perf_counter = n }

abbrev burst : List Call
burst = at_second 100 1 ∷ at_second 110 2 ∷ []

call_window_example :
    (call listed_sets two_a_minute
      (at_second 120 3)
      (run listed_sets two_a_minute burst ([], none))).0
    ≡ answer listed_sets two_a_minute
        (recent_calls listed_sets two_a_minute 120000000 burst)
        (at_second 120 3)
call_window_example = call_window listed_sets two_a_minute burst (at_second 120 3) (omega arith)

-- Four calls, three of them within a minute.
abbrev crowd : List Call
crowd = at_second 100 1 ∷ at_second 110 2 ∷ at_second 120 3 ∷ at_second 190 4 ∷ []

admitted_bounded_example : admitted_in_span listed_sets two_a_minute 95000000 crowd ([], none) ≤ 2
admitted_bounded_example = admitted_bounded listed_sets two_a_minute 95000000 crowd (omega arith)
