-- ===== src/RateLimit/Window.antt =====
-- The limiter of app/core/rate_limit.py against the history of its calls.
use mathlib.Core.List.{append-nil, append_assoc}
use multi_tenant_saas.Base.{
  ℕ, ◌+◌, ◌-◌, ◌*◌, ◌/◌, ◌≡◌, ◌≤◌, ◌<◌, ap, sym, ◌∙◌, refl, inl, inr, fun_ext, Bool, true, ◌&&◌,
  List, [], ◌∷◌, ◌++◌, ◌==◌, ltb, arith, if◌then◌else◌, Bool-cases, length, filter, All,
}
use multi_tenant_saas.RateLimit.{
  Entry, SortedSets, RateLimiter, Call, Verdict, admitted, too_many_requests, window, drop_old,
  RateHeaders, pushed, call, run,
}

-- Each call comes no earlier than the one before, and on a later reading of the counter.
abbrev pub InOrder : ℕ → ℕ → List Call → Type 0
InOrder t n [] = Unit
InOrder t n (c ∷ calls) =
    (t ≤ c.current_ts) × (n < c.perf_counter) × InOrder c.current_ts c.perf_counter calls

module _ (redis : SortedSets) (limiter : RateLimiter) where
  open redis use {
    SortedSet, empty, zcard, count_if, expiry, at_time, expire_at, zadd, zremrangebyscore,
    count_if-empty, expiry-empty, zcard-count_if, count_if-and, count_if-zremrangebyscore,
    count_if-zadd, count_if-expire_at, expiry-expire_at, count_if-at_time_none,
    count_if-at_time_some,
  }

  abbrev pub w : ℕ
  w = window redis limiter

  -- An entry, or a call, that the window ending at `t` holds.
  abbrev pub recent : ℕ → Entry → Bool
  recent t e = ltb t (e.score + w)

  abbrev pub recent_calls : ℕ → List Call → ℕ
  recent_calls t calls = length (filter (λ c. ltb t (c.current_ts + w)) calls)

  -- What the set holds after the calls of `past`, the last of them at time `t` and reading `n`.
  pub record Mirrors (past : List Call) (t n : ℕ) (z : SortedSet) : Type 0 where
    pub earlier : All (λ c. c.current_ts ≤ t) past
    pub same_counts :
        (s u : ℕ) → t ≤ s → s ≤ u → count_if (recent u) (at_time s z) ≡ recent_calls u past
    pub fresh : (m s : ℕ) → n < m → count_if (λ e. e.perf_counter == m) (at_time s z) ≡ 0

  kept :
      (p : Entry → Bool) (u : ℕ) (z : SortedSet)
      → count_if p (drop_old redis limiter u z) ≡ count_if (λ e. p e && recent u e) z
  kept p u z = elim (Bool-cases (ltb u w)) [
    | inl early ↦ rw early (ap (λ (q : Entry → Bool). count_if q z) (fun_ext (λ e. ground arith)))
    | inr late ↦ rw late (
        count_if-zremrangebyscore p 0 (u - w) z
        ∙ ap (λ (q : Entry → Bool). count_if q z) (fun_ext (λ e. ground arith)))
  ]

  recent_calls-append :
      (u : ℕ) (past : List Call) (c : Call)
      → recent_calls u (past ++ c ∷ [])
        ≡ recent_calls u past + (if ltb u (c.current_ts + w) then 1 else 0)
  recent_calls-append u [] c = ground arith
  recent_calls-append u (d ∷ past) c = ground (arith, recent_calls-append u past c)

  recent_calls_old :
      (t u : ℕ) (past : List Call)
      → All (λ (c : Call). c.current_ts ≤ t) past
      → t + w ≤ u
      → recent_calls u past ≡ 0
  recent_calls_old t u [] a le = refl
  recent_calls_old t u (c ∷ past) a le = ground (arith, recent_calls_old t u past a.1 le, a.0)

  earlier-append :
      (t : ℕ) (past : List Call) (c : Call)
      → All (λ (d : Call). d.current_ts ≤ t) past
      → t ≤ c.current_ts
      → All (λ (d : Call). d.current_ts ≤ c.current_ts) (past ++ c ∷ [])
  earlier-append t [] c a le = (omega arith, tt)
  earlier-append t (d ∷ past) c a le = (omega (arith, a.0), earlier-append t past c a.1 le)

  module _ (past : List Call) (t n : ℕ) (z : SortedSet) (h : Mirrors past t n z) (c : Call)
      (later : t ≤ c.current_ts) (counted : n < c.perf_counter) where
    abbrev pub now : ℕ
    now = c.current_ts

    unseen :
        (m : ℕ)
        → n < m
        → count_if (λ e. e.perf_counter == m) (drop_old redis limiter now (at_time now z)) ≡ 0
    unseen m lt = omega (
      arith,
      kept (λ e. e.perf_counter == m) now (at_time now z),
      count_if-and (λ e. e.perf_counter == m) (recent now) (at_time now z),
      h.fresh m now lt,
    )

    count-pushed :
        (p : Entry → Bool)
        → count_if p (pushed redis limiter c z)
          ≡ count_if (λ e. p e && recent now e) (at_time now z)
            + (if p (record { perf_counter = c.perf_counter; score = now }) then 1 else 0)
    count-pushed p = omega (
      arith,
      count_if-zadd p (record { perf_counter = c.perf_counter; score = now })
          (drop_old redis limiter now (at_time now z)) (unseen c.perf_counter counted),
      kept p now (at_time now z),
    )

    zcard-pushed : zcard (pushed redis limiter c z) ≡ recent_calls now past + 1
    zcard-pushed =
        zcard-count_if (pushed redis limiter c z)
        ∙ (count-pushed (λ _. true) ∙ omega (arith, h.same_counts now now later (omega arith)))

    -- Both windows are one where the later one is asked for.
    count_recent-pushed :
        (u : ℕ)
        → now ≤ u
        → count_if (recent u) (pushed redis limiter c z)
          ≡ recent_calls u past + (if ltb u (now + w) then 1 else 0)
    count_recent-pushed u le =
        count-pushed (recent u)
        ∙ ap (λ (k : ℕ). k + (if ltb u (now + w) then 1 else 0))
            (ap (λ (p : Entry → Bool). count_if p (at_time now z)) (fun_ext (λ e. ground arith))
              ∙ h.same_counts now u later le)

    abbrev pub after : SortedSet
    after = (call redis limiter c z).1

    after-expiry :
        (p : Entry → Bool) (s : ℕ)
        → count_if p (at_time s after)
          ≡ (if ltb s (now + w) then count_if p (pushed redis limiter c z) else 0)
    unfolding call
    after-expiry p s =
        count_if-at_time_some p s (now + w) (expire_at (now + w) (pushed redis limiter c z))
          (expiry-expire_at (now + w) (pushed redis limiter c z))
        ∙ ap (λ (k : ℕ). if ltb s (now + w) then k else 0)
            (count_if-expire_at p (now + w) (pushed redis limiter c z))

    after-counts :
        (s u : ℕ)
        → now ≤ s
        → s ≤ u
        → count_if (recent u) (at_time s after) ≡ recent_calls u (past ++ c ∷ [])
    after-counts s u le lu = elim (Bool-cases (ltb s (now + w))) [
      | inl alive ↦
          after-expiry (recent u) s
          ∙ (rw alive (count_recent-pushed u (omega arith)) ∙ sym (recent_calls-append u past c))
      | inr expired ↦
          after-expiry (recent u) s
          ∙ (rw expired (
              sym (
                recent_calls_old now u (past ++ c ∷ []) (earlier-append t past c h.earlier later)
                  (ground arith))))
    ]

    after-fresh :
        (m s : ℕ) → c.perf_counter < m → count_if (λ e. e.perf_counter == m) (at_time s after) ≡ 0
    after-fresh m s lt =
        let others = unseen m (omega arith) in
        let total = count-pushed (λ e. e.perf_counter == m) in
        let seen = kept (λ e. e.perf_counter == m) now (at_time now z) in
        after-expiry (λ e. e.perf_counter == m) s ∙ ground arith

    pub after-Mirrors : Mirrors (past ++ c ∷ []) now c.perf_counter after
    after-Mirrors = record {
      earlier = earlier-append t past c h.earlier later;
      same_counts = after-counts;
      fresh = after-fresh;
    }

  -- The headers that a call should get: the end of its window is in whole seconds.
  abbrev pub told : ℕ → Call → RateHeaders
  told left c = record {
    limit = limiter.limit;
    remaining = left;
    reset = (c.current_ts + limiter.window_seconds * 1000000) / 1000000;
  }

  -- The answer to a call when `earlier` calls lie in its window.
  abbrev pub answer : ℕ → Call → Verdict
  answer earlier c =
      if ltb limiter.limit (earlier + 1)
      then too_many_requests limiter.window_seconds (told 0 c)
      else admitted (told (limiter.limit - (earlier + 1)) c)

  pub answer-counted :
      (past : List Call) (t n : ℕ) (z : SortedSet) (c : Call)
      → Mirrors past t n z
      → t ≤ c.current_ts
      → n < c.perf_counter
      → (call redis limiter c z).0 ≡ answer (recent_calls c.current_ts past) c
  unfolding call
  answer-counted past t n z c h le lt =
      let counted = zcard-pushed past t n z h c le lt in rw counted

  answer_from :
      (calls past : List Call) (t n : ℕ) (z : SortedSet) (c : Call)
      → Mirrors past t n z
      → InOrder t n (calls ++ c ∷ [])
      → (call redis limiter c (run redis limiter calls z)).0
        ≡ answer (recent_calls c.current_ts (past ++ calls)) c
  unfolding run
  answer_from [] past t n z c h (le, lt, rest) = rw append-nil (answer-counted past t n z c h le lt)
  answer_from (d ∷ calls) past t n z c h (le, lt, rest) =
      answer_from calls (past ++ d ∷ []) d.current_ts d.perf_counter (after past t n z h d le lt) c
        (after-Mirrors past t n z h d le lt) rest
      ∙ ap (λ (l : List Call). answer (recent_calls c.current_ts l) c)
          (append_assoc past (d ∷ []) calls)

  pub empty-Mirrors : Mirrors [] 0 0 empty
  empty-Mirrors = record {
    earlier = tt;
    same_counts = λ s u _ _.
        count_if-at_time_none (recent u) s empty expiry-empty ∙ count_if-empty (recent u);
    fresh = λ m s _.
        count_if-at_time_none (λ e. e.perf_counter == m) s empty expiry-empty
        ∙ count_if-empty (λ e. e.perf_counter == m);
  }

  -- Take any calls for one identifier, from an empty key on, whose times do not decrease and whose
  -- counter readings increase. A further call is refused, with the window as its retry time,
  -- exactly when the calls of the window that ends with it, refused ones and itself included, are
  -- more than the limit; otherwise it is admitted. The headers name the limit,
  -- the number of calls that are left of it, 0 on a refusal, and the end of the window.
  pub call_window :
      (calls : List Call) (c : Call)
      → InOrder 0 0 (calls ++ c ∷ [])
      → (call redis limiter c (run redis limiter calls empty)).0
        ≡ answer (recent_calls c.current_ts calls) c
  call_window calls c h = answer_from calls [] 0 0 empty c empty-Mirrors h
