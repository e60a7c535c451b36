-- ===== src/RateLimit/Bound.antt =====
-- The admitted calls of a span of one window's length (app/core/rate_limit.py).
use multi_tenant_saas.Base.{
  ℕ, ◌+◌, ◌≡◌, ◌≤◌, ◌<◌, refl, inl, inr, ◌⊎◌, Bool, true, false, ◌&&◌, List, [], ◌∷◌, ◌++◌, ltb,
  leb, arith, if◌then◌else◌, Bool-cases, length, filter, ap, sym, ◌∙◌,
}
use multi_tenant_saas.RateLimit.{
  SortedSets, RateLimiter, Call, Verdict, admitted, too_many_requests, window, call,
}
use multi_tenant_saas.RateLimit.Window.{
  InOrder, Mirrors, recent_calls, answer, answer-counted, after-Mirrors, empty-Mirrors,
}

abbrev pub is_admitted : Verdict → Bool
is_admitted (admitted _) = true
is_admitted (too_many_requests _ _) = false

module _ (redis : SortedSets) (limiter : RateLimiter) where
  open redis use {SortedSet, empty}

  -- The span of one window's length from `t` on.
  abbrev pub in_span : ℕ → Call → Bool
  in_span t c = leb t c.current_ts && ltb c.current_ts (t + window redis limiter)

  -- How many of the calls, made one after another, are admitted in the span.
  unfoldable pub admitted_in_span : ℕ → List Call → SortedSet → ℕ
  unfolding call
  admitted_in_span t [] z = 0
  admitted_in_span t (c ∷ calls) z =
      (if in_span t c && is_admitted (call redis limiter c z).0 then 1 else 0)
      + admitted_in_span t calls (call redis limiter c z).1

  abbrev made_in_span : ℕ → List Call → ℕ
  made_in_span t calls = length (filter (in_span t) calls)

  made_in_span-append :
      (t : ℕ) (past : List Call) (c : Call)
      → made_in_span t (past ++ c ∷ []) ≡ made_in_span t past + (if in_span t c then 1 else 0)
  made_in_span-append t [] c = ground arith
  made_in_span-append t (d ∷ past) c = ground (arith, made_in_span-append t past c)

  -- A call in the span sees every earlier call of the span in its window.
  made_recent_lem :
      (t u : ℕ) (past : List Call)
      → u < t + window redis limiter
      → made_in_span t past ≤ recent_calls redis limiter u past
  made_recent_lem t u [] h = omega arith
  made_recent_lem t u (d ∷ past) h = ground (arith, made_recent_lem t u past h)

  is_admitted-answer :
      (earlier : ℕ) (c : Call)
      → is_admitted (answer redis limiter earlier c) ≡ true
      → earlier + 1 ≤ limiter.limit
  is_admitted-answer earlier c h = ground arith

  span_from :
      (t : ℕ) (calls past : List Call) (now n : ℕ) (z : SortedSet)
      → Mirrors redis limiter past now n z
      → InOrder now n calls
      → (admitted_in_span t calls z ≡ 0)
        ⊎ (admitted_in_span t calls z + made_in_span t past ≤ limiter.limit)
  unfolding admitted_in_span
  span_from t [] past now n z h order = inl refl
  span_from t (c ∷ calls) past now n z h (later, counted, order) =
      let rest =
        span_from t calls (past ++ c ∷ []) c.current_ts c.perf_counter (call redis limiter c z).1
          (after-Mirrors redis limiter past now n z h c later counted) order in
      let made = made_in_span-append t past c in
      let verdict = answer-counted redis limiter past now n z c h later counted in
      elim (Bool-cases (in_span t c)) [
        | inr outside ↦ elim rest [
          | inl nothing ↦ inl (rw (admitted_in_span, outside) (omega (arith, nothing)))
          | inr bound ↦ inr (rw (admitted_in_span, outside) (omega (arith, made, bound)))
        ]
        | inl inside ↦ elim (Bool-cases (is_admitted (call redis limiter c z).0)) [
          | inr refused ↦ elim rest [
            | inl nothing ↦ inl (rw (admitted_in_span, inside, refused) (omega (arith, nothing)))
            | inr bound ↦ inr (rw (admitted_in_span, inside, refused) (omega (arith, made, bound)))
          ]
          | inl passed ↦
              let few =
                is_admitted-answer (recent_calls redis limiter c.current_ts past) c
                  (ap is_admitted (sym verdict) ∙ passed) in
              let seen = made_recent_lem t c.current_ts past (ground arith) in
              elim rest [
                | inl nothing ↦
                    inr (rw (admitted_in_span, inside, passed) (omega (arith, nothing, few, seen)))
                | inr bound ↦ inr (rw (admitted_in_span, inside, passed) (ground arith))
              ]
        ]
      ]

  -- Take any calls for one identifier, from an empty key on, whose times do not decrease and whose
  -- counter readings increase. In any span of one window's length, wherever it starts, no more
  -- calls are admitted than the limit.
  pub admitted_bounded :
      (t : ℕ) (calls : List Call)
      → InOrder 0 0 calls
      → admitted_in_span t calls empty ≤ limiter.limit
  admitted_bounded t calls order =
      elim (span_from t calls [] 0 0 empty (empty-Mirrors redis limiter) order) [
        | inl nothing ↦ omega (arith, nothing)
        | inr bound ↦ omega (arith, bound)
      ]
