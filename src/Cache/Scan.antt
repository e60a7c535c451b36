-- ===== src/Cache/Scan.antt =====
-- `CacheService.delete_pattern`: deletion by `SCAN`.
use multi_tenant_saas.Base.{
  ℕ, zero, suc, ◌<◌, ◌≡◌, ◌≢◌, refl, ap, ◌∙◌, sym, Bool, true, false, Option, none, some, List, [],
  ◌∷◌, ◌==◌, arith, inl, inr, ◌⊎◌, if◌then◌else◌, any, Option-cases, Bool-cases,
}
use multi_tenant_saas.Text.{Text, text_eq}
use multi_tenant_saas.Cache.{RedisStrings}

-- `SCAN` and `DEL` with several keys. `pending c k` says that an iteration at cursor `c` has still
-- to come to the key `k`, and `rank` bounds the calls that are left. A full iteration starts and
-- ends with cursor 0, and returns every key that is there from its start to its end and that
-- matches.
pub record RedisScan (redis : RedisStrings) : Type 1 where
  pub scan : ℕ → Text → ℕ → redis.State → Option (ℕ × List Text)
  pub delete_all : List Text → redis.State → Option redis.State
  pub matches : Text → Text → Bool
  pub rank : ℕ → ℕ
  pub pending : ℕ → Text → Bool
  pub entry-delete_all :
      (keys : List Text) (s s' : redis.State) (k : Text)
      → delete_all keys s ≡ some s'
      → redis.entry s' k ≡ (if any (text_eq k) keys then none else redis.entry s k)
  pub pending_at_start : (k : Text) → pending 0 k ≡ true
  pub scan_progress :
      (cursor next count : ℕ) (pattern : Text) (s : redis.State) (keys : List Text)
      → scan cursor pattern count s ≡ some (next, keys)
      → next ≢ 0
      → rank next < rank cursor
  pub scan_returns :
      (cursor next count : ℕ) (pattern : Text) (s : redis.State) (keys : List Text) (k value : Text)
      → scan cursor pattern count s ≡ some (next, keys)
      → matches pattern k ≡ true
      → redis.entry s k ≡ some value
      → pending cursor k ≡ true
      → (any (text_eq k) keys ≡ true) ⊎ ((next ≢ 0) × (pending next k ≡ true))
  pub scan_matches :
      (cursor next count : ℕ) (pattern : Text) (s : redis.State) (keys : List Text) (k : Text)
      → scan cursor pattern count s ≡ some (next, keys)
      → any (text_eq k) keys ≡ true
      → matches pattern k ≡ true

module _ (redis : RedisStrings) (scanner : RedisScan redis) (pattern : Text) where
  open redis use {State, entry}
  open scanner use {
    scan, delete_all, matches, rank, pending, entry-delete_all, pending_at_start, scan_progress,
    scan_returns, scan_matches,
  }

  -- `if keys: await redis_client.delete(*keys)`, none for an exception.
  abbrev pub delete_found : List Text → State → Option State
  delete_found [] s = some s
  delete_found (k ∷ keys) s = delete_all (k ∷ keys) s

  -- The loop of `delete_pattern` at a cursor; none means that the fuel has run out. An exception is
  -- logged and ends the loop.
  unfoldable pub scan_loop : ℕ → ℕ → State → Option State
  scan_loop zero cursor s = none
  scan_loop (suc fuel) cursor s = elim (scan cursor pattern 100 s) [
    | none ↦ some s
    | some (next, keys) ↦ elim (delete_found keys s) [
      | none ↦ some s
      | some s' ↦ let rest = scan_loop fuel next s' in if next == 0 then some s' else rest
    ]
  ]

  unfoldable pub delete_pattern : ℕ → State → Option State
  unfolding scan_loop
  delete_pattern fuel s = scan_loop fuel 0 s

  delete_found-entry :
      (keys : List Text) (s s' : State) (k : Text)
      → delete_found keys s ≡ some s'
      → entry s' k ≡ (if any (text_eq k) keys then none else entry s k)
  delete_found-entry [] s s' k e =
      ap (λ (o : Option State). elim o [ none ↦ entry s' k | some t ↦ entry t k ]) (sym e)
  delete_found-entry (x ∷ keys) s s' k e = entry-delete_all (x ∷ keys) s s' k e

  module _ (cursor next : ℕ) (keys : List Text) (s s' : State)
      (scanned : scan cursor pattern 100 s ≡ some (next, keys))
      (deleted : delete_found keys s ≡ some s') where
    -- A matching key is gone after the step, or it is still to come.
    matching_lem :
        (k : Text)
        → matches pattern k ≡ true
        → (entry s k ≡ none) ⊎ (pending cursor k ≡ true)
        → (entry s' k ≡ none) ⊎ ((next ≢ 0) × (pending next k ≡ true))
    matching_lem k m before = elim (Bool-cases (any (text_eq k) keys)) [
      | inl found ↦ inl (delete_found-entry keys s s' k deleted ∙ (rw found refl))
      | inr missing ↦ elim (Option-cases (entry s k)) [
        | inl gone ↦ inl (delete_found-entry keys s s' k deleted ∙ (rw missing gone))
        | inr (value, present) ↦ elim before [
          | inl gone ↦ inl (delete_found-entry keys s s' k deleted ∙ (rw missing gone))
          | inr due ↦
              elim (scan_returns cursor next 100 pattern s keys k value scanned m present due) [
                | inl found ↦ absurd (ground arith)
                | inr later ↦ inr later
              ]
        ]
      ]
    ]

    other_lem : (k : Text) → matches pattern k ≡ false → entry s' k ≡ entry s k
    other_lem k m = elim (Bool-cases (any (text_eq k) keys)) [
      | inl found ↦
          let m' = scan_matches cursor next 100 pattern s keys k scanned found in
          absurd (ground arith)
      | inr missing ↦ delete_found-entry keys s s' k deleted ∙ (rw missing refl)
    ]

  module _
      (scans : (cursor : ℕ) (s : State)
        → (found : ℕ × List Text) × (scan cursor pattern 100 s ≡ some found))
      (deletes : (keys : List Text) (s : State)
        → (s' : State) × (delete_all keys s ≡ some s')) where
    found_deleted : (keys : List Text) (s : State) → (s' : State) × (delete_found keys s ≡ some s')
    found_deleted [] s = (s, refl)
    found_deleted (k ∷ keys) s = deletes (k ∷ keys) s

    scan_loop_lem :
        (fuel cursor : ℕ) (s : State)
        → rank cursor < fuel
        → ((k : Text) → matches pattern k ≡ true → (entry s k ≡ none) ⊎ (pending cursor k ≡ true))
        → (s' : State) × (scan_loop fuel cursor s ≡ some s')
          × ((k : Text) → entry s' k ≡ (if matches pattern k then none else entry s k))
    unfolding scan_loop
    scan_loop_lem zero cursor s h due = absurd (omega arith)
    scan_loop_lem (suc fuel) cursor s h due =
        let ((next, keys), e) = scans cursor s in
        let (s', f) = found_deleted keys s in
        elim (Bool-cases (next == 0)) [
          | inl last ↦ (
            s',
            (rw (scan_loop, e, f, last) refl),
            λ k. elim (Bool-cases (matches pattern k)) [
              | inl m ↦ elim (matching_lem cursor next keys s s' e f k m (due k m)) [
                | inl gone ↦ rw m gone
                | inr (more, _) ↦ absurd (ground arith)
              ]
              | inr m ↦ rw m (other_lem cursor next keys s s' e f k m)
            ],
          )
          | inr more ↦
              let fewer = scan_progress cursor next 100 pattern s keys e (ground arith) in
              let still : (k : Text)
                  → matches pattern k ≡ true
                  → (entry s' k ≡ none) ⊎ (pending next k ≡ true) =
                λ k m. elim (matching_lem cursor next keys s s' e f k m (due k m)) [
                  | inl gone ↦ inl gone
                  | inr (_, later) ↦ inr later
                ] in
              let (t, ran, left) = scan_loop_lem fuel next s' (omega arith) still in
              (
                t,
                (rw (scan_loop, e, f, more) ran),
                λ k. elim (Bool-cases (matches pattern k)) [
                  | inl m ↦ left k ∙ (rw m refl)
                  | inr m ↦ left k ∙ (rw m (other_lem cursor next keys s s' e f k m))
                ],
              )
        ]

    -- With fuel above the rank of cursor 0, and where no call of Redis raises, `delete_pattern`
    -- ends, every key that matches the pattern is gone, and each other key holds what it held.
    pub delete_pattern_lem :
        (fuel : ℕ) (s : State)
        → rank 0 < fuel
        → (s' : State) × (delete_pattern fuel s ≡ some s')
          × ((k : Text) → entry s' k ≡ (if matches pattern k then none else entry s k))
    unfolding delete_pattern
    delete_pattern_lem fuel s h = scan_loop_lem fuel 0 s h (λ k m. inr (pending_at_start k))
