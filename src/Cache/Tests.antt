-- ===== src/Cache/Tests.antt =====
-- Deletion by a pattern in the sample Redis.
use multi_tenant_saas.Base.{
  ℕ, zero, suc, ◌≡◌, refl, none, some, List, [], ◌∷◌, if◌then◌else◌, arith,
}
use multi_tenant_saas.Text.{Text}
use multi_tenant_saas.Cache.Scan.{delete_pattern, delete_pattern_lem}
use multi_tenant_saas.Cache.Samples.{
  scan_page, Entries, lookup, glob, sample_redis, sample_scanner, without,
}

-- The pattern `t*` with two keys that match, one of them with a colon, and one that does not.
abbrev pattern_t : Text
pattern_t = b't' ∷ b'*' ∷ []

abbrev three_keys : Entries
three_keys = (b't' ∷ b':' ∷ [], 49 ∷ []) ∷ (b'u' ∷ [], 50 ∷ []) ∷ (b't' ∷ b'a' ∷ [], 51 ∷ []) ∷ []

always_scans :
    (cursor : ℕ) (s : Entries)
    → (found : ℕ × List Text) × (scan_page cursor pattern_t 100 s ≡ some found)
always_scans zero s = (_, refl)
always_scans (suc c) s = (_, refl)

delete_pattern_lem_example :
    (s' : Entries) × (delete_pattern sample_redis sample_scanner pattern_t 2 three_keys ≡ some s')
    × ((k : Text) → lookup s' k ≡ (if glob pattern_t k then none else lookup three_keys k))
delete_pattern_lem_example =
    delete_pattern_lem sample_redis sample_scanner pattern_t always_scans
      (λ keys s. (without keys s, refl)) 2 three_keys (omega arith)
