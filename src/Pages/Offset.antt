-- ===== src/Pages/Offset.antt =====
-- Pages by offset: slices of one listing.
use native.Mathlib.Omega.{div_fact, mod_fact}
use native.Mathlib.Nat.{suc-mul, mul_comm}
use multi_tenant_saas.Base.{
  ℕ, zero, suc, ◌+◌, ◌-◌, ◌*◌, ◌/◌, ◌≤◌, ◌≡◌, sym, ap, ◌∙◌, List, [], ◌∷◌, ◌++◌, arith, inl, inr,
  ltb, if◌then◌else◌, take, drop, take_all, length, Bool-cases,
}

pub take-add :
    {A : Type 0} (a b : ℕ) (xs : List A) → take (a + b) xs ≡ take a xs ++ take b (drop a xs)
take-add zero b xs = ap (λ n. take n xs) {y = b} (omega arith)
take-add (suc a) b [] =
    ap (λ n. take n []) {y = suc (a + b)} (omega arith) ∙ sym (take_all b [] (omega arith))
take-add (suc a) b (x ∷ xs) =
    ap (λ n. take n (x ∷ xs)) {y = suc (a + b)} (omega arith) ∙ ap (◌∷◌ x) (take-add a b xs)

module _ (k : ℕ) where
  pub page_starts : (n : ℕ) → (suc n - 1) * suc k ≡ n * suc k
  page_starts n = ap (λ m. m * suc k) {y = n} (omega arith)

  pub page_ends : (n : ℕ) → suc n * suc k ≡ n * suc k + suc k
  page_ends n = suc-mul n (suc k)

  pub enough_pages : (t : ℕ) → t ≤ ((t + (suc k - 1)) / suc k) * suc k
  enough_pages t =
      let n = (t + (suc k - 1)) / suc k in
      rw (mul_comm n (suc k))
        (omega (arith, div_fact (t + (suc k - 1)) k, mod_fact (t + (suc k - 1)) k))

  -- `math.ceil(total / page_size) if total > 0 else 0`
  abbrev pub page_count : ℕ → ℕ
  page_count total = if ltb 0 total then (total + (suc k - 1)) / suc k else 0

  module _ {A : Type 0} (listing : List A) where
    -- The slices of the pages from the first to the `n`th.
    abbrev pub slices : ℕ → List A
    slices zero = []
    slices (suc n) = slices n ++ take (suc k) (drop ((suc n - 1) * suc k) listing)

    slices_lem : (n : ℕ) → slices n ≡ take (n * suc k) listing
    slices_lem zero = ap (λ m. take m listing) {x = 0} (omega arith)
    slices_lem (suc n) =
        rw (page_starts n, page_ends n, slices_lem n) (sym (take-add (n * suc k) (suc k) listing))

    pub slices_all : (total : ℕ) → length listing ≡ total → slices (page_count total) ≡ listing
    slices_all total e =
        slices_lem (page_count total)
        ∙ take_all (page_count total * suc k) listing (elim (Bool-cases (ltb 0 total)) [
          | inl some_rows ↦ rw (e, some_rows) (enough_pages total)
          | inr no_rows ↦
              let none_left : total ≡ 0 = ground arith in rw (e, no_rows, none_left) (omega arith)
        ])
