-- ===== src/Base/Rows.antt =====
-- Queries and updates of rows by a key that no two rows share.
use Prim.Native.Nat.{ℕ}
use mathlib.Core.Path.{◌≡◌, refl, ap, ◌∙◌}
use mathlib.Core.Logic.{inl, inr}
use mathlib.Core.Bool.{Bool, true, false, ◌&&◌}
use mathlib.Core.Option.{none, some}
use mathlib.Core.List.{List, [], ◌∷◌, ◌++◌}
use native.Mathlib.Omega.{arith}
use multi_tenant_saas.Base.Tests.{◌==◌, if◌then◌else◌, Bool-cases}
use multi_tenant_saas.Base.Lists.{head?}
use multi_tenant_saas.Base.Filter.{filter, map_where, any}

module _ {ℓ} {A : Type ℓ} where
  -- An update leaves a selection alone that picks neither the old nor the new form of a changed
  -- row.
  pub filter-map_where_other :
      (p q : A → Bool) (f : A → A)
      → ((x : A) → p x ≡ true → q x ≡ false)
      → ((x : A) → p x ≡ true → q (f x) ≡ false)
      → (xs : List A) → filter q (map_where p f xs) ≡ filter q xs
  filter-map_where_other p q f before after [] = refl
  filter-map_where_other p q f before after (x ∷ xs) =
      ground (arith, before x, after x, filter-map_where_other p q f before after xs)

  -- Nothing passes the test, so nothing is rewritten.
  pub map_where-none :
      (p : A → Bool) (f : A → A) (xs : List A) → head? (filter p xs) ≡ none → map_where p f xs ≡ xs
  map_where-none p f [] h = refl
  map_where-none p f (x ∷ xs) h = ground (arith, map_where-none p f xs)

  -- A row that passes a test is the only one to have its key.
  pub head?-filter_passes :
      (p : A → Bool) (xs : List A) (x : A) → head? (filter p xs) ≡ some x → p x ≡ true
  head?-filter_passes p [] x h = cc
  head?-filter_passes p (y ∷ xs) x h = ground (arith, head?-filter_passes p xs x)

  pub any_of_head? :
      (p : A → Bool) (xs : List A) (x : A) → head? (filter p xs) ≡ some x → any p xs ≡ true
  any_of_head? p [] x h = cc
  any_of_head? p (y ∷ xs) x h = ground (arith, any_of_head? p xs x)

  -- The first row to pass a test is found where it is inserted.
  pub head?-filter-append :
      (p : A → Bool) (xs : List A) (x : A)
      → any p xs ≡ false
      → p x ≡ true
      → head? (filter p (xs ++ x ∷ [])) ≡ some x
  head?-filter-append p [] x h k = ground arith
  head?-filter-append p (y ∷ xs) x h k = ground (arith, head?-filter-append p xs x)

  pub filter_none : (p : A → Bool) (xs : List A) → any p xs ≡ false → filter p xs ≡ []
  filter_none p [] h = refl
  filter_none p (x ∷ xs) h = ground (arith, filter_none p xs)

module _ {ℓ} {A : Type ℓ} (key : A → ℕ) where
  -- No two rows have the same key.
  abbrev pub Unique : List A → Type 0
  Unique [] = Unit
  Unique (x ∷ xs) = (any (λ y. key y == key x) xs ≡ false) × Unique xs

  any-key_eq : (k l : ℕ) (xs : List A) → k ≡ l → any (λ y. key y == k) xs ≡ any (λ y. key y == l) xs
  any-key_eq k l xs e = ap (λ n. any (λ y. key y == n) xs) e

  -- No row with the key, so none that passes a test on the key and more.
  filter-key_none :
      (k : ℕ) (q : A → Bool) (xs : List A)
      → any (λ y. key y == k) xs ≡ false
      → filter (λ y. (key y == k) && q y) xs ≡ []
  filter-key_none k q [] h = refl
  filter-key_none k q (x ∷ xs) h = ground (arith, filter-key_none k q xs)

  -- The row that a query by key finds decides what a narrower query finds.
  pub head?-filter-key :
      (k : ℕ) (p q : A → Bool) (xs : List A) (x : A)
      → Unique xs
      → head? (filter (λ y. (key y == k) && p y) xs) ≡ some x
      → head? (filter (λ y. (key y == k) && (p y && q y)) xs) ≡ (if q x then some x else none)
  head?-filter-key k p q [] x u h = cc
  head?-filter-key k p q (y ∷ xs) x u h = elim (Bool-cases (key y == k)) [
    | inl same ↦ ground (
      arith,
      filter-key_none k (λ z. p z && q z) xs,
      filter-key_none k p xs,
      any-key_eq (key y) k xs,
    )
    | inr other ↦ ground (arith, head?-filter-key k p q xs x u.1)
  ]

  pub head?-filter-key_none :
      (k : ℕ) (p q : A → Bool) (xs : List A)
      → head? (filter (λ y. (key y == k) && p y) xs) ≡ none
      → head? (filter (λ y. (key y == k) && (p y && q y)) xs) ≡ none
  head?-filter-key_none k p q [] h = refl
  head?-filter-key_none k p q (y ∷ xs) h = ground (arith, head?-filter-key_none k p q xs)

  map_where-key_none :
      (k : ℕ) (q : A → Bool) (f : A → A) (xs : List A)
      → any (λ y. key y == k) xs ≡ false
      → map_where (λ y. (key y == k) && q y) f xs ≡ xs
  map_where-key_none k q f [] h = refl
  map_where-key_none k q f (x ∷ xs) h = ground (arith, map_where-key_none k q f xs)

  -- A conditional update by key that finds a row replaces that row and no other.
  pub map_where-key :
      (k : ℕ) (q : A → Bool) (f : A → A) (xs : List A) (x : A)
      → Unique xs
      → head? (filter (λ y. (key y == k) && q y) xs) ≡ some x
      → map_where (λ y. (key y == k) && q y) f xs ≡ map_where (λ y. key y == k) (λ _. f x) xs
  map_where-key k q f [] x u h = cc
  map_where-key k q f (y ∷ xs) x u h = elim (Bool-cases (key y == k)) [
    | inl same ↦ ground (
      arith,
      filter-key_none k q xs,
      map_where-key_none k q f xs,
      map_where-key_none k (λ _. true) (λ _. f x) xs,
      any-key_eq (key y) k xs,
    )
    | inr other ↦ ground (arith, map_where-key k q f xs x u.1)
  ]

  -- Two queries by one key that both find a row find the same row.
  pub same_row :
      (k : ℕ) (p q : A → Bool) (xs : List A) (x y : A)
      → Unique xs
      → head? (filter (λ r. (key r == k) && p r) xs) ≡ some x
      → head? (filter (λ r. (key r == k) && q r) xs) ≡ some y
      → x ≡ y
  same_row k p q [] x y u h g = cc
  same_row k p q (r ∷ xs) x y u h g = elim (Bool-cases (key r == k)) [
    | inl same ↦
        ground (arith, filter-key_none k p xs, filter-key_none k q xs, any-key_eq (key r) k xs)
    | inr other ↦ same_row k p q xs x y u.1 (ground arith) (ground arith)
  ]

  any-key-map_where :
      (k : ℕ) (p : A → Bool) (f : A → A)
      → ((x : A) → p x ≡ true → key (f x) ≡ key x)
      → (xs : List A) → any (λ y. key y == k) (map_where p f xs) ≡ any (λ y. key y == k) xs
  any-key-map_where k p f same [] = refl
  any-key-map_where k p f same (x ∷ xs) = ground (arith, same x, any-key-map_where k p f same xs)

  -- An update that leaves the keys alone keeps them distinct.
  pub map_where-Unique :
      (p : A → Bool) (f : A → A)
      → ((x : A) → p x ≡ true → key (f x) ≡ key x)
      → (xs : List A) → Unique xs
      → Unique (map_where p f xs)
  map_where-Unique p f same [] u = tt
  map_where-Unique p f same (x ∷ xs) u = (
    any-key-map_where (key (if p x then f x else x)) p f same xs
        ∙ (any-key_eq (key (if p x then f x else x)) (key x) xs (ground (arith, same x)) ∙ u.0),
    map_where-Unique p f same xs u.1,
  )

  any-filter :
      (k : ℕ) (p : A → Bool) (xs : List A)
      → any (λ y. key y == k) xs ≡ false
      → any (λ y. key y == k) (filter p xs) ≡ false
  any-filter k p [] h = refl
  any-filter k p (x ∷ xs) h = ground (arith, any-filter k p xs)

  -- The key of a row that a query finds is the key of some row.
  pub any-key_of_head? :
      (p : A → Bool) (xs : List A) (x : A)
      → head? (filter p xs) ≡ some x
      → any (λ y. key y == key x) xs ≡ true
  any-key_of_head? p [] x h = cc
  any-key_of_head? p (y ∷ xs) x h = ground (arith, any-key_of_head? p xs x)

  -- A selection of rows with distinct keys has distinct keys.
  pub filter-Unique : (p : A → Bool) (xs : List A) → Unique xs → Unique (filter p xs)
  filter-Unique p [] u = tt
  filter-Unique p (x ∷ xs) u = elim (Bool-cases (p x)) [
    | inl keep ↦ rw keep (any-filter (key x) p xs u.0, filter-Unique p xs u.1)
    | inr skip ↦ rw skip (filter-Unique p xs u.1)
  ]

  -- A query finds the row that a replacement by key has put in.
  pub head?-filter-replaced :
      (k : ℕ) (q : A → Bool) (x x' : A) (xs : List A)
      → head? (filter (λ y. (key y == k) && q y) xs) ≡ some x
      → (key x' == k) ≡ true
      → q x' ≡ true
      → head? (filter (λ y. (key y == k) && q y) (map_where (λ y. key y == k) (λ _. x') xs))
        ≡ some x'
  head?-filter-replaced k q x x' [] h e p = cc
  head?-filter-replaced k q x x' (y ∷ xs) h e p = ground (arith, head?-filter-replaced k q x x' xs)

  -- A query by key finds the new form of the row that an update by key has changed.
  pub head?-filter-updated :
      (k : ℕ) (q : A → Bool) (f : A → A) (x : A)
      → ((y : A) → key (f y) ≡ key y)
      → ((y : A) → q (f y) ≡ q y)
      → (xs : List A) → head? (filter (λ y. (key y == k) && q y) xs) ≡ some x
      → head? (filter (λ y. (key y == k) && q y) (map_where (λ y. key y == k) f xs)) ≡ some (f x)
  head?-filter-updated k q f x e p [] h = cc
  head?-filter-updated k q f x e p (y ∷ xs) h =
      ground (arith, e y, p y, head?-filter-updated k q f x e p xs)
