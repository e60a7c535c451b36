-- ===== src/Pages/Sorted.antt =====
-- The order of a listing: what `order_by` returns.
use multi_tenant_saas.Base.{
  ◌≡◌, refl, sym, ap, ◌∙◌, Bool, true, false, ◌||◌, List, [], ◌∷◌, ◌==◌, arith, inl, inr,
  if◌then◌else◌, filter, any, length, All, Unique, Bool-cases,
}
use multi_tenant_saas.Pages.{Position, later, earlier, insert_row, order_by}

-- A strict order in which two positions of different rows are compared one way or the other.
pub record KeysetOrder (after : Position → Position → Bool) : Type 0 where
  pub irreflexive : (p : Position) → after p p ≡ false
  pub transitive : (p q r : Position) → after p q ≡ true → after q r ≡ true → after p r ≡ true
  pub connected : (p q : Position) → (q.1 == p.1) ≡ false → (after p q || after q p) ≡ true

pub later-KeysetOrder : KeysetOrder later
unfolding later
later-KeysetOrder = record {
  irreflexive = λ p. ground arith;
  transitive = λ p q r h k. ground arith;
  connected = λ p q h. ground arith;
}

pub earlier-KeysetOrder : KeysetOrder earlier
unfolding earlier
earlier-KeysetOrder = record {
  irreflexive = λ p. ground arith;
  transitive = λ p q r h k. ground arith;
  connected = λ p q h. ground arith;
}

module _ {A : Type 0} (position : A → Position) (after : Position → Position → Bool)
    (order : KeysetOrder after) where
  open order use {irreflexive, transitive, connected}

  abbrev insert : A → List A → List A
  insert = insert_row position after

  abbrev pub precedes : A → A → Bool
  precedes x y = after (position x) (position y)

  -- Every row comes before all that follow it.
  abbrev pub IsSorted : List A → Type 0
  IsSorted [] = Unit
  IsSorted (x ∷ xs) = All (λ y. precedes x y ≡ true) xs × IsSorted xs

  abbrev Apart : A → List A → Type 0
  Apart x ys = All (λ y. (precedes x y || precedes y x) ≡ true) ys

  All-insert : (P : A → Type 0) (x : A) (ys : List A) → P x → All P ys → All P (insert x ys)
  All-insert P x [] p h = (p, tt)
  All-insert P x (y ∷ ys) p h = elim (Bool-cases (precedes y x)) [
    | inl before ↦ rw before (h.0, All-insert P x ys p h.1)
    | inr after_it ↦ rw after_it (p, h)
  ]

  All-trans :
      (x y : A) (ys : List A)
      → precedes x y ≡ true
      → All (λ z. precedes y z ≡ true) ys
      → All (λ z. precedes x z ≡ true) ys
  All-trans x y [] h k = tt
  All-trans x y (z ∷ zs) h k =
      (transitive (position x) (position y) (position z) h k.0, All-trans x y zs h k.1)

  insert-IsSorted : (x : A) (ys : List A) → IsSorted ys → Apart x ys → IsSorted (insert x ys)
  insert-IsSorted x [] s a = (tt, tt)
  insert-IsSorted x (y ∷ ys) s a = elim (Bool-cases (precedes y x)) [
    | inl before ↦ rw before (All-insert _ x ys before s.0, insert-IsSorted x ys s.1 a.1)
    | inr after_it ↦
        let first : precedes x y ≡ true = ground arith in
        rw after_it ((first, All-trans x y ys first s.0), s)
  ]

  Apart-insert :
      (x y : A) (ys : List A)
      → (precedes x y || precedes y x) ≡ true
      → Apart x ys
      → Apart x (insert y ys)
  Apart-insert x y ys h a = All-insert _ y ys h a

  Apart-order_by : (x : A) (ys : List A) → Apart x ys → Apart x (order_by position after ys)
  unfolding order_by
  Apart-order_by x [] a = tt
  Apart-order_by x (y ∷ ys) a =
      Apart-insert x y (order_by position after ys) a.0 (Apart-order_by x ys a.1)

  Unique-Apart :
      (x : A) (ys : List A) → any (λ y. (position y).1 == (position x).1) ys ≡ false → Apart x ys
  Unique-Apart x [] h = tt
  Unique-Apart x (y ∷ ys) h =
      (connected (position x) (position y) (ground arith), Unique-Apart x ys (ground arith))

  -- Rows with distinct keys come out sorted.
  pub order_by-IsSorted :
      (xs : List A) → Unique (λ x. (position x).1) xs → IsSorted (order_by position after xs)
  unfolding order_by
  order_by-IsSorted [] u = tt
  order_by-IsSorted (x ∷ xs) u =
      insert-IsSorted x (order_by position after xs) (order_by-IsSorted xs u.1)
        (Apart-order_by x xs (Unique-Apart x xs u.0))

  length-filter-insert :
      (p : A → Bool) (x : A) (ys : List A)
      → length (filter p (insert x ys)) ≡ length (filter p (x ∷ ys))
  length-filter-insert p x [] = refl
  length-filter-insert p x (y ∷ ys) = ground (arith, length-filter-insert p x ys)

  -- Sorting keeps every row as often as it was there.
  pub length-filter-order_by :
      (p : A → Bool) (xs : List A)
      → length (filter p (order_by position after xs)) ≡ length (filter p xs)
  unfolding order_by
  length-filter-order_by p [] = refl
  length-filter-order_by p (x ∷ xs) =
      length-filter-insert p x (order_by position after xs)
      ∙ ground (arith, length-filter-order_by p xs)

  insert_first : (x : A) (zs : List A) → All (λ z. precedes x z ≡ true) zs → insert x zs ≡ x ∷ zs
  insert_first x [] h = refl
  insert_first x (z ∷ zs) h =
      let not_before : precedes z x ≡ false =
        ground
          (arith, transitive (position x) (position z) (position x), irreflexive (position x)) in
      rw not_before refl

  All-filter : (P : A → Type 0) (p : A → Bool) (ys : List A) → All P ys → All P (filter p ys)
  All-filter P p [] h = tt
  All-filter P p (y ∷ ys) h = elim (Bool-cases (p y)) [
    | inl keep ↦ rw keep (h.0, All-filter P p ys h.1)
    | inr skip ↦ rw skip (All-filter P p ys h.1)
  ]

  filter-insert :
      (p : A → Bool) (x : A) (ys : List A)
      → IsSorted ys
      → Apart x ys
      → filter p (insert x ys) ≡ (if p x then insert x (filter p ys) else filter p ys)
  filter-insert p x [] s a = refl
  filter-insert p x (y ∷ ys) s a = elim (Bool-cases (precedes y x)) [
    | inl before ↦ ground (arith, filter-insert p x ys s.1 a.1)
    | inr after_it ↦
        let first : precedes x y ≡ true = ground arith in
        let all : All (λ z. precedes x z ≡ true) (y ∷ ys) = (first, All-trans x y ys first s.0) in
        rw after_it
          (ground (arith, insert_first x (filter p (y ∷ ys)) (All-filter _ p (y ∷ ys) all)))
  ]

  -- Selecting rows and sorting them may be done in either order.
  pub order_by-filter :
      (p : A → Bool) (xs : List A)
      → Unique (λ x. (position x).1) xs
      → order_by position after (filter p xs) ≡ filter p (order_by position after xs)
  unfolding order_by
  order_by-filter p [] u = refl
  order_by-filter p (x ∷ xs) u =
      let moved =
        filter-insert p x (order_by position after xs) (order_by-IsSorted xs u.1)
          (Apart-order_by x xs (Unique-Apart x xs u.0)) in
      elim (Bool-cases (p x)) [
        | inl keep ↦ rw keep (ap (insert x) (order_by-filter p xs u.1) ∙ sym (moved ∙ ground arith))
        | inr skip ↦ rw skip (order_by-filter p xs u.1 ∙ sym (moved ∙ ground arith))
      ]
