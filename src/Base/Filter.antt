-- ===== src/Base/Filter.antt =====
-- Rows chosen by a Boolean test: the library's `filter` wants a decision, a `where` clause is a
-- test.
use Prim.Native.Nat.{suc, ◌≤◌}
use mathlib.Core.Path.{◌≡◌, refl, ap}
use mathlib.Core.Bool.{Bool, true, false}
use mathlib.Core.List.{List, [], ◌∷◌, ◌++◌}
use native.Mathlib.Omega.{arith}
use multi_tenant_saas.Base.Tests.{if◌then◌else◌, is_some}
use multi_tenant_saas.Base.Lists.{length, head?}

module _ {ℓ} {A : Type ℓ} where
  abbrev pub filter : (A → Bool) → List A → List A
  filter p [] = []
  filter p (x ∷ xs) = let rest = filter p xs in if p x then x ∷ rest else rest

  -- Every row that passes `p` is rewritten by `f`.
  abbrev pub map_where : (A → Bool) → (A → A) → List A → List A
  map_where p f [] = []
  map_where p f (x ∷ xs) = (if p x then f x else x) ∷ map_where p f xs

  abbrev pub any : (A → Bool) → List A → Bool
  any p [] = false
  any p (x ∷ xs) = if p x then true else any p xs

  -- A query finds a row exactly if there is one.
  pub is_some-head? : (p : A → Bool) (xs : List A) → is_some (head? (filter p xs)) ≡ any p xs
  is_some-head? p [] = refl
  is_some-head? p (x ∷ xs) = ground (arith, is_some-head? p xs)

  -- A row that has just been inserted is there.
  pub any-append_last :
      (p : A → Bool) (xs : List A) (x : A) → p x ≡ true → any p (xs ++ x ∷ []) ≡ true
  any-append_last p [] x h = ground arith
  any-append_last p (y ∷ xs) x h = ground (arith, any-append_last p xs x h)

  pub filter-append :
      (p : A → Bool) (xs ys : List A) → filter p (xs ++ ys) ≡ filter p xs ++ filter p ys
  filter-append p [] ys = refl
  filter-append p (x ∷ xs) ys = ground (arith, filter-append p xs ys)

  pub length-filter-le : (p : A → Bool) (xs : List A) → length (filter p xs) ≤ length xs
  length-filter-le p [] = omega arith
  length-filter-le p (x ∷ xs) = ground (arith, length-filter-le p xs)

  pub length-map_where :
      (p : A → Bool) (f : A → A) (xs : List A) → length (map_where p f xs) ≡ length xs
  length-map_where p f [] = refl
  length-map_where p f (x ∷ xs) = ap suc (length-map_where p f xs)
