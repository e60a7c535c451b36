-- ===== src/Base/Members.antt =====
-- Membership in a list, kept as data.
use Prim.{⊥}
use mathlib.Core.Path.{◌≡◌, refl, ap, sym, ◌∙◌}
use mathlib.Core.Logic.{◌⊎◌, inl, inr}
use mathlib.Core.Bool.{Bool, true}
use mathlib.Core.List.{List, [], ◌∷◌, ◌++◌}
use multi_tenant_saas.Base.Tests.{Bool-cases}
use multi_tenant_saas.Base.Filter.{filter, any}

module _ {A : Type 0} where
  abbrev pub In : A → List A → Type 0
  In x [] = ⊥
  In x (y ∷ l) = (x ≡ y) ⊎ In x l

  pub In-append_left : (x : A) (l m : List A) → In x l → In x (l ++ m)
  In-append_left x [] m h = elim h [ ]
  In-append_left x (y ∷ l) m (inl e) = inl e
  In-append_left x (y ∷ l) m (inr h) = inr (In-append_left x l m h)

  pub In-append_right : (x : A) (l m : List A) → In x m → In x (l ++ m)
  In-append_right x [] m h = h
  In-append_right x (y ∷ l) m h = inr (In-append_right x l m h)

  pub In-append : (x : A) (l m : List A) → In x (l ++ m) → In x l ⊎ In x m
  In-append x [] m h = inr h
  In-append x (y ∷ l) m (inl e) = inl (inl e)
  In-append x (y ∷ l) m (inr h) = elim (In-append x l m h) [ inl a ↦ inl (inr a) | inr b ↦ inr b ]

module _ {A : Type 0} (p : A → Bool) where
  pub filter-In : (x : A) (l : List A) → In x (filter p l) → In x l × (p x ≡ true)
  filter-In x [] h = elim h [ ]
  filter-In x (y ∷ l) h = elim (Bool-cases (p y)) [
    | inl e ↦
        let h' : In x (y ∷ filter p l) = rw e at h in
        elim h' [
          | inl same ↦ (inl same, ap p same ∙ e)
          | inr later ↦ let (there, passes) = filter-In x l later in (inr there, passes)
        ]
    | inr e ↦
        let h' : In x (filter p l) = rw e at h in
        let (there, passes) = filter-In x l h' in (inr there, passes)
  ]

  pub In-filter : (x : A) (l : List A) → In x l → p x ≡ true → In x (filter p l)
  In-filter x [] h e = elim h [ ]
  In-filter x (y ∷ l) (inl same) e = rw (sym (ap p same) ∙ e) (inl same)
  In-filter x (y ∷ l) (inr h) e = elim (Bool-cases (p y)) [
    | inl f ↦ rw f (inr (In-filter x l h e))
    | inr f ↦ rw f (In-filter x l h e)
  ]

  pub any-In : (l : List A) → any p l ≡ true → (x : A) × In x l × (p x ≡ true)
  any-In [] h = cc
  any-In (y ∷ l) h = elim (Bool-cases (p y)) [
    | inl e ↦ (y, inl refl, e)
    | inr e ↦ let (x, there, passes) = any-In l (rw e at h) in (x, inr there, passes)
  ]

  pub any_of_In : (x : A) (l : List A) → In x l → p x ≡ true → any p l ≡ true
  any_of_In x [] h e = elim h [ ]
  any_of_In x (y ∷ l) (inl same) e = rw (sym (ap p same) ∙ e) refl
  any_of_In x (y ∷ l) (inr h) e = elim (Bool-cases (p y)) [
    | inl f ↦ rw f refl
    | inr f ↦ rw f (any_of_In x l h e)
  ]
