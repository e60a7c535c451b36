-- ===== src/Text/Slug.antt =====
-- The normal form that `slugify` of app/services/auth.py returns.
use multi_tenant_saas.Base.{
  ℕ, suc, ◌+◌, ◌≤◌, ◌≡◌, refl, ap, ◌⊎◌, inl, inr, Bool, true, false, ◌&&◌, ◌||◌, [], ◌∷◌, arith,
  leb, ◌==◌, All, length, filter, length-filter-le, Bool-cases,
}
use multi_tenant_saas.Text.{
  Text, IsAscii, is_space, to_lower, lower, lstrip, rstrip, keep_before, strip, is_kept,
  is_separator, collapse, slugify,
}

-- A lower-case ASCII letter or a digit.
abbrev pub is_slug_letter : ℕ → Bool
is_slug_letter c = (leb b'a' c && leb c b'z') || (leb b'0' c && leb c b'9')

-- Letters, digits and dashes with no two dashes together; the flag says that a dash stands before.
abbrev pub IsSlugFrom : Bool → Text → Type 0
IsSlugFrom dashed [] = Unit
IsSlugFrom dashed (c ∷ s) =
    ((is_slug_letter c ≡ true) × IsSlugFrom false s)
    ⊎ ((c ≡ b'-') × (dashed ≡ false) × IsSlugFrom true s)

abbrev pub IsSlug : Text → Type 0
IsSlug = IsSlugFrom false

-- No capital letter.
abbrev is_uncapital : ℕ → Bool
is_uncapital c = to_lower c == c

module _ (p : ℕ → Bool) where
  abbrev AllPass : Text → Type 0
  AllPass = All (λ c. p c ≡ true)

  lstrip-AllPass : (s : Text) → AllPass s → AllPass (lstrip s)
  unfolding lstrip
  lstrip-AllPass [] h = tt
  lstrip-AllPass (c ∷ s) h = elim (Bool-cases (is_space c)) [
    | inl blank ↦ rw blank (lstrip-AllPass s h.1)
    | inr solid ↦ rw solid h
  ]

  keep_before-AllPass : (c : ℕ) (s : Text) → p c ≡ true → AllPass s → AllPass (keep_before c s)
  keep_before-AllPass c [] h hs = elim (Bool-cases (is_space c)) [
    | inl blank ↦ rw blank tt
    | inr solid ↦ rw solid (h, tt)
  ]
  keep_before-AllPass c (d ∷ s) h hs = (h, hs)

  rstrip-AllPass : (s : Text) → AllPass s → AllPass (rstrip s)
  unfolding rstrip
  rstrip-AllPass [] h = tt
  rstrip-AllPass (c ∷ s) h = keep_before-AllPass c (rstrip s) h.0 (rstrip-AllPass s h.1)

  filter-AllPass : (q : ℕ → Bool) (s : Text) → AllPass s → AllPass (filter q s)
  filter-AllPass q [] h = tt
  filter-AllPass q (c ∷ s) h = elim (Bool-cases (q c)) [
    | inl kept ↦ rw kept (h.0, filter-AllPass q s h.1)
    | inr dropped ↦ rw dropped (filter-AllPass q s h.1)
  ]

lower-uncapital : (s : Text) → AllPass is_uncapital (lower s)
unfolding lower to_lower
lower-uncapital [] = tt
lower-uncapital (c ∷ s) = (ground arith, lower-uncapital s)

filter_passes : (q : ℕ → Bool) (s : Text) → AllPass q (filter q s)
filter_passes q [] = tt
filter_passes q (c ∷ s) = elim (Bool-cases (q c)) [
  | inl kept ↦ rw kept (kept, filter_passes q s)
  | inr dropped ↦ rw dropped (filter_passes q s)
]

-- A character that is kept, is no capital and is no separator is a letter or a digit.
kept_letter :
    (c : ℕ)
    → is_kept c ≡ true
    → is_uncapital c ≡ true
    → is_separator c ≡ false
    → is_slug_letter c ≡ true
unfolding is_kept is_separator to_lower
kept_letter c k u s = ground arith

collapse-IsSlugFrom :
    (in_run : Bool) (s : Text)
    → AllPass is_kept s
    → AllPass is_uncapital s
    → IsSlugFrom in_run (collapse in_run s)
unfolding collapse
collapse-IsSlugFrom in_run [] k u = tt
collapse-IsSlugFrom true (c ∷ s) k u = elim (Bool-cases (is_separator c)) [
  | inl sep ↦ rw sep (collapse-IsSlugFrom true s k.1 u.1)
  | inr other ↦ rw other (inl (kept_letter c k.0 u.0 other, collapse-IsSlugFrom false s k.1 u.1))
]
collapse-IsSlugFrom false (c ∷ s) k u = elim (Bool-cases (is_separator c)) [
  | inl sep ↦ rw sep (inr (refl, refl, collapse-IsSlugFrom true s k.1 u.1))
  | inr other ↦ rw other (inl (kept_letter c k.0 u.0 other, collapse-IsSlugFrom false s k.1 u.1))
]

pub slugify-IsSlug : (t : Text) → IsSlug (slugify t)
unfolding slugify strip
slugify-IsSlug t =
    let s : Text = strip (lower t) in
    let stripped : AllPass is_uncapital s =
      rstrip-AllPass is_uncapital (lstrip (lower t))
        (lstrip-AllPass is_uncapital (lower t) (lower-uncapital t)) in
    collapse-IsSlugFrom false (filter is_kept s) (filter_passes is_kept s)
      (filter-AllPass is_uncapital is_kept s stripped)

-- Each step of `slugify` leaves a slug alone.
module _ where
  lower-slug : (dashed : Bool) (s : Text) → IsSlugFrom dashed s → lower s ≡ s
  unfolding lower to_lower
  lower-slug dashed [] h = refl
  lower-slug dashed (c ∷ s) (inl h) = ground (arith, lower-slug false s h.1)
  lower-slug dashed (c ∷ s) (inr h) = ground (arith, lower-slug true s h.2)

  lstrip-slug : (dashed : Bool) (s : Text) → IsSlugFrom dashed s → lstrip s ≡ s
  unfolding lstrip is_space
  lstrip-slug dashed [] h = refl
  lstrip-slug dashed (c ∷ s) h = ground arith

  rstrip-slug : (dashed : Bool) (s : Text) → IsSlugFrom dashed s → rstrip s ≡ s
  unfolding rstrip is_space
  rstrip-slug dashed [] h = refl
  rstrip-slug dashed (c ∷ s) (inl h) = rw (rstrip-slug false s h.1) (solid s)
    where
      solid : (r : Text) → keep_before c r ≡ c ∷ r
      solid [] = ground arith
      solid (d ∷ r) = refl
  rstrip-slug dashed (c ∷ s) (inr h) = rw (rstrip-slug true s h.2) (solid s)
    where
      solid : (r : Text) → keep_before c r ≡ c ∷ r
      solid [] = ground arith
      solid (d ∷ r) = refl

  filter-slug : (dashed : Bool) (s : Text) → IsSlugFrom dashed s → filter is_kept s ≡ s
  unfolding is_kept
  filter-slug dashed [] h = refl
  filter-slug dashed (c ∷ s) (inl h) = ground (arith, filter-slug false s h.1)
  filter-slug dashed (c ∷ s) (inr h) = ground (arith, filter-slug true s h.2)

  collapse-slug : (dashed : Bool) (s : Text) → IsSlugFrom dashed s → collapse dashed s ≡ s
  unfolding collapse is_separator
  collapse-slug dashed [] h = refl
  collapse-slug dashed (c ∷ s) (inl h) = ground (arith, collapse-slug false s h.1)
  collapse-slug dashed (c ∷ s) (inr h) = ground (arith, collapse-slug true s h.2)

slugify-slug : (s : Text) → IsSlug s → slugify s ≡ s
unfolding slugify strip
slugify-slug s h =
    rw (lower-slug false s h, lstrip-slug false s h, rstrip-slug false s h, filter-slug false s h)
      (collapse-slug false s h)

length-lstrip-le : (s : Text) → length (lstrip s) ≤ length s
unfolding lstrip
length-lstrip-le [] = omega arith
length-lstrip-le (c ∷ s) = ground (arith, length-lstrip-le s)

length-keep_before-le : (c : ℕ) (s : Text) → length (keep_before c s) ≤ length s + 1
length-keep_before-le c [] = ground arith
length-keep_before-le c (d ∷ s) = omega arith

length-rstrip-le : (s : Text) → length (rstrip s) ≤ length s
unfolding rstrip
length-rstrip-le [] = omega arith
length-rstrip-le (c ∷ s) = omega (arith, length-keep_before-le c (rstrip s), length-rstrip-le s)

length-collapse-le : (in_run : Bool) (s : Text) → length (collapse in_run s) ≤ length s
unfolding collapse
length-collapse-le in_run [] = omega arith
length-collapse-le in_run (c ∷ s) = ground (arith, length-collapse-le (is_separator c) s)

length-lower : (s : Text) → length (lower s) ≡ length s
unfolding lower
length-lower [] = refl
length-lower (c ∷ s) = ap suc (length-lower s)

length-slugify-le : (t : Text) → length (slugify t) ≤ length t
unfolding slugify strip
length-slugify-le t =
    let s : Text = strip (lower t) in
    omega (
      arith,
      length-collapse-le false (filter is_kept s),
      length-filter-le is_kept s,
      length-rstrip-le (lstrip (lower t)),
      length-lstrip-le (lower t),
      length-lower t,
    )

-- For every ASCII text, `slugify` returns a slug (lower-case letters, digits and dashes, no two
-- dashes together), leaves it unchanged when applied again, and returns no more characters than it
-- is given.
pub slugify_normal_form :
    (t : Text)
    → IsAscii t
    → IsSlug (slugify t) × (slugify (slugify t) ≡ slugify t) × (length (slugify t) ≤ length t)
slugify_normal_form t ascii =
    (slugify-IsSlug t, slugify-slug (slugify t) (slugify-IsSlug t), length-slugify-le t)
