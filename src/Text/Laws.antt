-- ===== src/Text/Laws.antt =====
-- Equality of texts, and the normal forms of email addresses and project keys.
use multi_tenant_saas.Base.{
  ℕ, ◌≡◌, refl, ◌↔◌, true, false, [], ◌∷◌, map, arith, Bool-cases, inl, inr,
}
use multi_tenant_saas.Text.{
  Text, text_eq, is_space, to_lower, to_upper, lower, upper, lstrip, rstrip, keep_before, strip,
  clean_email, clean_key,
}

pub text_eq_sound : (s t : Text) → text_eq s t ≡ true → s ≡ t
text_eq_sound [] [] h = refl
text_eq_sound [] (_ ∷ _) h = cc
text_eq_sound (_ ∷ _) [] h = cc
text_eq_sound (a ∷ s) (b ∷ t) h = ground (arith, text_eq_sound s t)

pub text_eq_refl : (s : Text) → text_eq s s ≡ true
text_eq_refl [] = refl
text_eq_refl (a ∷ s) = ground (arith, text_eq_refl s)

pub text_eq_iff : (s t : Text) → (text_eq s t ≡ true) ↔ (s ≡ t)
text_eq_iff s t = (text_eq_sound s t, λ e. rw e (text_eq_refl t))

abbrev KeepsSpace : (ℕ → ℕ) → Type 0
KeepsSpace f = (c : ℕ) → is_space (f c) ≡ is_space c

to_lower-KeepsSpace : KeepsSpace to_lower
unfolding to_lower is_space
to_lower-KeepsSpace c = ground arith

to_upper-KeepsSpace : KeepsSpace to_upper
unfolding to_upper is_space
to_upper-KeepsSpace c = ground arith

to_lower_idem : (c : ℕ) → to_lower (to_lower c) ≡ to_lower c
unfolding to_lower
to_lower_idem c = ground arith

to_upper_idem : (c : ℕ) → to_upper (to_upper c) ≡ to_upper c
unfolding to_upper
to_upper_idem c = ground arith

map_idem : (f : ℕ → ℕ) → ((c : ℕ) → f (f c) ≡ f c) → (s : Text) → map f (map f s) ≡ map f s
map_idem f h [] = refl
map_idem f h (c ∷ s) = cc (h c, map_idem f h s)

lstrip-map : (f : ℕ → ℕ) → KeepsSpace f → (s : Text) → lstrip (map f s) ≡ map f (lstrip s)
unfolding lstrip
lstrip-map f k [] = refl
lstrip-map f k (c ∷ s) = ground (arith, k c, lstrip-map f k s)

keep_before-map :
    (f : ℕ → ℕ)
    → KeepsSpace f
    → (c : ℕ) (s : Text) → keep_before (f c) (map f s) ≡ map f (keep_before c s)
keep_before-map f k c [] = ground (arith, k c)
keep_before-map f k c (d ∷ s) = refl

rstrip-map : (f : ℕ → ℕ) → KeepsSpace f → (s : Text) → rstrip (map f s) ≡ map f (rstrip s)
unfolding rstrip
rstrip-map f k [] = refl
rstrip-map f k (c ∷ s) = rw (rstrip-map f k s) (keep_before-map f k c (rstrip s))

strip-map : (f : ℕ → ℕ) → KeepsSpace f → (s : Text) → strip (map f s) ≡ map f (strip s)
unfolding strip
strip-map f k s = rw (lstrip-map f k s) (rstrip-map f k (lstrip s))

rstrip-keep_before : (c : ℕ) (r : Text) → rstrip r ≡ r → rstrip (keep_before c r) ≡ keep_before c r
unfolding rstrip
rstrip-keep_before c [] h = ground arith
rstrip-keep_before c (d ∷ r) h = rw h

rstrip_idem : (s : Text) → rstrip (rstrip s) ≡ rstrip s
unfolding rstrip
rstrip_idem [] = refl
rstrip_idem (c ∷ s) = rstrip-keep_before c (rstrip s) (rstrip_idem s)

lstrip-rstrip : (c : ℕ) (s : Text) → is_space c ≡ false → lstrip (rstrip (c ∷ s)) ≡ rstrip (c ∷ s)
unfolding lstrip rstrip
lstrip-rstrip c s h = elim (rstrip s) as (λ r. lstrip (keep_before c r) ≡ keep_before c r) [
  | [] ↦ ground arith
  | d ∷ r ↦ ground arith
]

lstrip-strip : (s : Text) → lstrip (strip s) ≡ strip s
unfolding strip lstrip
lstrip-strip [] = unfold rstrip in refl
lstrip-strip (c ∷ s) = elim (Bool-cases (is_space c)) [
  | inl blank ↦ rw blank (lstrip-strip s)
  | inr solid ↦ rw solid (lstrip-rstrip c s solid)
]

pub strip_idem : (s : Text) → strip (strip s) ≡ strip s
unfolding strip
strip_idem s = rw (lstrip-strip s) (rstrip_idem (lstrip s))

-- Cleaning an email address twice is cleaning it once.
pub clean_email_idem : (e : Text) → clean_email (clean_email e) ≡ clean_email e
unfolding clean_email lower
clean_email_idem e =
    rw (← strip-map to_lower to_lower-KeepsSpace (map to_lower e))
      (rw (map_idem to_lower to_lower_idem e) (strip_idem (map to_lower e)))

-- Cleaning a project key twice is cleaning it once.
pub clean_key_idem : (k : Text) → clean_key (clean_key k) ≡ clean_key k
unfolding clean_key upper
clean_key_idem k =
    rw (← strip-map to_upper to_upper-KeepsSpace (map to_upper k))
      (rw (map_idem to_upper to_upper_idem k) (strip_idem (map to_upper k)))
