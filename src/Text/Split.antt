-- ===== src/Text/Split.antt =====
-- Texts that are joined by a separator.
use multi_tenant_saas.Base.{ℕ, ◌≡◌, refl, ap, false, [], ◌∷◌, ◌++◌, ◌==◌, arith, any}
use multi_tenant_saas.Text.{Text}

abbrev tail_of : Text → Text
tail_of [] = []
tail_of (_ ∷ s) = s

abbrev head_or : ℕ → Text → ℕ
head_or d [] = d
head_or d (c ∷ _) = c

heads : (c d : ℕ) (s t : Text) → Path Text (c ∷ s) (d ∷ t) → c ≡ d
heads c d s t e = ap (head_or 0) e

tails : (c d : ℕ) (s t : Text) → Path Text (c ∷ s) (d ∷ t) → Path Text s t
tails c d s t e = ap tail_of e

-- Up to its first separator, a text is determined.
pub split_at :
    (separator : ℕ) (a b r s : Text)
    → any (λ c. c == separator) a ≡ false
    → any (λ c. c == separator) b ≡ false
    → a ++ separator ∷ r ≡ b ++ separator ∷ s
    → (Path Text a b) × (Path Text r s)
split_at separator [] [] r s ha hb e = (refl, tails separator separator r s e)
split_at separator [] (d ∷ b) r s ha hb e =
    let same = heads separator d r (b ++ separator ∷ s) e in absurd (ground arith)
split_at separator (c ∷ a) [] r s ha hb e =
    let same = heads c separator (a ++ separator ∷ r) s e in absurd (ground arith)
split_at separator (c ∷ a) (d ∷ b) r s ha hb e =
    let same = heads c d (a ++ separator ∷ r) (b ++ separator ∷ s) e in
    let (f, g) =
      split_at separator a b r s (ground arith) (ground arith)
        (tails c d (a ++ separator ∷ r) (b ++ separator ∷ s) e) in
    (cc (same, f), g)
