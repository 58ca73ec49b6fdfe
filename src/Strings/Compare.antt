-- ===== src/Strings/Compare.antt =====
-- Comparison and copying of C strings.
use osgods.Common.{
  ℕ, zero, suc, ◌<◌, ◌≡◌, refl, ◌↔◌, ◌⊎◌, some, List, [], ◌∷◌, arith, if◌then◌else◌, ◌==◌,
}
use osgods.Strings.{strncmp}

-- The characters of a C string, read for at most `n` bytes.
abbrev pub prefix : ℕ → List ℕ → List ℕ
prefix zero s = []
prefix (suc n) [] = []
prefix (suc n) (c ∷ s) = if c == 0 then [] else c ∷ prefix n s

-- The buffer holds `n` bytes, or a NUL before.
abbrev pub Readable : ℕ → List ℕ → Type 0
Readable zero s = Unit {0}
Readable (suc n) [] = ⊥
Readable (suc n) (c ∷ s) = (c < 256) × ((c ≡ 0) ⊎ Readable n s)

-- A comparison of readable strings is 0 exactly if they agree up to `n` bytes or a common NUL.
pub strncmp_eq_zero :
    (n : ℕ) (s t : List ℕ)
    → Readable n s
    → Readable n t
    → (strncmp s t n ≡ some 0) ↔ (prefix n s ≡ prefix n t)
unfolding strncmp
strncmp_eq_zero zero s t p q = (λ _. refl, λ _. refl)
strncmp_eq_zero (suc n) [] t p q = absurd p
strncmp_eq_zero (suc n) (a ∷ s) [] p q = absurd q
strncmp_eq_zero (suc n) (a ∷ s) (b ∷ t) p q =
    (λ h. ground (arith, strncmp_eq_zero n s t), λ h. ground (arith, strncmp_eq_zero n s t))
