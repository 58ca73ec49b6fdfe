-- ===== src/Programs/Support/Equal.antt =====
-- When the comparisons of the programs find two strings equal.
use osgods.Common.{ℕ, zero, suc, ◌<◌, ◌≡◌, refl, ◌↔◌, some, List, [], ◌∷◌, ◌++◌, arith, All}
use osgods.Programs.Support.{ece391_strcmp, ece391_strncmp}
use osgods.Strings.Compare.{prefix, Readable}

-- `ece391_strncmp` of two readable strings is 0 exactly if they agree up to `n` bytes or a common NUL.
pub ece391_strncmp_eq_zero :
    (n : ℕ) (s t : List ℕ)
    → Readable n s
    → Readable n t
    → (ece391_strncmp s t n ≡ some 0) ↔ (prefix n s ≡ prefix n t)
unfolding ece391_strncmp
ece391_strncmp_eq_zero zero s t p q = (λ _. refl, λ _. refl)
ece391_strncmp_eq_zero (suc n) [] t p q = absurd p
ece391_strncmp_eq_zero (suc n) (a ∷ s) [] p q = absurd q
ece391_strncmp_eq_zero (suc n) (a ∷ s) (b ∷ t) p q = (
  λ h. ground (arith, ece391_strncmp_eq_zero n s t),
  λ h. ground (arith, ece391_strncmp_eq_zero n s t),
)

-- The bytes of a C string before its NUL.
abbrev pub IsText : ℕ → Type 0
IsText c = (0 < c) × (c < 256)

-- `ece391_strcmp` of two C strings, whatever follows their NULs, is 0 exactly if they are the same text.
pub ece391_strcmp_eq_zero :
    (s t more others : List ℕ)
    → All IsText s
    → All IsText t
    → (ece391_strcmp (s ++ 0 ∷ more) (t ++ 0 ∷ others) ≡ some 0) ↔ (s ≡ t)
unfolding ece391_strcmp
ece391_strcmp_eq_zero [] [] more others p q = (λ h. refl, λ h. refl)
ece391_strcmp_eq_zero [] (b ∷ t) more others p q = (λ h. ground arith, λ h. ground arith)
ece391_strcmp_eq_zero (a ∷ s) [] more others p q = (λ h. ground arith, λ h. ground arith)
ece391_strcmp_eq_zero (a ∷ s) (b ∷ t) more others p q = (
  λ h. ground (arith, ece391_strcmp_eq_zero s t more others),
  λ h. ground (arith, ece391_strcmp_eq_zero s t more others),
)
