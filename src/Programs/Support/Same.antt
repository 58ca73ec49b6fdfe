-- ===== src/Programs/Support/Same.antt =====
-- The string functions of the programs against those of the kernel.
use osgods.Common.{
  ℕ, zero, suc, ◌+◌, ◌/◌, ◌≡◌, refl, sym, ap, ◌∙◌, inl, inr, true, false, Option, none, some, List,
  [], ◌∷◌, arith, ltb, ◌==◌, if◌then◌else◌, Bool-cases, set, get_or, sub32, slt, ◌>>=◌,
}
use mathlib.Core.Option
use osgods.Programs.Support.{
  ece391_digit, ece391_strlen, ece391_strcpy, ece391_swap, ece391_strrev, ece391_digits,
  ece391_itoa,
}
use osgods.Strings.{digit, strlen, strlen_from, strcpy, strrev, swap_loop, put_digits, itoa}

strlen_from-ece391 :
    (k : ℕ) (s : List ℕ) → strlen_from k s ≡ Option.map (λ n. k + n) (ece391_strlen s)
unfolding strlen_from ece391_strlen
strlen_from-ece391 k [] = refl
strlen_from-ece391 k (c ∷ s) = elim (Bool-cases (c == 0)) [
  | inl nul ↦ rw nul (ap some (omega arith))
  | inr other ↦ rw (other, strlen_from-ece391 (k + 1) s) (regroup (ece391_strlen s))
]
  where
    regroup :
        (o : Option ℕ)
        → Option.map (λ n. k + 1 + n) o ≡ Option.map (λ n. k + n) (Option.map (λ n. n + 1) o)
    regroup none = refl
    regroup (some n) = ap some (omega arith)

strlen-ece391 : (s : List ℕ) → strlen s ≡ ece391_strlen s
unfolding strlen
strlen-ece391 s = strlen_from-ece391 0 s ∙ same (ece391_strlen s)
  where
    same : (o : Option ℕ) → Option.map (λ n. 0 + n) o ≡ o
    same none = refl
    same (some n) = ap some (omega arith)

strcpy-ece391 : (dst src : List ℕ) → strcpy dst src ≡ ece391_strcpy dst src
unfolding strcpy ece391_strcpy
strcpy-ece391 dst [] = refl
strcpy-ece391 [] (c ∷ src) = refl
strcpy-ece391 (d ∷ dst) (c ∷ src) = rw (strcpy-ece391 dst src) refl

swap_loop-ece391 : (n beg end : ℕ) (s : List ℕ) → swap_loop n beg end s ≡ ece391_swap n beg end s
unfolding swap_loop ece391_swap
swap_loop-ece391 zero beg end s = refl
swap_loop-ece391 (suc n) beg end s =
    rw
      (swap_loop-ece391 n (beg + 1) (sub32 end 1)
        (set (set s end (get_or s beg 0)) beg (get_or s end 0)))
      refl

swap_loop-short : (n end : ℕ) (s : List ℕ) → slt 0 end ≡ false → swap_loop n 0 end s ≡ s
unfolding swap_loop
swap_loop-short zero end s h = refl
swap_loop-short (suc n) end s h = rw h refl

strrev-ece391 : (s : List ℕ) → strrev s ≡ ece391_strrev s
unfolding strrev ece391_strrev
strrev-ece391 s = rw (strlen-ece391 s) (after (ece391_strlen s))
  where
    after :
        (o : Option ℕ)
        → (do n ← o; some (swap_loop n 0 (sub32 n 1) s))
          ≡ (do n ← o; let end = sub32 n 1; some (if slt 0 end then ece391_swap n 0 end s else s))
    after none = refl
    after (some n) = elim (Bool-cases (slt 0 (sub32 n 1))) [
      | inl more ↦ rw more (ap some (swap_loop-ece391 n 0 (sub32 n 1) s))
      | inr short ↦ rw short (ap some (swap_loop-short n (sub32 n 1) s short))
    ]

digit-ece391 : (radix v : ℕ) → digit radix v ≡ ece391_digit radix v
unfolding digit ece391_digit
digit-ece391 radix v = refl

put_digits-ece391 :
    (radix v : ℕ) (buf : List ℕ) → put_digits radix v buf ≡ ece391_digits radix v buf
unfolding put_digits ece391_digits
put_digits-ece391 radix v [] = refl
put_digits-ece391 radix v (b ∷ buf) = elim (Bool-cases (v == 0)) [
  | inl done ↦ let e : ltb 0 v ≡ false = ground arith in rw (done, e) refl
  | inr more ↦
      let e : ltb 0 v ≡ true = ground arith in
      rw (more, e, digit-ece391 radix v, put_digits-ece391 radix (v / radix) buf) refl
]

itoa-ece391 :
    (value : ℕ) (buf : List ℕ) (radix : ℕ) → itoa value buf radix ≡ ece391_itoa value buf radix
unfolding itoa ece391_itoa
itoa-ece391 value [] radix = refl
itoa-ece391 value (b ∷ []) radix = refl
itoa-ece391 value (b0 ∷ b1 ∷ buf) radix =
    rw (put_digits-ece391 radix value (b0 ∷ b1 ∷ buf))
      (rest (ece391_digits radix value (b0 ∷ b1 ∷ buf)))
  where
    rest :
        (o : Option (List ℕ))
        → (if value == 0 then some (b'0' ∷ 0 ∷ buf) else (do s ← o; strrev s))
          ≡ (if value == 0 then some (b'0' ∷ 0 ∷ buf) else (do s ← o; ece391_strrev s))
    rest none = refl
    rest (some s) = rw (strrev-ece391 s) refl

-- `strlen`, `strcpy`, `strrev` and `itoa` of the programs and of the kernel do the same on every
-- input: the same result, and an access outside a buffer or the table of digits, or a division by 0, for
-- both or for neither.
pub ece391-same :
    (s t buf : List ℕ) (value radix : ℕ)
    → (ece391_strlen s ≡ strlen s)
      × (ece391_strcpy t s ≡ strcpy t s)
      × (ece391_strrev s ≡ strrev s)
      × (ece391_itoa value buf radix ≡ itoa value buf radix)
ece391-same s t buf value radix = (
  sym (strlen-ece391 s),
  sym (strcpy-ece391 t s),
  sym (strrev-ece391 s),
  sym (itoa-ece391 value buf radix),
)
