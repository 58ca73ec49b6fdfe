-- ===== src/Strings/Number.antt =====
-- The digits of itoa (lib.c) read back as a number.
use osgods.Common.{
  max, ◌≢◌, All, ℕ, zero, suc, ◌+◌, ◌*◌, ◌/◌, ◌^◌, ◌≤◌, ◌<◌, ◌≡◌, refl, sym, ◌∙◌, inl, inr, true,
  false, Option, some, List, [], ◌∷◌, ◌++◌, reverse, arith, ◌==◌, if◌then◌else◌, ==_iff, Bool-cases,
  length, ◌>>=◌,
}
use native.Mathlib.Nat.{pow-succ', mul-le-mul_right, div-add-mod', div-lt_iff_lt-mul, pow-zero}
use native.Mathlib.Numerals.{unary_clauses}
use mathlib.Core.Path.{subst}
use osgods.Strings.{strrev, put_digits, itoa}
use osgods.Strings.Reverse.{strrev-reverse}
use osgods.Strings.Digits.{
  low_value, number_of-reverse, length-reverse, IsDigit, IsNumeral, IsDigit-NoNul, IsDigit-reverse,
  digit-IsDigit,
}

-- What the loop leaves: the digits of the value from the lowest place up, and a NUL.
abbrev Written : ℕ → ℕ → ℕ → ℕ → Option (List ℕ) → Type 0
Written radix n v size out =
    (s : List ℕ) × (rest : List ℕ) × (out ≡ some (s ++ (0 ∷ rest)))
    × (low_value radix s ≡ v)
    × All (IsDigit radix) s
    × (v ≡ 0 → length s ≡ 0)
    × (v ≢ 0 → (0 < length s) × (radix ^ length s ≤ v * radix))
    × (length s ≤ n)
    × (length s + 1 + length rest ≡ size)

-- With the digits of `v / radix`, and no more than them, those of `v` are no more than they have to be.
first_digit :
    (radix v n : ℕ)
    → v ≢ 0
    → (v / radix ≡ 0 → n ≡ 0)
    → (v / radix ≢ 0 → radix ^ n ≤ v / radix * radix)
    → radix ^ suc n ≤ v * radix
first_digit radix v n ne no_more some_more = elim (Bool-cases (v / radix == 0)) [
  | inl nothing ↦
      let none_left : n ≡ 0 = no_more (ground (arith, nothing)) in
      rw (none_left, pow-succ' radix 0, pow-zero radix)
        (subst (λ m. m ≤ v * radix) (omega arith)
          (mul-le-mul_right {m = 1} {n = v} radix (omega (arith, ne))))
  | inr more ↦
      let below : radix ^ n ≤ v =
        omega (arith, some_more (λ z. absurd (ground (arith, z))), div-add-mod' v radix) in
      let step : radix ^ suc n ≡ radix ^ n * radix = pow-succ' radix n ∙ omega arith in
      rw step (mul-le-mul_right {m = radix ^ n} {n = v} radix below)
]

put_digits-Written :
    (radix n v : ℕ) (buf : List ℕ)
    → 1 < radix
    → radix ≤ 36
    → v < radix ^ n
    → n < length buf
    → Written radix n v (length buf) (put_digits radix v buf)
unfolding put_digits
put_digits-Written radix n v [] p q small room = absurd (omega arith)
put_digits-Written radix zero v (b ∷ buf) p q small room =
    let none_left : 0 ≡ v = omega (arith, pow-zero radix) in
    let e : (v == 0) ≡ true = ground arith in
    (
      [],
      buf,
      rw e refl,
      none_left,
      tt,
      (λ z. refl),
      (λ ne. absurd (ne (sym none_left))),
      omega arith,
      omega arith,
    )
put_digits-Written radix (suc n) v (b ∷ buf) p q small room = elim (Bool-cases (v == 0)) [
  | inl nothing ↦
      let zero_v : v ≡ 0 = (==_iff v 0).0 nothing in
      (
        [],
        buf,
        rw nothing refl,
        sym zero_v,
        tt,
        (λ z. refl),
        (λ ne. absurd (ne zero_v)),
        omega arith,
        omega arith,
      )
  | inr more ↦
      let (s, rest, e, value, text, no_more, some_more, bound, size) =
        put_digits-Written radix n (v / radix) buf p q less (omega arith) in
      let (c, d, c_value, ok) = digit-IsDigit radix v p q in
      (
        c ∷ s,
        rest,
        rw (more, d, e) refl,
        rw (value, c_value) (omega (arith, div-add-mod' v radix)),
        (ok, text),
        (λ z. absurd (ground (arith, z))),
        (λ ne. (omega arith, first_digit radix v (length s) ne no_more (λ h. (some_more h).1))),
        omega arith,
        omega (arith, size),
      )
]
  where
    less : v / radix < radix ^ n
    less =
        (div-lt_iff_lt-mul {k = radix} {x = v} {y = radix ^ n} (omega arith)).1
          (simp unary_clauses at small)

itoa-step :
    (value b0 b1 radix : ℕ) (buf : List ℕ)
    → itoa value (b0 ∷ b1 ∷ buf) radix ≡ (
        if value == 0
        then some (b'0' ∷ 0 ∷ buf)
        else (do s ← put_digits radix value (b0 ∷ b1 ∷ buf); strrev s))
unfolding itoa
itoa-step value b0 b1 radix buf = refl

itoa-strrev :
    (value b0 b1 radix : ℕ) (buf s : List ℕ)
    → (value == 0) ≡ false
    → put_digits radix value (b0 ∷ b1 ∷ buf) ≡ some s
    → itoa value (b0 ∷ b1 ∷ buf) radix ≡ strrev s
itoa-strrev value b0 b1 radix buf s more e = rw (itoa-step value b0 b1 radix buf, more, e) refl

-- `itoa` of a number with at most `n` places, into a buffer with room for them and the NUL, writes
-- a C string of at least one and at most `n` digits and capital letters, each of a value below the
-- radix and without a leading zero but for 0 itself, which, read with the highest place first, are the
-- number again; the buffer keeps its size. The radix is at least 2 and at most 36.
pub itoa-number_of :
    (radix n value : ℕ) (buf : List ℕ)
    → 1 < radix
    → radix ≤ 36
    → value < radix ^ n
    → 0 < n
    → n < length buf
    → n < 2 ^ 31
    → (s : List ℕ) × (rest : List ℕ) × (itoa value buf radix ≡ some (s ++ (0 ∷ rest)))
      × IsNumeral radix value s
      × (length s ≤ n)
      × (length s + 1 + length rest ≡ length buf)
unfolding itoa
itoa-number_of radix n value [] p q small some_place room bound = absurd (omega arith)
itoa-number_of radix n value (b ∷ []) p q small some_place room bound = absurd (omega arith)
itoa-number_of radix n value (b0 ∷ b1 ∷ buf) p q small some_place room bound =
    elim (Bool-cases (value == 0)) [
      | inl nothing ↦
          let zero_value : value ≡ 0 = (==_iff value 0).0 nothing in
          (
            b'0' ∷ [],
            buf,
            rw nothing refl,
            (
              omega arith,
              ((inl (omega arith, omega arith), omega arith), tt),
              omega arith,
              rw (zero_value, pow-succ' radix 0, pow-zero radix) (omega arith),
            ),
            omega arith,
            omega arith,
          )
      | inr more ↦
          let (s, rest, e, v, text, _, some_digit, len, size) =
            put_digits-Written radix n value (b0 ∷ b1 ∷ buf) p q small room in
          let (positive, shortest) = some_digit (λ z. absurd (ground (arith, z))) in
          let at_least : max value 1 ≡ value = ground (arith, more) in
          (
            reverse s,
            rest,
            itoa-strrev value b0 b1 radix buf (s ++ (0 ∷ rest)) more e
                ∙ strrev-reverse s rest (IsDigit-NoNul radix s text) (omega arith),
            (
              number_of-reverse radix s ∙ v,
              IsDigit-reverse radix s text,
              omega (arith, length-reverse s, positive),
              rw (length-reverse s, at_least) shortest,
            ),
            omega (arith, length-reverse s),
            omega (arith, length-reverse s, size),
          )
    ]
