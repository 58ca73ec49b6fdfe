-- ===== src/Printf/Numbers.antt =====
-- The numbers and texts of printf are put out without a fault and without a backspace.
use osgods.Common.{
  ℕ, zero, suc, ◌-◌, ◌^◌, ◌≤◌, ◌<◌, ◌≡◌, refl, ◌≢◌, Bool, true, false, some, List, [], ◌∷◌, ◌++◌,
  arith, ==_ne, length, replicate, length-replicate, sub32, is_neg, All, Ensures, Ensures-bind,
  Ensures-if,
}
use osgods.Printf.{puts, number, hex, decimal}
use osgods.Strings.Digits.{IsDigit, IsDigit-NoNul}
use osgods.Strings.Number.{itoa-number_of}
use osgods.Strings.Reverse.{NoNul}

-- A character that is no backspace.
abbrev pub NoBackspace : ℕ → Type 0
NoBackspace ch = ch ≢ 8

-- `puts` gives the text before the NUL.
pub puts-text : (s rest : List ℕ) → NoNul s → puts (s ++ (0 ∷ rest)) ≡ some s
unfolding puts
puts-text [] rest h = refl
puts-text (c ∷ s) rest h = rw (==_ne c 0 h.0, puts-text s rest h.1) refl

pub NoBackspace-append :
    (xs ys : List ℕ) → All NoBackspace xs → All NoBackspace ys → All NoBackspace (xs ++ ys)
NoBackspace-append [] ys p q = q
NoBackspace-append (x ∷ xs) ys p q = (p.0, NoBackspace-append xs ys p.1 q)

NoBackspace-replicate : (n c : ℕ) → c ≢ 8 → All NoBackspace (replicate n c)
NoBackspace-replicate zero c h = tt
NoBackspace-replicate (suc n) c h = (h, NoBackspace-replicate n c h)

IsDigit-NoBackspace : (radix : ℕ) (s : List ℕ) → All (IsDigit radix) s → All NoBackspace s
IsDigit-NoBackspace radix [] h = tt
IsDigit-NoBackspace radix (c ∷ s) h =
    ((λ e. ground (arith, h.0.0, e)), IsDigit-NoBackspace radix s h.1)

-- A number with at most `n` places in a buffer with room for them.
pub number-NoBackspace :
    (size radix n v : ℕ)
    → 1 < radix
    → radix ≤ 36
    → v < radix ^ n
    → 0 < n
    → n < size
    → n < 2 ^ 31
    → Ensures (All NoBackspace) (number size radix v)
unfolding number
number-NoBackspace size radix n v p q small place room bound =
    let (s, rest, e, numeral, short, full) =
      itoa-number_of radix n v (replicate size 0) p q small place
        (omega (arith, length-replicate {A = ℕ} size 0)) bound in
    rw (e, puts-text s rest (IsDigit-NoNul radix s numeral.1))
      (IsDigit-NoBackspace radix s numeral.1)

pub hex-NoBackspace :
    (alternate : Bool) (v : ℕ) → v < 2 ^ 32 → Ensures (All NoBackspace) (hex alternate v)
unfolding hex
hex-NoBackspace false v small =
    number-NoBackspace 64 16 8 v (omega arith) (omega arith) small (omega arith) (omega arith)
      (omega arith)
hex-NoBackspace true v small =
    Ensures-bind (All NoBackspace) (All NoBackspace) (number 56 16 v) _
      (number-NoBackspace 56 16 8 v (omega arith) (omega arith) small (omega arith) (omega arith)
        (omega arith))
      (λ s h.
        NoBackspace-append (replicate (8 - length s) b'0') s
          (NoBackspace-replicate (8 - length s) b'0' (λ e. omega (arith, e))) h)

pub decimal-NoBackspace : (v : ℕ) → v < 2 ^ 32 → Ensures (All NoBackspace) (decimal v)
unfolding decimal
decimal-NoBackspace v small =
    Ensures-if (All NoBackspace) (is_neg v) _ _
      (λ neg.
        Ensures-bind (All NoBackspace) (All NoBackspace) (number 35 10 (sub32 0 v)) _
          (number-NoBackspace 35 10 10 (sub32 0 v) (omega arith) (omega arith) (ground arith)
            (omega arith) (omega arith) (omega arith))
          (λ s h. ((λ e. omega (arith, e)), h)))
      (λ pos.
        number-NoBackspace 36 10 10 v (omega arith) (omega arith) (omega arith) (omega arith)
          (omega arith) (omega arith))
