-- ===== src/Strings/Digits.antt =====
-- Texts of digits and the numbers that they denote.
use osgods.Common.{
  max, leb, ◌&&◌, ◌||◌, Bool, none, ◌⊎◌, get_elem?, holds_below, holds_below-at, All, ℕ, ◌+◌, ◌-◌,
  ◌*◌, ◌%◌, ◌^◌, ◌≤◌, ◌<◌, ◌≡◌, refl, true, false, Option, some, List, [], ◌∷◌, ◌++◌, reverse,
  reverse-append, arith, ltb, ◌==◌, if◌then◌else◌, length, length-append,
}
use native.Mathlib.Nat.{mod-lt}
use osgods.Strings.{lookup, digit}
use osgods.Strings.Reverse.{NoNul}

abbrev pub digit_value : ℕ → ℕ
digit_value c = if ltb c b'A' then c - b'0' else c - b'A' + 10

-- The number that a text of digits denotes, the highest place first.
abbrev pub number_of : ℕ → ℕ → List ℕ → ℕ
number_of radix acc [] = acc
number_of radix acc (c ∷ s) = number_of radix (acc * radix + digit_value c) s

-- The same with the lowest place first.
abbrev pub low_value : ℕ → List ℕ → ℕ
low_value radix [] = 0
low_value radix (c ∷ s) = digit_value c + low_value radix s * radix

number_of-snoc :
    (radix acc c : ℕ) (s : List ℕ)
    → number_of radix acc (s ++ (c ∷ [])) ≡ number_of radix acc s * radix + digit_value c
number_of-snoc radix acc c [] = refl
number_of-snoc radix acc c (d ∷ s) = number_of-snoc radix (acc * radix + digit_value d) c s

pub number_of-reverse : (radix : ℕ) (s : List ℕ) → number_of radix 0 (reverse s) ≡ low_value radix s
number_of-reverse radix [] = refl
number_of-reverse radix (c ∷ s) =
    rw (reverse-append (c ∷ []) s, number_of-snoc radix 0 c (reverse s), number_of-reverse radix s)
      (omega arith)

pub length-reverse : (s : List ℕ) → length (reverse s) ≡ length s
length-reverse [] = refl
length-reverse (c ∷ s) =
    rw (reverse-append (c ∷ []) s, length-append (reverse s) (c ∷ []))
      (omega (arith, length-reverse s))

-- A digit or a capital letter whose value is below the radix.
abbrev pub IsDigit : ℕ → ℕ → Type 0
IsDigit radix c = (((b'0' ≤ c) × (c ≤ b'9')) ⊎ ((b'A' ≤ c) × (c ≤ b'Z'))) × (digit_value c < radix)

-- The text of a number: its digits, without a zero in front unless it is the only digit.
abbrev pub IsNumeral : ℕ → ℕ → List ℕ → Type 0
IsNumeral radix value s =
    (number_of radix 0 s ≡ value)
    × All (IsDigit radix) s
    × (0 < length s)
    × (radix ^ length s ≤ max value 1 * radix)

pub IsDigit-NoNul : (radix : ℕ) (s : List ℕ) → All (IsDigit radix) s → NoNul s
IsDigit-NoNul radix [] h = tt
IsDigit-NoNul radix (c ∷ s) h = ((λ e. ground (arith, h.0.0, e)), IsDigit-NoNul radix s h.1)

IsDigit-append :
    (radix : ℕ) (s t : List ℕ)
    → All (IsDigit radix) s
    → All (IsDigit radix) t
    → All (IsDigit radix) (s ++ t)
IsDigit-append radix [] t p q = q
IsDigit-append radix (c ∷ s) t p q = (p.0, IsDigit-append radix s t p.1 q)

pub IsDigit-reverse :
    (radix : ℕ) (s : List ℕ) → All (IsDigit radix) s → All (IsDigit radix) (reverse s)
IsDigit-reverse radix [] h = tt
IsDigit-reverse radix (c ∷ s) h =
    rw (reverse-append (c ∷ []) s)
      (IsDigit-append radix (reverse s) (c ∷ []) (IsDigit-reverse radix s h.1) (h.0, tt))

-- The character is the digit of value `d`.
abbrev is_digit : ℕ → Option ℕ → Bool
is_digit d none = false
is_digit d (some c) =
    (digit_value c == d) && ((leb b'0' c && leb c b'9') || (leb b'A' c && leb c b'Z'))

lookup_table : holds_below 36 (λ d. is_digit d (get_elem? lookup d)) ≡ true
unfolding holds_below
lookup_table = refl

is_digit-some :
    (radix d : ℕ) (o : Option ℕ)
    → is_digit d o ≡ true
    → d < radix
    → (c : ℕ) × (o ≡ some c) × (digit_value c ≡ d) × IsDigit radix c
is_digit-some radix d none h lt = absurd (ground (arith, h))
is_digit-some radix d (some c) h lt =
    (c, refl, ground (arith, h), (ground (arith, h), ground (arith, h)))

pub digit-IsDigit :
    (radix v : ℕ)
    → 1 < radix
    → radix ≤ 36
    → (c : ℕ) × (digit radix v ≡ some c) × (digit_value c ≡ v % radix) × IsDigit radix c
unfolding digit
digit-IsDigit radix v p q =
    let low : v % radix < radix = mod-lt v (omega arith) in
    let (c, e, value, ok) =
      is_digit-some radix (v % radix) (get_elem? lookup (v % radix))
        (holds_below-at 36 _ (v % radix) lookup_table (omega (arith, low))) low in
    let divides : (radix == 0) ≡ false = ground arith in (c, rw divides e, value, ok)
