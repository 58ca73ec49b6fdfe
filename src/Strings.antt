-- ===== src/Strings.antt =====
-- The C strings of lib.c.
pub mod Compare
pub mod Digits
pub mod Number
pub mod Reverse
use osgods.Common.{
  codes, ◌++◌, get_elem?, ℕ, zero, suc, ◌+◌, ◌-◌, ◌/◌, ◌%◌, not, ◌||◌, Option, none, some, List, [],
  ◌∷◌, if◌then◌else◌, ltb, ◌==◌, get_or, set, sub32, slt, sign_extend8, ◌>>=◌,
}
use mathlib.Core.Option

-- A pointer into a buffer is the list of the bytes from there to the end of its object. `none` is
-- an access outside the object.
unfoldable pub strlen_from : ℕ → List ℕ → Option ℕ
strlen_from len [] = none
strlen_from len (c ∷ s) = if c == 0 then some len else strlen_from (len + 1) s

unfoldable pub strlen : List ℕ → Option ℕ
unfolding strlen_from
strlen s = strlen_from 0 s

-- The result is the pattern of an `int`.
unfoldable pub strncmp : List ℕ → List ℕ → ℕ → Option ℕ
strncmp s1 s2 zero = some 0
strncmp [] s2 (suc n) = none
strncmp (a ∷ s1) [] (suc n) = none
strncmp (a ∷ s1) (b ∷ s2) (suc n) =
    if not (a == b) || a == 0
    then some (sub32 (sign_extend8 a) (sign_extend8 b))
    else strncmp s1 s2 n

unfoldable pub strcpy : List ℕ → List ℕ → Option (List ℕ)
strcpy dest [] = none
strcpy [] (c ∷ src) = none
strcpy (d ∷ dest) (c ∷ src) =
    if c == 0 then some (0 ∷ dest) else Option.map (λ r. c ∷ r) (strcpy dest src)

-- The second loop of `strncpy`.
zero_fill : List ℕ → ℕ → Option (List ℕ)
zero_fill dest zero = some dest
zero_fill [] (suc n) = none
zero_fill (d ∷ dest) (suc n) = Option.map (λ r. 0 ∷ r) (zero_fill dest n)

-- `src[i]` is read before `i < n` is tested.
unfoldable pub strncpy : List ℕ → List ℕ → ℕ → Option (List ℕ)
unfolding zero_fill
strncpy dest [] n = none
strncpy dest (c ∷ src) zero = some dest
strncpy [] (c ∷ src) (suc n) = none
strncpy (d ∷ dest) (c ∷ src) (suc n) =
    if c == 0 then zero_fill (d ∷ dest) (suc n) else Option.map (λ r. c ∷ r) (strncpy dest src n)

-- The swap loop of `strrev`, at most `fuel` rounds.
unfoldable pub swap_loop : ℕ → ℕ → ℕ → List ℕ → List ℕ
swap_loop zero beg end s = s
swap_loop (suc fuel) beg end s =
    let rest =
      swap_loop fuel (beg + 1) (sub32 end 1)
        (set (set s end (get_or s beg 0)) beg (get_or s end 0)) in
    if slt beg end then rest else s

unfoldable pub strrev : List ℕ → Option (List ℕ)
unfolding swap_loop
strrev s = do n ← strlen s; some (swap_loop n 0 (sub32 n 1) s)

abbrev pub lookup : List ℕ
lookup = codes "0123456789ABCDEFGHIJKLMNOPQRSTUVWXYZ" ++ (0 ∷ [])

-- `lookup[newval % radix]`; the division by 0 traps.
unfoldable pub digit : ℕ → ℕ → Option ℕ
digit radix newval = if radix == 0 then none else get_elem? lookup (newval % radix)

-- Digits from the lowest place up, then the terminating NUL.
unfoldable pub put_digits : ℕ → ℕ → List ℕ → Option (List ℕ)
unfolding digit
put_digits radix newval [] = none
put_digits radix newval (b ∷ newbuf) =
    if newval == 0
    then some (0 ∷ newbuf)
    else (do c ← digit radix newval; r ← put_digits radix (newval / radix) newbuf; some (c ∷ r))

unfoldable pub itoa : ℕ → List ℕ → ℕ → Option (List ℕ)
unfolding put_digits
itoa value [] radix = none
itoa value (b ∷ []) radix = none
itoa value (b0 ∷ b1 ∷ buf) radix =
    if value == 0
    then some (b'0' ∷ 0 ∷ buf)
    else (do s ← put_digits radix value (b0 ∷ b1 ∷ buf); strrev s)
