-- ===== src/Programs/Support.antt =====
-- ece391support.c: the strings of the programs.
pub mod Equal
pub mod Same
use osgods.Common.{
  codes, ◌++◌, get_elem?, ℕ, zero, suc, ◌+◌, ◌/◌, ◌%◌, not, Option, none, some, List, [], ◌∷◌, map,
  ltb, ◌==◌, if◌then◌else◌, set, get_or, sub32, slt, ◌>>=◌,
}
use mathlib.Core.Option
use osgods.Programs.{Calls}

unfoldable pub ece391_strlen : List ℕ → Option ℕ
ece391_strlen [] = none
ece391_strlen (c ∷ s) = if c == 0 then some 0 else Option.map (λ n. n + 1) (ece391_strlen s)

unfoldable pub ece391_strcpy : List ℕ → List ℕ → Option (List ℕ)
ece391_strcpy dst [] = none
ece391_strcpy [] (c ∷ src) = none
ece391_strcpy (d ∷ dst) (c ∷ src) =
    if c == 0 then some (0 ∷ dst) else Option.map (λ r. c ∷ r) (ece391_strcpy dst src)

-- The results are patterns of an `int`.
unfoldable pub ece391_strcmp : List ℕ → List ℕ → Option ℕ
ece391_strcmp [] s2 = none
ece391_strcmp (a ∷ s1) [] = none
ece391_strcmp (a ∷ s1) (b ∷ s2) =
    if not (a == b) then some (sub32 a b) else if a == 0 then some 0 else ece391_strcmp s1 s2

-- With `n` at 0 again after a round the comparison ends with 0, as it does at the start.
unfoldable pub ece391_strncmp : List ℕ → List ℕ → ℕ → Option ℕ
ece391_strncmp s1 s2 zero = some 0
ece391_strncmp [] s2 (suc n) = none
ece391_strncmp (a ∷ s1) [] (suc n) = none
ece391_strncmp (a ∷ s1) (b ∷ s2) (suc n) =
    if not (a == b) then some (sub32 a b) else if a == 0 then some 0 else ece391_strncmp s1 s2 n

-- The result of `write` is thrown away.
unfoldable pub ece391_fdputs : {S : Type 0} → Calls S → S → ℕ → List ℕ → Option S
ece391_fdputs calls s fd text = do
  n ← ece391_strlen text
  (r, s') ← calls.write s fd text n
  some s'

-- The swap loop of `ece391_strrev`, at most `fuel` rounds.
ece391_swap : ℕ → ℕ → ℕ → List ℕ → List ℕ
ece391_swap zero beg end s = s
ece391_swap (suc fuel) beg end s =
    let swapped = set (set s end (get_or s beg 0)) beg (get_or s end 0) in
    let rest = ece391_swap fuel (beg + 1) (sub32 end 1) swapped in if slt beg end then rest else s

unfoldable pub ece391_strrev : List ℕ → Option (List ℕ)
unfolding ece391_swap
ece391_strrev s = do
  n ← ece391_strlen s
  let end = sub32 n 1
  some (if slt 0 end then ece391_swap n 0 end s else s)

abbrev ece391_lookup : List ℕ
ece391_lookup = codes "0123456789ABCDEFGHIJKLMNOPQRSTUVWXYZ" ++ (0 ∷ [])

-- `lookup[newval % radix]`; the division by 0 traps.
unfoldable ece391_digit : ℕ → ℕ → Option ℕ
ece391_digit radix newval = if radix == 0 then none else get_elem? ece391_lookup (newval % radix)

-- The loop that writes the digits from the lowest place up, then the NUL.
ece391_digits : ℕ → ℕ → List ℕ → Option (List ℕ)
unfolding ece391_digit
ece391_digits radix newval [] = none
ece391_digits radix newval (b ∷ newbuf) =
    if ltb 0 newval
    then (do
      c ← ece391_digit radix newval
      r ← ece391_digits radix (newval / radix) newbuf
      some (c ∷ r))
    else some (0 ∷ newbuf)

unfoldable pub ece391_itoa : ℕ → List ℕ → ℕ → Option (List ℕ)
unfolding ece391_digits
ece391_itoa value [] radix = none
ece391_itoa value (b ∷ []) radix = none
ece391_itoa value (b0 ∷ b1 ∷ buf) radix =
    if value == 0
    then some (b'0' ∷ 0 ∷ buf)
    else (do s ← ece391_digits radix value (b0 ∷ b1 ∷ buf); ece391_strrev s)
