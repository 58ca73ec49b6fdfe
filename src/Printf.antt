-- ===== src/Printf.antt =====
-- `printf` and `puts` of lib.c, as the characters that they hand to `putc`.
pub mod Numbers
pub mod Formats
use osgods.Common.{
  ℕ, ◌-◌, Bool, true, false, Option, none, some, List, [], ◌∷◌, ◌++◌, ◌==◌, if◌then◌else◌, length,
  replicate, u8, sub32, is_neg, ◌>>=◌,
}
use mathlib.Core.Option
use osgods.Strings.{itoa}

-- What stands on the stack behind the format: a word, or the address of a string.
pub data Arg : Type 0 where
  word : ℕ → Arg
  text : List ℕ → Arg

-- `puts`: the bytes before the NUL. `none` is a read past the end of the buffer.
unfoldable pub puts : List ℕ → Option (List ℕ)
puts [] = none
puts (c ∷ s) = if c == 0 then some [] else Option.map (λ r. c ∷ r) (puts s)

-- A number converted in a buffer of the given size and put out.
pub number : ℕ → ℕ → ℕ → Option (List ℕ)
unfolding puts
number size radix value = do s ← itoa value (replicate size 0) radix; puts s

-- `%x`, and `%#x` filled up with zeros on the left.
pub hex : Bool → ℕ → Option (List ℕ)
unfolding number
hex false value = number 64 16 value
hex true value = do s ← number 56 16 value; some (replicate (8 - length s) b'0' ++ s)

pub decimal : ℕ → Option (List ℕ)
unfolding number
decimal value =
    let minus = (do s ← number 35 10 (sub32 0 value); some (b'-' ∷ s)) in
    if is_neg value then minus else number 36 10 value

-- One conversion: what it puts out, and the arguments left.
convert : Bool → ℕ → List Arg → Option (List ℕ × List Arg)
unfolding hex decimal puts number
convert alternate c args =
    if c == b'%'
    then some (b'%' ∷ [], args)
    else if c == b'x'
    then (elim args [ word v ∷ r ↦ (do s ← hex alternate v; some (s, r)) | _ ↦ none ])
    else if c == b'u'
    then (elim args [ word v ∷ r ↦ (do s ← number 36 10 v; some (s, r)) | _ ↦ none ])
    else if c == b'd'
    then (elim args [ word v ∷ r ↦ (do s ← decimal v; some (s, r)) | _ ↦ none ])
    else if c == b'c'
    then (elim args [ word v ∷ r ↦ some (u8 v ∷ [], r) | _ ↦ none ])
    else if c == b's'
    then (elim args [ text t ∷ r ↦ (do s ← puts t; some (s, r)) | _ ↦ none ])
    else some ([], args)

-- The loop of `printf`: the mode is `none` between conversions and the flag of `#` behind a '%'.
-- A NUL behind a '%' does not end it.
printf_from : Option Bool → List ℕ → List Arg → Option (List ℕ)
unfolding convert
printf_from mode [] args = none
printf_from none (c ∷ s) args =
    let conversion = printf_from (some false) s args in
    let rest = (do r ← printf_from none s args; some (c ∷ r)) in
    if c == 0 then some [] else if c == b'%' then conversion else rest
printf_from (some alternate) (c ∷ s) args =
    let again = printf_from (some true) s args in
    let rest = (do
      (out, args') ← convert alternate c args
      r ← printf_from none s args'
      some (out ++ r)) in
    if c == b'#' then again else rest

unfoldable pub printf : List ℕ → List Arg → Option (List ℕ)
unfolding printf_from
printf format args = printf_from none format args
