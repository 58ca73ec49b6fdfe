-- ===== src/Process/Parse.antt =====
-- What `parse_cmd` makes of a command: its first two words, and where that fails.
use osgods.Common.{
  ℕ, suc, ◌+◌, ◌≤◌, ◌<◌, ◌≡◌, refl, ap, inl, inr, false, none, some, List, [], ◌∷◌, ◌++◌, arith,
  leb, ◌==◌, if◌then◌else◌, Bool-cases, length, take, drop,
}
use osgods.Strings.Reverse.{NoNul, strlen-text}
use osgods.Process.{max_argument_size, skip_spaces, copy_name, copy_argument, parse_cmd}

-- The characters up to the first space, and those from it on.
abbrev pub first_word : List ℕ → List ℕ
first_word [] = []
first_word (c ∷ s) = if c == b' ' then [] else c ∷ first_word s

abbrev pub after_word : List ℕ → List ℕ
after_word [] = []
after_word (c ∷ s) = if c == b' ' then c ∷ s else after_word s

-- The first word of a command, and the second.
unfoldable pub command_name : List ℕ → List ℕ
command_name s = first_word (skip_spaces s)

unfoldable pub command_argument : List ℕ → List ℕ
command_argument s = first_word (skip_spaces (after_word (skip_spaces s)))

-- An array that begins with `w` and a NUL, and goes on as before.
abbrev pub holding : List ℕ → List ℕ → List ℕ
holding w xs = w ++ (0 ∷ drop (length w + 1) xs)

drop-suc {ℓ} :
    {A : Type ℓ} (n : ℕ) (x : A) (xs : List A) → drop (suc n + 1) (x ∷ xs) ≡ drop (n + 1) xs
drop-suc n x xs = ap (λ k. drop k (x ∷ xs)) step
  where
    step : suc n + 1 ≡ suc (n + 1)
    step = omega arith

copy_name-holding :
    (s filename : List ℕ)
    → length (first_word s) < length filename
    → copy_name filename s ≡ some (holding (first_word s) filename, after_word s)
unfolding copy_name
copy_name-holding s [] h = elim h [ ]
copy_name-holding [] (d ∷ filename) h = refl
copy_name-holding (c ∷ s) (d ∷ filename) h = elim (Bool-cases (c == b' ')) [
  | inl space ↦ rw space
  | inr other ↦
      let fits : length (first_word s) < length filename = ground arith in
      rw (other, copy_name-holding s filename fits, drop-suc (length (first_word s)) d filename)
]

copy_name-overflow :
    (s filename : List ℕ) → length filename ≤ length (first_word s) → copy_name filename s ≡ none
unfolding copy_name
copy_name-overflow s [] h = refl
copy_name-overflow [] (d ∷ filename) h = elim h [ ]
copy_name-overflow (c ∷ s) (d ∷ filename) h = elim (Bool-cases (c == b' ')) [
  | inl space ↦ absurd (ground arith)
  | inr other ↦ rw (other, copy_name-overflow s filename (ground arith))
]

-- Starting at `n`, with the rest of the array to fill.
copy_argument-holding :
    (s buf : List ℕ) (n : ℕ)
    → length (first_word s) < length buf
    → n + length buf ≡ max_argument_size
    → copy_argument n buf s ≡ some (some (holding (first_word s) buf))
unfolding copy_argument
copy_argument-holding s [] n h e = elim h [ ]
copy_argument-holding [] (d ∷ buf) n h e = refl
copy_argument-holding (c ∷ s) (d ∷ buf) n h e = elim (Bool-cases (c == b' ')) [
  | inl space ↦ rw space
  | inr other ↦
      let fits : length (first_word s) < length buf = ground arith in
      let room : leb max_argument_size n ≡ false = ground arith in
      rw (
        other,
        room,
        copy_argument-holding s buf (n + 1) fits (omega arith),
        drop-suc (length (first_word s)) d buf,
      )
]

copy_argument-refused :
    (s buf : List ℕ) (n : ℕ)
    → length buf < length (first_word s)
    → n + length buf ≡ max_argument_size
    → copy_argument n buf s ≡ some none
unfolding copy_argument
copy_argument-refused [] buf n h e = elim h [ ]
copy_argument-refused (c ∷ s) [] n h e = ground arith
copy_argument-refused (c ∷ s) (d ∷ buf) n h e = elim (Bool-cases (c == b' ')) [
  | inl space ↦ absurd (ground arith)
  | inr other ↦
      let room : leb max_argument_size n ≡ false = ground arith in
      rw (other, room, copy_argument-refused s buf (n + 1) (ground arith) (omega arith))
]

copy_argument-overflow :
    (s buf : List ℕ) (n : ℕ)
    → length (first_word s) ≡ length buf
    → n + length buf ≡ max_argument_size
    → copy_argument n buf s ≡ none
unfolding copy_argument
copy_argument-overflow [] [] n h e = refl
copy_argument-overflow [] (d ∷ buf) n h e = absurd (omega arith)
copy_argument-overflow (c ∷ s) [] n h e = ground arith
copy_argument-overflow (c ∷ s) (d ∷ buf) n h e = elim (Bool-cases (c == b' ')) [
  | inl space ↦ absurd (ground arith)
  | inr other ↦
      let room : leb max_argument_size n ≡ false = ground arith in
      rw (other, room, copy_argument-overflow s buf (n + 1) (ground arith) (omega arith))
]

take-text : (s rest : List ℕ) → take (length s) (s ++ rest) ≡ s
take-text [] rest = refl
take-text (c ∷ s) rest = ap (λ r. c ∷ r) (take-text s rest)

-- On a command `s` and arrays of which the second has its 128 bytes, `parse_cmd` stores the first
-- word and the second word of `s`, each with a NUL, if both fit below the sizes of the arrays; it
-- returns -1 if the second word has more than 128 characters; and it writes past the end of an
-- array if the first word fills its array, or the second word has exactly 128 characters.
pub parse_cmd-words :
    (s rest filename buf : List ℕ)
    → NoNul s
    → length buf ≡ max_argument_size
    → let parsed = parse_cmd (s ++ (0 ∷ rest)) filename (some buf) in
      let name = command_name s in
      let argument = command_argument s in
      (length name < length filename
        → length argument < max_argument_size
        → parsed ≡ some (some (holding name filename, holding argument buf)))
      × (length name < length filename → max_argument_size < length argument → parsed ≡ some none)
      × (length filename ≤ length name → parsed ≡ none)
      × (length name < length filename → length argument ≡ max_argument_size → parsed ≡ none)
unfolding parse_cmd command_name command_argument
parse_cmd-words s rest filename buf text size =
    rw (strlen-text s rest text, take-text s (0 ∷ rest))
      (
        λ name argument.
            rw
              (
                copy_name-holding (skip_spaces s) filename name,
                copy_argument-holding (skip_spaces (after_word (skip_spaces s))) buf 0 (omega arith)
                    (omega arith),
              )
              refl,
        λ name argument.
            rw
              (
                copy_name-holding (skip_spaces s) filename name,
                copy_argument-refused (skip_spaces (after_word (skip_spaces s))) buf 0 (omega arith)
                    (omega arith),
              )
              refl,
        λ name. rw (copy_name-overflow (skip_spaces s) filename name) refl,
        λ name argument.
            rw
              (
                copy_name-holding (skip_spaces s) filename name,
                copy_argument-overflow (skip_spaces (after_word (skip_spaces s))) buf 0
                    (omega arith) (omega arith),
              )
              refl,
      )
