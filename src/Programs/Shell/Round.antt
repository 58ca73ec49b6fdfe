-- ===== src/Programs/Shell/Round.antt =====
-- One round of the shell on a line.
use osgods.Common.{
  if-true, if-false, ℕ, ◌+◌, ◌-◌, ◌≤◌, ◌<◌, ◌≡◌, refl, sym, ap, ◌∙◌, codes, ◌≢◌, inl, inr, Bool,
  true, false, not, Option, some, List, [], ◌∷◌, ◌++◌, append_assoc, arith, ltb, ◌==◌,
  if◌then◌else◌, lt→ltb, ==_iff, ==_ne, Bool-cases, length, get_elem?, length-append, drop, sub32,
  minus_one, slt, ◌>>=◌, All, get_elem?-lt,
}
use mathlib.Core.Option
use osgods.Console.{store}
use osgods.Programs.{Calls, overlay, literal}
use osgods.Programs.Shell.{ShellRound, exits, again, shell_bufsize, end_line, report, shell_round}
use osgods.Programs.Streams.{overlay-append}
use osgods.Strings.Reverse.{set-middle, get_elem?-middle}
use osgods.Programs.Support.{ece391_fdputs, ece391_strcmp}
use osgods.Programs.Support.Equal.{IsText, ece391_strcmp_eq_zero}

abbrev Answers : Option ℕ → Type 0
Answers o = (r : ℕ) × (o ≡ some r)

if-Answers : (b : Bool) (x y : Option ℕ) → Answers x → Answers y → Answers (if b then x else y)
if-Answers true x y h k = h
if-Answers false x y h k = k

-- A comparison of two C strings ends.
ece391_strcmp-some :
    (s t more others : List ℕ) → Answers (ece391_strcmp (s ++ 0 ∷ more) (t ++ 0 ∷ others))
unfolding ece391_strcmp
ece391_strcmp-some [] [] more others = (0, refl)
ece391_strcmp-some [] (b ∷ t) more others =
    if-Answers _ (some (sub32 0 b)) (some 0) (sub32 0 b, refl) (0, refl)
ece391_strcmp-some (a ∷ s) [] more others = elim (Bool-cases (a == 0)) [
  | inl nul ↦ (0, rw nul refl)
  | inr other ↦ (sub32 a 0, rw other refl)
]
ece391_strcmp-some (a ∷ s) (b ∷ t) more others =
    if-Answers (not (a == b)) (some (sub32 a b)) _ (sub32 a b, refl)
      (if-Answers (a == 0) (some 0) _ (0, refl) (ece391_strcmp-some s t more others))

end_line-newline :
    (line rest : List ℕ)
    → length line < 1024
    → end_line (length line + 1) (line ++ (b'\n' ∷ rest)) ≡ some (line ++ (0 ∷ rest))
unfolding end_line store
end_line-newline line rest small =
    let e : get_elem? (line ++ (b'\n' ∷ rest)) (length line) ≡ some b'\n' =
      get_elem?-middle line rest b'\n' in
    let n : length line + 1 - 1 ≡ length line = omega arith in
    let more : slt 0 (length line + 1) ≡ true = ground arith in
    let fits : ltb (length line) (length (line ++ (b'\n' ∷ rest))) ≡ true =
      lt→ltb (length line) (length (line ++ (b'\n' ∷ rest)))
        (omega (arith, length-append line (b'\n' ∷ rest))) in
    rw (more, n, e, fits) (ap some (set-middle line rest b'\n' 0))

-- The buffer with a line read, its newline replaced.
abbrev pub held : List ℕ → List ℕ → List ℕ → List ℕ
held line extra buf = line ++ (0 ∷ (extra ++ drop (length line + 1 + length extra) buf))

exit-IsText : All IsText (codes "exit")
exit-IsText = (
  (omega arith, omega arith),
  ((omega arith, omega arith), ((omega arith, omega arith), ((omega arith, omega arith), tt))),
)

first_byte :
    (line rest : List ℕ) (c : ℕ)
    → All IsText line
    → line ≢ []
    → get_elem? (line ++ rest) 0 ≡ some c
    → c ≢ 0
first_byte [] rest c text some_byte first z = some_byte refl
first_byte (a ∷ line) rest c text some_byte first z =
    let same : a ≡ c = Option.some_inj.0 first in omega (arith, text.0, same, z)

-- The command of a line that was read, with the result of the comparison and the first byte.
module _ {S : Type 0} (calls : Calls S) (s s1 s2 : S) (line extra buf : List ℕ)
    (prompt : ece391_fdputs calls s 1 (literal "391OS> ") ≡ some s1)
    (got : calls.read s1 0 (shell_bufsize - 1)
      ≡ some (length line + 1, line ++ (b'\n' ∷ extra), s2))
    (fits : length line + 1 + length extra ≤ length buf) (size : length buf ≡ shell_bufsize) where
  run : Option (ShellRound S)
  run = do
    (rval, s3) ← calls.execute s2 (held line extra buf)
    s4 ← report calls s3 rval
    some (again s4 (held line extra buf))

  overlaid :
      overlay (line ++ (b'\n' ∷ extra)) buf
      ≡ some (line ++ (b'\n' ∷ (extra ++ drop (length line + 1 + length extra) buf)))
  overlaid =
      let len : length (line ++ (b'\n' ∷ extra)) ≡ length line + 1 + length extra =
        length-append line (b'\n' ∷ extra) ∙ omega arith in
      overlay-append (line ++ (b'\n' ∷ extra)) buf (omega (arith, len))
      ∙ ap (λ n. some ((line ++ (b'\n' ∷ extra)) ++ drop n buf)) len
      ∙ ap some (append_assoc line (b'\n' ∷ extra) (drop (length line + 1 + length extra) buf))

  shell_round-read :
      (r c : ℕ)
      → ece391_strcmp (held line extra buf) (literal "exit") ≡ some r
      → get_elem? (held line extra buf) 0 ≡ some c
      → shell_round calls s buf ≡ (
          if r == 0
          then some (exits 0 s2)
          else if c == 0
          then some (again s2 (held line extra buf))
          else run)
  unfolding shell_round run
  shell_round-read r c compared first =
      let rest = extra ++ drop (length line + 1 + length extra) buf in
      let count : (length line + 1 == minus_one) ≡ false =
        ==_ne (length line + 1) minus_one (λ e. omega (arith, e)) in
      rw (prompt, got, overlaid, count, end_line-newline line rest (omega arith), compared, first)
        refl

-- Where the prompt is put out and a line of text and its newline are read: the line `exit` ends the
-- shell with status 0; an empty line is passed over; any other line is what `execute` is given, up
-- to its NUL, and the shell goes on after it has said what the status means.
pub shell_round-line :
    {S : Type 0} (calls : Calls S) (s s1 s2 : S) (line extra buf : List ℕ)
    → ece391_fdputs calls s 1 (literal "391OS> ") ≡ some s1
    → calls.read s1 0 (shell_bufsize - 1) ≡ some (length line + 1, line ++ (b'\n' ∷ extra), s2)
    → All IsText line
    → length line + 1 + length extra ≤ length buf
    → length buf ≡ shell_bufsize
    → (line ≡ codes "exit" → shell_round calls s buf ≡ some (exits 0 s2))
      × (line ≡ [] → shell_round calls s buf ≡ some (again s2 (held line extra buf)))
      × (line ≢ codes "exit"
          → line ≢ []
          → shell_round calls s buf ≡ (do
            (rval, s3) ← calls.execute s2 (held line extra buf)
            s4 ← report calls s3 rval
            some (again s4 (held line extra buf))))
unfolding run
shell_round-line calls s s1 s2 line extra buf prompt got text fits size =
    let rest = extra ++ drop (length line + 1 + length extra) buf in
    let (r, compared) = ece391_strcmp-some line (codes "exit") rest [] in
    let (to, from) = ece391_strcmp_eq_zero line (codes "exit") rest [] text exit-IsText in
    let (c, first) =
      get_elem?-lt (held line extra buf) 0 (omega (arith, length-append line (0 ∷ rest))) in
    let step =
      shell_round-read calls s s1 s2 line extra buf prompt got fits size r c compared first in
    let differs : line ≢ codes "exit" → (r == 0) ≡ false =
      λ ne. ==_ne r 0 (λ z. ne (to (compared ∙ ap some z))) in
    (
      λ e.
          let z : r ≡ 0 = Option.some_inj.0 (sym compared ∙ from e) in
          step ∙ if-true (r == 0) _ _ ((==_iff r 0).1 z),
      λ e.
          let z : c ≡ 0 =
            Option.some_inj.0 (sym first ∙ ap (λ l. get_elem? (held l extra buf) 0) e) in
          step
          ∙ if-false (r == 0) _ _ (differs (λ x. let y : [] ≡ codes "exit" = sym e ∙ x in cc))
          ∙ if-true (c == 0) _ _ ((==_iff c 0).1 z),
      λ not_exit not_empty.
          step
          ∙ if-false (r == 0) _ _ (differs not_exit)
          ∙ if-false (c == 0) _ _ (==_ne c 0 (first_byte line (0 ∷ rest) c text not_empty first)),
    )
