-- ===== src/Printf/Formats.antt =====
-- The formats by which printf never fails.
use osgods.Common.{
  ℕ, ◌^◌, ◌<◌, ◌≡◌, refl, inl, inr, Bool, true, false, not, ◌&&◌, ◌||◌, Option, none, some, List,
  [], ◌∷◌, ◌++◌, arith, ◌==◌, if◌then◌else◌, ==_iff, Bool-cases, ◌>>=◌, All, Ensures, Ensures-bind,
  Ensures-if,
}
use osgods.Printf.{Arg, word, text, number, hex, decimal, convert, printf_from, printf}
use osgods.Strings.Reverse.{NoNul}
use osgods.Printf.Numbers.{
  NoBackspace, NoBackspace-append, puts-text, number-NoBackspace, hex-NoBackspace,
  decimal-NoBackspace,
}

-- What a conversion takes: a word of 32 bits, or the address of a C string without backspaces.
pub data Kind : Type 0 where
  a_word a_text : Kind

abbrev pub HasKind : Kind → Arg → Type 0
HasKind a_word (word v) = v < 2 ^ 32
HasKind a_word (text t) = ⊥
HasKind a_text (word v) = ⊥
HasKind a_text (text t) =
    (s : List ℕ) × (rest : List ℕ) × (t ≡ s ++ (0 ∷ rest)) × NoNul s × All NoBackspace s

abbrev pub HaveKinds : List Kind → List Arg → Type 0
HaveKinds [] args = Unit {0}
HaveKinds (k ∷ kinds) [] = ⊥
HaveKinds (k ∷ kinds) (a ∷ args) = HasKind k a × HaveKinds kinds args

abbrev takes_word : ℕ → Bool
takes_word c = (c == b'x') || ((c == b'u') || (c == b'd'))

-- The format is a C string without backspaces whose conversions are %x, %u, %d, %s and %%, `#` in
-- them or not, that take arguments of these kinds in turn. The mode is that of the loop.
abbrev pub is_format : Option Bool → List ℕ → List Kind → Bool
is_format mode [] kinds = false
is_format none (c ∷ s) kinds =
    let inside = is_format (some false) s kinds in
    let rest = is_format none s kinds in
    if c == 0 then true else if c == b'%' then inside else not (c == 8) && rest
is_format (some alternate) (c ∷ s) [] =
    let again = is_format (some true) s [] in
    let rest = is_format none s [] in if c == b'#' then again else (c == b'%') && rest
is_format (some alternate) (c ∷ s) (a_word ∷ kinds) =
    let again = is_format (some true) s (a_word ∷ kinds) in
    let percent = is_format none s (a_word ∷ kinds) in
    let rest = is_format none s kinds in
    if c == b'#' then again else if c == b'%' then percent else takes_word c && rest
is_format (some alternate) (c ∷ s) (a_text ∷ kinds) =
    let again = is_format (some true) s (a_text ∷ kinds) in
    let percent = is_format none s (a_text ∷ kinds) in
    let rest = is_format none s kinds in
    if c == b'#' then again else if c == b'%' then percent else (c == b's') && rest

-- What a conversion must give: characters that are no backspaces, and the arguments behind.
abbrev Converts : List Arg → List ℕ × List Arg → Type 0
Converts rest r = All NoBackspace r.0 × (r.1 ≡ rest)

paired :
    (m : Option (List ℕ)) (rest : List Arg)
    → Ensures (All NoBackspace) m
    → Ensures (Converts rest) (do s ← m; some (s, rest))
paired m rest h =
    Ensures-bind (All NoBackspace) (Converts rest) m (λ s. some (s, rest)) h (λ s p. (p, refl))

convert-word :
    (alternate : Bool) (c v : ℕ) (rest : List Arg)
    → takes_word c ≡ true
    → v < 2 ^ 32
    → Ensures (Converts rest) (convert alternate c (word v ∷ rest))
unfolding convert
convert-word alternate c v rest h small = elim (Bool-cases (c == b'x')) [
  | inl x ↦
      let e : c ≡ b'x' = (==_iff c b'x').0 x in
      rw e (paired (hex alternate v) rest (hex-NoBackspace alternate v small))
  | inr no_x ↦ elim (Bool-cases (c == b'u')) [
    | inl u ↦
        let e : c ≡ b'u' = (==_iff c b'u').0 u in
        rw e (
          paired (number 36 10 v) rest (
            number-NoBackspace 36 10 10 v (omega arith) (omega arith) (omega arith) (omega arith)
              (omega arith) (omega arith)))
    | inr no_u ↦
        let e : c ≡ b'd' = ground (arith, h) in
        rw e (paired (decimal v) rest (decimal-NoBackspace v small))
  ]
]

convert-text :
    (alternate : Bool) (s after : List ℕ) (rest : List Arg)
    → NoNul s
    → convert alternate b's' (text (s ++ (0 ∷ after)) ∷ rest) ≡ some (s, rest)
unfolding convert
convert-text alternate s after rest h = rw (puts-text s after h) refl

convert-percent :
    (alternate : Bool) (args : List Arg) → convert alternate b'%' args ≡ some (b'%' ∷ [], args)
unfolding convert
convert-percent alternate args = refl

-- The rounds of the loop.
plain_round :
    (c : ℕ) (s : List ℕ) (args : List Arg)
    → printf_from none (c ∷ s) args ≡ (
        if c == 0
        then some []
        else if c == b'%'
        then printf_from (some false) s args
        else (do r ← printf_from none s args; some (c ∷ r)))
unfolding printf_from
plain_round c s args = refl

conversion_round :
    (alternate : Bool) (c : ℕ) (s : List ℕ) (args : List Arg)
    → printf_from (some alternate) (c ∷ s) args ≡ (
        if c == b'#' then printf_from (some true) s args else (do
          (out, args') ← convert alternate c args
          r ← printf_from none s args'
          some (out ++ r)))
unfolding printf_from
conversion_round alternate c s args = refl

-- A conversion that gives what it must, and the rest of the format behind it.
converted :
    (alternate : Bool) (c : ℕ) (s : List ℕ) (args rest : List Arg)
    → Ensures (Converts rest) (convert alternate c args)
    → Ensures (All NoBackspace) (printf_from none s rest)
    → Ensures
        (All NoBackspace)
        (do (out, args') ← convert alternate c args; r ← printf_from none s args'; some (out ++ r))
converted alternate c s args rest h k =
    Ensures-bind (Converts rest) (All NoBackspace) (convert alternate c args) _ h (λ r p.
      Ensures-bind (All NoBackspace) (All NoBackspace) (printf_from none s r.1) _ (rw p.1 k)
        (λ t q. NoBackspace-append r.0 t p.0 q))

percent_sign :
    (alternate : Bool) (c : ℕ) (s : List ℕ) (args : List Arg)
    → c ≡ b'%'
    → Ensures (All NoBackspace) (printf_from none s args)
    → Ensures
        (All NoBackspace)
        (do (out, args') ← convert alternate c args; r ← printf_from none s args'; some (out ++ r))
percent_sign alternate c s args e k =
    converted alternate c s args args
      (rw (e, convert-percent alternate args) (((λ x. omega (arith, x)), tt), refl)) k

printf_from-NoBackspace :
    (mode : Option Bool) (s : List ℕ) (kinds : List Kind) (args : List Arg)
    → is_format mode s kinds ≡ true
    → HaveKinds kinds args
    → Ensures (All NoBackspace) (printf_from mode s args)
printf_from-NoBackspace none [] kinds args f h = absurd (ground (arith, f))
printf_from-NoBackspace (some alternate) [] kinds args f h = absurd (ground (arith, f))
printf_from-NoBackspace none (c ∷ s) kinds args f h = rw (plain_round c s args) (
    Ensures-if (All NoBackspace) (c == 0) _ _ (λ nul. tt)
      (λ more.
        Ensures-if (All NoBackspace) (c == b'%') _ _
          (λ percent. printf_from-NoBackspace (some false) s kinds args (ground (arith, f)) h)
          (λ other.
            Ensures-bind (All NoBackspace) (All NoBackspace) (printf_from none s args) _
              (printf_from-NoBackspace none s kinds args (ground (arith, f)) h)
              (λ r p. ((λ e. ground (arith, f, e)), p)))))
printf_from-NoBackspace (some alternate) (c ∷ s) [] args f h =
    rw (conversion_round alternate c s args) (
      Ensures-if (All NoBackspace) (c == b'#') _ _
        (λ again. printf_from-NoBackspace (some true) s [] args (ground (arith, f)) h)
        (λ letter.
          percent_sign alternate c s args (ground (arith, f))
            (printf_from-NoBackspace none s [] args (ground (arith, f)) h)))
printf_from-NoBackspace (some alternate) (c ∷ s) (k ∷ kinds) [] f h = absurd h
printf_from-NoBackspace (some alternate) (c ∷ s) (a_word ∷ kinds) (text t ∷ args) f h = absurd h.0
printf_from-NoBackspace (some alternate) (c ∷ s) (a_text ∷ kinds) (word v ∷ args) f h = absurd h.0
printf_from-NoBackspace (some alternate) (c ∷ s) (a_word ∷ kinds) (word v ∷ args) f h =
    rw (conversion_round alternate c s (word v ∷ args)) (
      Ensures-if (All NoBackspace) (c == b'#') _ _
        (λ again.
          printf_from-NoBackspace (some true) s (a_word ∷ kinds) (word v ∷ args) (ground (arith, f))
            h)
        (λ letter. elim (Bool-cases (c == b'%')) [
          | inl percent ↦ percent_sign alternate c s (word v ∷ args) ((==_iff c b'%').0 percent) (
              printf_from-NoBackspace none s (a_word ∷ kinds) (word v ∷ args) (ground (arith, f)) h)
          | inr conversion ↦
              converted alternate c s (word v ∷ args) args
                (convert-word alternate c v args (ground (arith, f)) h.0)
                (printf_from-NoBackspace none s kinds args (ground (arith, f)) h.1)
        ]))
printf_from-NoBackspace (some alternate) (c ∷ s) (a_text ∷ kinds) (text t ∷ args) f h =
    rw (conversion_round alternate c s (text t ∷ args)) (
      Ensures-if (All NoBackspace) (c == b'#') _ _
        (λ again.
          printf_from-NoBackspace (some true) s (a_text ∷ kinds) (text t ∷ args) (ground (arith, f))
            h)
        (λ letter. elim (Bool-cases (c == b'%')) [
          | inl percent ↦ percent_sign alternate c s (text t ∷ args) ((==_iff c b'%').0 percent) (
              printf_from-NoBackspace none s (a_text ∷ kinds) (text t ∷ args) (ground (arith, f)) h)
          | inr conversion ↦
              let e : c ≡ b's' = ground (arith, f) in
              let (str, after, same, nul, plain) = h.0 in
              converted alternate c s (text t ∷ args) args
                (rw (e, same, convert-text alternate str after args nul) (plain, refl))
                (printf_from-NoBackspace none s kinds args (ground (arith, f)) h.1)
        ]))

-- With a format that is a C string without backspaces, whose conversions are %x, %u, %d, %s and %%,
-- with `#` or not, and with the arguments that they ask for, words of 32 bits and C strings without
-- backspaces, `printf` does not fail, and puts out no backspace.
pub printf-NoBackspace :
    (format : List ℕ) (kinds : List Kind) (args : List Arg)
    → is_format none format kinds ≡ true
    → HaveKinds kinds args
    → Ensures (All NoBackspace) (printf format args)
unfolding printf
printf-NoBackspace format kinds args = printf_from-NoBackspace none format kinds args
