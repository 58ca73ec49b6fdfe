-- ===== src/Programs/Pingpong/Board.antt =====
-- What the pingpong draws.
use osgods.Common.{
  ℕ, zero, suc, ◌+◌, ◌-◌, ◌≤◌, ◌<◌, ◌≡◌, refl, sym, ap, ◌∙◌, ◌≢◌, ◌⊎◌, inl, inr, some, List, [],
  ◌∷◌, arith, ltb, ◌==◌, ltb→lt, ==_iff, ==_ne, Bool-cases, length, get_elem?, set, length-set,
  get_elem?-set_self, get_elem?-set_ne,
}
use mathlib.Core.Option
use osgods.Console.Putc.Safe.{store-Ensures}
use osgods.Programs.Pingpong.{
  pingpong_bufmax, pingpong_startloop, pingpong_loopmax, blank_from, pingpong_frame,
}
use osgods.Programs.Support.{ece391_strlen}

-- The buffer with `n` blanks from `i` on.
abbrev pub blanks : ℕ → ℕ → List ℕ → List ℕ
blanks i zero buf = buf
blanks i (suc n) buf = blanks (i + 1) n (set buf i b' ')

-- Inside the buffer the blanks can be written.
pub blank_from-some :
    (n i : ℕ) (buf : List ℕ) → i + n ≤ length buf → blank_from i n buf ≡ some (blanks i n buf)
unfolding blank_from
blank_from-some zero i buf h = refl
blank_from-some (suc n) i buf h =
    rw (store-Ensures buf i b' ' (omega arith))
      (blank_from-some n (i + 1) (set buf i b' ') (omega (arith, length-set buf i b' ')))

pub length-blanks : (n i : ℕ) (buf : List ℕ) → length (blanks i n buf) ≡ length buf
length-blanks zero i buf = refl
length-blanks (suc n) i buf = length-blanks n (i + 1) (set buf i b' ') ∙ length-set buf i b' '

blanks-outside :
    (n i m : ℕ) (buf : List ℕ)
    → (m < i) ⊎ (i + n ≤ m)
    → get_elem? (blanks i n buf) m ≡ get_elem? buf m
blanks-outside zero i m buf h = refl
blanks-outside (suc n) i m buf h =
    blanks-outside n (i + 1) m (set buf i b' ') (ground arith)
    ∙ get_elem?-set_ne buf b' ' (λ e. ground arith)

pub blanks-inside :
    (n i m : ℕ) (buf : List ℕ)
    → i ≤ m
    → m < i + n
    → m < length buf
    → get_elem? (blanks i n buf) m ≡ some b' '
blanks-inside zero i m buf p q r = absurd (omega arith)
blanks-inside (suc n) i m buf p q r = elim (Bool-cases (i == m)) [
  | inl here ↦
      let same : i ≡ m = (==_iff i m).0 here in
      blanks-outside n (i + 1) m (set buf i b' ') (inl (omega arith))
      ∙ ap (λ k. get_elem? (set buf k b' ') m) same
      ∙ get_elem?-set_self buf m b' ' r
  | inr later ↦
      let ne : i ≢ m = λ e. absurd (ground arith) in
      blanks-inside n (i + 1) m (set buf i b' ') (omega (arith, ne)) (omega arith)
        (omega (arith, length-set buf i b' '))
]

-- The buffer of 81 bytes with its walls, the newline and the NUL at the end.
pub record IsBoard (buf : List ℕ) : Type 0 where
  pub size : length buf ≡ pingpong_bufmax
  pub margin : get_elem? buf 0 ≡ some b' '
  pub left_wall : get_elem? buf 1 ≡ some b'|'
  pub right_wall : get_elem? buf 78 ≡ some b'|'
  pub newline : get_elem? buf 79 ≡ some b'\n'
  pub end : get_elem? buf 80 ≡ some 0

-- A board with the letter in column `j` and blanks in all other columns between the walls.
abbrev pub Shows : ℕ → ℕ → List ℕ → Type 0
Shows j curchar buf =
    IsBoard buf
    × (get_elem? buf j ≡ some curchar)
    × ((i : ℕ) → 1 < i → i < 78 → i ≢ j → get_elem? buf i ≡ some b' ')

-- The C string of a frame has 80 characters.
strlen-first :
    (n : ℕ) (s : List ℕ)
    → ((i : ℕ) → i < n → (c : ℕ) × (get_elem? s i ≡ some c) × (c ≢ 0))
    → get_elem? s n ≡ some 0
    → ece391_strlen s ≡ some n
unfolding ece391_strlen
strlen-first zero [] h end = absurd cc
strlen-first (suc n) [] h end = absurd cc
strlen-first zero (x ∷ s) h end = let nul : x ≡ 0 = Option.some_inj.0 end in rw nul refl
strlen-first (suc n) (x ∷ s) h end =
    let (c, e, ne) = h 0 (omega arith) in
    let other : x ≢ 0 = λ z. ne (sym (Option.some_inj.0 e) ∙ z) in
    rw (==_ne x 0 other, strlen-first n s (λ i p. h (suc i) (omega arith)) end)
      (ap some (omega arith))

pub strlen-frame :
    (j curchar : ℕ) (buf : List ℕ) → Shows j curchar buf → curchar ≢ 0 → ece391_strlen buf ≡ some 80
strlen-frame j curchar buf (board, here, blank) ne = strlen-first 80 buf byte board.end
  where
    inner : (i : ℕ) → 1 < i → i < 78 → (c : ℕ) × (get_elem? buf i ≡ some c) × (c ≢ 0)
    inner i p q = elim (Bool-cases (i == j)) [
      | inl same ↦ let e : i ≡ j = (==_iff i j).0 same in (curchar, ap (get_elem? buf) e ∙ here, ne)
      | inr other ↦ (b' ', blank i p q (λ e. absurd (ground arith)), λ z. omega arith)
    ]

    byte : (i : ℕ) → i < 80 → (c : ℕ) × (get_elem? buf i ≡ some c) × (c ≢ 0)
    byte zero p = (b' ', board.margin, λ z. omega arith)
    byte (suc zero) p = (b'|', board.left_wall, λ z. omega arith)
    byte (suc (suc i)) p = elim (Bool-cases (ltb i 76)) [
      | inl inside ↦ inner (suc (suc i)) (omega arith) (omega (arith, ltb→lt i 76 inside))
      | inr behind ↦ elim (Bool-cases (i == 76)) [
        | inl wall ↦
            let e : i ≡ 76 = (==_iff i 76).0 wall in
            (b'|', ap (λ k. get_elem? buf (suc (suc k))) e ∙ board.right_wall, λ z. omega arith)
        | inr last ↦
            let e : i ≡ 77 = ground arith in
            (b'\n', ap (λ k. get_elem? buf (suc (suc k))) e ∙ board.newline, λ z. omega arith)
      ]
    ]

abbrev pub framed : List ℕ → ℕ → ℕ → List ℕ
framed buf j curchar =
    set (blanks pingpong_startloop (pingpong_loopmax - pingpong_startloop) buf) j curchar

pub pingpong_frame-framed :
    (buf : List ℕ) (j curchar : ℕ)
    → IsBoard buf
    → j < 78
    → pingpong_frame buf j curchar ≡ some (framed buf j curchar)
unfolding pingpong_frame
pingpong_frame-framed buf j curchar board h =
    let size = board.size in
    let blank = blanks pingpong_startloop (pingpong_loopmax - pingpong_startloop) buf in
    rw
      (blank_from-some (pingpong_loopmax - pingpong_startloop) pingpong_startloop buf
        (omega (arith, size)))
      (store-Ensures blank j curchar
        (omega (arith, size, length-blanks (pingpong_loopmax - pingpong_startloop) 2 buf)))

pub framed-Shows :
    (buf : List ℕ) (j curchar : ℕ)
    → IsBoard buf
    → 1 < j
    → j < 78
    → Shows j curchar (framed buf j curchar)
framed-Shows buf j curchar board p q =
    let blank = blanks pingpong_startloop (pingpong_loopmax - pingpong_startloop) buf in
    let len : length blank ≡ 81 =
      length-blanks (pingpong_loopmax - pingpong_startloop) 2 buf ∙ board.size in
    let keeps : (m : ℕ) → (m < 2) ⊎ (78 ≤ m) → get_elem? (set blank j curchar) m ≡ get_elem? buf m =
      λ m h. get_elem?-set_ne blank curchar (λ e. ground arith) ∙ blanks-outside 76 2 m buf h in
    (
      record {
        size = length-set blank j curchar ∙ len;
        margin = keeps 0 (inl (omega arith)) ∙ board.margin;
        left_wall = keeps 1 (inl (omega arith)) ∙ board.left_wall;
        right_wall = keeps 78 (inr (omega arith)) ∙ board.right_wall;
        newline = keeps 79 (inr (omega arith)) ∙ board.newline;
        end = keeps 80 (inr (omega arith)) ∙ board.end;
      },
      get_elem?-set_self blank j curchar (omega (arith, len)),
      λ i a b ne.
          get_elem?-set_ne blank curchar (λ e. ne (sym e))
          ∙ blanks-inside 76 2 i buf a (omega arith) (omega (arith, board.size)),
    )
