-- ===== src/Programs/Pingpong/Rounds.antt =====
-- The rounds of the pingpong.
use osgods.Common.{
  ℕ, zero, suc, ◌+◌, ◌≤◌, ◌<◌, ◌≡◌, ◌∙◌, ◌≢◌, Option, some, List, [], ◌∷◌, arith, length, get_elem?,
  set, length-set, get_elem?-set_self, get_elem?-set_ne, Ensures, Ensures-bind,
}
use osgods.Programs.{Calls, literal}
use osgods.Programs.Pingpong.{
  pingpong_bufmax, pingpong_startloop, walls, next_char, draw_frame, move_out, bounce_back,
  pingpong_rounds, pingpong_main,
}
use osgods.Programs.Pingpong.Board.{
  IsBoard, Shows, blanks, blank_from-some, framed, pingpong_frame-framed, length-blanks,
  blanks-inside, framed-Shows, strlen-frame,
}
use osgods.Console.Putc.Safe.{store-Ensures}
use osgods.Programs.Support.{ece391_fdputs}

abbrev pub IsLetter : ℕ → Type 0
IsLetter c = (b'A' ≤ c) × (c ≤ b'Z')

-- A system that puts out frames, which are 80 characters with one letter between the walls, and whose
-- reads of the clock return, as they do when the clock's interrupts come. Nothing is asked of any other text, column or letter.
pub record FrameCalls {S : Type 0} (calls : Calls S) (rtc_fd : ℕ) : Type 1 where
  pub Good : S → Type 0
  pub draws :
      (s : S) (j curchar : ℕ) (buf : List ℕ)
      → Good s
      → IsLetter curchar
      → 1 < j
      → j < 78
      → Shows j curchar buf
      → (r : ℕ) × (t : S) × (calls.write s 1 buf 80 ≡ some (r, t)) × Good t
  pub ticks :
      (s : S)
      → Good s
      → (r : ℕ) × (out : List ℕ) × (t : S) × (calls.read s rtc_fd 4 ≡ some (r, out, t)) × Good t

next_char-IsLetter : (c : ℕ) → IsLetter c → IsLetter (next_char c)
next_char-IsLetter c h = ground arith

walled :
    (b : List ℕ)
    → length b ≡ pingpong_bufmax
    → get_elem? b 0 ≡ some b' '
    → IsBoard (set (set (set (set b 80 0) 79 b'\n') 78 b'|') 1 b'|')
walled b size blank =
    let b1 = set b 80 0 in
    let b2 = set b1 79 b'\n' in
    let b3 = set b2 78 b'|' in
    let l1 : length b1 ≡ 81 = length-set b 80 0 ∙ size in
    let l2 : length b2 ≡ 81 = length-set b1 79 b'\n' ∙ l1 in
    let l3 : length b3 ≡ 81 = length-set b2 78 b'|' ∙ l2 in
    let after : (i : ℕ) → 1 ≢ i → get_elem? (set b3 1 b'|') i ≡ get_elem? b3 i =
      λ i ne. get_elem?-set_ne b3 b'|' ne in
    record {
      size = length-set b3 1 b'|' ∙ l3;
      margin =
          after 0 (λ e. omega (arith, e))
          ∙ get_elem?-set_ne b2 b'|' (λ e. omega (arith, e))
          ∙ get_elem?-set_ne b1 b'\n' (λ e. omega (arith, e))
          ∙ get_elem?-set_ne b 0 (λ e. omega (arith, e))
          ∙ blank;
      left_wall = get_elem?-set_self b3 1 b'|' (omega (arith, l3));
      right_wall =
          after 78 (λ e. omega (arith, e)) ∙ get_elem?-set_self b2 78 b'|' (omega (arith, l2));
      newline =
          after 79 (λ e. omega (arith, e))
          ∙ get_elem?-set_ne b2 b'|' (λ e. omega (arith, e))
          ∙ get_elem?-set_self b1 79 b'\n' (omega (arith, l1));
      end =
          after 80 (λ e. omega (arith, e))
          ∙ get_elem?-set_ne b2 b'|' (λ e. omega (arith, e))
          ∙ get_elem?-set_ne b1 b'\n' (λ e. omega (arith, e))
          ∙ get_elem?-set_self b 80 0 (omega (arith, size));
    }

pub walls-IsBoard :
    (buf : List ℕ) → length buf ≡ pingpong_bufmax → (b : List ℕ) × (walls buf ≡ some b) × IsBoard b
unfolding walls
walls-IsBoard buf size =
    let b = blanks 0 pingpong_bufmax buf in
    let b1 = set b 80 0 in
    let b2 = set b1 79 b'\n' in
    let b3 = set b2 78 b'|' in
    let l : length b ≡ 81 = length-blanks pingpong_bufmax 0 buf ∙ size in
    let l1 : length b1 ≡ 81 = length-set b 80 0 ∙ l in
    let l2 : length b2 ≡ 81 = length-set b1 79 b'\n' ∙ l1 in
    let l3 : length b3 ≡ 81 = length-set b2 78 b'|' ∙ l2 in
    let written : walls buf ≡ some (set b3 1 b'|') =
      rw
        (
          blank_from-some pingpong_bufmax 0 buf (omega (arith, size)),
          store-Ensures b 80 0 (omega (arith, l)),
          store-Ensures b1 79 b'\n' (omega (arith, l1)),
          store-Ensures b2 78 b'|' (omega (arith, l2)),
        )
        (store-Ensures b3 1 b'|' (omega (arith, l3))) in
    (
      set b3 1 b'|',
      written,
      walled b l
          (blanks-inside pingpong_bufmax 0 0 buf (omega arith) (omega arith) (omega (arith, size))),
    )

module _ {S : Type 0} (calls : Calls S) (rtc_fd : ℕ) (laws : FrameCalls calls rtc_fd) where
  open laws use {Good, draws, ticks}

  -- A system and a board after some frames.
  abbrev pub Plays : Option (S × List ℕ) → Type 0
  Plays = Ensures (λ r. Good r.0 × IsBoard r.1)

  draw_frame-Plays :
      (s : S) (buf : List ℕ) (j curchar : ℕ)
      → Good s
      → IsBoard buf
      → IsLetter curchar
      → 1 < j
      → j < 78
      → Plays (draw_frame calls rtc_fd s buf j curchar)
  unfolding draw_frame ece391_fdputs
  draw_frame-Plays s buf j curchar good board letter p q =
      let frame = framed-Shows buf j curchar board p q in
      let buf' = framed buf j curchar in
      let drawn = pingpong_frame-framed buf j curchar board q in
      let len = strlen-frame j curchar buf' frame (λ z. omega (arith, letter.0, z)) in
      let (r, t, w, good') = draws s j curchar buf' good letter p q frame in
      let (r', out, u, e, good'') = ticks t good' in rw (drawn, len, w, e) (good'', frame.0)

  move_out-Plays :
      (n j : ℕ) (s : S) (buf : List ℕ) (curchar : ℕ)
      → Good s
      → IsBoard buf
      → IsLetter curchar
      → 1 < j
      → j + n ≤ 78
      → Plays (move_out calls rtc_fd n j s buf curchar)
  unfolding move_out
  move_out-Plays zero j s buf curchar good board letter p q = (good, board)
  move_out-Plays (suc n) j s buf curchar good board letter p q =
      Ensures-bind (λ r. Good r.0 × IsBoard r.1) (λ r. Good r.0 × IsBoard r.1)
        (draw_frame calls rtc_fd s buf j curchar) _
        (draw_frame-Plays s buf j curchar good board letter p (omega arith))
        λ r ok.
          move_out-Plays n (j + 1) r.0 r.1 curchar ok.0 ok.1 letter (omega arith) (omega arith)

  bounce_back-Plays :
      (n : ℕ) (s : S) (buf : List ℕ) (curchar : ℕ)
      → Good s
      → IsBoard buf
      → IsLetter curchar
      → 2 + n ≤ 78
      → Plays (bounce_back calls rtc_fd n s buf curchar)
  unfolding bounce_back
  bounce_back-Plays zero s buf curchar good board letter q = (good, board)
  bounce_back-Plays (suc n) s buf curchar good board letter q =
      Ensures-bind (λ r. Good r.0 × IsBoard r.1) (λ r. Good r.0 × IsBoard r.1)
        (draw_frame calls rtc_fd s buf (pingpong_startloop + n) curchar) _
        (draw_frame-Plays s buf (pingpong_startloop + n) curchar good board letter (omega arith)
          (omega arith))
        λ r ok. bounce_back-Plays n r.0 r.1 curchar ok.0 ok.1 letter (omega arith)

  -- Any number of rounds on a board and with a letter.
  pub pingpong_rounds-Plays :
      (n : ℕ) (s : S) (buf : List ℕ) (curchar : ℕ)
      → Good s
      → IsBoard buf
      → IsLetter curchar
      → Ensures
          (λ r. Good r.0 × IsBoard r.1 × IsLetter r.2)
          (pingpong_rounds calls rtc_fd n s buf curchar)
  unfolding pingpong_rounds
  pingpong_rounds-Plays zero s buf curchar good board letter = (good, board, letter)
  pingpong_rounds-Plays (suc n) s buf curchar good board letter =
      Ensures-bind (λ r. Good r.0 × IsBoard r.1) _ (move_out calls rtc_fd 76 2 s buf curchar) _
        (move_out-Plays 76 2 s buf curchar good board letter (omega arith) (omega arith))
        λ r ok.
          Ensures-bind (λ r. Good r.0 × IsBoard r.1) _ (bounce_back calls rtc_fd 76 r.0 r.1 curchar)
            _ (bounce_back-Plays 76 r.0 r.1 curchar ok.0 ok.1 letter (omega arith))
            λ r' ok'.
              pingpong_rounds-Plays n r'.0 r'.1 (next_char curchar) ok'.0 ok'.1
                (next_char-IsLetter curchar letter)

-- The pingpong, whose clock could be opened and was set, on a system that puts out every frame and
-- whose reads of the clock return, goes through any number of rounds without a fault and without an
-- access outside its buffer of 81 bytes: it asks nothing else of the system, and every frame that it
-- puts out has 80 characters with one letter from A to Z between the walls.
pub pingpong_main-Plays :
    {S : Type 0} (calls : Calls S) (n : ℕ) (s s1 s2 : S) (rtc_fd r : ℕ) (buf : List ℕ)
    → (laws : FrameCalls calls rtc_fd) → length buf ≡ pingpong_bufmax
    → calls.open_name s (literal "rtc") ≡ some (rtc_fd, s1)
    → calls.write s1 rtc_fd (32 ∷ 0 ∷ 0 ∷ 0 ∷ []) 4 ≡ some (r, s2)
    → laws.Good s2
    → Ensures (λ o. laws.Good o.0 × IsBoard o.1 × IsLetter o.2) (pingpong_main calls n s buf)
unfolding pingpong_main
pingpong_main-Plays calls n s s1 s2 rtc_fd r buf laws size opened set_rate good =
    let (b, walled_up, board) = walls-IsBoard buf size in
    rw (opened, set_rate, walled_up)
      (pingpong_rounds-Plays calls rtc_fd laws n s2 b b'A' good board (omega arith, omega arith))
