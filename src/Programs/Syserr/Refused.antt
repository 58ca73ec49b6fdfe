-- ===== src/Programs/Syserr/Refused.antt =====
-- The tests of syserr on a system that refuses what it must.
use osgods.Common.{
  ℕ, zero, suc, ◌+◌, ◌^◌, ◌≤◌, ◌<◌, ◌≡◌, refl, codes, ◌≢◌, inl, inr, Bool, true, not, ◌&&◌, Option,
  some, List, [], ◌∷◌, ◌++◌, arith, ltb, ◌==◌, ltb→lt, Bool-cases, length, minus_one, All,
}
use osgods.Programs.{Calls, overlay, literal}
use osgods.Programs.Streams.{Plain}
use osgods.Programs.Texts.{TerminalCalls, ece391_fdputs-Shows}
use osgods.Strings.Reverse.{NoNul}
use osgods.Programs.Syserr.{
  neg_fd, big_fd, expect, verdict, try_fd, err_neg_fd, err_big_fd, closing, reading, writing,
  err_unopened, err_vidmap, err_stdin_out,
}

-- A text of a program: no NUL and no backspace.
abbrev pub is_text : List ℕ → Bool
is_text [] = true
is_text (c ∷ s) = not (c == 0) && (not (c == 8) && is_text s)

pub is_text-Plain : (s : List ℕ) → is_text s ≡ true → NoNul s × All Plain s
is_text-Plain [] h = (tt, tt)
is_text-Plain (c ∷ s) h =
    let nul : c ≢ 0 = λ e. ground (arith, h, e) in
    let back : c ≢ 8 = λ e. ground (arith, h, e) in
    let rest : is_text s ≡ true = ground (arith, h) in
    let (a, b) = is_text-Plain s rest in ((nul, a), (back, b))

module _ {S : Type 0} (calls : Calls S) where
  -- `read`, `write` and `close` give -1 on `fd` and change nothing.
  pub record Refused (s : S) (fd : ℕ) : Type 0 where
    pub read_fails : calls.read s fd 31 ≡ some (minus_one, [], s)
    pub write_fails : (buf : List ℕ) → calls.write s fd buf 31 ≡ some (minus_one, s)
    pub close_fails : calls.close s fd ≡ some (minus_one, s)

  -- A system whose terminal is in order and that refuses what it must, with the texts that the
  -- terminal answers the wrong operations by.
  pub record RefusingCalls : Type 1 where
    pub terminal : TerminalCalls calls
    pub unopened : (s : S) (fd : ℕ) → terminal.Ready s → 2 ≤ fd → fd < 2 ^ 32 → Refused s fd
    pub keeps_terminal :
        (s : S) (fd : ℕ) → terminal.Ready s → fd < 2 → calls.close s fd ≡ some (minus_one, s)
    pub bad_write : List ℕ
    pub bad_read : List ℕ
    pub write_stdin :
        (s : S) (buf : List ℕ)
        → terminal.Ready s
        → (t : S) × (calls.write s 0 buf 31 ≡ some (minus_one, t))
          × terminal.Ready t
          × terminal.Shows s bad_write t
    pub read_stdout :
        (s : S)
        → terminal.Ready s
        → (t : S) × (calls.read s 1 31 ≡ some (minus_one, [], t))
          × terminal.Ready t
          × terminal.Shows s bad_read t

module _ {S : Type 0} (calls : Calls S) (laws : RefusingCalls calls) where
  open laws use {terminal, unopened, keeps_terminal, bad_write, bad_read, write_stdin, read_stdout}
  open terminal use {Ready, Shows, shows_nothing, shows_more}

  -- A test passes: it returns 0 and puts out `text`.
  abbrev pub Passes : S → List ℕ → Option (ℕ × S) → Type 0
  Passes s text result = (t : S) × (result ≡ some (0, t)) × Ready t × Shows s text t

  verdict-Passes :
      (s : S) (text failed : List ℕ)
      → Ready s
      → is_text text ≡ true
      → length text < 2 ^ 31
      → Passes s text (verdict calls s 0 failed (text ++ (0 ∷ [])))
  unfolding verdict
  verdict-Passes s text failed ready h small =
      let (nul, plain) = is_text-Plain text h in
      let (t, e, ok, shown) = ece391_fdputs-Shows calls terminal s text [] ready nul plain small in
      (t, rw e refl, ok, shown)

  try_fd-Refused :
      (s : S) (fd : ℕ) (buf : List ℕ) → Refused calls s fd → try_fd calls s fd buf ≡ some (0, s)
  unfolding try_fd overlay expect
  try_fd-Refused s fd buf r = rw (r.read_fails, r.write_fails buf, r.close_fails) refl

  closing-refused : (n i : ℕ) (s : S) → Ready s → i + n ≤ 8 → closing calls n i s 0 ≡ some (0, s)
  unfolding closing
  closing-refused zero i s ready h = refl
  closing-refused (suc n) i s ready h =
      let here : calls.close s i ≡ some (minus_one, s) = elim (Bool-cases (ltb i 2)) [
        | inl low ↦ keeps_terminal s i ready (ltb→lt i 2 low)
        | inr high ↦ (unopened s i ready (ground arith) (omega arith)).close_fails
      ] in
      rw here (closing-refused n (i + 1) s ready (omega arith))

  reading-refused :
      (n i : ℕ) (s : S) (buf : List ℕ)
      → Ready s
      → 2 ≤ i
      → i + n ≤ 8
      → reading calls n i s 0 buf ≡ some (0, buf, s)
  unfolding reading overlay
  reading-refused zero i s buf ready low h = refl
  reading-refused (suc n) i s buf ready low h =
      let r = unopened s i ready low (omega arith) in
      rw r.read_fails (reading-refused n (i + 1) s buf ready (omega arith) (omega arith))

  writing-refused :
      (n i : ℕ) (s : S) (buf : List ℕ)
      → Ready s
      → 2 ≤ i
      → i + n ≤ 8
      → writing calls n i s 0 buf ≡ some (0, s)
  unfolding writing
  writing-refused zero i s buf ready low h = refl
  writing-refused (suc n) i s buf ready low h =
      let r = unopened s i ready low (omega arith) in
      rw (r.write_fails buf) (writing-refused n (i + 1) s buf ready (omega arith) (omega arith))

  pub err_neg_fd-Passes :
      (s : S) (buf : List ℕ)
      → Ready s
      → Passes s (codes "err_neg_fd: PASS\n") (err_neg_fd calls s buf)
  unfolding err_neg_fd
  err_neg_fd-Passes s buf ready =
      rw (try_fd-Refused s neg_fd buf (unopened s neg_fd ready (omega arith) (omega arith))) (
        verdict-Passes s (codes "err_neg_fd: PASS\n") (literal "err_neg_fd: FAIL\n") ready refl
          (omega arith))

  pub err_big_fd-Passes :
      (s : S) (buf : List ℕ)
      → Ready s
      → Passes s (codes "err_big_fd: PASS\n") (err_big_fd calls s buf)
  unfolding err_big_fd
  err_big_fd-Passes s buf ready =
      rw (try_fd-Refused s big_fd buf (unopened s big_fd ready (omega arith) (omega arith))) (
        verdict-Passes s (codes "err_big_fd: PASS\n") (literal "err_big_fd: FAIL\n") ready refl
          (omega arith))

  pub err_unopened-Passes :
      (s : S) (buf : List ℕ)
      → Ready s
      → Passes s (codes "err_unopened: PASS\n") (err_unopened calls s buf)
  unfolding err_unopened
  err_unopened-Passes s buf ready =
      rw
        (
          closing-refused 8 0 s ready (omega arith),
          reading-refused 6 2 s buf ready (omega arith) (omega arith),
          writing-refused 6 2 s buf ready (omega arith) (omega arith),
        )
        (verdict-Passes s (codes "err_unopened: PASS\n") (literal "err_unopened: FAIL\n") ready refl
          (omega arith))

  pub err_stdin_out-Passes :
      (s : S) (buf : List ℕ)
      → Ready s
      → Passes s
          (bad_write ++ (bad_read ++ codes "err_stdin_out: PASS\n"))
          (err_stdin_out calls s buf)
  unfolding err_stdin_out overlay
  err_stdin_out-Passes s buf ready =
      let (t, written, ready_t, shown_t) = write_stdin s buf ready in
      let (u, was_read, ready_u, shown_u) = read_stdout t ready_t in
      let (v, e, ready_v, shown_v) =
        verdict-Passes u (codes "err_stdin_out: PASS\n") (literal "err_stdin_out: FAIL\n") ready_u
          refl (omega arith) in
      (
        v,
        rw (written, was_read) e,
        ready_v,
        shows_more s t v bad_write (bad_read ++ codes "err_stdin_out: PASS\n") shown_t
            (shows_more t u v bad_read (codes "err_stdin_out: PASS\n") shown_u shown_v),
      )

  pub err_vidmap-Passes :
      (vidmap call_sys : S → ℕ → Option (ℕ × S)) (s : S)
      → Ready s
      → vidmap s 0 ≡ some (minus_one, s)
      → vidmap s 0x400000 ≡ some (minus_one, s)
      → Passes s (codes "err_vidmap: PASS\n") (err_vidmap calls vidmap call_sys s)
  unfolding err_vidmap
  err_vidmap-Passes vidmap call_sys s ready null kernel =
      rw (null, kernel)
        (verdict-Passes s (codes "err_vidmap: PASS\n") (literal "err_vidmap: FAIL\n") ready refl
          (omega arith))
