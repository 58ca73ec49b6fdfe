-- ===== src/Programs/Pingpong.antt =====
-- ece391pingpong.c
pub mod Board
pub mod Rounds
use osgods.Common.{
  ℕ, zero, suc, ◌+◌, ◌-◌, Option, some, List, [], ◌∷◌, ◌==◌, if◌then◌else◌, u8, ◌>>=◌,
}
use osgods.Console.{store}
use osgods.Programs.{Calls, literal}
use osgods.Programs.Support.{ece391_fdputs}

abbrev pub pingpong_bufmax : ℕ
pingpong_bufmax = 79 + 2

abbrev pub pingpong_start : ℕ
pingpong_start = 1

abbrev pub pingpong_startloop : ℕ
pingpong_startloop = pingpong_start + 1

abbrev pub pingpong_loopmax : ℕ
pingpong_loopmax = pingpong_bufmax - 2 - 1

-- `for (i = i0; ...; i++) buf[i] = ' '` for `n` rounds.
unfoldable pub blank_from : ℕ → ℕ → List ℕ → Option (List ℕ)
blank_from i zero buf = some buf
blank_from i (suc n) buf = do buf' ← store buf i b' '; blank_from (i + 1) n buf'

-- The buffer with the walls.
unfoldable pub walls : List ℕ → Option (List ℕ)
unfolding blank_from
walls buf = do
  blank ← blank_from 0 pingpong_bufmax buf
  b1 ← store blank (pingpong_bufmax - 1) 0
  b2 ← store b1 (pingpong_bufmax - 2) b'\n'
  b3 ← store b2 (pingpong_bufmax - 3) b'|'
  store b3 pingpong_start b'|'

unfoldable pub pingpong_frame : List ℕ → ℕ → ℕ → Option (List ℕ)
unfolding blank_from
pingpong_frame buf j curchar = do
  blank ← blank_from pingpong_startloop (pingpong_loopmax - pingpong_startloop) buf
  store blank j curchar

abbrev pub next_char : ℕ → ℕ
next_char curchar = if curchar == b'Z' then b'A' else u8 (curchar + 1)

module _ {S : Type 0} (calls : Calls S) (rtc_fd : ℕ) where
  -- One frame is drawn and one tick waited for.
  unfoldable pub draw_frame : S → List ℕ → ℕ → ℕ → Option (S × List ℕ)
  draw_frame s buf j curchar = do
    buf' ← pingpong_frame buf j curchar
    s1 ← ece391_fdputs calls s 1 buf'
    (r, garbage, s2) ← calls.read s1 rtc_fd 4
    some (s2, buf')

  -- `n` frames to the right from `j` on, and to the left down to `STARTLOOP`.
  unfoldable pub move_out : ℕ → ℕ → S → List ℕ → ℕ → Option (S × List ℕ)
  move_out zero j s buf curchar = some (s, buf)
  move_out (suc n) j s buf curchar = do
    (s1, buf') ← draw_frame s buf j curchar
    move_out n (j + 1) s1 buf' curchar

  unfoldable pub bounce_back : ℕ → S → List ℕ → ℕ → Option (S × List ℕ)
  bounce_back zero s buf curchar = some (s, buf)
  bounce_back (suc n) s buf curchar = do
    (s1, buf') ← draw_frame s buf (pingpong_startloop + n) curchar
    bounce_back n s1 buf' curchar

  -- `n` rounds of the endless loop: the system, the buffer and the next letter.
  unfoldable pub pingpong_rounds : ℕ → S → List ℕ → ℕ → Option (S × List ℕ × ℕ)
  pingpong_rounds zero s buf curchar = some (s, buf, curchar)
  pingpong_rounds (suc n) s buf curchar = do
    (s1, buf1) ← move_out (pingpong_loopmax - pingpong_startloop) pingpong_startloop s buf curchar
    (s2, buf2) ← bounce_back (pingpong_loopmax - pingpong_startloop) s1 buf1 curchar
    pingpong_rounds n s2 buf2 (next_char curchar)

-- `main` up to `n` rounds of its loop. The four bytes written are those of the number 32.
unfoldable pub pingpong_main : {S : Type 0} → Calls S → ℕ → S → List ℕ → Option (S × List ℕ × ℕ)
pingpong_main calls n s buf = do
  (rtc_fd, s1) ← calls.open_name s (literal "rtc")
  (r, s2) ← calls.write s1 rtc_fd (32 ∷ 0 ∷ 0 ∷ 0 ∷ []) 4
  board ← walls buf
  pingpong_rounds calls rtc_fd n s2 board b'A'
