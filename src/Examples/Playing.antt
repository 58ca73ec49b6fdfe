-- ===== src/Examples/Playing.antt =====
-- Programs on simple systems, and switches of the terminal.
use osgods.Common.{
  get_elem?, ℕ, ◌+◌, ◌≡◌, refl, codes, ◌≢◌, none, some, List, [], ◌∷◌, arith, ◌==◌, if◌then◌else◌,
  get_elem?, replicate, length-replicate, minus_one, ◌>>=◌, Ensures,
}
use mathlib.Core.Option
use osgods.Kernel.{Kernel}
use osgods.Programs.Grep.{search_line}
use osgods.Programs.Grep.Lines.{Finds, search_line-Finds}
use osgods.Programs.{Calls}
use osgods.Programs.Support.{ece391_fdputs, ece391_strlen}
use osgods.Programs.Pingpong.{pingpong_main}
use osgods.Programs.Pingpong.Board.{IsBoard}
use osgods.Programs.Pingpong.Rounds.{FrameCalls, IsLetter, pingpong_main-Plays}
use osgods.Programs.Shell.{exits, again, report, shell_round}
use osgods.Programs.Shell.Round.{held, shell_round-line}
use osgods.Console.{Terminal}
use osgods.Console.{Terminal}
use osgods.Programs.{literal}

-- A system that takes every text and whose clock always ticks.
abbrev player : Calls ℕ
player = record {
  execute = λ s command. none;
  read = λ s fd n. if fd == 2 then some (0, [], s + 1) else some (1, b'\n' ∷ 0 ∷ [], s);
  write = λ s fd buf n. some (n, s);
  open_name = λ s name. some (2, s);
  close = λ s fd. some (0, s);
  getargs = λ s buf n. some (minus_one, buf);
}

abbrev player_frames : FrameCalls player 2
player_frames = record {
  Good = λ s. Unit {0};
  draws = λ s j c buf good letter p q shows. (80, s, refl, tt);
  ticks = λ s good. (0, [], s + 1, refl, tt);
}

pingpong_main-Plays_example :
    Ensures
      (λ o. Unit {0} × IsBoard o.1 × IsLetter o.2)
      (pingpong_main player 30 0 (replicate 81 0))
pingpong_main-Plays_example =
    pingpong_main-Plays player 30 0 0 0 2 4 (replicate 81 0) player_frames
      (length-replicate {A = ℕ} 81 0) refl refl tt

-- A system whose keyboard gives the line `ls`, and that runs every command with success.
abbrev typist : Calls ℕ
typist = record player {
  execute = λ s command. some (0, s + 1);
  read = λ s fd n. some (3, b'l' ∷ b's' ∷ b'\n' ∷ 0 ∷ [], s);
}

abbrev ls_line : List ℕ
ls_line = b'l' ∷ b's' ∷ []

typist_prompts : ece391_fdputs typist 0 1 (literal "391OS> ") ≡ some 0
unfolding ece391_fdputs ece391_strlen
typist_prompts = refl

shell_round-line_example :
    let buf = replicate {A = ℕ} 1024 0 in
    (ls_line ≡ codes "exit" → shell_round typist 0 buf ≡ some (exits 0 0))
    × (ls_line ≡ [] → shell_round typist 0 buf ≡ some (again 0 (held ls_line (0 ∷ []) buf)))
    × (ls_line ≢ codes "exit"
        → ls_line ≢ []
        → shell_round typist 0 buf ≡ (do
          (rval, s3) ← typist.execute 0 (held ls_line (0 ∷ []) buf)
          s4 ← report typist s3 rval
          some (again s4 (held ls_line (0 ∷ []) buf))))
shell_round-line_example =
    shell_round-line typist 0 0 0 ls_line (0 ∷ []) (replicate 1024 0) typist_prompts refl
      ((omega arith, omega arith), ((omega arith, omega arith), tt))
      (omega (arith, length-replicate {A = ℕ} 1024 0)) (length-replicate {A = ℕ} 1024 0)

-- The text `ab` in a line of the buffer that holds `cab`.
search_line-Finds_example :
    Finds
      (b'a' ∷ b'b' ∷ [])
      (b'c' ∷ b'a' ∷ b'b' ∷ [])
      (search_line (b'a' ∷ b'b' ∷ 0 ∷ []) (b'x' ∷ 0 ∷ b'c' ∷ b'a' ∷ b'b' ∷ 0 ∷ []) 2 3 2)
search_line-Finds_example =
    search_line-Finds b'a' (b'b' ∷ []) [] (b'x' ∷ 0 ∷ []) (b'c' ∷ b'a' ∷ b'b' ∷ []) [] (omega arith)
      ((omega arith, omega arith), ((omega arith, omega arith), tt))
      ((omega arith, omega arith), ((omega arith, omega arith), ((omega arith, omega arith), tt)))
