-- ===== src/Programs/Shell.antt =====
-- ece391shell.c
pub mod Round
use osgods.Common.{
  ℕ, zero, suc, ◌-◌, not, Option, none, some, List, ◌==◌, if◌then◌else◌, get_elem?, minus_one, slt,
  ◌>>=◌,
}
use osgods.Console.{store}
use osgods.Programs.{Calls, overlay, literal}
use osgods.Programs.Support.{ece391_fdputs, ece391_strcmp}

abbrev pub shell_bufsize : ℕ
shell_bufsize = 1024

-- After one round the shell ends with a status or goes on with its buffer.
pub data ShellRound (S : Type 0) : Type 0 where
  exits : ℕ → S → ShellRound S
  again : S → List ℕ → ShellRound S

-- The NUL in place of the newline: the line, and the buffer that holds it.
unfoldable pub end_line : ℕ → List ℕ → Option (List ℕ)
end_line cnt buf = do
  let last = get_elem? buf (cnt - 1)
  let shorter = (do c ← last; some (if c == b'\n' then cnt - 1 else cnt))
  n ← if slt 0 cnt then shorter else some cnt
  store buf n 0

module _ {S : Type 0} (calls : Calls S) where
  -- What the shell says about the status of a command.
  unfoldable pub report : S → ℕ → Option S
  report s rval =
      if rval == minus_one
      then ece391_fdputs calls s 1 (literal "no such command\n")
      else if rval == 256
      then ece391_fdputs calls s 1 (literal "program terminated by exception\n")
      else if not (rval == 0)
      then ece391_fdputs calls s 1 (literal "program terminated abnormally\n")
      else some s

  -- The body of the loop.
  unfoldable pub shell_round : S → List ℕ → Option (ShellRound S)
  shell_round s buf = do
    s1 ← ece391_fdputs calls s 1 (literal "391OS> ")
    (cnt, out, s2) ← calls.read s1 0 (shell_bufsize - 1)
    buf' ← overlay out buf
    let failed = (do
      s3 ← ece391_fdputs calls s2 1 (literal "read from keyboard failed\n")
      some (exits 3 s3))
    let command = (do
      line ← end_line cnt buf'
      same ← ece391_strcmp line (literal "exit")
      c ← get_elem? line 0
      let run = (do (rval, s3) ← calls.execute s2 line; s4 ← report s3 rval; some (again s4 line))
      if same == 0 then some (exits 0 s2) else if c == 0 then some (again s2 line) else run)
    if cnt == minus_one then failed else command

  -- At most `fuel` rounds.
  unfoldable pub shell_loop : ℕ → S → List ℕ → Option (ℕ × S)
  shell_loop zero s buf = none
  shell_loop (suc fuel) s buf = do
    round ← shell_round s buf
    elim round [ exits status t ↦ some (status, t) | again t buf' ↦ shell_loop fuel t buf' ]

  unfoldable pub shell_main : ℕ → S → List ℕ → Option (ℕ × S)
  shell_main fuel s buf = do
    s1 ← ece391_fdputs calls s 1 (literal "Starting 391 Shell\n")
    shell_loop fuel s1 buf
