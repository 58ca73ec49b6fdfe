-- ===== src/Programs/Cat.antt =====
-- ece391cat.c
pub mod Copies
pub mod OnScreen
use osgods.Common.{
  ℕ, zero, suc, not, Option, none, some, List, ◌==◌, if◌then◌else◌, minus_one, ◌>>=◌,
}
use osgods.Programs.{Calls, overlay, literal}
use osgods.Programs.Support.{ece391_fdputs}

abbrev pub cat_bufsize : ℕ
cat_bufsize = 1024

module _ {S : Type 0} (calls : Calls S) where
  -- The loop over the file with at most `fuel` reads, the last one included: the exit status.
  unfoldable pub cat_loop : ℕ → S → ℕ → List ℕ → Option (ℕ × S)
  cat_loop zero s fd buf = none
  cat_loop (suc fuel) s fd buf = do
    (cnt, out, s1) ← calls.read s fd cat_bufsize
    buf' ← overlay out buf
    let failed = (do s2 ← ece391_fdputs calls s1 1 (literal "file read failed\n"); some (3, s2))
    let copied = (do
      (r, s2) ← calls.write s1 1 buf' cnt
      let rest = cat_loop fuel s2 fd buf'
      if r == minus_one then some (3, s2) else rest)
    if cnt == 0 then some (0, s1) else if cnt == minus_one then failed else copied

  -- `main`; `buf` is what the buffer on the stack held.
  unfoldable pub cat_main : ℕ → S → List ℕ → Option (ℕ × S)
  cat_main fuel s buf = do
    (r, buf') ← calls.getargs s buf cat_bufsize
    let no_args = (do
      s1 ← ece391_fdputs calls s 1 (literal "could not read arguments\n")
      some (3, s1))
    let named = (do
      (fd, s1) ← calls.open_name s buf'
      let missing = (do s2 ← ece391_fdputs calls s1 1 (literal "file not found\n"); some (2, s2))
      if fd == minus_one then missing else cat_loop fuel s1 fd buf')
    if not (r == 0) then no_args else named
