-- ===== src/Programs/Ls.antt =====
-- ece391ls.c
pub mod Entries
pub mod Directory
pub mod OnScreen
use osgods.Common.{
  ℕ, zero, suc, ◌-◌, Option, none, some, List, ◌==◌, if◌then◌else◌, add32, minus_one, ◌>>=◌,
}
use osgods.Console.{store}
use osgods.Programs.{Calls, overlay, literal}
use osgods.Programs.Support.{ece391_fdputs}

abbrev pub ls_sbufsize : ℕ
ls_sbufsize = 33

module _ {S : Type 0} (calls : Calls S) where
  -- The loop over the directory with at most `fuel` reads, the last one included.
  unfoldable pub ls_loop : ℕ → S → ℕ → List ℕ → Option (ℕ × S)
  ls_loop zero s fd buf = none
  ls_loop (suc fuel) s fd buf = do
    (cnt, out, s1) ← calls.read s fd (ls_sbufsize - 1)
    buf' ← overlay out buf
    let failed = (do
      s2 ← ece391_fdputs calls s1 1 (literal "directory entry read failed\n")
      some (3, s2))
    let shown = (do
      line ← store buf' cnt b'\n'
      (r, s2) ← calls.write s1 1 line (add32 cnt 1)
      let rest = ls_loop fuel s2 fd line
      if r == minus_one then some (3, s2) else rest)
    if cnt == 0 then some (0, s1) else if cnt == minus_one then failed else shown

  unfoldable pub ls_main : ℕ → S → List ℕ → Option (ℕ × S)
  ls_main fuel s buf = do
    (fd, s1) ← calls.open_name s (literal ".")
    let failed = (do
      s2 ← ece391_fdputs calls s1 1 (literal "directory open failed\n")
      some (2, s2))
    if fd == minus_one then failed else ls_loop fuel s1 fd buf
