-- ===== src/Programs/Hello.antt =====
-- ece391hello.c and ece391testprint.c

use osgods.Common.{ℕ, ◌-◌, Option, some, List, ◌==◌, if◌then◌else◌, minus_one, ◌>>=◌}
use osgods.Console.{store}
use osgods.Programs.{Calls, overlay, literal}
use osgods.Programs.Support.{ece391_fdputs}

abbrev pub hello_bufsize : ℕ
hello_bufsize = 1024

module _ {S : Type 0} (calls : Calls S) where
  -- `buf` is what the buffer on the stack held.
  unfoldable pub hello_main : S → List ℕ → Option (ℕ × S)
  hello_main s buf = do
    s1 ← ece391_fdputs calls s 1 (literal "Hi, what's your name? ")
    (cnt, out, s2) ← calls.read s1 0 (hello_bufsize - 1)
    buf' ← overlay out buf
    let failed = (do
      s3 ← ece391_fdputs calls s2 1 (literal "Can't read name from keyboard.\n")
      some (3, s3))
    let greet = (do
      named ← store buf' cnt 0
      s3 ← ece391_fdputs calls s2 1 (literal "Hello, ")
      s4 ← ece391_fdputs calls s3 1 named
      some (0, s4))
    if cnt == minus_one then failed else greet

  unfoldable pub testprint_main : S → Option (ℕ × S)
  testprint_main s = do
    s1 ← ece391_fdputs calls s 1 (literal "Hello, if this ran, the program was correct. Yay!\n")
    some (0, s1)
