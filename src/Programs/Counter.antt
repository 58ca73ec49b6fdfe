-- ===== src/Programs/Counter.antt =====
-- ece391counter.c
pub mod Counts
pub mod OnScreen
use osgods.Common.{
  ℕ, zero, suc, ◌-◌, ◌&&◌, ◌||◌, Option, some, List, ltb, ◌==◌, if◌then◌else◌, get_elem?, add32,
  minus_one, ◌>>=◌,
}
use osgods.Console.{store}
use osgods.Programs.{Calls, overlay, literal}
use osgods.Programs.Support.{ece391_fdputs, ece391_strlen, ece391_itoa}

abbrev pub counter_bufsize : ℕ
counter_bufsize = 1024

-- The `switch` on the first character.
unfoldable pub counter_max : ℕ → ℕ
counter_max c =
    if c == b'0' then 100 else if c == b'1' then 10000 else if c == b'2' then 100000 else 0

module _ {S : Type 0} (calls : Calls S) where
  -- `n` rounds of the loop from `i` on.
  unfoldable pub counter_loop : ℕ → ℕ → S → List ℕ → Option S
  counter_loop zero i s buf = some s
  counter_loop (suc n) i s buf = do
    number ← ece391_itoa (add32 i 1) buf 10
    s1 ← ece391_fdputs calls s 1 number
    s2 ← ece391_fdputs calls s1 1 (literal "\n")
    counter_loop n (add32 i 1) s2 number

  unfoldable pub counter_main : S → List ℕ → Option (ℕ × S)
  counter_main s buf = do
    s1 ←
        ece391_fdputs calls s 1
          (literal "Enter the Test Number: (0): 100, (1): 10000, (2): 100000\n")
    (cnt, out, s2) ← calls.read s1 0 (counter_bufsize - 1)
    buf' ← overlay out buf
    let failed = (do
      s3 ← ece391_fdputs calls s2 1 (literal "Can't read the number from keyboard.\n")
      some (3, s3))
    let chosen = (do
      line ← store buf' cnt 0
      len ← ece391_strlen line
      c ← get_elem? line 0
      let wrong = (do s3 ← ece391_fdputs calls s2 1 (literal "Wrong Choice!\n"); some (0, s3))
      let count = (do s3 ← counter_loop (counter_max c) 0 s2 line; some (0, s3))
      if ltb 2 len || (len == 2 && (ltb c b'0' || ltb b'2' c)) then wrong else count)
    if cnt == minus_one then failed else chosen
