-- ===== src/Programs.antt =====
-- The programs of syscalls, and the system calls that they make.
pub mod Support
pub mod Streams
pub mod OnKernel
pub mod Texts
pub mod OnTerminal
pub mod Cat
pub mod Grep
pub mod Fish
pub mod Hello
pub mod Ls
pub mod Shell
pub mod Counter
pub mod Pingpong
pub mod Syserr
use osgods.Common.{ℕ, codes, Option, none, some, List, [], ◌∷◌, ◌++◌, map}
use mathlib.Core.Option
use Prim.Native.String.{String}

-- The calls of syscalls/ece391syscall.h on a state of the system. The first number of a result is
-- what the call returns, as the pattern of an `int`; `none` is a call from which the program does not come
-- back. A `read` gives the bytes that it stores from `buf` on, `getargs` the buffer with the argument.
pub record Calls (S : Type 0) : Type 0 where
  pub execute : S → List ℕ → Option (ℕ × S)
  pub read : S → ℕ → ℕ → Option (ℕ × List ℕ × S)
  pub write : S → ℕ → List ℕ → ℕ → Option (ℕ × S)
  pub open_name : S → List ℕ → Option (ℕ × S)
  pub close : S → ℕ → Option (ℕ × S)
  pub getargs : S → List ℕ → ℕ → Option (ℕ × List ℕ)

-- The bytes stored at the start of a buffer; `none` is a write past its end.
unfoldable pub overlay : List ℕ → List ℕ → Option (List ℕ)
overlay [] buf = some buf
overlay (b ∷ bs) [] = none
overlay (b ∷ bs) (x ∷ buf) = Option.map (λ r. b ∷ r) (overlay bs buf)

-- A string constant.
abbrev pub literal : String → List ℕ
literal s = codes s ++ (0 ∷ [])
