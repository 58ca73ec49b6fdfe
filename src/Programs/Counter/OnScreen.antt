-- ===== src/Programs/Counter/OnScreen.antt =====
-- The counter on the kernel.
use osgods.Common.{ℕ, ◌+◌, ◌^◌, ◌≤◌, ◌<◌, ◌≡◌, Option, some, List, arith, length}
use osgods.Kernel.{Kernel}
use osgods.Programs.Counter.{counter_loop}
use osgods.Programs.Counter.Counts.{IsCount, counter_loop-IsCount}
use osgods.Programs.OnKernel.{kernel_calls, KernelShows}
use osgods.Programs.OnTerminal.{KernelReady, kernel_terminal}

-- On the kernel, with the terminal on descriptor 1 and the screen in order, the loop of the counter
-- ends after `n` rounds, for fewer than 2^32, and the screen is the one that `putc` makes of the
-- numbers from 1 to `n` in decimal, each on a line of its own.
pub counter_loop-KernelShows :
    (base : ℕ) (mem : ℕ → ℕ) (run : Kernel → List ℕ → Option (ℕ × Kernel)) (address n : ℕ)
    (k : Kernel) (buf : List ℕ)
    → base + 4000 ≤ 2 ^ 32
    → n < 2 ^ 32
    → length buf ≡ 1024
    → KernelReady base mem k
    → (out : List ℕ) × (l : Kernel) × (counter_loop (kernel_calls run address) n 0 k buf ≡ some l)
      × IsCount 0 n out
      × KernelReady base mem l
      × KernelShows k out l
counter_loop-KernelShows base mem run address n k buf fits small size ready =
    counter_loop-IsCount (kernel_calls run address) (kernel_terminal base fits mem run address) n 0
      k buf (omega arith) size ready
