-- ===== src/Programs/Cat/OnScreen.antt =====
-- `cat` on the kernel.
use osgods.Common.{ℕ, suc, ◌+◌, ◌*◌, ◌^◌, ◌≤◌, ◌≡◌, ◌≢◌, Option, some, List, length, minus_one, All}
use osgods.Kernel.{Kernel}
use osgods.Programs.Cat.{cat_bufsize, cat_main}
use osgods.Programs.Cat.Copies.{cat_main-Copied}
use osgods.Programs.OnKernel.{kernel_calls, kernel_files, KernelReads, KernelShows}
use osgods.Programs.Streams.{Plain}
use osgods.Syscall.{getargs, open_call}

-- The program `cat` on the kernel: where `getargs` gives the name of a file, `open` a descriptor for
-- it, and the screen is in order, the program ends with status 0 and the screen is the one that
-- `putc` of every byte of the file, in order, makes of it. The file holds no backspace; one round
-- for each 1024 bytes and one more are enough.
pub cat_main-KernelShows :
    (base : ℕ) (fits : base + 4000 ≤ 2 ^ 32) (mem : ℕ → ℕ)
    (run : Kernel → List ℕ → Option (ℕ × Kernel)) (address n : ℕ) (k l : Kernel) (fd : ℕ)
    (name xs buf : List ℕ)
    → getargs k address cat_bufsize buf ≡ some (0, name)
    → length name ≡ cat_bufsize
    → open_call k (some name) ≡ some (fd, l)
    → fd ≢ minus_one
    → KernelReads base mem l fd xs
    → All Plain xs
    → length xs ≤ n * cat_bufsize
    → (m : Kernel) × (cat_main (kernel_calls run address) (suc n) k buf ≡ some (0, m))
      × KernelShows l xs m
cat_main-KernelShows base fits mem run address n k l fd name xs buf args size opened ok r plain
      fuel =
    cat_main-Copied (kernel_calls run address) (kernel_files base fits mem run address) n k l fd
      name xs buf args size opened ok r plain fuel
