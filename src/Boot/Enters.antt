-- ===== src/Boot/Enters.antt =====
-- From the boot loader to the first shell.
use osgods.Common.{ℕ, ◌≡◌, Option, some, if◌then◌else◌, ◌>>=◌}
use osgods.Boot.Entering.{Machine, Booted, launched}
use osgods.Boot.Loops.{last_start}
use osgods.Boot.Multiboot.{MultibootInfo, check_flag}
use osgods.Boot.Report.{Reported, reported}
use osgods.Boot.Reports.{Reports}
use osgods.Boot.Starts.{Starts}
use osgods.Console.{Console, video_memory_addr}
use osgods.Console.Putc.Frame.{Frame}
use osgods.Console.Putc.Safe.{Safe}
use osgods.Kernel.{Kernel}
use osgods.Process.{execute}
use osgods.Programs.{literal}

-- The report went on to the file system at `s`.
abbrev Continues : (ℕ → ℕ) → (ℕ → ℕ) → Kernel → MultibootInfo → ℕ → Option Reported → Type 0
Continues kept mem k mbi start out =
    (s : ℕ) × (c : Console) × (out ≡ some (reported s (record k { console = c })))
    × (s ≡ (
        if check_flag mbi.flags 3
        then last_start mem mbi.mods_count mbi.mods_addr start
        else start))
    × Safe video_memory_addr kept c
    × Frame k.console c

-- The start of the first program on the machine `n`.
abbrev pub launch : ℕ → ℕ → Machine → Option Booted
launch esp ebp n = do
  (outcome, k) ← execute n.kernel (some (literal "shell")) esp ebp
  some (launched outcome (record n { kernel = k }))
