-- ===== src/Examples/Started.antt =====
-- A machine that is started, and what its kernel comes to.
use osgods.Common.{
  All, ◌∙◌, replicate, get_elem?-lt, Allows-some, Ensures-some, ℕ, ◌≡◌, codes, some, arith,
  get_elem?, length-replicate,
}
use mathlib.Core.Option
use osgods.Boot.Entering.{Machine, init_machine}
use osgods.Boot.Running.{put_chars-InOrder, Starts-Ordered}
use osgods.Boot.Starts.{Starts, init_machine-Starts}
use osgods.Examples.Screen.{screen-Safe}
use osgods.Console.{Console, Terminal}
use osgods.Terminal.Changing.{with_line, with_line-InOrder}
use osgods.Console.Putc.Frame.{Frame, Frame-refl}
use osgods.Process.Printing.{put_chars-Frame}
use osgods.Printf.Numbers.{NoBackspace}
use osgods.Kernel.{Kernel}
use osgods.Terminal.{put_chars}
use osgods.Terminal.InOrder.{InOrder}
use osgods.Examples.Booting.{linked, linked-IsLaidOut, blank_desc, memory, fresh}

-- The machine that is started.
started :
    (n : Machine) × (init_machine linked blank_desc blank_desc memory 0 0x400000 fresh ≡ some n)
    × Starts linked (λ a. 0) memory 0x400000 fresh n
started =
    init_machine-Starts linked blank_desc blank_desc (λ a. 0) memory 0 0x400000 fresh
      (screen-Safe, length-replicate {A = ℕ} 128 0, omega arith)
      (record { master = omega arith; slave = omega arith }) linked-IsLaidOut (omega arith)
      (omega arith) (omega arith) (omega arith)

-- The second terminal, whose line is overwritten.
second : (t : Terminal) × (get_elem? started.0.kernel.console.terminal_list 1 ≡ some t)
second =
    get_elem?-lt started.0.kernel.console.terminal_list 1 (omega (arith, started.2.safe.terminals))

abbrev changed : Kernel
changed = record started.0.kernel {
  console = with_line started.0.kernel.console 1 second.0 (replicate 128 9);
}

ab-plain : All NoBackspace (codes "ab")
ab-plain = (omega arith, (omega arith, tt))

-- The text is written, and leaves the index of the line.
shown : (c : Console) × (put_chars changed.console (codes "ab") ≡ some c) × (c.keyb_index ≡ 0)
shown =
    let o =
      with_line-InOrder started.0.kernel.console 1 second.0 (replicate 128 9)
        (Starts-Ordered linked (λ a. 0) memory 0x400000 fresh started.0 started.2) second.1
        (length-replicate {A = ℕ} 128 9) in
    let (c, e, _) =
      Ensures-some InOrder (put_chars changed.console (codes "ab"))
        (put_chars-InOrder changed.console (codes "ab") o ab-plain) in
    let frame =
      Allows-some (Frame changed.console) (put_chars changed.console (codes "ab")) c
        (put_chars-Frame changed.console changed.console (codes "ab") (Frame-refl changed.console))
        e in
    (c, e, frame.1 ∙ started.2.index)

abbrev written_on : Kernel
written_on = record changed { console = shown.0 }
