-- ===== src/Boot/Running.antt =====
-- What the kernel comes to after its start by interrupts and by what programs write.
use osgods.Common.{
  get_elem?, ℕ, ◌<◌, ◌≡◌, refl, false, Option, none, some, List, [], ◌∷◌, ◌++◌, arith, length, drop,
  replicate, All, Ensures, Ensures-bind,
}
use mathlib.Core.Option
use osgods.Boot.Entering.{Linked, Machine}
use osgods.Boot.Starts.{Starts}
use osgods.Console.{Console, Terminal}
use osgods.Process.{Outcome}
use osgods.Process.Switching.{pit_intr_handler}
use osgods.Terminal.Changing.{with_line}
use osgods.Console.Putc.{putc}
use osgods.Kernel.{Kernel}
use osgods.Keyboard.{keyb_intr_handler}
use osgods.Keyboard.Handling.{Ordered, IsPlainKey}
use osgods.KeyBuffer.{keyb_buff_len}
use osgods.Pic.{Pic}
use osgods.Printf.Numbers.{NoBackspace}
use osgods.Rtc.{Rtc, rtc_intr_handler, Poll, waiting, returned}
use osgods.Pcb.{Pcb}
use osgods.Terminal.{put_chars, terminal_read, keyb_buffer_size}
use osgods.Terminal.InOrder.{InOrder, putc-InOrder}

pub put_chars-InOrder :
    (c : Console) (s : List ℕ) → InOrder c → All NoBackspace s → Ensures InOrder (put_chars c s)
unfolding put_chars
put_chars-InOrder c [] o plain = o
put_chars-InOrder c (ch ∷ s) o plain =
    Ensures-bind InOrder InOrder (putc c ch) _ (putc-InOrder c ch o plain.0)
      (λ d p. put_chars-InOrder d s p plain.1)

-- One step of the kernel: the keyboard's interrupt, for a key that types no backspace while the line
-- has room; the timer's interrupt, whichever process it goes on with or starts; the clock's interrupt; a
-- line that a program reads before it fills the buffer; text without backspaces that a program writes;
-- and any use of the stack in which the lines of the terminals lie.
pub data Step : Kernel → Kernel → Type 0 where
  pressed :
      (k l : Kernel) (key : ℕ)
      → IsPlainKey k key
      → k.console.keyb_index < keyb_buff_len
      → keyb_intr_handler k key ≡ some l
      → Step k l
  timed :
      (k l : Kernel) (esp ebp : ℕ) (o : Outcome)
      → pit_intr_handler k esp ebp ≡ some (o, l)
      → Step k l
  overwritten :
      (k : Kernel) (i : ℕ) (t : Terminal) (line : List ℕ)
      → get_elem? k.console.terminal_list i ≡ some t
      → length line ≡ keyb_buffer_size
      → Step k (record k { console = with_line k.console i t line })
  clocked :
      (k : Kernel) (r : Rtc) (p : Pic) (pcbs : List Pcb)
      → rtc_intr_handler k.rtc k.pic k.pcbs ≡ some (r, p, pcbs)
      → Step k (record k { rtc = r; pic = p; pcbs = pcbs })
  taken :
      (k : Kernel) (nbytes n : ℕ) (out : List ℕ) (c : Console)
      → k.console.keyb_index < keyb_buff_len
      → terminal_read k.console nbytes ≡ some (returned (n, out, c))
      → Step k (record k { console = c })
  written :
      (k : Kernel) (c : Console) (s : List ℕ)
      → All NoBackspace s
      → put_chars k.console s ≡ some c
      → Step k (record k { console = c })

-- Any number of steps.
pub data Reach (k : Kernel) : Kernel → Type 0 where
  here : Reach k k
  onward : {l m : Kernel} → Reach k l → Step l m → Reach k m

-- What is left of the console when a line was read.
abbrev emptied : Console → Console
emptied c = record c {
  terminal_read_enable_signal = false;
  key_buffer = replicate c.keyb_index 0 ++ drop c.keyb_index c.key_buffer;
  keyb_index = 0;
}

abbrev left : Console → Option (Poll (ℕ × List ℕ × Console)) → Console
left d none = d
left d (some waiting) = d
left d (some (returned r)) = r.2

pub Starts-Ordered :
    (l : Linked) (kept mem : ℕ → ℕ) (start : ℕ) (m n : Machine)
    → Starts l kept mem start m n
    → Ordered n.kernel
Starts-Ordered l kept mem start m n s = record {
  page = rw s.safe.page (omega arith);
  safe = record {
    column = s.safe.column;
    row = s.safe.row;
    page = refl;
    settings = s.safe.settings;
    terminals = s.safe.terminals;
    displayed = s.safe.displayed;
    scheduled = s.safe.scheduled;
    cursors = s.safe.cursors;
    kept = λ a out. refl;
  };
  ready = s.ready;
}
