-- ===== src/Process/Printing.antt =====
-- What is printed leaves the screen in order.
use osgods.Common.{
  Ensures-Allows, ℕ, ◌+◌, ◌^◌, ◌≤◌, ◌≡◌, refl, ap, ◌∙◌, true, none, List, [], ◌∷◌, All, Ensures,
  Ensures-bind, Allows, Allows-bind_with,
}
use osgods.Console.{Console}
use osgods.Console.Putc.{putc}
use osgods.Console.Putc.Frame.{Frame, Frame-refl, Frame-trans, putc-Frame}
use osgods.Console.Putc.Safe.{Safe}
use osgods.Kernel.{Kernel}
use osgods.Printf.{Arg, printf}
use osgods.Printf.Numbers.{NoBackspace}
use osgods.Printf.Formats.{Kind, is_format, HaveKinds, printf-NoBackspace}
use osgods.Process.{print}
use osgods.Terminal.{put_chars}
use osgods.Terminal.Lines.{put_chars-Safe}

-- `Prints base mem k k'`: from `k` to `k'` only the console changed, and there neither the line buffer
-- nor the choice of terminals, and the screen is in order.
abbrev pub Prints : ℕ → (ℕ → ℕ) → Kernel → Kernel → Type 0
Prints base mem k k' =
    (k' ≡ record k { console = k'.console }) × Safe base mem k'.console × Frame k.console k'.console

pub Prints-again :
    (base : ℕ) (mem : ℕ → ℕ) (k l m : Kernel)
    → Prints base mem k l
    → Prints base mem l m
    → Prints base mem k m
Prints-again base mem k l m (e, ok, f) (e', ok', f') = (
  e' ∙ ap (λ (x : Kernel). record x { console = m.console }) e,
  ok',
  Frame-trans k.console l.console m.console f f',
)

pub put_chars-Frame : (c d : Console) (s : List ℕ) → Frame c d → Allows (Frame c) (put_chars d s)
unfolding put_chars
put_chars-Frame c d [] f = f
put_chars-Frame c d (ch ∷ s) f =
    Allows-bind_with (Frame d) (Frame c) (putc d ch) _ (putc-Frame d ch)
      (λ e g. put_chars-Frame c e s (Frame-trans c d e f g))

-- A format that `printf` never fails on is printed without a fault on a screen in order, which
-- stays in order, and nothing but the console changes.
pub print-Prints :
    (base : ℕ) (mem : ℕ → ℕ) (k : Kernel) (format : List ℕ) (kinds : List Kind) (args : List Arg)
    → base + 4000 ≤ 2 ^ 32
    → is_format none format kinds ≡ true
    → HaveKinds kinds args
    → Safe base mem k.console
    → Ensures (Prints base mem k) (print k format args)
unfolding print
print-Prints base mem k format kinds args fits f h ok =
    Ensures-bind (All NoBackspace) (Prints base mem k) (printf format args) _
      (printf-NoBackspace format kinds args f h)
      (λ s plain.
        Ensures-bind (λ c. Safe base mem c × Frame k.console c) (Prints base mem k)
          (put_chars k.console s) _
          (Ensures-Allows (Safe base mem) (Frame k.console) (put_chars k.console s)
            (put_chars-Safe base fits mem k.console s plain ok)
            (put_chars-Frame k.console k.console s (Frame-refl k.console)))
          (λ c p. (refl, p.0, p.1)))
