-- ===== src/Keyboard/Reading.antt =====
-- A line from the keys to the program that reads it.
use osgods.Common.{
  ℕ, suc, ◌+◌, ◌^◌, ◌≤◌, ◌<◌, min, ◌≡◌, refl, sym, ap, ◌∙◌, ◌≢◌, true, false, Option, some, List,
  [], ◌∷◌, ◌++◌, append_assoc, arith, ◌==◌, length, length-append, drop, replicate, length-take,
  length-drop, length-replicate, ◌>>=◌, All, Ensures, Ensures-bind,
}
use mathlib.Core.Path.{subst}
use osgods.Console.{Console, get_display_tid}
use osgods.Console.Putc.Safe.{Safe}
use osgods.KeyBuffer.{keyb_buff_len}
use osgods.Keyboard.{type_char}
use osgods.Keyboard.Typing.{HasLine, Typed, edit, type_char-edit}
use osgods.Rtc.{returned}
use osgods.Terminal.{terminal_read}
use osgods.Terminal.Lines.{terminal_read-line}

-- One character typed after the other.
unfoldable pub type_chars : Console → List ℕ → Option Console
type_chars c [] = some c
type_chars c (ch ∷ s) = do c' ← type_char c ch; type_chars c' s

-- What the reader is given: the length, the line and a 0; the line is then empty.
abbrev pub IsRead : ℕ → List ℕ → Console → Type 0
IsRead nbytes line c =
    (d : Console) × (terminal_read c nbytes ≡ some (returned (length line, line ++ (0 ∷ []), d)))
    × HasLine d []
    × (d.terminal_read_enable_signal ≡ false)

HasLine-length : (c : Console) (s : List ℕ) → HasLine c s → c.keyb_index ≡ length s
HasLine-length c s (size, bound, line) =
    let l : length s ≡ min c.keyb_index (length c.key_buffer) =
      ap length (sym line) ∙ length-take c.keyb_index c.key_buffer in
    omega arith

module _ (base : ℕ) (fits : base + 4000 ≤ 2 ^ 32) (mem : ℕ → ℕ) (nbytes : ℕ) where
  line-IsRead :
      (c : Console) (s : List ℕ)
      → HasLine c s
      → length s < keyb_buff_len
      → c.terminal_read_enable_signal ≡ true
      → c.scheduled_terminal_num ≡ c.curr_terminal_num
      → IsRead nbytes s c
  line-IsRead c s h small up here =
      let n = HasLine-length c s h in
      let same : (c.scheduled_terminal_num == get_display_tid c) ≡ true = ground arith in
      (
        record c {
          terminal_read_enable_signal = false;
          key_buffer = replicate c.keyb_index 0 ++ drop c.keyb_index c.key_buffer;
          keyb_index = 0;
        },
        terminal_read-line c nbytes h.0 (omega arith) ∙ rw (up, same, h.2, n) refl,
        (
          length-append (replicate c.keyb_index 0) (drop c.keyb_index c.key_buffer)
              ∙ omega (
                arith,
                length-replicate {A = ℕ} c.keyb_index 0,
                length-drop c.keyb_index c.key_buffer,
                h.0,
              ),
          omega arith,
          refl,
        ),
        refl,
      )

  typed-Ensures :
      (c : Console) (t s : List ℕ)
      → Safe base mem c
      → HasLine c t
      → All (λ ch. ch ≢ 8) s
      → length t + suc (length s) < keyb_buff_len
      → c.scheduled_terminal_num ≡ c.curr_terminal_num
      → Ensures
          (λ d. Safe base mem d × IsRead nbytes (t ++ (s ++ (b'\n' ∷ []))) d)
          (type_chars c (s ++ (b'\n' ∷ [])))
  unfolding type_chars
  typed-Ensures c t [] ok h plain small here =
      let n = HasLine-length c t h in
      Ensures-bind (λ d. Safe base mem d × Typed c t b'\n' d) _ (type_char c b'\n') _
        (type_char-edit base fits mem c t b'\n' ok (λ e. absurd (omega (arith, e))) h (omega arith))
        λ d (safe, (line, signal, shown, sched)). (
          safe,
          line-IsRead d (t ++ (b'\n' ∷ [])) line (omega (arith, length-append t (b'\n' ∷ [])))
              signal (sched ∙ here ∙ sym shown),
        )
  typed-Ensures c t (ch ∷ s) ok h plain small here =
      let n = HasLine-length c t h in
      let edited : edit t ch ≡ t ++ (ch ∷ []) =
        let e : (ch == 8) ≡ false = ground (arith, plain.0) in rw e refl in
      Ensures-bind (λ d. Safe base mem d × Typed c t ch d) _ (type_char c ch) _
        (type_char-edit base fits mem c t ch ok (λ e. absurd (plain.0 e)) h (omega arith))
        λ d (safe, (line, signal, shown, sched)).
          subst
            (λ l.
              Ensures (λ d. Safe base mem d × IsRead nbytes l d) (type_chars d (s ++ (b'\n' ∷ []))))
            (append_assoc t (ch ∷ []) (s ++ (b'\n' ∷ [])))
            (typed-Ensures d (t ++ (ch ∷ [])) s safe (subst (HasLine d) edited line) plain.1
              (omega (arith, length-append t (ch ∷ []))) (sched ∙ here ∙ sym shown))

-- On a screen in order whose shown terminal is the scheduled one, with an empty line, typing any
-- characters but backspaces and then a newline, 127 characters in all at most, does not fault,
-- leaves the screen in order, and `terminal_read` then returns exactly those characters, their
-- number and a 0 behind them, and leaves the line empty and the signal down.
pub type_chars-IsRead :
    (base : ℕ) (fits : base + 4000 ≤ 2 ^ 32) (mem : ℕ → ℕ) (nbytes : ℕ) (c : Console) (s : List ℕ)
    → Safe base mem c
    → HasLine c []
    → All (λ ch. ch ≢ 8) s
    → suc (length s) < keyb_buff_len
    → c.scheduled_terminal_num ≡ c.curr_terminal_num
    → Ensures
        (λ d. Safe base mem d × IsRead nbytes (s ++ (b'\n' ∷ [])) d)
        (type_chars c (s ++ (b'\n' ∷ [])))
type_chars-IsRead base fits mem nbytes c s ok h plain small here =
    typed-Ensures base fits mem nbytes c [] s ok h plain (omega arith) here
