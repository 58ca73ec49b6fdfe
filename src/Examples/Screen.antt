-- ===== src/Examples/Screen.antt =====
-- The screen, the keyboard and the terminals on the screen after start.
use osgods.Common.{
  ℕ, ◌*◌, ◌<◌, ◌≡◌, refl, true, some, [], ◌∷◌, arith, replicate, length-replicate, Ensures,
  All-replicate,
}
use osgods.Console.{Console, num_rows, num_cols}
use osgods.Console.Putc.Safe.{Safe, IsSettings}
use osgods.Examples.{screen, settings}
use osgods.Keyboard.Reading.{IsRead, type_chars, type_chars-IsRead}
use osgods.Keyboard.Typing.{HasLine}
use osgods.Rtc.{returned}
use osgods.Terminal.{terminal_read}
use osgods.Terminal.Lines.{terminal_read-line}

settings-IsSettings : IsSettings settings
settings-IsSettings = record {
  rows = refl;
  columns = All-replicate (λ x. x < num_cols) num_rows 0 (omega arith);
  flags = refl;
  buffer = length-replicate {A = ℕ} (num_cols * num_rows) 0;
  index = omega arith;
}

pub screen-Safe : Safe 0xB8000 (λ a. 0) screen
screen-Safe = record {
  column = omega arith;
  row = omega arith;
  page = refl;
  settings = settings-IsSettings;
  terminals = refl;
  displayed = omega arith;
  scheduled = omega arith;
  cursors = (
    (omega arith, omega arith, omega arith),
    ((omega arith, omega arith, omega arith), ((omega arith, omega arith, omega arith), tt)),
  );
  kept = λ a out. refl;
}

empty-HasLine : HasLine screen []
empty-HasLine = (length-replicate {A = ℕ} 128 0, omega arith, refl)

type_chars-IsRead_example :
    Ensures
      (λ d. Safe 0xB8000 (λ a. 0) d × IsRead 5 (108 ∷ 115 ∷ 10 ∷ []) d)
      (type_chars screen (108 ∷ 115 ∷ 10 ∷ []))
type_chars-IsRead_example =
    type_chars-IsRead 0xB8000 (omega arith) (λ a. 0) 5 screen (108 ∷ 115 ∷ []) screen-Safe
      empty-HasLine ((λ e. omega arith), ((λ e. omega arith), tt)) (omega arith) refl

-- A line of one character with its newline.
abbrev entered : Console
entered = record screen {
  key_buffer = 97 ∷ 10 ∷ replicate 126 0;
  keyb_index = 2;
  terminal_read_enable_signal = true;
}

terminal_read-line_example :
    terminal_read entered 100
    ≡ some (returned (2, 97 ∷ 10 ∷ 0 ∷ [], record screen { key_buffer = replicate 128 0 }))
terminal_read-line_example =
    terminal_read-line entered 100 (length-replicate {A = ℕ} 128 0) (omega arith)
