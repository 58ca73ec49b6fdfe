-- ===== src/Terminal.antt =====
-- terminal.c: reading and writing lines, and the three terminals.
pub mod Lines
pub mod Pages
pub mod Initial
pub mod Swapping
pub mod Switching
pub mod InOrder
pub mod Ordering
pub mod Changing
use osgods.Common.{
  ◌-◌, codes, ℕ, zero, suc, ◌+◌, ◌*◌, ◌%◌, true, false, not, ◌||◌, Option, none, some, List, [],
  ◌∷◌, ◌++◌, map, ◌==◌, if◌then◌else◌, get_elem?, set, replicate, minus_one, slt, ◌>>=◌,
}
use mathlib.Core.Option
use osgods.Console.{
  Console, Settings, Terminal, at_terminal, move, get_display_tid, update_screen_x_y,
  update_video_mem, video_memory_addr, num_rows, num_cols,
}
use osgods.Console.Putc.{putc}
use osgods.KeyBuffer.{clean_keyb_buffer, update_keyb_buf, copy_first, rounds}
use osgods.Kernel.{Kernel, memory_switch}
use osgods.Paging.{Paging, map_video_page}
use osgods.Rtc.{Poll, waiting, returned}

abbrev pub max_terminal_num : ℕ
max_terminal_num = 3

abbrev pub keyb_buffer_size : ℕ
keyb_buffer_size = 128

-- `putc` of one character after the other.
unfoldable pub put_chars : Console → List ℕ → Option Console
put_chars c [] = some c
put_chars c (ch ∷ s) = do c' ← putc c ch; put_chars c' s

unfoldable pub terminal_bad_read : Console → Option (ℕ × Console)
terminal_bad_read c = do c' ← put_chars c (codes "terminal bad read!!\n"); some (minus_one, c')

unfoldable pub terminal_bad_write : Console → Option (ℕ × Console)
terminal_bad_write c = do c' ← put_chars c (codes "terminal bad write!!\n"); some (minus_one, c')

unfoldable pub terminal_open : Console → ℕ × Console
terminal_open c = (0, c)

unfoldable pub terminal_close : Console → ℕ × Console
terminal_close c = (0, record c { terminal_buf_index = 0 })

unfoldable pub set_signal_enable : Console → Console
set_signal_enable c = record c { terminal_read_enable_signal = true }

unfoldable pub set_scheduled_tid : Console → ℕ → Console
set_scheduled_tid c tid = record c { scheduled_terminal_num = tid }

-- What the loop copies: `n` bytes of the line buffer.
read_first : ℕ → List ℕ → Option (List ℕ)
read_first zero xs = some []
read_first (suc n) [] = none
read_first (suc n) (x ∷ xs) = Option.map (λ r. x ∷ r) (read_first n xs)

-- `terminal_read` at one look at its condition: the number returned, and the bytes stored from
-- `buf` on. `nbytes` is not looked at.
unfoldable pub terminal_read : Console → ℕ → Option (Poll (ℕ × List ℕ × Console))
unfolding read_first
terminal_read c nbytes =
    let c' = record c { terminal_read_enable_signal = false } in
    let too_much = (do
      d ← put_chars c' (codes "too much to read!!\n")
      e ← clean_keyb_buffer d
      some (returned (0, [], e))) in
    let line = (do
      s ← read_first (rounds c.keyb_index) c.key_buffer
      d ← clean_keyb_buffer c'
      some (returned (rounds c.keyb_index, s ++ (0 ∷ []), d))) in
    if not c.terminal_read_enable_signal || not (c.scheduled_terminal_num == get_display_tid c)
    then some waiting
    else if not (slt c.keyb_index keyb_buffer_size)
    then too_much
    else line

-- `buf` holds at least the bytes to write; the loop runs for `nbytes` rounds.
unfoldable pub terminal_write : Console → List ℕ → ℕ → Option (ℕ × Console)
unfolding read_first
terminal_write c buf nbytes = do
  s ← read_first (rounds nbytes) buf
  c' ← put_chars c s
  some (rounds nbytes, c')

-- Terminal `i` as `terminal_init` leaves it. Its line lies in a local array of `terminal_init`, which
-- has returned when the line is used: `stack` is what the memory of these arrays holds then.
unfoldable pub init_terminal : (ℕ → List ℕ) → ℕ → Terminal
init_terminal stack i = record {
  tid = i;
  video_page = video_memory_addr + (i + 1) * 4096;
  x_cursor = 0;
  y_cursor = 0;
  pcb_ptr = none;
  count_pcb = 0;
  keyb_buffer = stack i;
  keyb_buffer_index = 0;
  next_terminal = some ((i + 1) % max_terminal_num);
  vidmap = 0;
  saved = record {
    prev_screen_x = replicate num_rows 0;
    i_prev_x = 0;
    display_buf = replicate (num_cols * num_rows) 0;
    display_buf_index = 0;
    line_is_full = replicate num_rows 0;
  };
}

-- The page of terminal `i`, mapped onto itself.
unfoldable pub init_page : Paging → ℕ → Paging
init_page p i = let page = video_memory_addr + (i + 1) * 4096 in map_video_page p page page 1

-- The bytes that the `memset` of 8000 bytes over the `display_buf` of terminal `i` clears behind
-- `terminal_list`: a terminal has 2248 bytes, of which the buffer begins at 144.
abbrev pub overrun : ℕ → ℕ
overrun i = i * 2248 + 144 + 4 * num_rows * num_cols - max_terminal_num * 2248

-- A round of the loop, up to the terminals themselves: the memory behind the array, and the page.
unfoldable pub init_round : (ℕ → Kernel → Kernel) → Kernel → ℕ → Kernel
unfolding init_page
init_round behind k i =
    let k' = behind (overrun i) k in record k' { paging = init_page k'.paging i }

-- `behind` is what clearing so many bytes behind `terminal_list` makes of the other globals, which
-- depends on where they are linked. What is cleared inside the array are fields of value 0 and the
-- terminals of later rounds.
unfoldable pub terminal_init : (ℕ → Kernel → Kernel) → (ℕ → List ℕ) → Kernel → Kernel
unfolding init_terminal init_round
terminal_init behind stack k =
    let k' = init_round behind (init_round behind (init_round behind k 0) 1) 2 in
    record k' {
      console = record k'.console {
        terminal_list = init_terminal stack 0 ∷ init_terminal stack 1 ∷ init_terminal stack 2 ∷ [];
        curr_terminal_num = 0;
      };
    }

-- The shown terminal's page, cursor and line are kept in `old` and those of `new` are brought in.
unfoldable pub swap_terminals : Console → Terminal → Terminal → Option Console
swap_terminals c old new = do
  b ← copy_first (rounds c.keyb_index) old.keyb_buffer c.key_buffer
  let saved = record old {
    x_cursor = c.screen_x;
    y_cursor = c.screen_y;
    keyb_buffer_index = c.keyb_index;
    keyb_buffer = b;
  }
  let kept = move c.vram old.video_page video_memory_addr 4096
  let d = record c {
    vram = move kept video_memory_addr new.video_page 4096;
    video_mem = video_memory_addr;
    screen_x = new.x_cursor;
    screen_y = new.y_cursor;
    terminal_list = set c.terminal_list c.curr_terminal_num saved;
  }
  update_keyb_buf d new.keyb_buffer new.keyb_buffer_index

unfoldable pub terminal_switch : Kernel → ℕ → Option Kernel
unfolding swap_terminals
terminal_switch k next_terminal_num =
    let c = k.console in
    let go = (do
      old ← get_elem? c.terminal_list c.curr_terminal_num
      new ← get_elem? c.terminal_list next_terminal_num
      d ← swap_terminals c old new
      memory_switch (record k { console = record d { curr_terminal_num = next_terminal_num } })) in
    if c.curr_terminal_num == next_terminal_num then some k else go
