-- ===== src/Console.antt =====
-- The text screen of lib.c and the terminals of types.h.
pub mod Putc
pub mod Clearing
use osgods.Common.{
  ℕ, zero, suc, ◌+◌, ◌-◌, ◌*◌, Bool, true, ◌&&◌, Option, none, some, List, map, ltb, leb, ◌==◌,
  if◌then◌else◌, length, get_elem?, set, u32, ◌>>=◌,
}
use mathlib.Core.Option

-- What lib.c keeps to undo typing; every terminal has a copy of its own.
pub record Settings : Type 0 where
  pub prev_screen_x : List ℕ
  pub i_prev_x : ℕ
  pub display_buf : List ℕ
  pub display_buf_index : ℕ
  pub line_is_full : List ℕ

-- `terminal_t`. `next_terminal` and `pcb_ptr` are pointers into `terminal_list` and to the process
-- slots, as indices; NULL is `none`.
pub record Terminal : Type 0 where
  pub tid : ℕ
  pub video_page : ℕ
  pub x_cursor : ℕ
  pub y_cursor : ℕ
  pub pcb_ptr : Option ℕ
  pub count_pcb : ℕ
  pub keyb_buffer : List ℕ
  pub keyb_buffer_index : ℕ
  pub next_terminal : Option ℕ
  pub vidmap : ℕ
  pub saved : Settings

-- The globals of lib.c, terminal.c and keyboard.c. `vram` is the memory of all video pages by
-- address; `int`s are patterns of 32 bits.
pub record Console : Type 0 where
  pub vram : ℕ → ℕ
  pub video_mem : ℕ
  pub screen_x : ℕ
  pub screen_y : ℕ
  pub settings : Settings
  pub keyb_pressed : Bool
  pub terminal_list : List Terminal
  pub curr_terminal_num : ℕ
  pub scheduled_terminal : ℕ
  pub scheduled_terminal_num : ℕ
  pub terminal_buf_index : ℕ
  pub terminal_read_enable_signal : Bool
  pub key_buffer : List ℕ
  pub keyb_index : ℕ

abbrev pub num_cols : ℕ
num_cols = 80

abbrev pub num_rows : ℕ
num_rows = 25

abbrev pub attrib : ℕ
attrib = 7

abbrev pub spaces_num : ℕ
spaces_num = 4

abbrev pub video_memory_addr : ℕ
video_memory_addr = 0xB8000

-- One byte of memory overwritten.
unfoldable pub poke : (ℕ → ℕ) → ℕ → ℕ → ℕ → ℕ
poke mem a v b = if b == a then v else mem b

-- `*(video_mem + ((NUM_COLS * y + x) << 1)) = ch` and the attribute behind it
unfoldable pub put_cell : (ℕ → ℕ) → ℕ → ℕ → ℕ → ℕ → ℕ → ℕ
unfolding poke
put_cell mem base x y ch =
    let a = u32 (base + (num_cols * y + x) * 2) in poke (poke mem a ch) (u32 (a + 1)) attrib

-- `put_cell` for `n` columns from `x` on
unfoldable pub put_cells : (ℕ → ℕ) → ℕ → ℕ → ℕ → ℕ → ℕ → ℕ → ℕ
put_cells mem base x y ch zero = mem
put_cells mem base x y ch (suc n) = put_cells (put_cell mem base x y ch) base (x + 1) y ch n

-- `memmove(dest, src, n)` on the memory.
unfoldable pub move : (ℕ → ℕ) → ℕ → ℕ → ℕ → ℕ → ℕ
move mem dest src n b = if leb dest b && ltb b (dest + n) then mem (src + (b - dest)) else mem b

abbrev pub get_display_tid : Console → ℕ
get_display_tid c = c.curr_terminal_num

-- `scheduled_terminal->tid`, with `scheduled_terminal` as an index.
abbrev pub get_scheduled_tid : Console → Option ℕ
get_scheduled_tid c = Option.map (λ t. t.tid) (get_elem? c.terminal_list c.scheduled_terminal)

-- An element of an array is written; `none` is an access outside it.
unfoldable pub store : List ℕ → ℕ → ℕ → Option (List ℕ)
store xs i v = if ltb i (length xs) then some (set xs i v) else none

-- `terminal_list[tid]` is changed by `f`.
unfoldable pub at_terminal : Console → ℕ → (Terminal → Terminal) → Option Console
at_terminal c tid f = do
  t ← get_elem? c.terminal_list tid
  some (record c { terminal_list = set c.terminal_list tid (f t) })

unfoldable pub set_cursor : Console → ℕ → ℕ → ℕ → Option Console
unfolding at_terminal
set_cursor c tid x y = at_terminal c tid (λ t. record t { x_cursor = x; y_cursor = y })

unfoldable pub set_keyb_pressed : Console → Console
set_keyb_pressed c = record c { keyb_pressed = true }

unfoldable pub update_screen_x_y : Console → ℕ → ℕ → Console
update_screen_x_y c x y = record c { screen_x = x; screen_y = y }

unfoldable pub update_video_mem : Console → ℕ → Console
update_video_mem c page = record c { video_mem = page }

pub load_terminal_screen_settings : Console → ℕ → Option Console
load_terminal_screen_settings c tid = do
  t ← get_elem? c.terminal_list tid
  some (record c { settings = t.saved })

pub restore_terminal_screen_settings : Console → ℕ → Option Console
unfolding at_terminal
restore_terminal_screen_settings c tid = at_terminal c tid (λ t. record t { saved = c.settings })

-- The rows are cleared one after the other, as the one loop over all cells does.
pub clear_rows : (ℕ → ℕ) → ℕ → ℕ → ℕ → ℕ → ℕ
clear_rows mem base y zero = mem
clear_rows mem base y (suc n) = clear_rows (put_cells mem base 0 y b' ' num_cols) base (y + 1) n

pub clear : Console → Option Console
unfolding clear_rows set_cursor
clear c =
    set_cursor
      (record c { vram = clear_rows c.vram c.video_mem 0 num_rows; screen_x = 0; screen_y = 0 })
      (get_display_tid c) 0 0
