-- ===== src/Console/Putc.antt =====
-- `putc` of lib.c: one branch each for backspace, enter, tab and any other character.
pub mod Frame
pub mod Undo
pub mod Branches
pub mod Safe
use osgods.Common.{
  ℕ, ◌+◌, ◌-◌, ◌*◌, false, not, ◌&&◌, ◌||◌, Option, some, List, [], ◌∷◌, ◌==◌, if◌then◌else◌,
  get_elem?, replicate, add32, sub32, slt, ◌>>=◌,
}
use osgods.Console.{
  Console, Settings, Terminal, num_cols, num_rows, spaces_num, put_cell, put_cells, move, store,
  set_cursor, get_display_tid, get_scheduled_tid,
}

-- The label `draw_`: the cursor is drawn and noted in the terminal.
pub draw : Console → ℕ → Option Console
unfolding set_cursor
draw c tid =
    set_cursor (record c { vram = put_cell c.vram c.video_mem c.screen_x c.screen_y b'_' }) tid
      c.screen_x c.screen_y

-- A full display buffer is emptied.
pub recycle : Settings → Settings
recycle s =
    if s.display_buf_index == num_cols * num_rows
    then record s { display_buf_index = 0; display_buf = replicate (num_cols * num_rows) 0 }
    else s

-- `display_buf[--display_buf_index] = 0`
pub unstore : Settings → Option Settings
unfolding store
unstore s = do
  let i = sub32 s.display_buf_index 1
  b ← store s.display_buf i 0
  some (record s { display_buf = b; display_buf_index = i })

-- `display_buf[display_buf_index++] = c`
pub append : Settings → ℕ → Option Settings
unfolding store
append s ch = do
  b ← store s.display_buf s.display_buf_index ch
  some (record s { display_buf = b; display_buf_index = add32 s.display_buf_index 1 })

-- `a[j] = a[j + 1]` for all but the last `j` of a row array
pub shift_up : List ℕ → List ℕ
shift_up [] = []
shift_up (a ∷ []) = a ∷ []
shift_up (a ∷ b ∷ r) = b ∷ shift_up (b ∷ r)

-- The screen moves up a row and the last row is cleared.
pub scroll : Console → Console
unfolding shift_up
scroll c =
    let moved =
      move c.vram c.video_mem (c.video_mem + num_cols * 2) (num_cols * (num_rows - 1) * 2) in
    let s = c.settings in
    record c {
      vram = put_cells moved c.video_mem 0 (num_rows - 1) b' ' num_cols;
      settings = record s {
        line_is_full = shift_up s.line_is_full;
        prev_screen_x = shift_up s.prev_screen_x;
      };
    }

-- The leftmost cursor goes back to the line above, which was full or ended by an enter.
pub line_back : Settings → ℕ → Option (Settings × ℕ × ℕ)
unfolding unstore store
line_back s y = do
  full ← get_elem? s.line_is_full (sub32 y 1)
  let whole = (do
    l ← store s.line_is_full (sub32 y 1) 0
    s' ← unstore (record s { line_is_full = l })
    some (s', num_cols - 1, sub32 y 1))
  let part = (do
    s' ← unstore s
    x' ← get_elem? s'.prev_screen_x (sub32 y 1)
    some (s', x', sub32 y 1))
  if full == 1 then whole else part

-- The cursor after a backspace, with the arrays.
pub back : Settings → ℕ → ℕ → Option (Settings × ℕ × ℕ)
unfolding unstore line_back
back s x y = do
  last ← get_elem? s.display_buf (sub32 s.display_buf_index 1)
  let tab = (do s' ← unstore s; some (s', sub32 x spaces_num, y))
  let corner = (do s' ← unstore s; some (s', x, y))
  let left = (do s' ← unstore s; some (s', sub32 x 1, y))
  if last == b'\t'
      then tab
      else if x == 0 && not (y == 0)
      then line_back s y
      else if x == 0 && y == 0
      then corner
      else left

pub backspace : Console → Option Console
unfolding back
backspace c = do
  (s, x, y) ← back c.settings c.screen_x c.screen_y
  some (record c {
    vram = put_cell c.vram c.video_mem c.screen_x c.screen_y b' ';
    settings = s;
    screen_x = x;
    screen_y = y;
  })

pub enter : Console → ℕ → Option Console
unfolding append scroll store
enter c ch = do
  s ← append c.settings ch
  p ← store s.prev_screen_x c.screen_y c.screen_x
  let c' = record c {
    vram = put_cell c.vram c.video_mem c.screen_x c.screen_y b' ';
    settings = record s { prev_screen_x = p };
    screen_x = 0;
  }
  some (
      if c.screen_y == num_rows - 1 then scroll c' else record c' { screen_y = add32 c.screen_y 1 })

-- Past its test of the room in the line.
pub tab : Console → Option Console
unfolding append
tab c = do
  s ← append c.settings b'\t'
  some (record c {
    vram = put_cells c.vram c.video_mem c.screen_x c.screen_y b' ' spaces_num;
    settings = s;
    screen_x = add32 c.screen_x spaces_num;
  })

-- What follows a character that fills its line.
pub line_end : Console → Option Console
unfolding scroll store
line_end c =
    let next = (do
      l ← store c.settings.line_is_full c.screen_y 1
      some (record c {
        settings = record (c.settings) { line_is_full = l };
        screen_y = add32 c.screen_y 1;
        screen_x = 0;
      })) in
    let up = scroll (record c { screen_x = 0; screen_y = num_rows - 1 }) in
    let last = (do
      l ← store up.settings.line_is_full (num_rows - 2) 1
      some (record up { settings = record (up.settings) { line_is_full = l } })) in
    if slt c.screen_y (num_rows - 1) then next else last

pub plain : Console → ℕ → Option Console
unfolding append line_end
plain c ch = do
  s ← append c.settings ch
  let c' = record c {
    vram = put_cell c.vram c.video_mem c.screen_x c.screen_y ch;
    settings = s;
    screen_x = add32 c.screen_x 1;
  }
  if c'.screen_x == num_cols then line_end c' else some c'

-- The terminal whose cursor a character moves.
pub putc_tid : Console → Option ℕ
putc_tid c = if c.keyb_pressed then some (get_display_tid c) else get_scheduled_tid c

unfoldable pub putc : Console → ℕ → Option Console
unfolding recycle backspace enter tab plain draw
putc c ch = do
  tid ← putc_tid c
  let c' = record c { keyb_pressed = false; settings = recycle c.settings }
  if ch == 8
      then (do d ← backspace c'; draw d tid)
      else if ch == b'\n' || ch == b'\r'
      then (do d ← enter c' ch; draw d tid)
      else if ch == b'\t'
      then (if not (slt c'.screen_x (num_cols - spaces_num - 1))
          then some c'
          else (do d ← tab c'; draw d tid))
      else (do d ← plain c' ch; draw d tid)
