-- ===== src/Keyboard.antt =====
-- keyboard.c: the key map, the line buffer and the interrupt handler.
pub mod Typing
pub mod Reading
pub mod Handling
use Prim.Native.String.{String}
use osgods.Common.{
  codes, ℕ, true, false, not, ◌&&◌, Option, none, some, List, [], ◌∷◌, ◌++◌, ltb, ◌==◌,
  if◌then◌else◌, get_elem?, add32, sub32, ◌>>=◌,
}
use osgods.Console.{
  Console, Terminal, get_display_tid, get_scheduled_tid, store, set_keyb_pressed, update_screen_x_y,
  update_video_mem, video_memory_addr, clear,
}
use osgods.Console.Putc.{putc}
use osgods.Kernel.{Kernel, CommandStatus}
use osgods.Process.{print}
use osgods.Pic.{Pic, send_eoi, enable_irq}
use osgods.Terminal.{terminal_switch, set_signal_enable}

abbrev pub keyb_map_length : ℕ
keyb_map_length = 59

-- A table of `keyboard_map`: digits, the three rows of letters and the keys between them.
key_table : String → String → String → String → String → List ℕ
key_table digits row1 row2 bar row3 =
    0
    ∷ 0
    ∷ (codes digits
        ++ (8
            ∷ 9
            ∷ (codes row1
                ++ (10
                    ∷ 0
                    ∷ (codes row2
                        ++ (0 ∷ (codes bar ++ (codes row3 ++ (0 ∷ 0 ∷ 0 ∷ 32 ∷ 0 ∷ [])))))))))

-- `keyboard_map[state]`.
unfoldable pub keyboard_map : ℕ → List ℕ
unfolding key_table
keyboard_map state =
    if state == 0
    then key_table "1234567890-=" "qwertyuiop[]" "asdfghjkl;'`" "\\" "zxcvbnm,./"
    else if state == 1
    then key_table "!@#$%^&*()_+" "QWERTYUIOP{}" "ASDFGHJKL:\"~" "|" "ZXCVBNM<>?"
    else if state == 2
    then key_table "1234567890-=" "QWERTYUIOP[]" "ASDFGHJKL;'`" "\\" "ZXCVBNM,./"
    else key_table "!@#$%^&*()_+" "qwertyuiop{}" "asdfghjkl:\"~" "|" "zxcvbnm<>?"

-- The row of `keyboard_map` for the keys held.
abbrev pub map_index : CommandStatus → ℕ
map_index s =
    if s.left_shift && not s.capslk
    then 1
    else if s.capslk && not s.left_shift
    then 2
    else if s.capslk && s.left_shift
    then 3
    else 0

-- The `switch` on the keys that only change the status; `none` is any other key.
unfoldable pub status_key : CommandStatus → ℕ → Option CommandStatus
status_key s key =
    if key == 0x2A
    then some (record s { left_shift = true })
    else if key == 0xAA
    then some (record s { left_shift = false })
    else if key == 0x1D
    then some (record s { left_ctrl = true })
    else if key == 0x9D
    then some (record s { left_ctrl = false })
    else if key == 0x38
    then some (record s { alt = true })
    else if key == 0xB8
    then some (record s { alt = false })
    else if key == 0x3A
    then some (record s { capslk = not s.capslk })
    else none

-- A key of the map: backspace shortens the line, any other character is stored and shown.
unfoldable pub type_char : Console → ℕ → Option Console
type_char c ch =
    let shorter = putc (set_keyb_pressed (record c { keyb_index = sub32 c.keyb_index 1 })) 8 in
    let longer = (do
      b ← store c.key_buffer c.keyb_index ch
      d ←
          putc (set_keyb_pressed (record c { key_buffer = b; keyb_index = add32 c.keyb_index 1 }))
            ch
      some (if ch == b'\n' then set_signal_enable d else d)) in
    if ch == 8 then (if c.keyb_index == 0 then some c else shorter) else longer

-- The label `end`: the video page of the scheduled terminal, and the acknowledgement.
unfoldable pub end_intr : Kernel → Option Kernel
end_intr k = do
  tid ← get_scheduled_tid k.console
  t ← get_elem? k.console.terminal_list tid
  let page = if tid == get_display_tid k.console then video_memory_addr else t.video_page
  some (record k { console = update_video_mem k.console page; pic = send_eoi k.pic 1 })

-- Past the status keys: the screen of the shown terminal, and the key's action.
unfoldable pub key_action : Kernel → ℕ → Option Kernel
unfolding type_char
key_action k key = do
  t ← get_elem? k.console.terminal_list (get_display_tid k.console)
  let c = update_screen_x_y (update_video_mem k.console video_memory_addr) t.x_cursor t.y_cursor
  let k' = record k { console = c }
  let cleared = (do d ← clear c; some (record k { console = d }))
  let typed = (do
    ch ← get_elem? (keyboard_map (map_index k.status)) key
    d ← type_char c ch
    some (record k { console = d }))
  if k.status.left_ctrl && key == 38
      then cleared
      else if k.status.alt && key == 0x3B
      then terminal_switch k' 0
      else if k.status.alt && key == 0x3C
      then terminal_switch k' 1
      else if k.status.alt && key == 0x3D
      then terminal_switch k' 2
      else if ltb key keyb_map_length
      then typed
      else some k'

-- `keyb_input` is what the data port holds.
unfoldable pub keyb_intr_handler : Kernel → ℕ → Option Kernel
unfolding key_action end_intr
keyb_intr_handler k keyb_input = do
  k' ← elim (status_key k.status keyb_input) [
    | some s ↦ some (record k { status = s })
    | none ↦ key_action k keyb_input
  ]
  end_intr k'

-- The line of the keyboard is opened, every key is up, and a message is put out.
unfoldable pub init_keyb : Kernel → Option Kernel
init_keyb k =
    print
      (record k {
        pic = enable_irq k.pic 1;
        status = record {
          left_shift = false;
          left_ctrl = false;
          left_alt = false;
          capslk = false;
          alt = false;
        };
      })
      (codes "keyboard interrupt enabled \n" ++ (0 ∷ [])) []

-- `copy_signal`, which no other part reads or sets, and the functions on it.
record ReadSignal : Type 0 where
  copy_signal : ℕ

abbrev read_keyb_signal : ReadSignal → ℕ
read_keyb_signal r = r.copy_signal

abbrev set_read_signal_unable : ReadSignal → ReadSignal
set_read_signal_unable r = record r { copy_signal = 0 }

abbrev set_read_signal_enable : ReadSignal → ReadSignal
set_read_signal_enable r = record r { copy_signal = 1 }
