-- ===== src/Keyboard/Handling.antt =====
-- The keyboard's interrupt leaves the console in order.
use osgods.Common.{
  ℕ, ◌≤◌, ◌<◌, ◌≡◌, refl, ◌∙◌, ◌≢◌, inl, inr, Bool, true, false, ◌&&◌, none, some, List, arith, ltb,
  ◌==◌, if◌then◌else◌, ltb→lt, ==_ne, Bool-cases, Option-cases, length, get_elem?, set, length-set,
  add32, ◌>>=◌, Ensures, Ensures-bind, Ensures-if, All-get_elem?, get_elem?-lt,
}
use mathlib.Core.Path.{subst}
use osgods.Console.{
  Console, set_keyb_pressed, video_memory_addr, get_display_tid, update_screen_x_y,
  update_video_mem, clear,
}
use osgods.Console.Putc.{putc}
use osgods.Console.Putc.Safe.{HasCursor, store-Ensures}
use osgods.Kernel.{Kernel}
use osgods.KeyBuffer.{keyb_buff_len}
use osgods.Keyboard.{
  status_key, type_char, end_intr, key_action, keyb_intr_handler, keyboard_map, map_index,
  keyb_map_length,
}
use osgods.Terminal.{set_signal_enable}
use osgods.Terminal.InOrder.{InOrder, IsPage, moved-InOrder, putc-InOrder, clear-InOrder}
use osgods.Terminal.Ordering.{terminal_switch-InOrder, either-IsPage}
use osgods.Terminal.Pages.{IsTerminal}

-- The kernel's console is in order.
abbrev pub Ordered : Kernel → Type 0
Ordered k = InOrder k.console

-- Another line and other signals.
pub line-InOrder :
    (c : Console) (pressed signal : Bool) (b : List ℕ) (i : ℕ)
    → InOrder c
    → length b ≡ keyb_buff_len
    → i ≤ keyb_buff_len
    → InOrder (record c {
      keyb_pressed = pressed;
      terminal_read_enable_signal = signal;
      key_buffer = b;
      keyb_index = i;
    })
line-InOrder c pressed signal b i o size bound = record {
  page = o.page;
  safe = record {
    column = o.safe.column;
    row = o.safe.row;
    page = refl;
    settings = o.safe.settings;
    terminals = o.safe.terminals;
    displayed = o.safe.displayed;
    scheduled = o.safe.scheduled;
    cursors = o.safe.cursors;
    kept = λ a out. refl;
  };
  ready = record {
    all_terminals = o.ready.all_terminals;
    in_order = o.ready.in_order;
    shown = o.ready.shown;
    scheduled = o.ready.scheduled;
    few = o.ready.few;
    line_buffer = size;
    line_index = bound;
  };
}

newline-InOrder :
    (b : Bool) (e : Console) → InOrder e → InOrder (if b then set_signal_enable e else e)
unfolding set_signal_enable
newline-InOrder true e p =
    line-InOrder e e.keyb_pressed true e.key_buffer e.keyb_index p p.ready.line_buffer
      p.ready.line_index
newline-InOrder false e p = p

-- A character that is no backspace, typed where the line has room.
type_char-InOrder :
    (c : Console) (ch : ℕ)
    → InOrder c
    → ch ≢ 8
    → c.keyb_index < keyb_buff_len
    → Ensures InOrder (type_char c ch)
unfolding type_char set_keyb_pressed set_signal_enable
type_char-InOrder c ch o plain room =
    let d = record c {
      keyb_pressed = true;
      key_buffer = set c.key_buffer c.keyb_index ch;
      keyb_index = add32 c.keyb_index 1;
    } in
    let size : length (set c.key_buffer c.keyb_index ch) ≡ keyb_buff_len =
      length-set c.key_buffer c.keyb_index ch ∙ o.ready.line_buffer in
    let line : InOrder d =
      line-InOrder c true c.terminal_read_enable_signal _ _ o size (omega (arith, room)) in
    let stored =
      store-Ensures c.key_buffer c.keyb_index ch (omega (arith, room, o.ready.line_buffer)) in
    rw (==_ne ch 8 plain, stored)
      (Ensures-bind InOrder InOrder (putc d ch) _ (putc-InOrder d ch line plain)
        (λ e p. newline-InOrder (ch == b'\n') e p))

-- The end of the interrupt.
end_intr-Ordered : (k : Kernel) → Ordered k → Ensures Ordered (end_intr k)
unfolding end_intr update_video_mem
end_intr-Ordered k o =
    let c = k.console in
    let (t, there, h) =
      All-get_elem? HasCursor c.terminal_list c.scheduled_terminal o.safe.cursors
        (omega (arith, o.safe.scheduled, o.safe.terminals)) in
    let (own, there', ok) =
      All-get_elem? (IsTerminal (length c.terminal_list)) c.terminal_list t.tid
        o.ready.all_terminals (omega (arith, h.0, o.safe.terminals)) in
    let page = if t.tid == get_display_tid c then video_memory_addr else own.video_page in
    let in_page : IsPage page =
      either-IsPage (t.tid == get_display_tid c) own
        (subst (λ n. IsTerminal n own) o.safe.terminals ok) in
    rw (there, there')
      (moved-InOrder c c.screen_x c.screen_y page o o.safe.column o.safe.row in_page)

-- A key that types no backspace in the state of the shift keys.
abbrev pub IsPlainKey : Kernel → ℕ → Type 0
IsPlainKey k key = (ch : ℕ) → get_elem? (keyboard_map (map_index k.status)) key ≡ some ch → ch ≢ 8

-- Each of the four tables has an entry for every key that is looked up.
length-keyboard_map : (i : ℕ) → length (keyboard_map i) ≡ keyb_map_length
unfolding keyboard_map
length-keyboard_map i = elim (Bool-cases (i == 0)) [
  | inl a ↦ rw a refl
  | inr a ↦ elim (Bool-cases (i == 1)) [
    | inl b ↦ rw (a, b) refl
    | inr b ↦ elim (Bool-cases (i == 2)) [ inl d ↦ rw (a, b, d) refl | inr d ↦ rw (a, b, d) refl ]
  ]
]

key_action-Ordered :
    (k : Kernel) (key : ℕ)
    → Ordered k
    → IsPlainKey k key
    → k.console.keyb_index < keyb_buff_len
    → Ensures Ordered (key_action k key)
unfolding key_action update_screen_x_y update_video_mem
key_action-Ordered k key o plain room =
    let c = k.console in
    let (t, there, h) =
      All-get_elem? HasCursor c.terminal_list c.curr_terminal_num o.safe.cursors
        (omega (arith, o.safe.displayed, o.safe.terminals)) in
    let c' = record c {
      screen_x = t.x_cursor;
      screen_y = t.y_cursor;
      video_mem = video_memory_addr;
    } in
    let o' : InOrder c' =
      moved-InOrder c t.x_cursor t.y_cursor video_memory_addr o h.1 h.2 (omega arith) in
    let k' = record k { console = c' } in
    let typed : ltb key keyb_map_length ≡ true
        → Ensures Ordered (do
          ch ← get_elem? (keyboard_map (map_index k.status)) key
          d ← type_char c' ch
          some (record k { console = d })) =
      λ e.
        let (ch, found) =
          get_elem?-lt (keyboard_map (map_index k.status)) key
            (rw (length-keyboard_map (map_index k.status)) (ltb→lt key keyb_map_length e)) in
        rw found (
          Ensures-bind InOrder Ordered (type_char c' ch) _
            (type_char-InOrder c' ch o' (plain ch found) room) (λ d p. p)) in
    rw there (
      Ensures-if Ordered (k.status.left_ctrl && key == 38) _ _
        (λ e. Ensures-bind InOrder Ordered (clear c') _ (clear-InOrder c' o') (λ d p. p))
        (λ e.
          Ensures-if Ordered (k.status.alt && key == 0x3B) _ _
            (λ e. terminal_switch-InOrder k' 0 o' (omega arith))
            (λ e.
              Ensures-if Ordered (k.status.alt && key == 0x3C) _ _
                (λ e. terminal_switch-InOrder k' 1 o' (omega arith))
                (λ e.
                  Ensures-if Ordered (k.status.alt && key == 0x3D) _ _
                    (λ e. terminal_switch-InOrder k' 2 o' (omega arith))
                    (λ e.
                      Ensures-if Ordered (ltb key keyb_map_length) _ _ (λ e. typed e) (λ e. o'))))))

-- The interrupt of the keyboard on a kernel whose console is in order, for any key that types no
-- backspace, with room in the line: the handler does not fault, and the console is in order again,
-- whether the key changes the status of the shift keys, clears the screen, switches the terminals, types a
-- character or does nothing.
pub keyb_intr_handler-Ordered :
    (k : Kernel) (keyb_input : ℕ)
    → Ordered k
    → IsPlainKey k keyb_input
    → k.console.keyb_index < keyb_buff_len
    → Ensures Ordered (keyb_intr_handler k keyb_input)
unfolding keyb_intr_handler
keyb_intr_handler-Ordered k keyb_input o plain room =
    Ensures-bind Ordered Ordered
      (elim (status_key k.status keyb_input) [
        | some s ↦ some (record k { status = s })
        | none ↦ key_action k keyb_input
      ])
      _
      (elim (Option-cases (status_key k.status keyb_input)) [
        | inl other ↦ rw other (key_action-Ordered k keyb_input o plain room)
        | inr (s, shift) ↦ rw shift o
      ])
      (λ l p. end_intr-Ordered l p)
