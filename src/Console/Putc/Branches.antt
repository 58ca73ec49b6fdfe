-- ===== src/Console/Putc/Branches.antt =====
-- Each branch of `putc` keeps the screen safe.
use osgods.Common.{
  ℕ, ◌+◌, ◌-◌, ◌^◌, ◌≤◌, ◌<◌, ◌∙◌, inl, inr, some, arith, ◌==◌, if◌then◌else◌, Bool-cases,
  length-set, add32, slt, ◌>>=◌, Ensures, Ensures-bind, All-set, All-get_elem?,
}
use osgods.Console.{
  Console, Settings, Terminal, num_cols, num_rows, spaces_num, put_cell, store, set_cursor,
}
use osgods.Console.Putc.{draw, append, scroll, enter, tab, line_end, plain}
use osgods.Console.Putc.Safe.{
  IsSettings, Safe, HasCursor, Outside, Room, put_cell-Outside, put_cells-Outside, move-Outside,
  store-Ensures, IsSettings-column, IsSettings-flag, IsSettings-shift, append-IsSettings,
}

module _ (base : ℕ) (fits : base + 4000 ≤ 2 ^ 32) (mem : ℕ → ℕ) where
  -- The screen and its arrays change, within bounds and within the page.
  pub Safe-screen :
      (c : Console) (v : ℕ → ℕ) (s : Settings) (x y : ℕ)
      → Safe base mem c
      → Outside base mem v
      → IsSettings s
      → x < num_cols
      → y < num_rows
      → Safe base mem (record c { vram = v; settings = s; screen_x = x; screen_y = y })
  Safe-screen c v s x y h out st hx hy = record {
    column = hx;
    row = hy;
    page = h.page;
    settings = st;
    terminals = h.terminals;
    displayed = h.displayed;
    scheduled = h.scheduled;
    cursors = h.cursors;
    kept = out;
  }

  -- Any cell of the row to write.
  pub cell-Outside :
      (c : Console) (ch : ℕ)
      → Safe base mem c
      → Outside base mem (put_cell c.vram c.video_mem c.screen_x c.screen_y ch)
  cell-Outside c ch h =
      rw (h.page)
        (put_cell-Outside base fits mem c.vram c.screen_x c.screen_y ch h.column h.row h.kept)

  pub scroll-Safe : (c : Console) → Safe base mem c → Safe base mem (scroll c)
  unfolding scroll
  scroll-Safe c h =
      Safe-screen c _ _ c.screen_x c.screen_y h
        (rw (h.page) (
          put_cells-Outside base fits num_cols mem _ 0 (num_rows - 1) b' ' (omega arith)
            (omega arith) (move-Outside base fits mem c.vram h.kept)))
        (IsSettings-shift c.settings h.settings) h.column h.row

  pub set_cursor-Safe :
      (c : Console) (tid x y : ℕ)
      → tid < 3
      → x < num_cols
      → y < num_rows
      → Safe base mem c
      → Ensures (Safe base mem) (set_cursor c tid x y)
  unfolding set_cursor
  set_cursor-Safe c tid x y lt hx hy h =
      let (t, there, small) = All-get_elem? HasCursor c.terminal_list tid h.cursors (omega arith) in
      let t' : Terminal = record t { x_cursor = x; y_cursor = y } in
      rw there (record {
        column = h.column;
        row = h.row;
        page = h.page;
        settings = h.settings;
        terminals = length-set c.terminal_list tid t' ∙ h.terminals;
        displayed = h.displayed;
        scheduled = h.scheduled;
        cursors = All-set HasCursor c.terminal_list tid t' h.cursors (small.0, hx, hy);
        kept = h.kept;
      })

  pub draw-Safe :
      (c : Console) (tid : ℕ) → tid < 3 → Safe base mem c → Ensures (Safe base mem) (draw c tid)
  unfolding draw
  draw-Safe c tid lt h = set_cursor-Safe _ tid c.screen_x c.screen_y lt h.column h.row (
      Safe-screen c _ c.settings c.screen_x c.screen_y h (cell-Outside c b'_' h) h.settings h.column
        h.row)

  -- The end of `enter`: the screen scrolls, or the cursor goes down.
  pub next_row-Safe :
      (c : Console) (v : ℕ → ℕ) (s : Settings)
      → Safe base mem c
      → Outside base mem v
      → IsSettings s
      → Safe base mem (
          if c.screen_y == num_rows - 1
          then scroll (record c { vram = v; settings = s; screen_x = 0 })
          else record c { vram = v; settings = s; screen_x = 0; screen_y = add32 c.screen_y 1 })
  next_row-Safe c v s h out ok = elim (Bool-cases (c.screen_y == num_rows - 1)) [
    | inl last ↦
        rw last (scroll-Safe _ (Safe-screen c v s 0 c.screen_y h out ok (omega arith) h.row))
    | inr more ↦
        let below : c.screen_y < num_rows - 1 = ground (arith, h.row) in
        rw more (Safe-screen c v s 0 (add32 c.screen_y 1) h out ok (omega arith) (omega arith))
  ]

  pub enter-Safe :
      (c : Console) (ch : ℕ)
      → Room c.settings
      → Safe base mem c
      → Ensures (Safe base mem) (enter c ch)
  unfolding enter
  enter-Safe c ch r h =
      Ensures-bind IsSettings (Safe base mem) (append c.settings ch) _
        (append-IsSettings c.settings ch r)
        λ s ok.
          rw (store-Ensures s.prev_screen_x c.screen_y c.screen_x (omega (arith, ok.rows, h.row))) (
            next_row-Safe c _ _ h (cell-Outside c b' ' h)
              (IsSettings-column s c.screen_y c.screen_x ok h.column))

  pub mark_full-Safe :
      (c : Console)
      → Safe base mem c
      → Ensures (Safe base mem) (do
        l ← store c.settings.line_is_full (num_rows - 2) 1
        some (record c { settings = record (c.settings) { line_is_full = l } }))
  mark_full-Safe c h =
      rw (store-Ensures c.settings.line_is_full (num_rows - 2) 1 (omega (arith, h.settings.flags)))
        (Safe-screen c c.vram _ c.screen_x c.screen_y h h.kept
          (IsSettings-flag c.settings (num_rows - 2) 1 h.settings) h.column h.row)

  pub line_end-Safe :
      (c : Console) (v : ℕ → ℕ) (s : Settings) (x : ℕ)
      → Safe base mem c
      → Outside base mem v
      → IsSettings s
      → Ensures (Safe base mem) (line_end (record c { vram = v; settings = s; screen_x = x }))
  unfolding line_end
  line_end-Safe c v s x h out ok = elim (Bool-cases (slt c.screen_y (num_rows - 1))) [
    | inl more ↦
        let below : c.screen_y < num_rows - 1 = ground (arith, h.row) in
        rw (more, store-Ensures s.line_is_full c.screen_y 1 (omega (arith, ok.flags)))
          (Safe-screen c v _ 0 (add32 c.screen_y 1) h out (IsSettings-flag s c.screen_y 1 ok)
            (omega arith) (omega arith))
    | inr last ↦ rw last (
        mark_full-Safe _
          (scroll-Safe _ (Safe-screen c v s 0 (num_rows - 1) h out ok (omega arith) (omega arith))))
  ]

  pub plain-Safe :
      (c : Console) (ch : ℕ)
      → Room c.settings
      → Safe base mem c
      → Ensures (Safe base mem) (plain c ch)
  unfolding plain
  plain-Safe c ch r h =
      Ensures-bind IsSettings (Safe base mem) (append c.settings ch) _
        (append-IsSettings c.settings ch r)
        λ s ok. elim (Bool-cases (add32 c.screen_x 1 == num_cols)) [
          | inl full ↦ rw full (line_end-Safe c _ s (add32 c.screen_x 1) h (cell-Outside c ch h) ok)
          | inr more ↦
              let inside : add32 c.screen_x 1 < num_cols = ground (arith, h.column) in
              rw more (
                Safe-screen c _ s (add32 c.screen_x 1) c.screen_y h (cell-Outside c ch h) ok inside
                  h.row)
        ]

  pub tab-Safe :
      (c : Console)
      → Room c.settings
      → c.screen_x + spaces_num < num_cols
      → Safe base mem c
      → Ensures (Safe base mem) (tab c)
  unfolding tab
  tab-Safe c r room h =
      Ensures-bind IsSettings (Safe base mem) (append c.settings b'\t') _
        (append-IsSettings c.settings b'\t' r)
        λ s ok.
          Safe-screen c _ s (add32 c.screen_x spaces_num) c.screen_y h
            (rw (h.page) (
              put_cells-Outside base fits spaces_num mem c.vram c.screen_x c.screen_y b' '
                (omega arith) h.row h.kept))
            ok (omega arith) h.row
