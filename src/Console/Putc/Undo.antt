-- ===== src/Console/Putc/Undo.antt =====
-- Backspace, and `putc` as a whole.
use osgods.Common.{
  ℕ, ◌+◌, ◌-◌, ◌*◌, ◌^◌, ◌≤◌, ◌<◌, ◌≡◌, ap, ◌∙◌, inl, inr, false, not, ◌||◌, Option, some, arith,
  ◌==◌, ==_iff, Bool-cases, get_elem?, set, sub32, slt, ◌>>=◌, Ensures, Ensures-bind, Ensures-if,
  All-get_elem?, get_elem?-lt,
}
use osgods.Console.{Console, Settings, num_cols, num_rows, spaces_num}
use osgods.Console.Putc.{draw, recycle, unstore, back, line_back, backspace, putc_tid, putc}
use osgods.Console.Putc.Safe.{
  HasCursor, IsSettings, Safe, Room, store-Ensures, recycle-Room, IsSettings-flag,
  unstore-IsSettings,
}
use osgods.Console.Putc.Branches.{
  Safe-screen, cell-Outside, draw-Safe, enter-Safe, plain-Safe, tab-Safe,
}

-- What a backspace leaves: arrays in order and a cursor on the screen.
abbrev Back : Settings × ℕ × ℕ → Type 0
Back (s, x, y) = IsSettings s × (x < num_cols) × (y < num_rows)

unstore-Back :
    (s : Settings) (x y : ℕ)
    → IsSettings s
    → 0 < s.display_buf_index
    → x < num_cols
    → y < num_rows
    → Ensures Back (do s' ← unstore s; some (s', x, y))
unstore-Back s x y h pos hx hy =
    Ensures-bind IsSettings Back (unstore s) _ (unstore-IsSettings s h pos) λ s' ok. (ok, hx, hy)

unstore-prev :
    (s : Settings) (y : ℕ)
    → IsSettings s
    → 0 < s.display_buf_index
    → y < num_rows
    → Ensures Back (do s' ← unstore s; x' ← get_elem? s'.prev_screen_x y; some (s', x', y))
unstore-prev s y h pos hy =
    Ensures-bind IsSettings Back (unstore s) _ (unstore-IsSettings s h pos) λ s' ok.
      let (x', there, small) =
        All-get_elem? (λ x. x < num_cols) s'.prev_screen_x y ok.columns (omega (arith, ok.rows)) in
      rw there (ok, small, hy)

line_back-Back :
    (s : Settings) (y : ℕ)
    → IsSettings s
    → 0 < s.display_buf_index
    → 0 < y
    → y < num_rows
    → Ensures Back (line_back s y)
unfolding line_back
line_back-Back s y h pos py hy =
    let (full, there) = get_elem?-lt s.line_is_full (sub32 y 1) (omega (arith, h.flags)) in
    rw there (elim (Bool-cases (full == 1)) [
      | inl whole ↦
          rw (whole, store-Ensures s.line_is_full (sub32 y 1) 0 (omega (arith, h.flags)))
            (unstore-Back (record s { line_is_full = set s.line_is_full (sub32 y 1) 0 })
              (num_cols - 1) (sub32 y 1) (IsSettings-flag s (sub32 y 1) 0 h) pos (omega arith)
              (omega arith))
      | inr part ↦ rw part (unstore-prev s (sub32 y 1) h pos (omega arith))
    ])

-- The buffer holds something to delete, and a tab to delete leaves room on its left.
pub record Undoable (c : Console) : Type 0 where
  pub some_typed : 0 < c.settings.display_buf_index
  pub not_full : c.settings.display_buf_index < num_cols * num_rows
  pub tab_room :
      get_elem? c.settings.display_buf (sub32 c.settings.display_buf_index 1) ≡ some b'\t'
      → spaces_num ≤ c.screen_x

back-Back :
    (s : Settings) (x y : ℕ)
    → Room s
    → 0 < s.display_buf_index
    → (get_elem? s.display_buf (sub32 s.display_buf_index 1) ≡ some b'\t' → spaces_num ≤ x)
    → x < num_cols
    → y < num_rows
    → Ensures Back (back s x y)
unfolding back
back-Back s x y r pos undo hx hy =
    let (last, there) = get_elem?-lt s.display_buf (sub32 s.display_buf_index 1) (omega arith) in
    rw there (elim (Bool-cases (last == b'\t')) [
      | inl is_tab ↦
          let room : spaces_num ≤ x = undo (there ∙ ap some ((==_iff last b'\t').0 is_tab)) in
          rw is_tab (unstore-Back s (sub32 x spaces_num) y r.0 pos (omega arith) hy)
      | inr other ↦ rw other (elim (Bool-cases (x == 0)) [
        | inl left_end ↦ elim (Bool-cases (y == 0)) [
          | inl top ↦ rw (left_end, top) (unstore-Back s x y r.0 pos hx hy)
          | inr below ↦ rw (left_end, below) (line_back-Back s y r.0 pos (ground arith) hy)
        ]
        | inr inside ↦
            let px : 0 < x = ground arith in
            rw inside (unstore-Back s (sub32 x 1) y r.0 pos (omega arith) hy)
      ])
    ])

module _ (base : ℕ) (fits : base + 4000 ≤ 2 ^ 32) (mem : ℕ → ℕ) where
  backspace-Safe :
      (c : Console) → Undoable c → Safe base mem c → Ensures (Safe base mem) (backspace c)
  unfolding backspace
  backspace-Safe c u h =
      Ensures-bind Back (Safe base mem) (back c.settings c.screen_x c.screen_y) _
        (back-Back c.settings c.screen_x c.screen_y (h.settings, u.not_full) u.some_typed u.tab_room
          h.column h.row)
        λ (s, x, y) ok.
          Safe-screen base fits mem c _ s x y h (cell-Outside base fits mem c b' ' h) ok.0 ok.1 ok.2

  putc_tid-lt : (c : Console) → Safe base mem c → Ensures (λ t. t < 3) (putc_tid c)
  unfolding putc_tid
  putc_tid-lt c h =
      let (t, there, small) =
        All-get_elem? HasCursor c.terminal_list c.scheduled_terminal h.cursors
          (omega (arith, h.scheduled, h.terminals)) in
      elim (Bool-cases c.keyb_pressed) [
        | inl pressed ↦ rw pressed h.displayed
        | inr idle ↦ rw (idle, there) small.0
      ]

  -- The state in which the branches of `putc` run.
  started-Safe :
      (c : Console)
      → Safe base mem c
      → Safe base mem (record c { keyb_pressed = false; settings = recycle c.settings })
  started-Safe c h = record {
    column = h.column;
    row = h.row;
    page = h.page;
    settings = (recycle-Room c.settings h.settings).0;
    terminals = h.terminals;
    displayed = h.displayed;
    scheduled = h.scheduled;
    cursors = h.cursors;
    kept = h.kept;
  }

  recycle_same : (s : Settings) → s.display_buf_index < num_cols * num_rows → recycle s ≡ s
  unfolding recycle
  recycle_same s h =
      let e : (s.display_buf_index == num_cols * num_rows) ≡ false = ground arith in rw e

  started-Undoable :
      (c : Console)
      → Undoable c
      → Undoable (record c { keyb_pressed = false; settings = recycle c.settings })
  started-Undoable c u =
      rw (recycle_same c.settings u.not_full)
        (record { some_typed = u.some_typed; not_full = u.not_full; tab_room = u.tab_room })

  drawn :
      (m : Option Console) (tid : ℕ)
      → tid < 3
      → Ensures (Safe base mem) m
      → Ensures (Safe base mem) (do d ← m; draw d tid)
  drawn m tid lt h =
      Ensures-bind (Safe base mem) (Safe base mem) m _ h
        (λ d ok. draw-Safe base fits mem d tid lt ok)

  pub putc-Safe :
      (c : Console) (ch : ℕ)
      → (ch ≡ 8 → Undoable c)
      → Safe base mem c
      → Ensures (Safe base mem) (putc c ch)
  unfolding putc
  putc-Safe c ch undo h =
      Ensures-bind (λ t. t < 3) (Safe base mem) (putc_tid c) _ (putc_tid-lt c h)
        λ tid lt.
          let c' : Console = record c { keyb_pressed = false; settings = recycle c.settings } in
          let h' = started-Safe c h in
          let room = recycle-Room c.settings h.settings in
          Ensures-if (Safe base mem) (ch == 8) _ _
            (λ e.
              drawn _ tid lt (backspace-Safe c' (started-Undoable c (undo ((==_iff ch 8).0 e))) h'))
            (λ e.
              Ensures-if (Safe base mem) (ch == b'\n' || ch == b'\r') _ _
                (λ e. drawn _ tid lt (enter-Safe base fits mem c' ch room h'))
                (λ e.
                  Ensures-if (Safe base mem) (ch == b'\t') _ _
                    (λ e.
                      Ensures-if (Safe base mem) (not (slt c'.screen_x (num_cols - spaces_num - 1)))
                        _ _ (λ e. h')
                        (λ e.
                          drawn _ tid lt
                            (tab-Safe base fits mem c' room (ground (arith, h'.column)) h')))
                    (λ e. drawn _ tid lt (plain-Safe base fits mem c' ch room h'))))
