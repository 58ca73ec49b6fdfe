-- ===== src/Console/Putc/Safe.antt =====
-- Output to the screen stays on the screen.
use osgods.Common.{
  ℕ, zero, suc, ◌+◌, ◌-◌, ◌*◌, ◌^◌, ◌≤◌, ◌<◌, ◌≡◌, refl, ap, ◌∙◌, ◌⊎◌, inl, inr, some, List, [],
  ◌∷◌, arith, ◌==◌, lt→ltb, Bool-cases, length, set, length-set, length-replicate, add32, sub32,
  All, Ensures, All-set,
}
use osgods.Console.{
  Console, Settings, Terminal, num_cols, num_rows, put_cell, put_cells, move, store,
}
use osgods.Console.Putc.{recycle, unstore, append, shift_up}

-- The arrays of the screen have their sizes, the display buffer's index lies in it, and noted
-- columns are columns.
pub record IsSettings (s : Settings) : Type 0 where
  pub rows : length s.prev_screen_x ≡ num_rows
  pub columns : All (λ x. x < num_cols) s.prev_screen_x
  pub flags : length s.line_is_full ≡ num_rows
  pub buffer : length s.display_buf ≡ num_cols * num_rows
  pub index : s.display_buf_index ≤ num_cols * num_rows

-- Memory outside the page of 4000 bytes at `base` is as it was.
abbrev pub Outside : ℕ → (ℕ → ℕ) → (ℕ → ℕ) → Type 0
Outside base mem mem' = (a : ℕ) → (a < base) ⊎ (base + 4000 ≤ a) → mem' a ≡ mem a

-- A terminal of the three, whose cursor is on the screen.
abbrev pub HasCursor : Terminal → Type 0
HasCursor t = (t.tid < 3) × (t.x_cursor < num_cols) × (t.y_cursor < num_rows)

pub record Safe (base : ℕ) (mem : ℕ → ℕ) (c : Console) : Type 0 where
  pub column : c.screen_x < num_cols
  pub row : c.screen_y < num_rows
  pub page : c.video_mem ≡ base
  pub settings : IsSettings c.settings
  pub terminals : length c.terminal_list ≡ 3
  pub displayed : c.curr_terminal_num < 3
  pub scheduled : c.scheduled_terminal < 3
  pub cursors : All HasCursor c.terminal_list
  pub kept : Outside base mem c.vram

module _ (base : ℕ) (fits : base + 4000 ≤ 2 ^ 32) where
  pub put_cell-Outside :
      (mem mem' : ℕ → ℕ) (x y ch : ℕ)
      → x < num_cols
      → y < num_rows
      → Outside base mem mem'
      → Outside base mem (put_cell mem' base x y ch)
  unfolding put_cell
  put_cell-Outside mem mem' x y ch hx hy h a out = ground (arith, h a out)

  pub put_cells-Outside :
      (n : ℕ) (mem mem' : ℕ → ℕ) (x y ch : ℕ)
      → x + n ≤ num_cols
      → y < num_rows
      → Outside base mem mem'
      → Outside base mem (put_cells mem' base x y ch n)
  unfolding put_cells
  put_cells-Outside zero mem mem' x y ch hx hy h = h
  put_cells-Outside (suc n) mem mem' x y ch hx hy h =
      put_cells-Outside n mem (put_cell mem' base x y ch) (x + 1) y ch (omega arith) hy
        (put_cell-Outside mem mem' x y ch (omega arith) hy h)

  pub move-Outside :
      (mem mem' : ℕ → ℕ)
      → Outside base mem mem'
      → Outside base mem (move mem' base (base + num_cols * 2) (num_cols * (num_rows - 1) * 2))
  unfolding move
  move-Outside mem mem' h a out = ground (arith, h a out)

pub store-Ensures : (xs : List ℕ) (i v : ℕ) → i < length xs → store xs i v ≡ some (set xs i v)
unfolding store
store-Ensures xs i v h = rw (lt→ltb i (length xs) h)

length-shift_up : (xs : List ℕ) → length (shift_up xs) ≡ length xs
unfolding shift_up
length-shift_up [] = refl
length-shift_up (a ∷ []) = refl
length-shift_up (a ∷ b ∷ r) = ap suc (length-shift_up (b ∷ r))

All-shift_up : (P : ℕ → Type 0) (xs : List ℕ) → All P xs → All P (shift_up xs)
unfolding shift_up
All-shift_up P [] h = h
All-shift_up P (a ∷ []) h = h
All-shift_up P (a ∷ b ∷ r) h = (h.1.0, All-shift_up P (b ∷ r) h.1)

abbrev pub Room : Settings → Type 0
Room s = IsSettings s × (s.display_buf_index < num_cols * num_rows)

pub recycle-Room : (s : Settings) → IsSettings s → Room (recycle s)
unfolding recycle
recycle-Room s h = elim (Bool-cases (s.display_buf_index == num_cols * num_rows)) [
  | inl full ↦ rw full (
    record {
      rows = h.rows;
      columns = h.columns;
      flags = h.flags;
      buffer = length-replicate {A = ℕ} (num_cols * num_rows) 0;
      index = omega arith;
    },
    omega arith,
  )
  | inr room ↦ rw room (h, ground arith)
]

-- A byte of the display buffer and the index may change.
pub IsSettings-buffer :
    (s : Settings) (i v k : ℕ)
    → IsSettings s
    → k ≤ num_cols * num_rows
    → IsSettings (record s { display_buf = set s.display_buf i v; display_buf_index = k })
IsSettings-buffer s i v k h le = record {
  rows = h.rows;
  columns = h.columns;
  flags = h.flags;
  buffer = length-set s.display_buf i v ∙ h.buffer;
  index = le;
}

pub IsSettings-column :
    (s : Settings) (y x : ℕ)
    → IsSettings s
    → x < num_cols
    → IsSettings (record s { prev_screen_x = set s.prev_screen_x y x })
IsSettings-column s y x h lt = record {
  rows = length-set s.prev_screen_x y x ∙ h.rows;
  columns = All-set (λ x. x < num_cols) s.prev_screen_x y x h.columns lt;
  flags = h.flags;
  buffer = h.buffer;
  index = h.index;
}

pub IsSettings-flag :
    (s : Settings) (y v : ℕ)
    → IsSettings s
    → IsSettings (record s { line_is_full = set s.line_is_full y v })
IsSettings-flag s y v h = record {
  rows = h.rows;
  columns = h.columns;
  flags = length-set s.line_is_full y v ∙ h.flags;
  buffer = h.buffer;
  index = h.index;
}

pub IsSettings-shift :
    (s : Settings)
    → IsSettings s
    → IsSettings (record s {
      line_is_full = shift_up s.line_is_full;
      prev_screen_x = shift_up s.prev_screen_x;
    })
IsSettings-shift s h = record {
  rows = length-shift_up s.prev_screen_x ∙ h.rows;
  columns = All-shift_up (λ x. x < num_cols) s.prev_screen_x h.columns;
  flags = length-shift_up s.line_is_full ∙ h.flags;
  buffer = h.buffer;
  index = h.index;
}

pub append-IsSettings : (s : Settings) (ch : ℕ) → Room s → Ensures IsSettings (append s ch)
unfolding append
append-IsSettings s ch h =
    rw (store-Ensures s.display_buf s.display_buf_index ch (omega arith))
      (IsSettings-buffer s s.display_buf_index ch (add32 s.display_buf_index 1) h.0 (omega arith))

pub unstore-IsSettings :
    (s : Settings) → IsSettings s → 0 < s.display_buf_index → Ensures IsSettings (unstore s)
unfolding unstore
unstore-IsSettings s h pos =
    rw (store-Ensures s.display_buf (sub32 s.display_buf_index 1) 0 (omega arith)) (
      IsSettings-buffer s (sub32 s.display_buf_index 1) 0 (sub32 s.display_buf_index 1) h
        (omega arith))
