-- ===== src/Console/Clearing.antt =====
-- What `clear` makes of the screen.
use osgods.Common.{
  ℕ, zero, suc, ◌+◌, ◌*◌, ◌^◌, ◌≤◌, ◌<◌, ◌≡◌, refl, ◌∙◌, ◌≢◌, ◌⊎◌, inl, inr, some, arith, ◌==◌,
  ==_iff, Bool-cases, get_elem?, set, length-set, All-set, All-at, get_elem?-lt,
}
use osgods.Console.{
  Console, Terminal, num_cols, num_rows, attrib, put_cell, put_cells, clear_rows, clear,
  at_terminal, set_cursor,
}
use osgods.Console.Putc.Safe.{Safe, HasCursor, Outside, put_cells-Outside}

-- The cell in column `x` of row `y` shows `ch` in the usual colours.
abbrev pub Cell : (ℕ → ℕ) → ℕ → ℕ → ℕ → ℕ → Type 0
Cell mem base x y ch =
    (mem (base + (num_cols * y + x) * 2) ≡ ch) × (mem (base + (num_cols * y + x) * 2 + 1) ≡ attrib)

module _ (base : ℕ) (fits : base + 4000 ≤ 2 ^ 32) where
  put_cell-Cell :
      (mem : ℕ → ℕ) (x y ch : ℕ)
      → x < num_cols
      → y < num_rows
      → Cell (put_cell mem base x y ch) base x y ch
  unfolding put_cell
  put_cell-Cell mem x y ch hx hy = (ground arith, ground arith)

  put_cell-other :
      (mem : ℕ → ℕ) (x y i j ch c : ℕ)
      → x < num_cols
      → y < num_rows
      → i < num_cols
      → j < num_rows
      → (i ≢ x) ⊎ (j ≢ y)
      → Cell mem base i j c
      → Cell (put_cell mem base x y ch) base i j c
  unfolding put_cell
  put_cell-other mem x y i j ch c hx hy hi hj d (a, b) =
      let apart : num_cols * j + i ≢ num_cols * y + x =
        λ e. elim d [ inl n ↦ n (omega (arith, e)) | inr n ↦ n (omega (arith, e)) ] in
      (ground (arith, a, apart), ground (arith, b, apart))

  put_cells-kept :
      (n : ℕ) (mem : ℕ → ℕ) (x y i j ch c : ℕ)
      → x + n ≤ num_cols
      → y < num_rows
      → i < num_cols
      → j < num_rows
      → (i < x) ⊎ (j ≢ y)
      → Cell mem base i j c
      → Cell (put_cells mem base x y ch n) base i j c
  unfolding put_cells
  put_cells-kept zero mem x y i j ch c hx hy hi hj d h = h
  put_cells-kept (suc n) mem x y i j ch c hx hy hi hj d h =
      let apart : (i ≢ x) ⊎ (j ≢ y) = elim d [ inl l ↦ inl (λ e. omega arith) | inr r ↦ inr r ] in
      let left : (i < x + 1) ⊎ (j ≢ y) = elim d [ inl l ↦ inl (omega arith) | inr r ↦ inr r ] in
      put_cells-kept n (put_cell mem base x y ch) (x + 1) y i j ch c (omega arith) hy hi hj left
        (put_cell-other mem x y i j ch c (omega arith) hy hi hj apart h)

  put_cells-Cell :
      (n : ℕ) (mem : ℕ → ℕ) (x y i ch : ℕ)
      → x + n ≤ num_cols
      → y < num_rows
      → x ≤ i
      → i < x + n
      → Cell (put_cells mem base x y ch n) base i y ch
  unfolding put_cells
  put_cells-Cell zero mem x y i ch hx hy lo hi = absurd (omega arith)
  put_cells-Cell (suc n) mem x y i ch hx hy lo hi = elim (Bool-cases (i == x)) [
    | inl here ↦
        let e : i ≡ x = (==_iff i x).0 here in
        put_cells-kept n (put_cell mem base x y ch) (x + 1) y i y ch ch (omega arith) hy
          (omega arith) hy (inl (omega arith)) (rw e (put_cell-Cell mem x y ch (omega arith) hy))
    | inr later ↦
        put_cells-Cell n (put_cell mem base x y ch) (x + 1) y i ch (omega arith) hy (ground arith)
          (omega arith)
  ]

  clear_rows-kept :
      (n y i j c : ℕ) (mem : ℕ → ℕ)
      → y + n ≤ num_rows
      → i < num_cols
      → j < y
      → Cell mem base i j c
      → Cell (clear_rows mem base y n) base i j c
  unfolding clear_rows
  clear_rows-kept zero y i j c mem h hi hj k = k
  clear_rows-kept (suc n) y i j c mem h hi hj k =
      clear_rows-kept n (y + 1) i j c (put_cells mem base 0 y b' ' num_cols) (omega arith) hi
        (omega arith)
        (put_cells-kept num_cols mem 0 y i j b' ' c (omega arith) (omega arith) hi (omega arith)
          (inr (λ e. omega arith)) k)

  clear_rows-Cell :
      (n y i j : ℕ) (mem : ℕ → ℕ)
      → y + n ≤ num_rows
      → i < num_cols
      → y ≤ j
      → j < y + n
      → Cell (clear_rows mem base y n) base i j b' '
  unfolding clear_rows
  clear_rows-Cell zero y i j mem h hi lo hj = absurd (omega arith)
  clear_rows-Cell (suc n) y i j mem h hi lo hj = elim (Bool-cases (j == y)) [
    | inl here ↦
        let e : j ≡ y = (==_iff j y).0 here in
        clear_rows-kept n (y + 1) i j b' ' (put_cells mem base 0 y b' ' num_cols) (omega arith) hi
          (omega arith)
          (rw e (
            put_cells-Cell num_cols mem 0 y i b' ' (omega arith) (omega arith) (omega arith)
              (omega arith)))
    | inr later ↦
        clear_rows-Cell n (y + 1) i j (put_cells mem base 0 y b' ' num_cols) (omega arith) hi
          (ground arith) (omega arith)
  ]

  clear_rows-Outside :
      (n y : ℕ) (mem mem' : ℕ → ℕ)
      → y + n ≤ num_rows
      → Outside base mem mem'
      → Outside base mem (clear_rows mem' base y n)
  unfolding clear_rows
  clear_rows-Outside zero y mem mem' h o = o
  clear_rows-Outside (suc n) y mem mem' h o =
      clear_rows-Outside n (y + 1) mem (put_cells mem' base 0 y b' ' num_cols) (omega arith)
        (put_cells-Outside base fits num_cols mem mem' 0 y b' ' (omega arith) (omega arith) o)

-- The screen of `d` is that of `c` cleared: every cell a blank, the cursor and that of the shown
-- terminal in the corner; nothing else is written.
pub record Cleared (base : ℕ) (mem : ℕ → ℕ) (c d : Console) : Type 0 where
  pub shown : Terminal
  pub shown_there : get_elem? c.terminal_list c.curr_terminal_num ≡ some shown
  pub only : d ≡ record c {
    vram = d.vram;
    screen_x = 0;
    screen_y = 0;
    terminal_list =
        set c.terminal_list c.curr_terminal_num (record shown { x_cursor = 0; y_cursor = 0 });
  }
  pub blank : (x y : ℕ) → x < num_cols → y < num_rows → Cell d.vram base x y b' '
  pub in_order : Safe base mem d

-- On a screen in order, wherever its page lies below 2^32, `clear` does not fault; every cell shows a
-- blank in the usual colours, the cursor and the cursor kept for the shown terminal are in the corner,
-- memory outside the page and the rest of the console are as before, and the screen is in order.
pub clear-Cleared :
    (base : ℕ) (mem : ℕ → ℕ) (c : Console)
    → base + 4000 ≤ 2 ^ 32
    → Safe base mem c
    → (d : Console) × (clear c ≡ some d) × Cleared base mem c d
unfolding clear set_cursor at_terminal
clear-Cleared base mem c fits s =
    let (t, there) =
      get_elem?-lt c.terminal_list c.curr_terminal_num (omega (arith, s.terminals, s.displayed)) in
    let t' = record t { x_cursor = 0; y_cursor = 0 } in
    let d = record c {
      vram = clear_rows c.vram c.video_mem 0 num_rows;
      screen_x = 0;
      screen_y = 0;
      terminal_list = set c.terminal_list c.curr_terminal_num t';
    } in
    (
      d,
      rw there refl,
      record {
        shown = t;
        shown_there = there;
        only = refl;
        blank = λ x y hx hy. rw s.page (
            clear_rows-Cell base fits num_rows 0 x y c.vram (omega arith) hx (omega arith)
              (omega arith));
        in_order = record {
          column = omega arith;
          row = omega arith;
          page = s.page;
          settings = s.settings;
          terminals = length-set c.terminal_list c.curr_terminal_num t' ∙ s.terminals;
          displayed = s.displayed;
          scheduled = s.scheduled;
          cursors =
              let here = All-at HasCursor c.terminal_list c.curr_terminal_num t s.cursors there in
              All-set HasCursor c.terminal_list c.curr_terminal_num t' s.cursors
                (here.0, omega arith, omega arith);
          kept =
              rw s.page (clear_rows-Outside base fits num_rows 0 mem c.vram (omega arith) s.kept);
        };
      },
    )
