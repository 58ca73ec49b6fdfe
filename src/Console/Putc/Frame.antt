-- ===== src/Console/Putc/Frame.antt =====
-- What `putc` leaves alone: the line buffer, and which terminals are shown and scheduled.
use osgods.Common.{
  ℕ, ◌-◌, ◌≡◌, refl, sym, ap, ◌∙◌, ◌≢◌, inl, inr, Bool, true, false, not, ◌||◌, Option, some, List,
  arith, ◌==◌, if◌then◌else◌, ==_iff, Bool-cases, Option-cases, length, get_elem?, set, length-set,
  get_elem?-set_self, get_elem?-set_ne, add32, slt, ◌>>=◌, Allows, Allows-bind, Allows-bind_with,
  Allows-if, get_elem?-some,
}
use mathlib.Core.Option
use mathlib.Core.Path.{subst}
use osgods.Console.{
  Console, Terminal, at_terminal, set_cursor, num_cols, num_rows, spaces_num, store, put_cell,
}
use osgods.Console.Putc.{
  draw, recycle, append, scroll, back, backspace, enter, tab, line_end, plain, putc_tid, putc,
  shift_up,
}

-- The terminals are the same up to their cursors.
pub record SameTerminals (ts us : List Terminal) : Type 0 where
  pub same_length : length us ≡ length ts
  pub same_terminal :
      (i : ℕ) (u : Terminal)
      → get_elem? us i ≡ some u
      → (t : Terminal) × (get_elem? ts i ≡ some t)
        × (u ≡ record t { x_cursor = u.x_cursor; y_cursor = u.y_cursor })

SameTerminals-refl : (ts : List Terminal) → SameTerminals ts ts
SameTerminals-refl ts = record { same_length = refl; same_terminal = λ i u g. (u, g, refl) }

SameTerminals-trans :
    (ts us vs : List Terminal) → SameTerminals ts us → SameTerminals us vs → SameTerminals ts vs
SameTerminals-trans ts us vs p q = record {
  same_length = q.same_length ∙ p.same_length;
  same_terminal = λ i v g.
      let (u, h, e) = q.same_terminal i v g in
      let (t, k, f) = p.same_terminal i u h in
      (
        t,
        k,
        e ∙ ap (λ (x : Terminal). record x { x_cursor = v.x_cursor; y_cursor = v.y_cursor }) f,
      );
}

-- A cursor moved.
pub SameTerminals-set :
    (ts : List Terminal) (i x y : ℕ) (t : Terminal)
    → get_elem? ts i ≡ some t
    → SameTerminals ts (set ts i (record t { x_cursor = x; y_cursor = y }))
SameTerminals-set ts i x y t there = record {
  same_length = length-set ts i (record t { x_cursor = x; y_cursor = y });
  same_terminal = λ j u g. elim (Bool-cases (i == j)) [
    | inl here ↦
        let e : i ≡ j = (==_iff i j).0 here in
        let moved : Terminal = record t { x_cursor = x; y_cursor = y } in
        let at_i : get_elem? (set ts i moved) i ≡ some u =
          ap (λ k. get_elem? (set ts i moved) k) e ∙ g in
        let u_is : moved ≡ u =
          Option.some_inj.0
            (sym (get_elem?-set_self ts i moved (get_elem?-some ts i t there)) ∙ at_i) in
        (
          t,
          ap (λ k. get_elem? ts k) (sym e) ∙ there,
          subst (λ (v : Terminal). v ≡ record t { x_cursor = v.x_cursor; y_cursor = v.y_cursor })
              u_is refl,
        )
    | inr other ↦
        let ne : i ≢ j = λ e. ground (arith, other, e) in
        (u, sym (get_elem?-set_ne ts (record t { x_cursor = x; y_cursor = y }) ne) ∙ g, refl)
  ];
}

-- The line buffer, the signal, the choice of terminals and, up to their cursors, the terminals are
-- the same.
abbrev pub Frame : Console → Console → Type 0
Frame c d =
    (d.key_buffer ≡ c.key_buffer)
    × (d.keyb_index ≡ c.keyb_index)
    × (d.terminal_read_enable_signal ≡ c.terminal_read_enable_signal)
    × (d.curr_terminal_num ≡ c.curr_terminal_num)
    × (d.scheduled_terminal ≡ c.scheduled_terminal)
    × (d.scheduled_terminal_num ≡ c.scheduled_terminal_num)
    × SameTerminals c.terminal_list d.terminal_list

pub Frame-refl : (c : Console) → Frame c c
Frame-refl c = (refl, refl, refl, refl, refl, refl, SameTerminals-refl c.terminal_list)

pub Frame-trans : (c d e : Console) → Frame c d → Frame d e → Frame c e
Frame-trans c d e (a0, a1, a2, a3, a4, a5, a6) (b0, b1, b2, b3, b4, b5, b6) = (
  b0 ∙ a0,
  b1 ∙ a1,
  b2 ∙ a2,
  b3 ∙ a3,
  b4 ∙ a4,
  b5 ∙ a5,
  SameTerminals-trans c.terminal_list d.terminal_list e.terminal_list a6 b6,
)

Frame-if : (c x y : Console) (b : Bool) → Frame c x → Frame c y → Frame c (if b then x else y)
Frame-if c x y true h k = h
Frame-if c x y false h k = k

draw-Frame : (c d : Console) (tid : ℕ) → Frame c d → Allows (Frame c) (draw d tid)
unfolding draw set_cursor at_terminal
draw-Frame c d tid h = elim (Option-cases (get_elem? d.terminal_list tid)) [
  | inl outside ↦ rw outside tt
  | inr (t, there) ↦ rw there (
      Frame-trans c d
        (record d {
          vram = put_cell d.vram d.video_mem d.screen_x d.screen_y b'_';
          terminal_list =
              set d.terminal_list tid (record t { x_cursor = d.screen_x; y_cursor = d.screen_y });
        })
        h
        (
          refl,
          refl,
          refl,
          refl,
          refl,
          refl,
          SameTerminals-set d.terminal_list tid d.screen_x d.screen_y t there,
        ))
]

scroll-Frame : (c : Console) → Frame c (scroll c)
unfolding scroll
scroll-Frame c = Frame-refl c

backspace-Frame : (c : Console) → Allows (Frame c) (backspace c)
unfolding backspace
backspace-Frame c =
    Allows-bind (Frame c) (back c.settings c.screen_x c.screen_y) _ λ r. Frame-refl c

enter-Frame : (c : Console) (ch : ℕ) → Allows (Frame c) (enter c ch)
unfolding enter scroll
enter-Frame c ch = Allows-bind (Frame c) (append c.settings ch) _ λ s.
    Allows-bind (Frame c) (store s.prev_screen_x c.screen_y c.screen_x) _
      λ p. Frame-if c _ _ (c.screen_y == num_rows - 1) (Frame-refl c) (Frame-refl c)

tab-Frame : (c : Console) → Allows (Frame c) (tab c)
unfolding tab
tab-Frame c = Allows-bind (Frame c) (append c.settings b'\t') _ λ s. Frame-refl c

line_end-Frame : (c d : Console) → Frame c d → Allows (Frame c) (line_end d)
unfolding line_end scroll
line_end-Frame c d h =
    Allows-if (Frame c) (slt d.screen_y (num_rows - 1)) _ _
      (Allows-bind (Frame c) (store d.settings.line_is_full d.screen_y 1) _ λ l. h)
      (Allows-bind (Frame c) (store (shift_up d.settings.line_is_full) (num_rows - 2) 1) _ λ l. h)

plain-Frame : (c : Console) (ch : ℕ) → Allows (Frame c) (plain c ch)
unfolding plain
plain-Frame c ch = Allows-bind (Frame c) (append c.settings ch) _ λ s.
    Allows-if (Frame c) (add32 c.screen_x 1 == num_cols) _ _
      (line_end-Frame c
        (record c {
          vram = put_cell c.vram c.video_mem c.screen_x c.screen_y ch;
          settings = s;
          screen_x = add32 c.screen_x 1;
        })
        (Frame-refl c))
      (Frame-refl c)

-- A step and the drawing of the cursor.
drawn-Frame :
    (c : Console) (tid : ℕ) (m : Option Console)
    → Allows (Frame c) m
    → Allows (Frame c) (m >>= (λ d. draw d tid))
drawn-Frame c tid m h = Allows-bind_with (Frame c) (Frame c) m _ h λ d k. draw-Frame c d tid k

-- Whatever the character, `putc` changes neither the line buffer nor which terminals are shown and
-- scheduled.
pub putc-Frame : (c : Console) (ch : ℕ) → Allows (Frame c) (putc c ch)
unfolding putc
putc-Frame c ch = Allows-bind (Frame c) (putc_tid c) _ λ tid.
    let c' = record c { keyb_pressed = false; settings = recycle c.settings } in
    Allows-if (Frame c) (ch == 8) _ _ (drawn-Frame c tid _ (backspace-Frame c')) (
      Allows-if (Frame c) (ch == b'\n' || ch == b'\r') _ _ (drawn-Frame c tid _ (enter-Frame c' ch))
        (Allows-if (Frame c) (ch == b'\t') _ _
          (Allows-if (Frame c) (not (slt c'.screen_x (num_cols - spaces_num - 1))) _ _
            (Frame-refl c) (drawn-Frame c tid _ (tab-Frame c')))
          (drawn-Frame c tid _ (plain-Frame c' ch))))
