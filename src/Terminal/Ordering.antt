-- ===== src/Terminal/Ordering.antt =====
-- A switch between terminals leaves the console in order.
use osgods.Common.{
  ℕ, zero, suc, ◌<◌, ◌≡◌, refl, sym, ◌∙◌, ◌≢◌, inl, inr, Bool, true, false, List, [], ◌∷◌, arith,
  ◌==◌, if◌then◌else◌, ==_ne, Bool-cases, Option-cases, length, get_elem?, length-set, All, Ensures,
  Allows, Allows-bind, Allows-bind_with, Allows-if, Allows-some, All-set, All-at,
}
use osgods.Console.{
  Console, Terminal, num_cols, num_rows, video_memory_addr, update_screen_x_y, update_video_mem,
}
use osgods.Console.Putc.Safe.{IsSettings, HasCursor}
use osgods.Kernel.{Kernel, memory_switch}
use osgods.KeyBuffer.{zero_first, copy_first, rounds, update_keyb_buf}
use osgods.Terminal.{swap_terminals, terminal_switch}
use osgods.Terminal.InOrder.{InOrder, IsPage, anywhere-IsReady}
use osgods.Terminal.Pages.{IsTerminal, IsReady, memory_switch-Keeps}
use mathlib.Core.Path.{subst}
use osgods.Terminal.Swapping.{swap_terminals-Switches}
use osgods.Terminal.Switching.{terminal_switch-Switches}

-- A console in order but for its line and the links of its terminals.
record Placed (c : Console) : Type 0 where
  page : IsPage c.video_mem
  column : c.screen_x < num_cols
  row : c.screen_y < num_rows
  settings : IsSettings c.settings
  terminals : length c.terminal_list ≡ 3
  displayed : c.curr_terminal_num < 3
  scheduled : c.scheduled_terminal < 3
  cursors : All HasCursor c.terminal_list

pub All-Allows :
    {A : Type 0} (P : A → Type 0) (xs : List A) (i : ℕ) → All P xs → Allows P (get_elem? xs i)
All-Allows P [] i h = tt
All-Allows P (x ∷ xs) zero h = h.0
All-Allows P (x ∷ xs) (suc i) h = All-Allows P xs i h.1

InOrder-Placed : (c : Console) → InOrder c → Placed c
InOrder-Placed c o = record {
  page = o.page;
  column = o.safe.column;
  row = o.safe.row;
  settings = o.safe.settings;
  terminals = o.safe.terminals;
  displayed = o.safe.displayed;
  scheduled = o.safe.scheduled;
  cursors = o.safe.cursors;
}

Placed-InOrder : (c : Console) → Placed c → IsReady c → InOrder c
Placed-InOrder c p r = record {
  page = p.page;
  safe = record {
    column = p.column;
    row = p.row;
    page = refl;
    settings = p.settings;
    terminals = p.terminals;
    displayed = p.displayed;
    scheduled = p.scheduled;
    cursors = p.cursors;
    kept = λ a out. refl;
  };
  ready = r;
}

-- Another place on another page, with another terminal shown.
Placed-moved :
    (c : Console) (x y base b : ℕ)
    → Placed c
    → x < num_cols
    → y < num_rows
    → IsPage base
    → b < 3
    → Placed (record c { screen_x = x; screen_y = y; video_mem = base; curr_terminal_num = b })
Placed-moved c x y base b p hx hy hb lt = record {
  page = hb;
  column = hx;
  row = hy;
  settings = p.settings;
  terminals = p.terminals;
  displayed = lt;
  scheduled = p.scheduled;
  cursors = p.cursors;
}

-- The page of a terminal of the three.
page-IsPage : (t : Terminal) → IsTerminal 3 t → IsPage t.video_page
page-IsPage t ok = omega (arith, ok.own_page, ok.own_tid)

pub either-IsPage :
    (b : Bool) (t : Terminal)
    → IsTerminal 3 t
    → IsPage (if b then video_memory_addr else t.video_page)
either-IsPage true t ok = omega arith
either-IsPage false t ok = page-IsPage t ok

memory_switch-Placed :
    (k : Kernel)
    → Placed k.console
    → All (IsTerminal 3) k.console.terminal_list
    → Allows (λ m. Placed m.console) (memory_switch k)
unfolding memory_switch update_screen_x_y update_video_mem
memory_switch-Placed k p ok =
    let c = k.console in
    Allows-bind (λ m. Placed m.console) (get_elem? c.terminal_list c.scheduled_terminal) _
      (λ t. elim (Option-cases t.next_terminal) [
        | inl alone ↦ rw alone p
        | inr (next, e) ↦ rw e (
            Allows-bind_with (IsTerminal 3) (λ m. Placed m.console) (get_elem? c.terminal_list next)
              _ (All-Allows (IsTerminal 3) c.terminal_list next ok)
              (λ n n_ok.
                Allows-bind_with HasCursor (λ m. Placed m.console) (get_elem? c.terminal_list n.tid)
                  _ (All-Allows HasCursor c.terminal_list n.tid p.cursors)
                  (λ own h.
                    Placed-moved c own.x_cursor own.y_cursor _ c.curr_terminal_num p h.1 h.2
                      (either-IsPage _ n n_ok) p.displayed)))
      ])

-- Another line.
line-Placed :
    (c : Console) (b : List ℕ) (i : ℕ)
    → Placed c
    → Placed (record c { key_buffer = b; keyb_index = i })
line-Placed c b i p = record {
  page = p.page;
  column = p.column;
  row = p.row;
  settings = p.settings;
  terminals = p.terminals;
  displayed = p.displayed;
  scheduled = p.scheduled;
  cursors = p.cursors;
}

update_keyb_buf-Placed :
    (c : Console) (line : List ℕ) (n : ℕ) → Placed c → Allows Placed (update_keyb_buf c line n)
unfolding update_keyb_buf
update_keyb_buf-Placed c line n p =
    Allows-if Placed (n == 0) _ _
      (Allows-bind Placed (zero_first (rounds n) c.key_buffer) _ (λ b. line-Placed c b 0 p))
      (Allows-bind Placed (copy_first (rounds n) c.key_buffer line) _ (λ b. line-Placed c b n p))

swap_terminals-Placed :
    (c : Console) (old new : Terminal)
    → Placed c
    → HasCursor old
    → HasCursor new
    → Allows Placed (swap_terminals c old new)
unfolding swap_terminals
swap_terminals-Placed c old new p h k =
    Allows-bind Placed (copy_first (rounds c.keyb_index) old.keyb_buffer c.key_buffer) _ (λ b.
      update_keyb_buf-Placed _ new.keyb_buffer new.keyb_buffer_index (record {
        page = omega arith;
        column = k.1;
        row = k.2;
        settings = p.settings;
        terminals = length-set c.terminal_list c.curr_terminal_num _ ∙ p.terminals;
        displayed = p.displayed;
        scheduled = p.scheduled;
        cursors =
            All-set HasCursor c.terminal_list c.curr_terminal_num _ p.cursors
              (h.0, p.column, p.row);
      }))

terminal_switch-Placed :
    (k : Kernel) (b : ℕ)
    → InOrder k.console
    → b < 3
    → k.console.curr_terminal_num ≢ b
    → Allows (λ m. Placed m.console) (terminal_switch k b)
unfolding terminal_switch
terminal_switch-Placed k b o lt differ =
    let c = k.console in
    let p = InOrder-Placed c o in
    let (old, new, d, e, f, g, ok, s) =
      swap_terminals-Switches c b o.ready (omega (arith, p.terminals)) differ in
    let placed : Placed d =
      Allows-some Placed (swap_terminals c old new) d
        (swap_terminals-Placed c old new p
          (All-at HasCursor c.terminal_list c.curr_terminal_num old p.cursors e)
          (All-at HasCursor c.terminal_list b new p.cursors f))
        g in
    let shown : Placed (record d { curr_terminal_num = b }) =
      Placed-moved d d.screen_x d.screen_y d.video_mem b placed placed.column placed.row placed.page
        lt in
    let three : All (IsTerminal 3) d.terminal_list =
      subst (λ n. All (IsTerminal n) d.terminal_list) placed.terminals ok.all_terminals in
    rw (==_ne c.curr_terminal_num b differ, e, f, g)
      (memory_switch-Placed (record k { console = record d { curr_terminal_num = b } }) shown three)

-- A switch to one of the three terminals does not fault and leaves the console in order.
pub terminal_switch-InOrder :
    (k : Kernel) (b : ℕ)
    → InOrder k.console
    → b < 3
    → Ensures (λ m. InOrder m.console) (terminal_switch k b)
unfolding terminal_switch
terminal_switch-InOrder k b o lt = elim (Bool-cases (k.console.curr_terminal_num == b)) [
  | inl same ↦ rw same o
  | inr other ↦
      let differ : k.console.curr_terminal_num ≢ b = λ e. ground (arith, other, e) in
      let (m, e, ok, s) =
        terminal_switch-Switches k b o.ready (omega (arith, o.safe.terminals)) differ in
      let placed =
        Allows-some (λ (l : Kernel). Placed l.console) (terminal_switch k b) m
          (terminal_switch-Placed k b o lt differ) e in
      rw e (Placed-InOrder m.console placed ok)
]

-- The next terminal's turn on the screen, by `memory_switch`, does not fault and leaves the console
-- in order.
pub memory_switch-InOrder :
    (k : Kernel) → InOrder k.console → Ensures (λ m. InOrder m.console) (memory_switch k)
memory_switch-InOrder k o =
    let p = InOrder-Placed k.console o in
    let three : All (IsTerminal 3) k.console.terminal_list =
      subst (λ n. All (IsTerminal n) k.console.terminal_list) p.terminals o.ready.all_terminals in
    let (m, x, y, v, e, same) = memory_switch-Keeps k o.ready.scheduled o.ready.all_terminals in
    let placed =
      Allows-some (λ (l : Kernel). Placed l.console) (memory_switch k) m
        (memory_switch-Placed k p three) e in
    rw e (
      Placed-InOrder m.console placed
        (subst IsReady (sym same) (anywhere-IsReady k.console x y v o.ready)))
