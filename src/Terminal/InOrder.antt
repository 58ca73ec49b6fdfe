-- ===== src/Terminal/InOrder.antt =====
-- The console in order, whichever page is drawn on, and what keeps it so.
use osgods.Common.{ℕ, ◌≤◌, ◌<◌, ◌≡◌, refl, sym, ap, ◌∙◌, ◌≢◌, arith, length, Ensures, All-at}
use osgods.Common.{All-from, Ensures-Allows, Ensures-mono}
use mathlib.Core.Path.{subst}
use osgods.Console.{Console, Terminal, num_cols, num_rows, clear}
use osgods.Console.Clearing.{clear-Cleared}
use osgods.Console.Putc.{putc}
use osgods.Console.Putc.Frame.{Frame, SameTerminals, SameTerminals-set, putc-Frame}
use osgods.Console.Putc.Safe.{Safe}
use osgods.Console.Putc.Undo.{putc-Safe}
use osgods.Terminal.Pages.{IsTerminal, IsReady}

-- A page that can be drawn on: the screen or that of a terminal.
abbrev pub IsPage : ℕ → Type 0
IsPage base = base ≤ 0xBB000

-- The cursors are on the screen, the arrays of the screen have their sizes, terminals and line are in
-- order, and a page is drawn on.
pub record InOrder (c : Console) : Type 0 where
  pub page : IsPage c.video_mem
  pub safe : Safe c.video_mem c.vram c
  pub ready : IsReady c

pub anywhere-IsReady :
    (c : Console) (x y base : ℕ)
    → IsReady c
    → IsReady (record c { screen_x = x; screen_y = y; video_mem = base })
anywhere-IsReady c x y base r = record {
  all_terminals = r.all_terminals;
  in_order = r.in_order;
  shown = r.shown;
  scheduled = r.scheduled;
  few = r.few;
  line_buffer = r.line_buffer;
  line_index = r.line_index;
}

-- Another place on another page.
pub moved-InOrder :
    (c : Console) (x y base : ℕ)
    → InOrder c
    → x < num_cols
    → y < num_rows
    → IsPage base
    → InOrder (record c { screen_x = x; screen_y = y; video_mem = base })
moved-InOrder c x y base o hx hy hb = record {
  page = hb;
  safe = record {
    column = hx;
    row = hy;
    page = refl;
    settings = o.safe.settings;
    terminals = o.safe.terminals;
    displayed = o.safe.displayed;
    scheduled = o.safe.scheduled;
    cursors = o.safe.cursors;
    kept = λ a out. refl;
  };
  ready = anywhere-IsReady c x y base o.ready;
}

-- The same terminals, up to their cursors, are in order.
same-IsReady :
    (c d : Console)
    → IsReady c
    → d.key_buffer ≡ c.key_buffer
    → d.keyb_index ≡ c.keyb_index
    → d.curr_terminal_num ≡ c.curr_terminal_num
    → d.scheduled_terminal ≡ c.scheduled_terminal
    → SameTerminals c.terminal_list d.terminal_list
    → IsReady d
same-IsReady c d r buffer index shown scheduled same = record {
  all_terminals = All-from (IsTerminal (length d.terminal_list)) d.terminal_list (λ i u g.
      let (t, there, e) = same.same_terminal i u g in
      let ok =
        All-at (IsTerminal (length c.terminal_list)) c.terminal_list i t r.all_terminals there in
      subst (λ n. IsTerminal n u) (sym same.same_length)
        (subst (IsTerminal (length c.terminal_list)) (sym e) (record {
          own_tid = ok.own_tid;
          own_page = ok.own_page;
          own_buffer = ok.own_buffer;
          own_index = ok.own_index;
          own_next = ok.own_next;
        })));
  in_order = λ i u g.
      let (t, there, e) = same.same_terminal i u g in
      ap (λ (x : Terminal). x.tid) e ∙ r.in_order i t there;
  shown = rw (shown, same.same_length) r.shown;
  scheduled = rw (scheduled, same.same_length) r.scheduled;
  few = rw same.same_length r.few;
  line_buffer = ap length buffer ∙ r.line_buffer;
  line_index = rw index r.line_index;
}

-- What is drawn on a console in order.
pub drawn-InOrder : (c d : Console) → InOrder c → Safe c.video_mem c.vram d → Frame c d → InOrder d
drawn-InOrder c d o s (buffer, index, signal, curr, scheduled, num, same) = record {
  page = rw s.page o.page;
  safe = record {
    column = s.column;
    row = s.row;
    page = refl;
    settings = s.settings;
    terminals = s.terminals;
    displayed = s.displayed;
    scheduled = s.scheduled;
    cursors = s.cursors;
    kept = λ a out. refl;
  };
  ready = same-IsReady c d o.ready buffer index curr scheduled same;
}

-- A character that is no backspace is put out without a fault, and the console stays in order.
pub putc-InOrder : (c : Console) (ch : ℕ) → InOrder c → ch ≢ 8 → Ensures InOrder (putc c ch)
putc-InOrder c ch o h =
    Ensures-mono (λ d. Safe c.video_mem c.vram d × Frame c d) InOrder (putc c ch)
      (Ensures-Allows (Safe c.video_mem c.vram) (Frame c) (putc c ch)
        (putc-Safe c.video_mem (omega (arith, o.page)) c.vram c ch (λ e. absurd (h e)) o.safe)
        (putc-Frame c ch))
      (λ d p. drawn-InOrder c d o p.0 p.1)

-- `clear` leaves the console in order.
pub clear-InOrder : (c : Console) → InOrder c → Ensures InOrder (clear c)
clear-InOrder c o =
    let (d, shown, p) = clear-Cleared c.video_mem c.vram c (omega (arith, o.page)) o.safe in
    let moved : Terminal = record (p.shown) { x_cursor = 0; y_cursor = 0 } in
    let e = p.only in
    rw shown (
      drawn-InOrder c d o p.in_order (
        ap (λ (x : Console). x.key_buffer) e,
        ap (λ (x : Console). x.keyb_index) e,
        ap (λ (x : Console). x.terminal_read_enable_signal) e,
        ap (λ (x : Console). x.curr_terminal_num) e,
        ap (λ (x : Console). x.scheduled_terminal) e,
        ap (λ (x : Console). x.scheduled_terminal_num) e,
        subst (SameTerminals c.terminal_list) (sym (ap (λ (x : Console). x.terminal_list) e))
            (SameTerminals-set c.terminal_list c.curr_terminal_num 0 0 p.shown p.shown_there),
      ))
