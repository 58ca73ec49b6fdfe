-- ===== src/Terminal/Switching.antt =====
-- Switching between the terminals.
use osgods.Common.{ℕ, ◌<◌, ◌≡◌, sym, ◌≢◌, some, ==_ne, length}
use mathlib.Core.Option
use mathlib.Core.Path.{subst}
use osgods.Console.{Console, Terminal}
use osgods.Kernel.{Kernel}
use osgods.Terminal.{terminal_switch}
use osgods.Terminal.Pages.{IsReady, Switches, memory_switch-Keeps}
use osgods.Terminal.Swapping.{swap_terminals-Switches}

-- The cursor and the page drawn on do not matter.
recursored :
    (d : Console) (c : Console) (b x y v : ℕ)
    → IsReady d × Switches c b d
    → IsReady (record d { screen_x = x; screen_y = y; video_mem = v })
      × Switches c b (record d { screen_x = x; screen_y = y; video_mem = v })
recursored d c b x y v (ready, s) = (
  record {
    all_terminals = ready.all_terminals;
    in_order = ready.in_order;
    shown = ready.shown;
    scheduled = ready.scheduled;
    few = ready.few;
    line_buffer = ready.line_buffer;
    line_index = ready.line_index;
  },
  record {
    kept = s.kept;
    kept_there = s.kept_there;
    kept_index = s.kept_index;
    kept_line = s.kept_line;
    others = s.others;
    brought = s.brought;
    brought_there = s.brought_there;
    new_index = s.new_index;
    new_line = s.new_line;
    now_shown = s.now_shown;
    kept_page = s.kept_page;
    new_page = s.new_page;
  },
)

-- A switch to another terminal, on a console in order, does not fault; it leaves the console in
-- order, keeps the line and the page that were shown and shows those of the other terminal.
pub terminal_switch-Switches :
    (k : Kernel) (b : ℕ)
    → IsReady k.console
    → b < length k.console.terminal_list
    → k.console.curr_terminal_num ≢ b
    → (m : Kernel) × (terminal_switch k b ≡ some m)
      × IsReady m.console
      × Switches k.console b m.console
unfolding terminal_switch
terminal_switch-Switches k b ready small differ =
    let c = k.console in
    let (old, new, d, e, f, g, ok, s) = swap_terminals-Switches c b ready small differ in
    let (m, x, y, v, h, same) =
      memory_switch-Keeps (record k { console = record d { curr_terminal_num = b } }) ok.scheduled
        ok.all_terminals in
    let (ok', s') =
      subst (λ (l : Console). IsReady l × Switches c b l) (sym same)
        (recursored (record d { curr_terminal_num = b }) c b x y v (ok, s)) in
    (m, rw (==_ne c.curr_terminal_num b differ, e, f, g) h, ok', s')
