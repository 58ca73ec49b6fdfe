-- ===== src/Terminal/Changing.antt =====
-- What a change of one terminal, or of the one that is scheduled, leaves in order.
use osgods.Common.{
  get_elem?-some, ℕ, ◌<◌, ◌≡◌, refl, sym, ap, ◌∙◌, inl, inr, some, List, arith, ◌==◌, ==_iff,
  Bool-cases, Option-cases, length, get_elem?, set, length-set, get_elem?-set_self,
  get_elem?-set_ne, All, All-set, All-at, Allows,
}
use mathlib.Core.Option
use mathlib.Core.Path.{subst}
use osgods.Console.{Console, Terminal, at_terminal}
use osgods.Console.Putc.Safe.{HasCursor}
use osgods.Terminal.{keyb_buffer_size}
use osgods.Terminal.InOrder.{InOrder}
use osgods.Terminal.Pages.{IsTerminal, IsReady}

-- A terminal of the three in order.
abbrev pub Good : Terminal → Type 0
Good t = IsTerminal 3 t × HasCursor t

-- A terminal that is changed to another one in order, on a console that can be switched.
pub set-IsReady :
    (c : Console) (i : ℕ) (u : Terminal)
    → IsReady c
    → i < length c.terminal_list
    → u.tid ≡ i
    → IsTerminal (length c.terminal_list) u
    → IsReady (record c { terminal_list = set c.terminal_list i u })
set-IsReady c i u r h own ok =
    let same : length (set c.terminal_list i u) ≡ length c.terminal_list =
      length-set c.terminal_list i u in
    record {
      all_terminals =
          subst (λ n. All (IsTerminal n) (set c.terminal_list i u)) (sym same)
            (All-set (IsTerminal (length c.terminal_list)) c.terminal_list i u r.all_terminals ok);
      in_order = λ j t g. elim (Bool-cases (i == j)) [
        | inl here ↦
            let e : i ≡ j = (==_iff i j).0 here in
            let u_is : u ≡ t = Option.some_inj.0 (
              sym (get_elem?-set_self c.terminal_list i u h)
              ∙ ap (λ k. get_elem? (set c.terminal_list i u) k) e
              ∙ g) in
            ap (λ (x : Terminal). x.tid) (sym u_is) ∙ own ∙ e
        | inr other ↦
            r.in_order j t
              (sym (get_elem?-set_ne c.terminal_list u (λ e. absurd (ground (arith, e)))) ∙ g)
      ];
      shown = omega (arith, same, r.shown);
      scheduled = omega (arith, same, r.scheduled);
      few = omega (arith, same, r.few);
      line_buffer = r.line_buffer;
      line_index = r.line_index;
    }

-- A terminal that is changed to another one in order.
pub set-InOrder :
    (c : Console) (i : ℕ) (u : Terminal)
    → InOrder c
    → i < 3
    → u.tid ≡ i
    → IsTerminal 3 u
    → HasCursor u
    → InOrder (record c { terminal_list = set c.terminal_list i u })
set-InOrder c i u o h own ok cursor =
    let three = o.safe.terminals in
    let same : length (set c.terminal_list i u) ≡ length c.terminal_list =
      length-set c.terminal_list i u in
    record {
      page = o.page;
      safe = record {
        column = o.safe.column;
        row = o.safe.row;
        page = refl;
        settings = o.safe.settings;
        terminals = same ∙ three;
        displayed = o.safe.displayed;
        scheduled = o.safe.scheduled;
        cursors = All-set HasCursor c.terminal_list i u o.safe.cursors cursor;
        kept = λ a out. refl;
      };
      ready =
          set-IsReady c i u o.ready (omega (arith, three)) own
            (subst (λ n. IsTerminal n u) (sym three) ok);
    }

-- A change of a terminal that keeps what makes it one of the three.
pub at_terminal-InOrder :
    (c : Console) (i : ℕ) (f : Terminal → Terminal)
    → InOrder c
    → i < 3
    → ((t : Terminal) → Good t → Good (f t) × ((f t).tid ≡ t.tid))
    → Allows InOrder (at_terminal c i f)
unfolding at_terminal
at_terminal-InOrder c i f o h keeps = elim (Option-cases (get_elem? c.terminal_list i)) [
  | inl missing ↦ rw missing tt
  | inr (t, there) ↦
      let ok : IsTerminal 3 t =
        subst (λ n. IsTerminal n t) o.safe.terminals
          (All-at (IsTerminal (length c.terminal_list)) c.terminal_list i t o.ready.all_terminals
            there) in
      let cursor = All-at HasCursor c.terminal_list i t o.safe.cursors there in
      let (good, same) = keeps t (ok, cursor) in
      rw there (set-InOrder c i (f t) o h (same ∙ o.ready.in_order i t there) good.0 good.1)
]

pub terminal-Good :
    (c : Console) (i : ℕ) (t : Terminal) → InOrder c → get_elem? c.terminal_list i ≡ some t → Good t
terminal-Good c i t o there = (
  subst (λ n. IsTerminal n t) o.safe.terminals
      (All-at (IsTerminal (length c.terminal_list)) c.terminal_list i t o.ready.all_terminals
        there),
  All-at HasCursor c.terminal_list i t o.safe.cursors there,
)

-- Another terminal is scheduled.
pub scheduled-InOrder :
    (c : Console) (next tid : ℕ)
    → InOrder c
    → next < 3
    → InOrder (record c { scheduled_terminal = next; scheduled_terminal_num = tid })
scheduled-InOrder c next tid o h = record {
  page = o.page;
  safe = record {
    column = o.safe.column;
    row = o.safe.row;
    page = refl;
    settings = o.safe.settings;
    terminals = o.safe.terminals;
    displayed = o.safe.displayed;
    scheduled = h;
    cursors = o.safe.cursors;
    kept = λ a out. refl;
  };
  ready = record {
    all_terminals = o.ready.all_terminals;
    in_order = o.ready.in_order;
    shown = o.ready.shown;
    scheduled = omega (arith, h, o.safe.terminals);
    few = o.ready.few;
    line_buffer = o.ready.line_buffer;
    line_index = o.ready.line_index;
  };
}

-- The memory of the line of terminal `i`, which is `t`, holds other bytes.
abbrev pub with_line : Console → ℕ → Terminal → List ℕ → Console
with_line c i t line = record c {
  terminal_list = set c.terminal_list i (record t { keyb_buffer = line });
}

pub with_line-IsReady :
    (c : Console) (i : ℕ) (t : Terminal) (line : List ℕ)
    → IsReady c
    → get_elem? c.terminal_list i ≡ some t
    → length line ≡ keyb_buffer_size
    → IsReady (with_line c i t line)
with_line-IsReady c i t line r there size =
    let ok =
      All-at (IsTerminal (length c.terminal_list)) c.terminal_list i t r.all_terminals there in
    set-IsReady c i (record t { keyb_buffer = line }) r (get_elem?-some c.terminal_list i t there)
      (r.in_order i t there)
      (record {
        own_tid = ok.own_tid;
        own_page = ok.own_page;
        own_buffer = size;
        own_index = ok.own_index;
        own_next = ok.own_next;
      })

pub with_line-InOrder :
    (c : Console) (i : ℕ) (t : Terminal) (line : List ℕ)
    → InOrder c
    → get_elem? c.terminal_list i ≡ some t
    → length line ≡ keyb_buffer_size
    → InOrder (with_line c i t line)
with_line-InOrder c i t line o there size =
    let (ok, cursor) = terminal-Good c i t o there in
    let inside = get_elem?-some c.terminal_list i t there in
    set-InOrder c i (record t { keyb_buffer = line }) o (omega (arith, inside, o.safe.terminals))
      (o.ready.in_order i t there)
      (record {
        own_tid = ok.own_tid;
        own_page = ok.own_page;
        own_buffer = size;
        own_index = ok.own_index;
        own_next = ok.own_next;
      })
      cursor
