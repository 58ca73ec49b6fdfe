-- ===== src/Terminal/Initial.antt =====
-- The terminals as they are made at the start.
use osgods.Common.{List, ℕ, zero, suc, ◌≤◌, ◌≡◌, refl, some, [], ◌∷◌, arith, length, get_elem?, set}
use mathlib.Core.Option
use mathlib.Core.Path.{subst}
use osgods.Console.{Console, Terminal, video_memory_addr}
use osgods.Console.Putc.Safe.{Safe}
use osgods.KeyBuffer.{keyb_buff_len}
use osgods.Paging.{Paging}
use osgods.Kernel.{Kernel}
use osgods.Terminal.{init_terminal, init_page, init_round, terminal_init, keyb_buffer_size}
use osgods.Terminal.Pages.{IsReady}

-- A console whose screen and line are in order, as `terminal_init` is given it.
abbrev pub IsConsole : (ℕ → ℕ) → Console → Type 0
IsConsole kept c =
    Safe video_memory_addr kept c
    × (length c.key_buffer ≡ keyb_buff_len)
    × (c.keyb_index ≤ keyb_buff_len)

-- The console with its terminals as they are made, and the pages with those of the terminals.
unfoldable pub made_console : (ℕ → List ℕ) → Console → Console
unfolding init_terminal
made_console stack c = record c {
  terminal_list = init_terminal stack 0 ∷ init_terminal stack 1 ∷ init_terminal stack 2 ∷ [];
  curr_terminal_num = 0;
}

unfoldable pub made_paging : Paging → Paging
unfolding init_page
made_paging p = init_page (init_page (init_page p 0) 1) 2

-- Where nothing that counts lies behind `terminal_list`, only the terminals and their pages are made.
pub terminal_init-made :
    (behind : ℕ → Kernel → Kernel) (stack : ℕ → List ℕ) (k : Kernel)
    → ((n : ℕ) (l : Kernel) → behind n l ≡ l)
    → terminal_init behind stack k
      ≡ record k { console = made_console stack k.console; paging = made_paging k.paging }
unfolding terminal_init init_round made_console made_paging
terminal_init-made behind stack k harmless =
    let p0 = init_page k.paging 0 in
    let p1 = init_page p0 1 in
    rw
      (
        harmless 1400 k,
        harmless 3648 (record k { paging = p0 }),
        harmless 5896 (record k { paging = p1 }),
      )
      refl

three-in_order :
    (a b c : Terminal)
    → a.tid ≡ 0
    → b.tid ≡ 1
    → c.tid ≡ 2
    → (i : ℕ) (t : Terminal) → get_elem? (a ∷ b ∷ c ∷ []) i ≡ some t
    → t.tid ≡ i
three-in_order a b c p q r zero t e = subst (λ u. u.tid ≡ 0) (Option.some_inj.0 e) p
three-in_order a b c p q r (suc zero) t e = subst (λ u. u.tid ≡ 1) (Option.some_inj.0 e) q
three-in_order a b c p q r (suc (suc zero)) t e = subst (λ u. u.tid ≡ 2) (Option.some_inj.0 e) r
three-in_order a b c p q r (suc (suc (suc i))) t e = absurd cc

-- The terminals as `terminal_init` makes them are in order, also once the screen is cleared.
pub made_console-IsReady :
    (stack : ℕ → List ℕ) (kept : ℕ → ℕ) (c : Console) (t : Terminal) (vram : ℕ → ℕ)
    → ((i : ℕ) → length (stack i) ≡ keyb_buffer_size)
    → IsConsole kept c
    → let i = made_console stack c in
      get_elem? i.terminal_list i.curr_terminal_num ≡ some t
      → IsReady (record i {
        vram = vram;
        screen_x = 0;
        screen_y = 0;
        terminal_list =
            set i.terminal_list i.curr_terminal_num (record t { x_cursor = 0; y_cursor = 0 });
      })
unfolding made_console
made_console-IsReady stack kept c t vram dead (ok, size, index) there =
    subst
      (λ t. IsReady (record (made_console stack c) {
        vram = vram;
        screen_x = 0;
        screen_y = 0;
        terminal_list =
            set (made_console stack c).terminal_list (made_console stack c).curr_terminal_num
              (record t { x_cursor = 0; y_cursor = 0 });
      }))
      (Option.some_inj.0 there)
      (record {
        all_terminals = (
          record {
            own_tid = omega arith;
            own_page = refl;
            own_buffer = dead 0;
            own_index = omega arith;
            own_next = λ j e. let f = Option.some_inj.0 e in omega (arith, f);
          },
          (
            record {
              own_tid = omega arith;
              own_page = refl;
              own_buffer = dead 1;
              own_index = omega arith;
              own_next = λ j e. let f = Option.some_inj.0 e in omega (arith, f);
            },
            (
              record {
                own_tid = omega arith;
                own_page = refl;
                own_buffer = dead 2;
                own_index = omega arith;
                own_next = λ j e. let f = Option.some_inj.0 e in omega (arith, f);
              },
              tt,
            ),
          ),
        );
        in_order = three-in_order _ _ _ refl refl refl;
        shown = omega arith;
        scheduled = ok.scheduled;
        few = omega arith;
        line_buffer = size;
        line_index = index;
      })

pub made_console-Safe :
    (stack : ℕ → List ℕ) (kept : ℕ → ℕ) (c : Console)
    → Safe video_memory_addr kept c
    → Safe video_memory_addr kept (made_console stack c)
unfolding made_console
made_console-Safe stack kept c ok = record {
  column = ok.column;
  row = ok.row;
  page = ok.page;
  settings = ok.settings;
  terminals = refl;
  displayed = omega arith;
  scheduled = ok.scheduled;
  cursors = (
    (omega arith, omega arith, omega arith),
    ((omega arith, omega arith, omega arith), ((omega arith, omega arith, omega arith), tt)),
  );
  kept = ok.kept;
}
