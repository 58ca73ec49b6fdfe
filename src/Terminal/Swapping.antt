-- ===== src/Terminal/Swapping.antt =====
-- The console between the two terminals of a switch.
use osgods.Common.{
  ℕ, ◌+◌, ◌*◌, ◌≤◌, ◌<◌, ◌≡◌, refl, sym, ap, ◌∙◌, ◌≢◌, ◌⊎◌, inl, inr, some, List, arith, ◌==◌,
  ==_iff, Bool-cases, length, get_elem?, set, length-set, get_elem?-set_self, get_elem?-set_ne,
  take, All, All-set, All-get_elem?, All-at,
}
use mathlib.Core.Path.{subst}
use osgods.Console.{Console, Terminal, move, video_memory_addr}
use osgods.KeyBuffer.{copy_first, update_keyb_buf}
use osgods.Terminal.{swap_terminals}
use osgods.Terminal.Pages.{
  IsTerminal, IsReady, Switches, copy_first-line, rounds-small, update_keyb_buf-line, move-inside,
  move-outside,
}

-- The terminal as it is kept, and the console before the line is brought in.
abbrev saved_as : Console → Terminal → List ℕ → Terminal
saved_as c old b = record old {
  x_cursor = c.screen_x;
  y_cursor = c.screen_y;
  keyb_buffer_index = c.keyb_index;
  keyb_buffer = b;
}

abbrev swapped : Console → Terminal → Terminal → List ℕ → Console
swapped c old new b = record c {
  vram =
      move (move c.vram old.video_page video_memory_addr 4096) video_memory_addr new.video_page
        4096;
  video_mem = video_memory_addr;
  screen_x = new.x_cursor;
  screen_y = new.y_cursor;
  terminal_list = set c.terminal_list c.curr_terminal_num (saved_as c old b);
}

swap_terminals-step :
    (c : Console) (old new : Terminal) (b : List ℕ)
    → c.keyb_index ≤ 128
    → copy_first c.keyb_index old.keyb_buffer c.key_buffer ≡ some b
    → swap_terminals c old new
      ≡ update_keyb_buf (swapped c old new b) new.keyb_buffer new.keyb_buffer_index
unfolding swap_terminals
swap_terminals-step c old new b small e = rw (rounds-small c.keyb_index small, e) refl

-- The page of terminal `i`.
abbrev pub page : ℕ → ℕ
page i = video_memory_addr + (i + 1) * 4096

own_page-at :
    (c : Console)
    → IsReady c
    → (i : ℕ) (t : Terminal) → get_elem? c.terminal_list i ≡ some t
    → t.video_page ≡ page i
own_page-at c ready i t e =
    (All-at (IsTerminal (length c.terminal_list)) c.terminal_list i t ready.all_terminals
      e).own_page
    ∙ ap page (ready.in_order i t e)

-- The pages of two terminals have no byte in common.
apart :
    {a b p q i : ℕ} → a ≢ b → p ≡ page a → q ≡ page b → i < 4096 → (q + i < p) ⊎ (p + 4096 ≤ q + i)
apart ne e f h = ground arith

-- The console after the switch.
abbrev switched : Console → ℕ → Terminal → Terminal → List ℕ → List ℕ → Console
switched c b old new kept line = record (swapped c old new kept) {
  key_buffer = line;
  keyb_index = new.keyb_buffer_index;
  curr_terminal_num = b;
}

module _ (c : Console) (b : ℕ) (old new : Terminal) (kept line : List ℕ) (ready : IsReady c)
    (small : b < length c.terminal_list)
    (there : get_elem? c.terminal_list c.curr_terminal_num ≡ some old)
    (there' : get_elem? c.terminal_list b ≡ some new) where
  switched-IsReady :
      length kept ≡ 128 → length line ≡ 128 → IsReady (switched c b old new kept line)
  switched-IsReady len len' =
      let t = saved_as c old kept in
      let n = length c.terminal_list in
      let same : length (set c.terminal_list c.curr_terminal_num t) ≡ n =
        length-set c.terminal_list c.curr_terminal_num t in
      let ok =
        All-at (IsTerminal n) c.terminal_list c.curr_terminal_num old ready.all_terminals there in
      let ok' = All-at (IsTerminal n) c.terminal_list b new ready.all_terminals there' in
      let kept_ok : IsTerminal n t = record {
        own_tid = ok.own_tid;
        own_page = ok.own_page;
        own_buffer = len;
        own_index = ready.line_index;
        own_next = ok.own_next;
      } in
      record {
        all_terminals =
            subst (λ m. All (IsTerminal m) (set c.terminal_list c.curr_terminal_num t)) (sym same)
              (All-set (IsTerminal n) c.terminal_list c.curr_terminal_num t ready.all_terminals
                kept_ok);
        in_order = λ i u e. elim (Bool-cases (c.curr_terminal_num == i)) [
          | inl here ↦
              let here' : c.curr_terminal_num ≡ i = (==_iff c.curr_terminal_num i).0 here in
              let set_here = get_elem?-set_self c.terminal_list c.curr_terminal_num t ready.shown in
              let which : t ≡ u = cc in
              sym (ap (λ (v : Terminal). v.tid) which)
              ∙ ready.in_order c.curr_terminal_num old there
              ∙ here'
          | inr other ↦
              let ne : c.curr_terminal_num ≢ i = λ h. absurd (ground arith) in
              ready.in_order i u (sym (get_elem?-set_ne c.terminal_list t ne) ∙ e)
        ];
        shown = omega arith;
        scheduled = omega (arith, ready.scheduled);
        few = omega (arith, ready.few);
        line_buffer = len';
        line_index = ok'.own_index;
      }

  switched-Switches :
      c.curr_terminal_num ≢ b
      → take c.keyb_index kept ≡ take c.keyb_index c.key_buffer
      → take new.keyb_buffer_index line ≡ take new.keyb_buffer_index new.keyb_buffer
      → Switches c b (switched c b old new kept line)
  switched-Switches differ same same' =
      let a = c.curr_terminal_num in
      let here = own_page-at c ready a old there in
      let here' = own_page-at c ready b new there' in
      record {
        kept = saved_as c old kept;
        kept_there = get_elem?-set_self c.terminal_list a _ ready.shown;
        kept_index = refl;
        kept_line = same;
        others = λ i ne. get_elem?-set_ne c.terminal_list _ ne;
        brought = new;
        brought_there = there';
        new_index = refl;
        new_line = same';
        now_shown = refl;
        kept_page = λ i h.
            move-outside (move c.vram old.video_page video_memory_addr 4096) video_memory_addr
              new.video_page 4096 (page a + i) (inr (omega arith))
            ∙ ap (λ p. move c.vram p video_memory_addr 4096 (page a + i)) here
            ∙ move-inside c.vram (page a) video_memory_addr 4096 i h;
        new_page = λ i h.
            move-inside (move c.vram old.video_page video_memory_addr 4096) video_memory_addr
              new.video_page 4096 i h
            ∙ move-outside c.vram old.video_page video_memory_addr 4096 (new.video_page + i)
                (apart differ here here' h)
            ∙ ap (λ p. c.vram (p + i)) here';
      }

-- What `swap_terminals` and the new number of the shown terminal do to the console.
pub swap_terminals-Switches :
    (c : Console) (b : ℕ)
    → IsReady c
    → b < length c.terminal_list
    → c.curr_terminal_num ≢ b
    → (old : Terminal) × (new : Terminal) × (d : Console) × (get_elem? c.terminal_list
          c.curr_terminal_num
        ≡ some old)
      × (get_elem? c.terminal_list b ≡ some new)
      × (swap_terminals c old new ≡ some d)
      × IsReady (record d { curr_terminal_num = b })
      × Switches c b (record d { curr_terminal_num = b })
swap_terminals-Switches c b ready small differ =
    let good = IsTerminal (length c.terminal_list) in
    let (old, e, ok) =
      All-get_elem? good c.terminal_list c.curr_terminal_num ready.all_terminals ready.shown in
    let (new, f, ok') = All-get_elem? good c.terminal_list b ready.all_terminals small in
    let (kept, g, same, len) =
      copy_first-line c.keyb_index old.keyb_buffer c.key_buffer
        (omega (arith, ok.own_buffer, ready.line_index))
        (omega (arith, ready.line_buffer, ready.line_index)) in
    let (line, h, same', len') =
      update_keyb_buf-line (swapped c old new kept) new.keyb_buffer new.keyb_buffer_index
        ready.line_buffer ok'.own_buffer ok'.own_index in
    (
      old,
      new,
      record (swapped c old new kept) { key_buffer = line; keyb_index = new.keyb_buffer_index },
      e,
      f,
      swap_terminals-step c old new kept ready.line_index g ∙ h,
      switched-IsReady c b old new kept line ready small e f (len ∙ ok.own_buffer) len',
      switched-Switches c b old new kept line ready small e f differ same same',
    )
