-- ===== src/Terminal/Pages.antt =====
-- What a switch between two terminals has to keep and to bring in, and its steps.
use osgods.Common.{
  ℕ, zero, suc, ◌+◌, ◌-◌, ◌*◌, ◌^◌, ◌≤◌, ◌<◌, ◌≡◌, refl, ap, ◌∙◌, ◌≢◌, ◌⊎◌, inl, inr, true, Option,
  none, some, List, [], ◌∷◌, arith, ltb, leb, ◌==◌, if◌then◌else◌, ==_iff, Bool-cases, Option-cases,
  length, get_elem?, take, All, All-get_elem?,
}
use osgods.Console.{
  Console, Terminal, move, video_memory_addr, get_display_tid, update_screen_x_y, update_video_mem,
}
use osgods.Paging.{set_vid_map}
use osgods.Kernel.{Kernel, memory_switch}
use osgods.KeyBuffer.{copy_first, rounds, update_keyb_buf, zero_first, keyb_buff_len}
use osgods.Terminal.{keyb_buffer_size}

-- A terminal of a list of `n` as `terminal_init` makes it.
pub record IsTerminal (n : ℕ) (t : Terminal) : Type 0 where
  pub own_tid : t.tid < n
  pub own_page : t.video_page ≡ video_memory_addr + (t.tid + 1) * 4096
  pub own_buffer : length t.keyb_buffer ≡ keyb_buffer_size
  pub own_index : t.keyb_buffer_index ≤ keyb_buffer_size
  pub own_next : (j : ℕ) → t.next_terminal ≡ some j → j < n

-- A console whose terminals and line are in order.
pub record IsReady (c : Console) : Type 0 where
  pub all_terminals : All (IsTerminal (length c.terminal_list)) c.terminal_list
  pub in_order : (i : ℕ) (t : Terminal) → get_elem? c.terminal_list i ≡ some t → t.tid ≡ i
  pub shown : c.curr_terminal_num < length c.terminal_list
  pub scheduled : c.scheduled_terminal < length c.terminal_list
  pub few : length c.terminal_list < 2 ^ 8
  pub line_buffer : length c.key_buffer ≡ keyb_buff_len
  pub line_index : c.keyb_index ≤ keyb_buff_len

-- From `c` to `d` the shown terminal changes to `b`: its line and its page are brought in, and those
-- of the terminal shown before are kept.
pub record Switches (c : Console) (b : ℕ) (d : Console) : Type 0 where
  pub kept : Terminal
  pub kept_there : get_elem? d.terminal_list c.curr_terminal_num ≡ some kept
  pub kept_index : kept.keyb_buffer_index ≡ c.keyb_index
  pub kept_line : take c.keyb_index kept.keyb_buffer ≡ take c.keyb_index c.key_buffer
  pub others :
      (i : ℕ) → c.curr_terminal_num ≢ i → get_elem? d.terminal_list i ≡ get_elem? c.terminal_list i
  pub brought : Terminal
  pub brought_there : get_elem? c.terminal_list b ≡ some brought
  pub new_index : d.keyb_index ≡ brought.keyb_buffer_index
  pub new_line : take d.keyb_index d.key_buffer ≡ take d.keyb_index brought.keyb_buffer
  pub now_shown : d.curr_terminal_num ≡ b
  pub kept_page :
      (i : ℕ)
      → i < 4096
      → d.vram (video_memory_addr + (c.curr_terminal_num + 1) * 4096 + i)
        ≡ c.vram (video_memory_addr + i)
  pub new_page :
      (i : ℕ)
      → i < 4096
      → d.vram (video_memory_addr + i) ≡ c.vram (video_memory_addr + (b + 1) * 4096 + i)

pub copy_first-line :
    (n : ℕ) (dest src : List ℕ)
    → n ≤ length dest
    → n ≤ length src
    → (r : List ℕ) × (copy_first n dest src ≡ some r)
      × (take n r ≡ take n src)
      × (length r ≡ length dest)
unfolding copy_first
copy_first-line zero dest src p q = (dest, refl, refl, refl)
copy_first-line (suc n) [] src p q = absurd (omega arith)
copy_first-line (suc n) (d ∷ dest) [] p q = absurd (omega arith)
copy_first-line (suc n) (d ∷ dest) (s ∷ src) p q =
    let (r, e, same, len) = copy_first-line n dest src (omega arith) (omega arith) in
    (s ∷ r, rw e refl, ap (λ t. s ∷ t) same, ap suc len)

pub rounds-small : (n : ℕ) → n ≤ 128 → rounds n ≡ n
rounds-small n h = ground arith

pub update_keyb_buf-line :
    (c : Console) (line : List ℕ) (n : ℕ)
    → length c.key_buffer ≡ 128
    → length line ≡ 128
    → n ≤ 128
    → (b : List ℕ) × (update_keyb_buf c line n ≡ some (record c { key_buffer = b; keyb_index = n }))
      × (take n b ≡ take n line)
      × (length b ≡ 128)
unfolding update_keyb_buf zero_first
update_keyb_buf-line c line n p q small = elim (Bool-cases (n == 0)) [
  | inl nothing ↦
      let none_left : n ≡ 0 = (==_iff n 0).0 nothing in
      (c.key_buffer, rw (nothing, none_left) refl, rw none_left refl, p)
  | inr more ↦
      let (r, e, same, len) = copy_first-line n c.key_buffer line (omega arith) (omega arith) in
      (r, rw (more, rounds-small n small, e) refl, same, len ∙ p)
]

pub move-inside :
    (mem : ℕ → ℕ) (dest src n i : ℕ) → i < n → move mem dest src n (dest + i) ≡ mem (src + i)
unfolding move
move-inside mem dest src n i h =
    let e : src + (dest + i - dest) ≡ src + i = omega arith in
    let a : leb dest (dest + i) ≡ true = ground arith in
    let b : ltb (dest + i) (dest + n) ≡ true = ground arith in rw (a, b, e) refl

pub move-outside :
    (mem : ℕ → ℕ) (dest src n a : ℕ) → (a < dest) ⊎ (dest + n ≤ a) → move mem dest src n a ≡ mem a
unfolding move
move-outside mem dest src n a h = ground arith

-- Up to the cursor and the page that is drawn on, the console is the same.
abbrev pub Keeps : Kernel → Option Kernel → Type 0
Keeps k out =
    (m : Kernel) × (x : ℕ) × (y : ℕ) × (v : ℕ) × (out ≡ some m)
    × (m.console ≡ record k.console { screen_x = x; screen_y = y; video_mem = v })

memory_switch-alone :
    (k : Kernel) (t : Terminal)
    → get_elem? k.console.terminal_list k.console.scheduled_terminal ≡ some t
    → t.next_terminal ≡ none
    → Keeps k (memory_switch k)
unfolding memory_switch
memory_switch-alone k t e nothing =
    (k, k.console.screen_x, k.console.screen_y, k.console.video_mem, rw (e, nothing) refl, refl)

memory_switch-next :
    (k : Kernel) (t n own : Terminal) (j : ℕ)
    → get_elem? k.console.terminal_list k.console.scheduled_terminal ≡ some t
    → t.next_terminal ≡ some j
    → get_elem? k.console.terminal_list j ≡ some n
    → get_elem? k.console.terminal_list n.tid ≡ some own
    → Keeps k (memory_switch k)
unfolding memory_switch update_screen_x_y update_video_mem
memory_switch-next k t n own j e next f g =
    let page = if n.tid == get_display_tid k.console then video_memory_addr else n.video_page in
    let m = record k {
      console = update_video_mem (update_screen_x_y k.console own.x_cursor own.y_cursor) page;
      paging = set_vid_map k.paging page n.vidmap;
    } in
    (m, own.x_cursor, own.y_cursor, page, rw (e, next, f, g) refl, refl)

pub memory_switch-Keeps :
    (k : Kernel)
    → k.console.scheduled_terminal < length k.console.terminal_list
    → All (IsTerminal (length k.console.terminal_list)) k.console.terminal_list
    → Keeps k (memory_switch k)
memory_switch-Keeps k p q =
    let c = k.console in
    let good = IsTerminal (length c.terminal_list) in
    let (t, e, ok) = All-get_elem? good c.terminal_list c.scheduled_terminal q p in
    elim (Option-cases t.next_terminal) [
      | inl nothing ↦ memory_switch-alone k t e nothing
      | inr (j, next) ↦
          let (n, f, ok') = All-get_elem? good c.terminal_list j q (ok.own_next j next) in
          let (own, g, _) = All-get_elem? good c.terminal_list n.tid q ok'.own_tid in
          memory_switch-next k t n own j e next f g
    ]
