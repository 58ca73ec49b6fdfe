-- ===== src/Keyboard/Typing.antt =====
-- The line of the keyboard buffer as characters are typed into it.
use osgods.Common.{
  Allows-mono, Ensures-Allows, ℕ, zero, suc, ◌+◌, ◌^◌, ◌≤◌, ◌<◌, ◌≡◌, refl, sym, ap, ◌∙◌, inl, inr,
  Bool, true, false, ◌||◌, List, [], ◌∷◌, ◌++◌, arith, ltb, ◌==◌, if◌then◌else◌, lt→ltb, ==_iff,
  Bool-cases, length, set, length-set, take, add32, sub32, Ensures, Ensures-bind, Allows,
  Allows-bind_with,
}
use mathlib.Core.Path.{subst}
use osgods.Console.{Console, store, set_keyb_pressed}
use osgods.Console.Putc.{putc}
use osgods.Console.Putc.Safe.{Safe}
use osgods.Console.Putc.Undo.{Undoable, putc-Safe}
use osgods.Console.Putc.Frame.{Frame, putc-Frame}
use osgods.Keyboard.{type_char}
use osgods.KeyBuffer.{keyb_buff_len}
use osgods.Terminal.{set_signal_enable}

-- The last character of a line is dropped.
abbrev pub drop_last : List ℕ → List ℕ
drop_last [] = []
drop_last (a ∷ []) = []
drop_last (a ∷ b ∷ r) = a ∷ drop_last (b ∷ r)

-- The line that typing a character makes of a line: a backspace drops its last one.
abbrev pub edit : List ℕ → ℕ → List ℕ
edit s ch = if ch == 8 then drop_last s else s ++ (ch ∷ [])

-- The buffer holds the line `s`.
abbrev pub HasLine : Console → List ℕ → Type 0
HasLine c s =
    (length c.key_buffer ≡ keyb_buff_len)
    × (c.keyb_index ≤ keyb_buff_len)
    × (take c.keyb_index c.key_buffer ≡ s)

take-minus_one : (n : ℕ) (xs : List ℕ) → n < length xs → take n xs ≡ drop_last (take (suc n) xs)
take-minus_one n [] h = absurd (omega arith)
take-minus_one zero (x ∷ xs) h = refl
take-minus_one (suc n) (x ∷ []) h = absurd (omega arith)
take-minus_one (suc n) (x ∷ y ∷ xs) h = ap (λ r. x ∷ r) (take-minus_one n (y ∷ xs) (omega arith))

take-set :
    (n ch : ℕ) (xs : List ℕ) → n < length xs → take (suc n) (set xs n ch) ≡ take n xs ++ (ch ∷ [])
take-set n ch [] h = absurd (omega arith)
take-set zero ch (x ∷ xs) h = refl
take-set (suc n) ch (x ∷ xs) h = ap (λ r. x ∷ r) (take-set n ch xs (omega arith))

-- The buffer, and the signal and the terminal that a reader looks at.
abbrev pub Typed : Console → List ℕ → ℕ → Console → Type 0
Typed c s ch d =
    HasLine d (edit s ch)
    × (d.terminal_read_enable_signal ≡ (ch == b'\n' || c.terminal_read_enable_signal))
    × (d.curr_terminal_num ≡ c.curr_terminal_num)
    × (d.scheduled_terminal_num ≡ c.scheduled_terminal_num)

shorter-HasLine :
    (c : Console) (s : List ℕ)
    → HasLine c s
    → 0 < c.keyb_index
    → HasLine (record c { keyb_index = sub32 c.keyb_index 1 }) (drop_last s)
shorter-HasLine c s (size, bound, line) pos =
    let one_less : suc (sub32 c.keyb_index 1) ≡ c.keyb_index = omega arith in
    (
      size,
      omega arith,
      take-minus_one (sub32 c.keyb_index 1) c.key_buffer (omega arith)
          ∙ ap (λ n. drop_last (take n c.key_buffer)) one_less
          ∙ ap drop_last line,
    )

longer-HasLine :
    (c : Console) (s : List ℕ) (ch : ℕ)
    → HasLine c s
    → c.keyb_index < keyb_buff_len
    → HasLine
        (record c {
          key_buffer = set c.key_buffer c.keyb_index ch;
          keyb_index = add32 c.keyb_index 1;
        })
        (s ++ (ch ∷ []))
longer-HasLine c s ch (size, bound, line) small =
    let one_more : add32 c.keyb_index 1 ≡ suc c.keyb_index = omega arith in
    (
      length-set c.key_buffer c.keyb_index ch ∙ size,
      omega arith,
      ap (λ n. take n (set c.key_buffer c.keyb_index ch)) one_more
          ∙ take-set c.keyb_index ch c.key_buffer (omega arith)
          ∙ ap (λ r. r ++ (ch ∷ [])) line,
    )

-- Showing the character does not disturb the line, and neither does the signal after it.
shown-Typed :
    (c d e : Console) (s : List ℕ) (ch : ℕ)
    → HasLine d (edit s ch)
    → d.terminal_read_enable_signal ≡ c.terminal_read_enable_signal
    → d.curr_terminal_num ≡ c.curr_terminal_num
    → d.scheduled_terminal_num ≡ c.scheduled_terminal_num
    → Frame d e
    → Typed c s ch (if ch == b'\n' then set_signal_enable e else e)
unfolding set_signal_enable
shown-Typed c d e s ch h sig shown sched (buffer, index, signal, curr, scheduled, num, same) =
    let line : HasLine e (edit s ch) = rw (buffer, index) h in
    elim (Bool-cases (ch == b'\n')) [
      | inl newline ↦ rw newline (line, refl, curr ∙ shown, num ∙ sched)
      | inr other ↦ rw other (line, signal ∙ sig, curr ∙ shown, num ∙ sched)
    ]

type_char-Allows :
    (c : Console) (s : List ℕ) (ch : ℕ)
    → HasLine c s
    → c.keyb_index < keyb_buff_len
    → Allows (Typed c s ch) (type_char c ch)
unfolding type_char set_keyb_pressed store
type_char-Allows c s ch h small = elim (Bool-cases (ch == 8)) [
  | inl deletes ↦
      let edited : edit s ch ≡ drop_last s = rw deletes refl in
      let other : (ch == b'\n') ≡ false = ground arith in
      elim (Bool-cases (c.keyb_index == 0)) [
        | inl none_left ↦
            let z : c.keyb_index ≡ 0 = ground arith in
            let no_line : take c.keyb_index c.key_buffer ≡ drop_last s =
              ap (λ n. take n c.key_buffer) z
              ∙ sym (ap (λ n. drop_last (take n c.key_buffer)) z)
              ∙ ap drop_last h.2 in
            rw (deletes, none_left) ((h.0, h.1, no_line ∙ sym edited), rw other refl, refl, refl)
        | inr holds ↦
            let d = set_keyb_pressed (record c { keyb_index = sub32 c.keyb_index 1 }) in
            let line : HasLine d (edit s ch) = rw edited (shorter-HasLine c s h (ground arith)) in
            rw (deletes, holds)
              (Allows-mono (Frame d) (Typed c s ch) (putc d 8) (putc-Frame d 8) λ e f.
                subst (Typed c s ch) (ap (λ b. if b then set_signal_enable e else e) other)
                  (shown-Typed c d e s ch line refl refl refl f))
      ]
  | inr adds ↦
      let edited : edit s ch ≡ s ++ (ch ∷ []) = rw adds refl in
      let d = set_keyb_pressed (record c {
        key_buffer = set c.key_buffer c.keyb_index ch;
        keyb_index = add32 c.keyb_index 1;
      }) in
      let line : HasLine d (edit s ch) = rw edited (longer-HasLine c s ch h small) in
      let inside : ltb c.keyb_index (length c.key_buffer) ≡ true =
        lt→ltb _ _ (omega (arith, h.0)) in
      rw (adds, inside)
        (Allows-bind_with (Frame d) (Typed c s ch) (putc d ch) _ (putc-Frame d ch)
          λ e f. shown-Typed c d e s ch line refl refl refl f)
]

-- The screen is as in `c`; its line is another.
line-Safe :
    (base : ℕ) (mem : ℕ → ℕ) (c : Console) (pressed signal : Bool) (b : List ℕ) (i : ℕ)
    → Safe base mem c
    → Safe base mem (record c {
      keyb_pressed = pressed;
      terminal_read_enable_signal = signal;
      key_buffer = b;
      keyb_index = i;
    })
line-Safe base mem c pressed signal b i h = record {
  column = h.column;
  row = h.row;
  page = h.page;
  settings = h.settings;
  terminals = h.terminals;
  displayed = h.displayed;
  scheduled = h.scheduled;
  cursors = h.cursors;
  kept = h.kept;
}

module _ (base : ℕ) (fits : base + 4000 ≤ 2 ^ 32) (mem : ℕ → ℕ) where
  type_char-Safe :
      (c : Console) (s : List ℕ) (ch : ℕ)
      → Safe base mem c
      → (ch ≡ 8 → Undoable c)
      → HasLine c s
      → c.keyb_index < keyb_buff_len
      → Ensures (Safe base mem) (type_char c ch)
  unfolding type_char set_keyb_pressed store set_signal_enable
  type_char-Safe c s ch ok undo h small = elim (Bool-cases (ch == 8)) [
    | inl deletes ↦ elim (Bool-cases (c.keyb_index == 0)) [
      | inl none_left ↦ rw (deletes, none_left) ok
      | inr holds ↦
          let u = undo ((==_iff ch 8).0 deletes) in
          rw (deletes, holds)
            (putc-Safe base fits mem
              (record c { keyb_pressed = true; keyb_index = sub32 c.keyb_index 1 }) 8
              (λ e. record {
                some_typed = u.some_typed;
                not_full = u.not_full;
                tab_room = u.tab_room;
              })
              (line-Safe base mem c true c.terminal_read_enable_signal c.key_buffer
                (sub32 c.keyb_index 1) ok))
    ]
    | inr adds ↦
        let not8 : (ch ≡ 8) → ⊥ = ground arith in
        let inside : ltb c.keyb_index (length c.key_buffer) ≡ true =
          lt→ltb _ _ (omega (arith, h.0)) in
        let typed =
          line-Safe base mem c true c.terminal_read_enable_signal (set c.key_buffer c.keyb_index ch)
            (add32 c.keyb_index 1) ok in
        rw (adds, inside)
          (Ensures-bind (Safe base mem) (Safe base mem) _ _
            (putc-Safe base fits mem _ ch (λ e. absurd (not8 e)) typed)
            λ d k. elim (Bool-cases (ch == b'\n')) [
              | inl newline ↦
                  rw newline (line-Safe base mem d d.keyb_pressed true d.key_buffer d.keyb_index k)
              | inr other ↦ rw other k
            ])
  ]

  pub type_char-edit :
      (c : Console) (s : List ℕ) (ch : ℕ)
      → Safe base mem c
      → (ch ≡ 8 → Undoable c)
      → HasLine c s
      → c.keyb_index < keyb_buff_len
      → Ensures (λ d. Safe base mem d × Typed c s ch d) (type_char c ch)
  type_char-edit c s ch ok undo h small =
      Ensures-Allows (Safe base mem) (Typed c s ch) (type_char c ch)
        (type_char-Safe c s ch ok undo h small) (type_char-Allows c s ch h small)
