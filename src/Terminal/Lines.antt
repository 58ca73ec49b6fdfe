-- ===== src/Terminal/Lines.antt =====
-- What a program reads of the line that was typed.
use osgods.Common.{
  ◌>>=◌, All, ◌^◌, ◌+◌, ◌≢◌, ap, Ensures, Ensures-bind, >>=-eq-some, ℕ, zero, suc, ◌≤◌, ◌<◌, ◌≡◌,
  refl, inl, inr, true, false, ◌&&◌, some, List, [], ◌∷◌, ◌++◌, arith, ◌==◌, if◌then◌else◌,
  Bool-cases, length, take, drop, replicate, slt,
}
use osgods.Console.{Console, get_display_tid}
use osgods.Console.Putc.{putc}
use osgods.Console.Putc.Safe.{Safe}
use osgods.Console.Putc.Undo.{putc-Safe}
use osgods.KeyBuffer.{keyb_buff_len, zero_first, rounds, clean_keyb_buffer}
use osgods.Rtc.{waiting, returned}
use osgods.Terminal.{terminal_read, terminal_write, put_chars, keyb_buffer_size, read_first}

read_first-take : (n : ℕ) (xs : List ℕ) → n ≤ length xs → read_first n xs ≡ some (take n xs)
unfolding read_first
read_first-take zero xs h = refl
read_first-take (suc n) [] h = absurd (omega arith)
read_first-take (suc n) (x ∷ xs) h = rw (read_first-take n xs (omega arith)) refl

zero_first-drop :
    (n : ℕ) (xs : List ℕ) → n ≤ length xs → zero_first n xs ≡ some (replicate n 0 ++ drop n xs)
unfolding zero_first
zero_first-drop zero xs h = refl
zero_first-drop (suc n) [] h = absurd (omega arith)
zero_first-drop (suc n) (x ∷ xs) h = rw (zero_first-drop n xs (omega arith)) refl

-- Once a newline was typed and the reader's terminal is the one shown, `terminal_read` returns the
-- line of the buffer, whatever number of bytes was asked for: its length as the result, its
-- characters and a 0 in `buf`, the buffer zeroed where the line was, its index at 0 and the
-- signal down. Until then it waits. The line must be shorter than the buffer.
pub terminal_read-line :
    (c : Console) (nbytes : ℕ)
    → length c.key_buffer ≡ keyb_buff_len
    → c.keyb_index < keyb_buff_len
    → terminal_read c nbytes
      ≡ some (
          if c.terminal_read_enable_signal && c.scheduled_terminal_num == get_display_tid c
          then returned (
            c.keyb_index,
            take c.keyb_index c.key_buffer ++ (0 ∷ []),
            record c {
              terminal_read_enable_signal = false;
              key_buffer = replicate c.keyb_index 0 ++ drop c.keyb_index c.key_buffer;
              keyb_index = 0;
            },
          )
          else waiting)
unfolding terminal_read clean_keyb_buffer
terminal_read-line c nbytes size small =
    let r : rounds c.keyb_index ≡ c.keyb_index = ground arith in
    let lt : slt c.keyb_index keyb_buffer_size ≡ true = ground arith in
    rw
      (
        lt,
        r,
        read_first-take c.keyb_index c.key_buffer (omega arith),
        zero_first-drop c.keyb_index c.key_buffer (omega arith),
      )
      (elim (Bool-cases c.terminal_read_enable_signal) [
        | inr down ↦ rw down refl
        | inl up ↦ elim (Bool-cases (c.scheduled_terminal_num == get_display_tid c)) [
          | inl same ↦ rw (up, same) refl
          | inr differ ↦ rw (up, differ) refl
        ]
      ])

read_first-append : (xs ys : List ℕ) → read_first (length xs) (xs ++ ys) ≡ some xs
unfolding read_first
read_first-append [] ys = refl
read_first-append (x ∷ xs) ys = rw (read_first-append xs ys) refl

-- `terminal_write` of the first bytes of a buffer puts them out one by one.
pub terminal_write-put_chars :
    (c : Console) (bs rest : List ℕ)
    → length bs < 2 ^ 31
    → terminal_write c (bs ++ rest) (length bs) ≡ (do c' ← put_chars c bs; some (length bs, c'))
unfolding terminal_write
terminal_write-put_chars c bs rest small =
    let r : rounds (length bs) ≡ length bs = ground arith in rw (r, read_first-append bs rest) refl

pub put_chars-append :
    (c d : Console) (xs ys : List ℕ)
    → put_chars c xs ≡ some d
    → put_chars c (xs ++ ys) ≡ put_chars d ys
unfolding put_chars
put_chars-append c d [] ys h = let same : c ≡ d = cc in ap (λ (e : Console). put_chars e ys) same
put_chars-append c d (x ∷ xs) ys h =
    let (e, first, rest) = >>=-eq-some (putc c x) (λ e. put_chars e xs) h in
    rw first (put_chars-append e d xs ys rest)

module _ (base : ℕ) (fits : base + 4000 ≤ 2 ^ 32) (mem : ℕ → ℕ) where
  -- Characters that are no backspaces are put out without a fault and leave the screen in order.
  pub put_chars-Safe :
      (c : Console) (s : List ℕ)
      → All (λ ch. ch ≢ 8) s
      → Safe base mem c
      → Ensures (Safe base mem) (put_chars c s)
  unfolding put_chars
  put_chars-Safe c [] plain ok = ok
  put_chars-Safe c (ch ∷ s) plain ok =
      Ensures-bind (Safe base mem) (Safe base mem) (putc c ch) _
        (putc-Safe base fits mem c ch (λ e. absurd (plain.0 e)) ok)
        λ d ok'. put_chars-Safe d s plain.1 ok'
