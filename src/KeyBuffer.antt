-- ===== src/KeyBuffer.antt =====
-- The line buffer of keyboard.c, which terminal.c reads, saves and restores.
use osgods.Common.{
  ℕ, zero, suc, Option, none, some, List, [], ◌∷◌, ◌==◌, if◌then◌else◌, is_neg, ◌>>=◌,
}
use mathlib.Core.Option
use osgods.Console.{Console}

abbrev pub keyb_buff_len : ℕ
keyb_buff_len = 128

-- The first `n` elements of an array are overwritten; `none` is a write past its end.
unfoldable pub zero_first : ℕ → List ℕ → Option (List ℕ)
zero_first zero xs = some xs
zero_first (suc n) [] = none
zero_first (suc n) (x ∷ xs) = Option.map (λ r. 0 ∷ r) (zero_first n xs)

-- `for (i = 0; i < n; i++) dest[i] = src[i]`
unfoldable pub copy_first : ℕ → List ℕ → List ℕ → Option (List ℕ)
copy_first zero dest src = some dest
copy_first (suc n) [] src = none
copy_first (suc n) (d ∷ dest) [] = none
copy_first (suc n) (d ∷ dest) (s ∷ src) = Option.map (λ r. s ∷ r) (copy_first n dest src)

-- An `int` that counts a loop from 0: a negative one allows no round.
abbrev pub rounds : ℕ → ℕ
rounds n = if is_neg n then 0 else n

unfoldable pub clean_keyb_buffer : Console → Option Console
clean_keyb_buffer c = do
  b ← zero_first (rounds c.keyb_index) c.key_buffer
  some (record c { key_buffer = b; keyb_index = 0 })

-- The index is stored first, so at 0 there is nothing left to clean.
unfoldable pub update_keyb_buf : Console → List ℕ → ℕ → Option Console
unfolding clean_keyb_buffer
update_keyb_buf c new_keyb_buf new_index =
    let c' = record c { keyb_index = new_index } in
    let copied = (do
      b ← copy_first (rounds new_index) c.key_buffer new_keyb_buf
      some (record c' { key_buffer = b })) in
    if new_index == 0 then clean_keyb_buffer c' else copied
