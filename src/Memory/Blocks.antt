-- ===== src/Memory/Blocks.antt =====
-- What the block operations leave at each address.
use osgods.Common.{
  ℕ, zero, suc, ◌+◌, ◌-◌, ◌*◌, ◌/◌, ◌%◌, ◌≤◌, ◌≡◌, ap, ◌∙◌, ◌⊎◌, inl, inr, ◌&&◌, arith, ltb, leb,
  ◌==◌, if◌then◌else◌, Bool-cases, u8,
}
use osgods.Memory.{
  movb, stosl, movsl, set_bytes, set_words, set_top, memset, copy_bytes, copy_words, copy_top,
  memcpy, copy_down, memmove, store_word, memset_word,
}

-- `n` bytes `c` from `s` on, and `n` bytes copied from `s` to `d`, at address `a`.
abbrev pub filled : (ℕ → ℕ) → ℕ → ℕ → ℕ → ℕ → ℕ
filled mem s c n a = if leb s a && ltb a (s + n) then c else mem a

abbrev pub moved : (ℕ → ℕ) → ℕ → ℕ → ℕ → ℕ → ℕ
moved mem d s n a = if leb d a && ltb a (d + n) then mem (s + (a - d)) else mem a

set_bytes-filled : (n : ℕ) (mem : ℕ → ℕ) (s c a : ℕ) → set_bytes mem s c n a ≡ filled mem s c n a
unfolding set_bytes
set_bytes-filled zero mem s c a = ground arith
set_bytes-filled (suc n) mem s c a =
    set_bytes-filled n (movb mem s c) (s + 1) c a ∙ (unfold movb in ground arith)

set_words-filled :
    (n : ℕ) (mem : ℕ → ℕ) (s c rest a : ℕ)
    → set_words mem s c n rest a ≡ filled mem s c (n * 4 + rest) a
unfolding set_words
set_words-filled zero mem s c rest a = set_bytes-filled rest mem s c a ∙ ground arith
set_words-filled (suc n) mem s c rest a =
    set_words-filled n (stosl mem s c) (s + 4) c rest a ∙ (unfold stosl in ground arith)

set_top-filled : (n : ℕ) (mem : ℕ → ℕ) (s c a : ℕ) → set_top mem s c n a ≡ filled mem s c n a
unfolding set_top
set_top-filled zero mem s c a = ground arith
set_top-filled (suc n) mem s c a = elim (Bool-cases (s % 4 == 0)) [
  | inl aligned ↦ rw aligned (
      set_words-filled (suc n / 4) mem s c (suc n % 4) a
      ∙ ap (λ k. filled mem s c k a) (omega arith))
  | inr other ↦
      rw other (set_top-filled n (movb mem s c) (s + 1) c a ∙ (unfold movb in ground arith))
]

-- `memset` stores the low byte of `c` in the `n` bytes from `s` on and nowhere else, whatever the
-- alignment.
pub memset-filled : (mem : ℕ → ℕ) (s c n a : ℕ) → memset mem s c n a ≡ filled mem s (u8 c) n a
unfolding memset
memset-filled mem s c n a = set_top-filled n mem s (u8 c) a

-- A forward copy does not overwrite what it has yet to read.
abbrev pub Forward : ℕ → ℕ → ℕ → Type 0
Forward d s n = (d ≤ s) ⊎ (s + n ≤ d)

copy_bytes-moved :
    (n : ℕ) (mem : ℕ → ℕ) (d s a : ℕ) → Forward d s n → copy_bytes mem d s n a ≡ moved mem d s n a
unfolding copy_bytes
copy_bytes-moved zero mem d s a f = ground arith
copy_bytes-moved (suc n) mem d s a f =
    copy_bytes-moved n (movb mem d (mem s)) (d + 1) (s + 1) a (ground arith)
    ∙ (unfold movb in ground arith)

copy_words-moved :
    (n : ℕ) (mem : ℕ → ℕ) (d s rest a : ℕ)
    → Forward d s (n * 4 + rest)
    → copy_words mem d s n rest a ≡ moved mem d s (n * 4 + rest) a
unfolding copy_words
copy_words-moved zero mem d s rest a f =
    copy_bytes-moved rest mem d s a (ground arith) ∙ ground arith
copy_words-moved (suc n) mem d s rest a f =
    copy_words-moved n (movsl mem d s) (d + 4) (s + 4) rest a (ground arith)
    ∙ (unfold movsl in ground arith)

copy_top-moved :
    (n : ℕ) (mem : ℕ → ℕ) (d s a : ℕ) → Forward d s n → copy_top mem d s n a ≡ moved mem d s n a
unfolding copy_top
copy_top-moved zero mem d s a f = ground arith
copy_top-moved (suc n) mem d s a f =
    let whole : suc n / 4 * 4 + suc n % 4 ≡ suc n = omega arith in
    elim (Bool-cases (d % 4 == 0)) [
      | inl aligned ↦ rw aligned (
          copy_words-moved (suc n / 4) mem d s (suc n % 4) a (ground arith)
          ∙ ap (λ k. moved mem d s k a) whole)
      | inr other ↦ rw other (
          copy_top-moved n (movb mem d (mem s)) (d + 1) (s + 1) a (ground arith)
          ∙ (unfold movb in ground arith))
    ]

-- `memcpy` copies the `n` bytes and changes nothing else, whatever the alignment, if the target
-- does not begin inside the source behind its first byte.
pub memcpy-moved :
    (mem : ℕ → ℕ) (dest src n a : ℕ)
    → Forward dest src n
    → memcpy mem dest src n a ≡ moved mem dest src n a
unfolding memcpy
memcpy-moved mem dest src n a f = copy_top-moved n mem dest src a f

copy_down-moved :
    (n : ℕ) (mem : ℕ → ℕ) (d s a : ℕ) → s ≤ d → copy_down mem d s n a ≡ moved mem d s n a
unfolding copy_down
copy_down-moved zero mem d s a le = ground arith
copy_down-moved (suc n) mem d s a le =
    copy_down-moved n (movb mem (d + n) (mem (s + n))) d s a le ∙ (unfold movb in ground arith)

-- `memmove` copies the `n` bytes and changes nothing else, however the two areas overlap.
pub memmove-moved :
    (mem : ℕ → ℕ) (dest src n a : ℕ) → memmove mem dest src n a ≡ moved mem dest src n a
unfolding memmove
memmove-moved mem dest src n a = elim (Bool-cases (leb dest src)) [
  | inl up ↦ rw up (copy_bytes-moved n mem dest src a (inl (ground arith)))
  | inr down ↦ rw down (copy_down-moved n mem dest src a (ground arith))
]

-- `memset_word` stores the two bytes of `c` in turn in the 2 * `n` bytes from `s` on, and nothing
-- elsewhere.
memset_word-at :
    (n : ℕ) (mem : ℕ → ℕ) (s c a : ℕ)
    → memset_word mem s c n a ≡ (
        if leb s a && ltb a (s + n * 2)
        then (if (a - s) % 2 == 0 then u8 c else u8 (c / 256))
        else mem a)
unfolding memset_word store_word
memset_word-at zero mem s c a = ground arith
memset_word-at (suc n) mem s c a = memset_word-at n (store_word mem s c) (s + 2) c a ∙ ground arith
