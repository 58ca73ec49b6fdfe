-- ===== src/Memory.antt =====
-- The block operations of lib.c: their assembly loops, byte by byte up to a 4-byte boundary, then
-- words, then the bytes left.
pub mod Blocks
use osgods.Common.{
  ℕ, zero, suc, ◌+◌, ◌-◌, ◌/◌, ◌%◌, ◌&&◌, Option, ltb, leb, ◌==◌, if◌then◌else◌, u8,
}

-- The byte at `a` is stored.
unfoldable pub movb : (ℕ → ℕ) → ℕ → ℕ → ℕ → ℕ
movb mem a v b = if b == a then v else mem b

-- A word is stored whose four bytes are `c`, and one that is copied from `s`.
unfoldable pub stosl : (ℕ → ℕ) → ℕ → ℕ → ℕ → ℕ
stosl mem a c b = if leb a b && ltb b (a + 4) then c else mem b

unfoldable pub movsl : (ℕ → ℕ) → ℕ → ℕ → ℕ → ℕ
movsl mem d s b = if leb d b && ltb b (d + 4) then mem (s + (b - d)) else mem b

-- `.memset_bottom`, and the words before it
set_bytes : (ℕ → ℕ) → ℕ → ℕ → ℕ → ℕ → ℕ
set_bytes mem s c zero = mem
set_bytes mem s c (suc n) = set_bytes (movb mem s c) (s + 1) c n

set_words : (ℕ → ℕ) → ℕ → ℕ → ℕ → ℕ → ℕ → ℕ
set_words mem s c zero rest = set_bytes mem s c rest
set_words mem s c (suc n) rest = set_words (stosl mem s c) (s + 4) c n rest

-- `.memset_top`
set_top : (ℕ → ℕ) → ℕ → ℕ → ℕ → ℕ → ℕ
set_top mem s c zero = mem
set_top mem s c (suc n) =
    let byte = set_top (movb mem s c) (s + 1) c n in
    if s % 4 == 0 then set_words mem s c (suc n / 4) (suc n % 4) else byte

unfoldable pub memset : (ℕ → ℕ) → ℕ → ℕ → ℕ → ℕ → ℕ
unfolding set_top set_words set_bytes
memset mem s c n = set_top mem s (u8 c) n

copy_bytes : (ℕ → ℕ) → ℕ → ℕ → ℕ → ℕ → ℕ
copy_bytes mem d s zero = mem
copy_bytes mem d s (suc n) = copy_bytes (movb mem d (mem s)) (d + 1) (s + 1) n

copy_words : (ℕ → ℕ) → ℕ → ℕ → ℕ → ℕ → ℕ → ℕ
copy_words mem d s zero rest = copy_bytes mem d s rest
copy_words mem d s (suc n) rest = copy_words (movsl mem d s) (d + 4) (s + 4) n rest

-- `.memcpy_top`
copy_top : (ℕ → ℕ) → ℕ → ℕ → ℕ → ℕ → ℕ
copy_top mem d s zero = mem
copy_top mem d s (suc n) =
    let byte = copy_top (movb mem d (mem s)) (d + 1) (s + 1) n in
    if d % 4 == 0 then copy_words mem d s (suc n / 4) (suc n % 4) else byte

unfoldable pub memcpy : (ℕ → ℕ) → ℕ → ℕ → ℕ → ℕ → ℕ
unfolding copy_top copy_words copy_bytes
memcpy mem dest src n = copy_top mem dest src n

-- `rep movsb` with the direction flag set, from the last byte down.
copy_down : (ℕ → ℕ) → ℕ → ℕ → ℕ → ℕ → ℕ
copy_down mem d s zero = mem
copy_down mem d s (suc n) = copy_down (movb mem (d + n) (mem (s + n))) d s n

unfoldable pub memmove : (ℕ → ℕ) → ℕ → ℕ → ℕ → ℕ → ℕ
unfolding copy_bytes copy_down
memmove mem dest src n =
    if leb dest src then copy_bytes mem dest src n else copy_down mem dest src n

-- `stosw` and `stosl` of a value, its lowest byte first.
store_word : (ℕ → ℕ) → ℕ → ℕ → ℕ → ℕ
store_word mem a c b = if b == a then u8 c else if b == a + 1 then u8 (c / 256) else mem b

store_dword : (ℕ → ℕ) → ℕ → ℕ → ℕ → ℕ
unfolding store_word
store_dword mem a c = store_word (store_word mem a c) (a + 2) (c / 65536)

-- `rep stosw` and `rep stosl`, `n` times.
memset_word : (ℕ → ℕ) → ℕ → ℕ → ℕ → ℕ → ℕ
unfolding store_word
memset_word mem s c zero = mem
memset_word mem s c (suc n) = memset_word (store_word mem s c) (s + 2) c n

memset_dword : (ℕ → ℕ) → ℕ → ℕ → ℕ → ℕ → ℕ
unfolding store_dword
memset_dword mem s c zero = mem
memset_dword mem s c (suc n) = memset_dword (store_dword mem s c) (s + 4) c n
