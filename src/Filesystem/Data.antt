-- ===== src/Filesystem/Data.antt =====
-- What `read_data` copies: the bytes of the file, block boundaries or not.
use osgods.Common.{
  ℕ, zero, suc, ◌+◌, ◌-◌, ◌*◌, ◌/◌, ◌%◌, ◌^◌, ◌≤◌, ◌<◌, min, ◌≡◌, refl, sym, ap, ap₂, ◌∙◌, inl, inr,
  false, ◌∷◌, ◌++◌, arith, Bool-cases, length, sub32, slt,
}
use osgods.Filesystem.{Image, block_size, bytes, read_blocks, copy_data, read_data}

bytes-append :
    (mem : ℕ → ℕ) (a c n k : ℕ) → c ≡ a + n → bytes mem a (n + k) ≡ bytes mem a n ++ bytes mem c k
unfolding bytes
bytes-append mem a c zero k e = ap₂ (bytes mem) (omega arith) (omega arith)
bytes-append mem a c (suc n) k e =
    ap (bytes mem a) step ∙ ap (λ r. mem a ∷ r) (bytes-append mem (a + 1) c n k (omega arith))
  where
    step : suc n + k ≡ suc (n + k)
    step = omega arith

-- Equal memories give equal bytes.
bytes-shift :
    (mem mem' : ℕ → ℕ) (a c n : ℕ)
    → ((i : ℕ) → i < n → mem (a + i) ≡ mem' (c + i))
    → bytes mem a n ≡ bytes mem' c n
unfolding bytes
bytes-shift mem mem' a c zero h = refl
bytes-shift mem mem' a c (suc n) h = ap₂ ◌∷◌ head (
    bytes-shift mem mem' (a + 1) (c + 1) n
      (λ i p. ap mem (omega arith) ∙ h (i + 1) (omega arith) ∙ ap mem' (omega arith)))
  where
    head : mem a ≡ mem' c
    head = ap mem (omega arith) ∙ h 0 (omega arith) ∙ ap mem' (omega arith)

-- Byte `i` of a file: its block is the inode's entry `i / 4096`.
unfoldable pub file_byte : Image → ℕ → ℕ → ℕ
file_byte fs inode i =
    fs.data_block ((fs.inodes inode).data_blocks (i / block_size) * block_size + i % block_size)

module _ (fs : Image) (inode : ℕ) where
  -- Bytes of one block are contiguous.
  bytes-block :
      (b r n a : ℕ)
      → r + n ≤ block_size
      → a ≡ b * block_size + r
      → bytes fs.data_block ((fs.inodes inode).data_blocks b * block_size + r) n
        ≡ bytes (file_byte fs inode) a n
  unfolding file_byte
  bytes-block b r n a fits e =
      bytes-shift fs.data_block (file_byte fs inode)
        ((fs.inodes inode).data_blocks b * block_size + r) a n
        (λ i p.
          let q : b ≡ (a + i) / block_size = omega arith in
          let m : r + i ≡ (a + i) % block_size = omega arith in
          ap fs.data_block (omega arith)
          ∙ ap₂ (λ q m. fs.data_block ((fs.inodes inode).data_blocks q * block_size + m)) q m)

  -- A block boundary splits the bytes.
  bytes-split :
      (b r n a : ℕ)
      → r < block_size
      → block_size - r ≤ n
      → a ≡ b * block_size + r
      → bytes fs.data_block ((fs.inodes inode).data_blocks b * block_size + r) (block_size - r)
          ++ bytes (file_byte fs inode) ((b + 1) * block_size) (n - (block_size - r))
        ≡ bytes (file_byte fs inode) a n
  bytes-split b r n a fits long e =
      ap (λ l. l ++ bytes (file_byte fs inode) ((b + 1) * block_size) (n - (block_size - r)))
        (bytes-block b r (block_size - r) a (omega arith) e)
      ∙ sym (
          bytes-append (file_byte fs inode) a ((b + 1) * block_size) (block_size - r)
            (n - (block_size - r)) (omega arith))
      ∙ ap (bytes (file_byte fs inode) a) (omega arith)

  read_blocks-bytes :
      (fuel b n a : ℕ)
      → n < fuel * block_size
      → n < 2 ^ 31
      → a ≡ b * block_size
      → read_blocks fuel fs inode b n ≡ bytes (file_byte fs inode) a n
  unfolding read_blocks
  read_blocks-bytes zero b n a f small e = absurd (omega arith)
  read_blocks-bytes (suc fuel) b n a f small e = elim (Bool-cases (slt block_size n)) [
    | inl more ↦
        let long : block_size < n = ground arith in
        rw more (
          rw
            (read_blocks-bytes fuel (b + 1) (n - block_size) ((b + 1) * block_size) (omega arith)
              (omega arith) refl)
            (ap
                (λ k.
                  bytes fs.data_block k block_size
                  ++ bytes (file_byte fs inode) ((b + 1) * block_size) (n - block_size))
                (omega arith)
              ∙ bytes-split b 0 n a (omega arith) (omega arith) (omega arith)))
    | inr last ↦
        let short : n ≤ block_size = ground arith in
        rw last (
          ap (λ k. bytes fs.data_block k n) (omega arith)
          ∙ bytes-block b 0 n a (omega arith) (omega arith))
  ]

  copy_data-bytes :
      (offset n : ℕ)
      → n < 2 ^ 31
      → copy_data fs inode offset n ≡ bytes (file_byte fs inode) offset n
  unfolding copy_data
  copy_data-bytes offset n small = elim (Bool-cases (slt (block_size - offset % block_size) n)) [
    | inl more ↦
        let long : block_size - offset % block_size < n = ground arith in
        rw more (
          rw
            (read_blocks-bytes (n / block_size + 1) (offset / block_size + 1)
              (n - (block_size - offset % block_size)) ((offset / block_size + 1) * block_size)
              (omega arith) (omega arith) refl)
            (bytes-split (offset / block_size) (offset % block_size) n offset (omega arith)
              (omega arith) (omega arith)))
    | inr last ↦
        let short : n ≤ block_size - offset % block_size = ground arith in
        rw last (
          bytes-block (offset / block_size) (offset % block_size) n offset (omega arith)
            (omega arith))
  ]

sub32-le : (a b : ℕ) → a < 2 ^ 32 → b ≤ a → sub32 a b ≡ a - b
sub32-le a b h k = omega arith

-- On an inode of the image and a buffer, `read_data` returns how many of the `length` bytes from
-- `offset` lie in the file and stores exactly those bytes of the file, in order, provided that
-- the file's length fits an `int` and `offset + length` does not wrap.
pub read_data-file_bytes :
    (fs : Image) (inode offset length : ℕ)
    → inode < fs.num_inodes
    → fs.num_inodes < 2 ^ 31
    → (fs.inodes inode).length < 2 ^ 31
    → offset + length < 2 ^ 32
    → let n = min length ((fs.inodes inode).length - offset) in
      read_data fs inode offset false length ≡ (n, bytes (file_byte fs inode) offset n)
unfolding read_data bytes
read_data-file_bytes fs inode offset length valid count small fits =
    let n = min length ((fs.inodes inode).length - offset) in
    let l = (fs.inodes inode).length in
    ground (
      arith,
      copy_data-bytes fs inode offset length,
      copy_data-bytes fs inode offset (l - offset),
      sub32-le l offset,
    )
