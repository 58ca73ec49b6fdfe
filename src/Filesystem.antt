-- ===== src/Filesystem.antt =====
-- filesystem.c: directory entries and file data.
pub mod Data
pub mod Bytes
pub mod Names
pub mod Layout
use osgods.Common.{
  ℕ, zero, suc, ◌+◌, ◌-◌, ◌*◌, ◌/◌, ◌%◌, ◌^◌, Bool, ◌||◌, Option, none, some, List, [], ◌∷◌, ◌++◌,
  map, ltb, leb, ◌==◌, if◌then◌else◌, length, get_elem?, add32, sub32, minus_one, slt, ◌>>=◌,
}
use mathlib.Core.Option
use osgods.Strings.{strncmp}

-- The read-only file system image of filesystem.c: a boot block, inodes and data blocks.
-- `dentry_t`
pub record Dentry : Type 0 where
  pub file_name : List ℕ
  pub file_type : ℕ
  pub inode_id : ℕ
  pub reserved : List ℕ

-- `inode_t`: `data_blocks` as the memory behind its address.
pub record Inode : Type 0 where
  pub length : ℕ
  pub data_blocks : ℕ → ℕ

-- `boot_block_t` with the two areas that `file_system_init` finds behind it. `data_block` is the
-- memory from that address on, byte by byte; all `int`s are patterns of 32 bits.
pub record Image : Type 0 where
  pub num_dir_entries : ℕ
  pub num_inodes : ℕ
  pub num_data_blocks : ℕ
  pub dir_entries : List Dentry
  pub inodes : ℕ → Inode
  pub data_block : ℕ → ℕ

abbrev pub block_size : ℕ
block_size = 4096

abbrev pub file_name_size : ℕ
file_name_size = 32

-- The addresses that `file_system_init` stores: boot block, inodes and data blocks.
pub file_system_init : ℕ → ℕ → ℕ × ℕ × ℕ
file_system_init fs_start num_inodes =
    (fs_start, add32 fs_start block_size, add32 fs_start (block_size * add32 num_inodes 1 % 2 ^ 32))

-- The loop of `read_dentry_by_name` from index `i` on. The out parameter keeps its value on
-- failure; `none` is a read outside an object.
find_dentry : List ℕ → Dentry → ℕ → ℕ → List Dentry → Option (ℕ × Dentry)
find_dentry fname dentry num i [] = if slt i num then none else some (minus_one, dentry)
find_dentry fname dentry num i (e ∷ es) =
    let next = find_dentry fname dentry num (i + 1) es in
    if slt i num
    then (do r ← strncmp e.file_name fname file_name_size; if r == 0 then some (0, e) else next)
    else some (minus_one, dentry)

unfoldable pub read_dentry_by_name : Image → List ℕ → Dentry → Option (ℕ × Dentry)
unfolding find_dentry
read_dentry_by_name fs fname dentry = find_dentry fname dentry fs.num_dir_entries 0 fs.dir_entries

-- `index` is compared as `unsigned`.
unfoldable pub read_dentry_by_index : Image → ℕ → Dentry → Option (ℕ × Dentry)
read_dentry_by_index fs index dentry =
    if ltb (sub32 fs.num_dir_entries 1) index
    then some (minus_one, dentry)
    else Option.map (λ e. (0, e)) (get_elem? fs.dir_entries index)

-- What `memcpy` reads: `n` bytes from address `a` on.
unfoldable pub bytes : (ℕ → ℕ) → ℕ → ℕ → List ℕ
bytes mem a zero = []
bytes mem a (suc n) = mem a ∷ bytes mem (a + 1) n

-- The `while` loop of `read_data`, with the copy behind it. The list is what is stored from `buf`
-- on; each round takes a block off `read_length`.
read_blocks : ℕ → Image → ℕ → ℕ → ℕ → List ℕ
read_blocks zero fs inode block_offset read_length = []
read_blocks (suc fuel) fs inode block_offset read_length =
    let current_block = (fs.inodes inode).data_blocks block_offset in
    let whole =
      bytes fs.data_block (current_block * block_size) block_size
      ++ read_blocks fuel fs inode (block_offset + 1) (read_length - block_size) in
    if slt block_size read_length
    then whole
    else bytes fs.data_block (current_block * block_size) read_length

-- `read_data` past its guards, with the clamped length.
copy_data : Image → ℕ → ℕ → ℕ → List ℕ
unfolding read_blocks
copy_data fs inode offset length =
    let block_offset = offset / block_size in
    let byte_offset = offset % block_size in
    let current_block = (fs.inodes inode).data_blocks block_offset in
    let first = current_block * block_size + byte_offset in
    let more =
      bytes fs.data_block first (block_size - byte_offset)
      ++ read_blocks (length / block_size + 1) fs inode (block_offset + 1)
          (length - (block_size - byte_offset)) in
    if slt (block_size - byte_offset) length then more else bytes fs.data_block first length

-- The returned number and the bytes stored from `buf` on. All tests are `unsigned`.
unfoldable pub read_data : Image → ℕ → ℕ → Bool → ℕ → ℕ × List ℕ
unfolding copy_data
read_data fs inode offset buf_is_null length =
    let file_length = (fs.inodes inode).length in
    let clamped =
      if ltb file_length (add32 offset length) then sub32 file_length offset else length in
    if ltb (sub32 fs.num_inodes 1) inode || buf_is_null
    then (minus_one, [])
    else if leb file_length offset
    then (0, [])
    else (clamped, copy_data fs inode offset clamped)
