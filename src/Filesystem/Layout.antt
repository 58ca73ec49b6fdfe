-- ===== src/Filesystem/Layout.antt =====
-- The structures of filesystem.h as they lie in memory.
use osgods.Common.{ℕ, zero, suc, ◌+◌, ◌*◌, List, [], ◌∷◌}
use osgods.Filesystem.{Dentry, Inode, Image, block_size, file_name_size, file_system_init, bytes}

-- A word of memory, the lowest byte first.
abbrev pub word_in : (ℕ → ℕ) → ℕ → ℕ
word_in mem a = mem a + 256 * (mem (a + 1) + 256 * (mem (a + 2) + 256 * mem (a + 3)))

abbrev pub num_dentries : ℕ
num_dentries = 63

-- `dentry_t` at an address
unfoldable pub dentry_in : (ℕ → ℕ) → ℕ → Dentry
dentry_in mem a = record {
  file_name = bytes mem a file_name_size;
  file_type = word_in mem (a + 32);
  inode_id = word_in mem (a + 36);
  reserved = bytes mem (a + 40) 24;
}

-- `n` directory entries from an address on.
unfoldable pub dentries_in : (ℕ → ℕ) → ℕ → ℕ → List Dentry
unfolding dentry_in
dentries_in mem a zero = []
dentries_in mem a (suc n) = dentry_in mem a ∷ dentries_in mem (a + 64) n

-- `inode_t` at an address
unfoldable pub inode_in : (ℕ → ℕ) → ℕ → Inode
inode_in mem a = record { length = word_in mem a; data_blocks = λ i. word_in mem (a + 4 + 4 * i) }

-- The file system whose areas `file_system_init` finds from an address on.
unfoldable pub image_in : (ℕ → ℕ) → ℕ → Image
unfolding dentries_in inode_in file_system_init
image_in mem start =
    let (boot_block, inodes, data_block) = file_system_init start (word_in mem (start + 4)) in
    record {
      num_dir_entries = word_in mem boot_block;
      num_inodes = word_in mem (boot_block + 4);
      num_data_blocks = word_in mem (boot_block + 8);
      dir_entries = dentries_in mem (boot_block + 64) num_dentries;
      inodes = λ i. inode_in mem (inodes + block_size * i);
      data_block = λ i. mem (data_block + i);
    }
