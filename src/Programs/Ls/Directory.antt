-- ===== src/Programs/Ls/Directory.antt =====
-- A directory that a process has open, and the reads of it.
use osgods.Common.{
  ℕ, ◌+◌, ◌≤◌, ◌<◌, ◌≡◌, refl, ◌≢◌, true, some, List, [], ◌∷◌, arith, length, get_elem?, set, add32,
  minus_one, slt,
}
use osgods.Files.{dir_read}
use osgods.Filesystem.{Image, Dentry, read_dentry_by_index}
use osgods.Kernel.{Kernel}
use osgods.Pcb.{Pcb, FileObject, at_fd, dir_table, max_file_num}
use osgods.Programs.OnTerminal.{KernelReady}

-- The names of the entries in use from `index` on, in their order.
abbrev pub Listed : Image → ℕ → List (List ℕ) → Type 0
Listed fs index [] = fs.num_dir_entries ≤ index
Listed fs index (name ∷ names) =
    (index < fs.num_dir_entries)
    × (length name ≡ 32)
    × ((e : Dentry) × (get_elem? fs.dir_entries index ≡ some e) × (e.file_name ≡ name))
    × Listed fs (index + 1) names

-- The running process has the terminal on descriptor 1 and `fd` open on the directory, with `names`
-- left to read. The directory holds at most 62 entries: at the last of 63 `dir_read` returns 0.
pub record KernelLists (base : ℕ) (mem : ℕ → ℕ) (k : Kernel) (fd : ℕ) (names : List (List ℕ))
    : Type 0 where
  pub ready : KernelReady base mem k
  pub dir : FileObject
  pub in_range : fd < max_file_num
  pub not_terminal : fd ≢ 1
  pub on_dir : get_elem? ready.process.file_descriptor fd ≡ some dir
  pub dir_used : dir.flag ≡ 1
  pub dir_tb : dir.file_op_tb ≡ dir_table
  pub some_entry : 0 < k.fs.num_dir_entries
  pub few : k.fs.num_dir_entries ≤ 62
  pub held : k.fs.num_dir_entries ≤ length k.fs.dir_entries
  pub listed : Listed k.fs dir.file_position names

pub dir_read-entry :
    (fs : Image) (p : Pcb) (fd : ℕ) (o : FileObject) (e : Dentry)
    → get_elem? p.file_descriptor fd ≡ some o
    → ((d : Dentry) → read_dentry_by_index fs o.file_position d ≡ some (0, e))
    → o.file_position < 62
    → dir_read fs p fd 32
      ≡ some (
        32,
        e.file_name,
        record p {
          file_descriptor =
              set p.file_descriptor fd (record o { file_position = o.file_position + 1 });
        },
      )
unfolding dir_read at_fd
dir_read-entry fs p fd o e at found small =
    let next : add32 o.file_position 1 ≡ o.file_position + 1 = omega arith in
    let more : slt (o.file_position + 1) 63 ≡ true = ground arith in
    rw (at, found _, next, more) refl

pub dir_read-end :
    (fs : Image) (p : Pcb) (fd : ℕ) (o : FileObject)
    → get_elem? p.file_descriptor fd ≡ some o
    → ((d : Dentry) → read_dentry_by_index fs o.file_position d ≡ some (minus_one, d))
    → dir_read fs p fd 32 ≡ some (0, [], p)
unfolding dir_read at_fd
dir_read-end fs p fd o at missing = rw (at, missing _) refl
