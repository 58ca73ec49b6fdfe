-- ===== src/Files/Reading.antt =====
-- Reading a file piece by piece.
use osgods.Common.{
  ℕ, ◌+◌, ◌-◌, ◌^◌, ◌≤◌, ◌<◌, min, ◌≡◌, false, some, arith, get_elem?, set, add32, is_neg,
}
use osgods.Files.{file_read}
use osgods.Filesystem.{Image, bytes}
use osgods.Filesystem.Data.{file_byte, read_data-file_bytes}
use osgods.Pcb.{Pcb, FileObject, at_fd}

-- The conditions under which a descriptor reads its file.
pub record IsReader (fs : Image) (o : FileObject) : Type 0 where
  pub inode : o.inode < fs.num_inodes
  pub inodes : fs.num_inodes < 2 ^ 31
  pub size : (fs.inodes o.inode).length < 2 ^ 31
  pub position : o.file_position ≤ (fs.inodes o.inode).length

-- `file_read` of a count below 2 ^ 31 through a descriptor `fd` that holds `o` returns as many
-- bytes as the file has from the position on, at most the count, stores those bytes of the file in
-- order, and moves the position of `fd` behind them, within the file; nothing else of the process
-- changes.
pub file_read-advances :
    (fs : Image) (p : Pcb) (fd nbytes : ℕ) (o : FileObject)
    → get_elem? p.file_descriptor fd ≡ some o
    → IsReader fs o
    → nbytes < 2 ^ 31
    → let n = min nbytes ((fs.inodes o.inode).length - o.file_position) in
      let o' : FileObject = record o { file_position = o.file_position + n } in
      (file_read fs p fd false nbytes
        ≡ some (
          n,
          bytes (file_byte fs o.inode) o.file_position n,
          record p { file_descriptor = set p.file_descriptor fd o' },
        ))
      × IsReader fs o'
unfolding file_read at_fd
file_read-advances fs p fd nbytes o there h small =
    let n = min nbytes ((fs.inodes o.inode).length - o.file_position) in
    let same : add32 o.file_position n ≡ o.file_position + n = omega (arith, h.position, h.size) in
    let ok : is_neg n ≡ false = ground arith in
    (
      rw (
        there,
        read_data-file_bytes fs o.inode o.file_position nbytes h.inode h.inodes h.size
            (omega (arith, h.position, h.size)),
        ok,
        same,
      ),
      record {
        inode = h.inode;
        inodes = h.inodes;
        size = h.size;
        position = omega (arith, h.position);
      },
    )
