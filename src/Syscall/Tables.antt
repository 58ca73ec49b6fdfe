-- ===== src/Syscall/Tables.antt =====
-- Which operation a call on an open descriptor comes to.
use osgods.Common.{
  ℕ, ◌+◌, ◌-◌, ◌^◌, ◌<◌, min, ◌≡◌, refl, ap, ◌∙◌, false, Option, some, List, ◌++◌, arith, ==_ne,
  length, get_elem?, set, ◌>>=◌,
}
use osgods.Console.{Console}
use osgods.Files.Reading.{IsReader, file_read-advances}
use osgods.Filesystem.{bytes}
use osgods.Filesystem.Data.{file_byte}
use osgods.Kernel.{Kernel, get_current_pcb, put_current_pcb}
use osgods.Pcb.{Pcb, FileObject, file_table, stdout_table, max_file_num}
use osgods.Rtc.{returned}
use osgods.Syscall.{bad_call, read, write, table_read, table_write}
use osgods.Terminal.{put_chars}
use osgods.Terminal.Lines.{terminal_write-put_chars}

-- The state after a read of `n` bytes through a descriptor that holds `o`.
abbrev pub read_state : Kernel → ℕ → Pcb → ℕ → FileObject → ℕ → Kernel
read_state k slot p fd o n = record k {
  pcbs = set k.pcbs slot (record p {
    file_descriptor = set p.file_descriptor fd (record o { file_position = o.file_position + n });
  });
}

pub get_current_pcb-at :
    (k : Kernel) (slot : ℕ) (p : Pcb)
    → k.curr_pcb ≡ some slot
    → get_elem? k.pcbs slot ≡ some p
    → get_current_pcb k ≡ some p
get_current_pcb-at k slot p cur there =
    ap (λ (c : Option ℕ). c >>= λ i. get_elem? k.pcbs i) cur ∙ there

pub put_current_pcb-at :
    (k : Kernel) (slot : ℕ) (p : Pcb)
    → k.curr_pcb ≡ some slot
    → put_current_pcb k p ≡ some (record k { pcbs = set k.pcbs slot p })
unfolding put_current_pcb
put_current_pcb-at k slot p cur =
    ap (λ (c : Option ℕ). c >>= λ i. some (record k { pcbs = set k.pcbs i p })) cur

-- A call on a descriptor that is open goes to its table.
module _ (k : Kernel) (p : Pcb) (fd n : ℕ) (o : FileObject) (cur : get_current_pcb k ≡ some p)
    (at : get_elem? p.file_descriptor fd ≡ some o) (used : o.flag ≡ 1) (lt : fd < max_file_num)
    (small : n < 2 ^ 31) where
  pub read-table : read k fd false n ≡ table_read k p o.file_op_tb fd n
  unfolding read
  read-table =
      let ok : bad_call fd false n ≡ false = ground arith in
      let flag = ==_ne o.flag 0 (λ e. omega (arith, e, used)) in rw (ok, cur, at, flag) refl

  pub write-table : (buf : List ℕ) → write k fd (some buf) n ≡ table_write k o.file_op_tb fd buf n
  unfolding write
  write-table buf =
      let ok : bad_call fd false n ≡ false = ground arith in
      let flag = ==_ne o.flag 0 (λ e. omega (arith, e, used)) in rw (ok, cur, at, flag) refl

pub table_read-file :
    (k : Kernel) (slot fd n : ℕ) (p : Pcb) (o : FileObject)
    → k.curr_pcb ≡ some slot
    → n < 2 ^ 31
    → get_elem? p.file_descriptor fd ≡ some o
    → IsReader k.fs o
    → let m = min n ((k.fs.inodes o.inode).length - o.file_position) in
      table_read k p file_table fd n
      ≡ some (
          returned
            (m, bytes (file_byte k.fs o.inode) o.file_position m, read_state k slot p fd o m))
unfolding table_read
table_read-file k slot fd n p o cur small at reader =
    let m = min n ((k.fs.inodes o.inode).length - o.file_position) in
    let out = bytes (file_byte k.fs o.inode) o.file_position m in
    let q : Pcb = record p {
      file_descriptor = set p.file_descriptor fd (record o { file_position = o.file_position + m });
    } in
    rw (file_read-advances k.fs p fd n o at reader small).0 (
      ap (λ (r : Option Kernel). r >>= λ l. some (returned (m, out, l)))
        (put_current_pcb-at k slot q cur))

pub table_write-terminal :
    (k : Kernel) (bs rest : List ℕ) (c : Console)
    → length bs < 2 ^ 31
    → put_chars k.console bs ≡ some c
    → table_write k stdout_table 1 (bs ++ rest) (length bs)
      ≡ some (length bs, record k { console = c })
unfolding table_write
table_write-terminal k bs rest c small shown =
    rw (terminal_write-put_chars k.console bs rest small, shown) refl
