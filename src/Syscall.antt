-- ===== src/Syscall.antt =====
-- syscall.c: the system calls, from their guards to the tables of operations.
pub mod Guards
pub mod Tables
use osgods.Common.{
  ℕ, ◌+◌, ◌-◌, ◌*◌, Bool, false, not, ◌||◌, Option, none, some, List, [], ◌∷◌, ◌==◌, if◌then◌else◌,
  get_elem?, add32, minus_one, slt, ◌>>=◌,
}
use osgods.Console.{Console, Terminal, at_terminal, get_display_tid, video_memory_addr}
use osgods.Files.{open_fd, close, file_read, file_open, file_write, dir_open, dir_read, dir_write}
use osgods.Filesystem.{Dentry}
use osgods.Kernel.{Kernel, get_current_pcb, put_current_pcb}
use osgods.Paging.{set_up_paging, set_user_video_map, set_vid_map}
use osgods.Pcb.{
  Pcb, FileObject, FileOperationTable, null_table, stdin_table, stdout_table, rtc_table, dir_table,
  file_table, fail_table, max_file_num,
}
use osgods.Rtc.{Poll, waiting, returned, rtc_read, rtc_write, rtc_open}
use osgods.Strings.{strncpy}
use osgods.Terminal.{terminal_read, terminal_write, terminal_bad_read, terminal_bad_write}

-- The guard that `read` and `write` share: a descriptor, a buffer and a count that are none.
abbrev pub bad_call : ℕ → Bool → ℕ → Bool
bad_call fd buf_is_null nbytes =
    slt fd 0 || not (slt fd max_file_num) || buf_is_null || slt nbytes 0

-- The `read` of a table: the number returned, the bytes stored from `buf` on, and the state; a
-- null pointer is called by `none`.
unfoldable pub table_read :
    Kernel → Pcb → FileOperationTable → ℕ → ℕ → Option (Poll (ℕ × List ℕ × Kernel))
table_read k p null_table fd nbytes = none
table_read k p stdin_table fd nbytes = do
  polled ← terminal_read k.console nbytes
  some (elim polled [
    | waiting ↦ waiting
    | returned (n, out, c) ↦ returned (n, out, record k { console = c })
  ])
table_read k p stdout_table fd nbytes = do
  (n, c) ← terminal_bad_read k.console
  some (returned (n, [], record k { console = c }))
table_read k p rtc_table fd nbytes = do
  polled ← rtc_read p fd
  elim polled [
    | waiting ↦ some waiting
    | returned (n, q) ↦ (do k' ← put_current_pcb k q; some (returned (n, [], k')))
  ]
table_read k p dir_table fd nbytes = do
  (n, out, q) ← dir_read k.fs p fd nbytes
  k' ← put_current_pcb k q
  some (returned (n, out, k'))
table_read k p file_table fd nbytes = do
  (n, out, q) ← file_read k.fs p fd false nbytes
  k' ← put_current_pcb k q
  some (returned (n, out, k'))
table_read k p fail_table fd nbytes = some (returned (minus_one, [], k))

unfoldable pub read : Kernel → ℕ → Bool → ℕ → Option (Poll (ℕ × List ℕ × Kernel))
unfolding table_read
read k fd buf_is_null nbytes =
    let called = (do
      p ← get_current_pcb k
      o ← get_elem? p.file_descriptor fd
      if o.flag == 0
          then some (returned (minus_one, [], k))
          else table_read k p o.file_op_tb fd nbytes) in
    if bad_call fd buf_is_null nbytes then some (returned (minus_one, [], k)) else called

-- `*((int32_t*) buf)`
abbrev pub word_at : List ℕ → Option ℕ
word_at (a ∷ b ∷ c ∷ d ∷ r) = some (a + 256 * (b + 256 * (c + 256 * d)))
word_at _ = none

-- The `write` of a table; `rtc_write` looks at `buf` only where four bytes are written.
unfoldable pub table_write : Kernel → FileOperationTable → ℕ → List ℕ → ℕ → Option (ℕ × Kernel)
table_write k null_table fd buf nbytes = none
table_write k stdin_table fd buf nbytes = do
  (n, c) ← terminal_bad_write k.console
  some (n, record k { console = c })
table_write k stdout_table fd buf nbytes = do
  (n, c) ← terminal_write k.console buf nbytes
  some (n, record k { console = c })
table_write k rtc_table fd buf nbytes = do
  freq ← (if nbytes == 4 then word_at buf else some 0)
  (n, pic) ← rtc_write k.pic (some freq) nbytes
  some (n, record k { pic = pic })
table_write k dir_table fd buf nbytes = some (dir_write fd, k)
table_write k file_table fd buf nbytes = some (file_write fd, k)
table_write k fail_table fd buf nbytes = some (minus_one, k)

unfoldable pub write : Kernel → ℕ → Option (List ℕ) → ℕ → Option (ℕ × Kernel)
unfolding table_write
write k fd none nbytes = some (minus_one, k)
write k fd (some buf) nbytes =
    let called = (do
      p ← get_current_pcb k
      o ← get_elem? p.file_descriptor fd
      if o.flag == 0 then some (minus_one, k) else table_write k o.file_op_tb fd buf nbytes) in
    if bad_call fd false nbytes then some (minus_one, k) else called

-- What the `open` of a table does beside its result, which is thrown away.
table_open : Kernel → FileOperationTable → List ℕ → Option Kernel
table_open k rtc_table name = some (record k { pic = (rtc_open k.pic).1 })
table_open k dir_table name = do
  (r, d) ← dir_open k.fs name k.global_dentry
  some (record k { global_dentry = d })
table_open k file_table name = do
  (r, d) ← file_open k.fs name k.global_dentry
  some (record k { global_dentry = d })
table_open k t name = some k

unfoldable pub open_call : Kernel → Option (List ℕ) → Option (ℕ × Kernel)
unfolding table_open
open_call k filename = do
  p ← get_current_pcb k
  (fd, q) ← open_fd k.fs p filename
  k' ← put_current_pcb k q
  let opened = λ (name : List ℕ). (do
    o ← get_elem? q.file_descriptor fd
    k'' ← table_open k' o.file_op_tb name
    some (fd, k''))
  if fd == minus_one
      then some (fd, k')
      else elim filename [ none ↦ some (fd, k') | some name ↦ opened name ]

unfoldable pub close_call : Kernel → ℕ → Option (ℕ × Kernel)
close_call k fd = do
  p ← get_current_pcb k
  (r, q) ← close p fd
  k' ← put_current_pcb k q
  some (r, k')

-- The result, and what is written from `buf`, an address, on; `dest` is what stood there.
unfoldable pub getargs : Kernel → ℕ → ℕ → List ℕ → Option (ℕ × List ℕ)
getargs k buf nbytes dest =
    let copied = (do
      p ← get_current_pcb k
      first ← get_elem? p.argument 0
      let copy = (do out ← strncpy dest p.argument nbytes; some (0, out))
      if first == 0 then some (minus_one, dest) else copy) in
    if buf == 0 || nbytes == 0
    then some (minus_one, dest)
    else if slt (0x8400000 - 4) (add32 buf nbytes) || slt buf 0x8000000
    then some (minus_one, dest)
    else copied

-- The page shown to the user is the screen if its terminal is shown, its own page otherwise.
unfoldable pub vidmap : Kernel → ℕ → Option (ℕ × Option ℕ × Kernel)
vidmap k screen_start =
    let c = k.console in
    let tid = c.scheduled_terminal in
    let mapped = (do
      t ← get_elem? c.terminal_list tid
      n ← get_elem? c.terminal_list t.tid
      c' ← at_terminal c t.tid (λ t. record t { vidmap = 1 })
      p ← get_current_pcb k
      let page = if get_display_tid c == t.tid then video_memory_addr else n.video_page
      let paging = set_vid_map (set_user_video_map k.paging) page 1
      some (0, some 0x8400000, record k { console = c'; paging = set_up_paging paging p.pid })) in
    if screen_start == 0
    then some (minus_one, none, k)
    else if slt screen_start 0x8000000 || slt (0x8400000 - 4) screen_start
    then some (minus_one, none, k)
    else mapped

unfoldable pub set_handler : ℕ → ℕ → ℕ
set_handler signum handler_address = 0

unfoldable pub sigreturn : ℕ
sigreturn = 0
