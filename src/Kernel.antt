-- ===== src/Kernel.antt =====
-- The whole state of the kernel, and what its parts do together.
use osgods.Common.{ℕ, Bool, Option, none, some, List, ◌==◌, if◌then◌else◌, get_elem?, set, ◌>>=◌}
use osgods.Console.{
  Console, get_display_tid, update_screen_x_y, update_video_mem, video_memory_addr,
}
use osgods.Filesystem.{Image, Dentry}
use osgods.Paging.{Paging, set_vid_map}
use osgods.Pcb.{Pcb}
use osgods.Pic.{Pic}
use osgods.Rtc.{Rtc}

-- `command_status` of keyboard.c; DOWN is `true`.
pub record CommandStatus : Type 0 where
  pub left_shift : Bool
  pub left_ctrl : Bool
  pub left_alt : Bool
  pub capslk : Bool
  pub alt : Bool

-- The globals of all files. `pcbs` are the six process slots below 8 MB, in their order, and
-- `curr_pcb` is the index of one; `pid` is the pattern of an `int`.
pub record Kernel : Type 0 where
  pub fs : Image
  pub console : Console
  pub paging : Paging
  pub pic : Pic
  pub rtc : Rtc
  pub status : CommandStatus
  pub pcbs : List Pcb
  pub curr_pcb : Option ℕ
  pub pid : ℕ
  pub tss_esp0 : ℕ
  pub global_dentry : Dentry

-- `get_current_pcb()` with what it points to.
abbrev pub get_current_pcb : Kernel → Option Pcb
get_current_pcb k = do i ← k.curr_pcb; get_elem? k.pcbs i

-- The current process block is replaced.
unfoldable pub put_current_pcb : Kernel → Pcb → Option Kernel
put_current_pcb k p = do i ← k.curr_pcb; some (record k { pcbs = set k.pcbs i p })

-- `memory_switch` of execute.c: the next scheduled terminal gets the cursor and its video page.
unfoldable pub memory_switch : Kernel → Option Kernel
memory_switch k = do
  let c = k.console
  t ← get_elem? c.terminal_list c.scheduled_terminal
  let go = λ (next : ℕ). (do
    n ← get_elem? c.terminal_list next
    own ← get_elem? c.terminal_list n.tid
    let page = if n.tid == get_display_tid c then video_memory_addr else n.video_page
    some (record k {
      console = update_video_mem (update_screen_x_y c own.x_cursor own.y_cursor) page;
      paging = set_vid_map k.paging page n.vidmap;
    }))
  elim (t.next_terminal) [ none ↦ some k | some next ↦ go next ]
