-- ===== src/Examples.antt =====
-- Concrete machines and texts that the theorems are applied to.
pub mod Data
pub mod Screen
pub mod Devices
pub mod Programs
pub mod Running
pub mod Playing
pub mod Booting
pub mod Started
use osgods.Common.{
  refl, ◌≡◌, sym, ap, inl, inr, ℕ, ◌+◌, ◌*◌, ◌%◌, codes, false, none, some, [], ◌∷◌, ◌++◌, ◌==◌,
  if◌then◌else◌, length, replicate, minus_one,
}
use osgods.Console.{Console, Settings, Terminal, num_cols, num_rows}
use osgods.Files.Table.{IsTable}
use osgods.Filesystem.{Dentry, Inode, Image}
use osgods.Kernel.{Kernel, CommandStatus}
use osgods.Paging.{Paging, PageTableEntry}
use osgods.Pcb.{
  null_table, Pcb, FileObject, FileOperationTable, stdin_table, stdout_table, fail_table,
  file_table, rtc_table,
}
use osgods.Pic.{Pic}
use osgods.Rtc.{Rtc}

-- A directory of two entries, and a file of six bytes in block 1.
abbrev pub hello : Dentry
hello = record { file_name = codes "hello" ++ (0 ∷ []); file_type = 2; inode_id = 1; reserved = [] }

abbrev pub clock : Dentry
clock = record { file_name = codes "rtc" ++ (0 ∷ []); file_type = 0; inode_id = 0; reserved = [] }

abbrev pub image : Image
image = record {
  num_dir_entries = 2;
  num_inodes = 2;
  num_data_blocks = 2;
  dir_entries = clock ∷ hello ∷ [];
  inodes = λ i. record { length = if i == 1 then 6 else 0; data_blocks = λ b. b + 1 };
  data_block = λ a. a % 256;
}

-- The screen after start.
abbrev pub settings : Settings
settings = record {
  prev_screen_x = replicate num_rows 0;
  i_prev_x = 0;
  display_buf = replicate (num_cols * num_rows) 0;
  display_buf_index = 0;
  line_is_full = replicate num_rows 0;
}

abbrev pub terminal : ℕ → Terminal
terminal i = record {
  tid = i;
  video_page = 0xB9000 + i * 4096;
  x_cursor = 0;
  y_cursor = 0;
  pcb_ptr = none;
  count_pcb = 1;
  keyb_buffer = replicate 128 0;
  keyb_buffer_index = 0;
  next_terminal = some ((i + 1) % 3);
  vidmap = 0;
  saved = settings;
}

abbrev pub screen : Console
screen = record {
  vram = λ a. 0;
  video_mem = 0xB8000;
  screen_x = 0;
  screen_y = 0;
  settings = settings;
  keyb_pressed = false;
  terminal_list = terminal 0 ∷ terminal 1 ∷ terminal 2 ∷ [];
  curr_terminal_num = 0;
  scheduled_terminal = 0;
  scheduled_terminal_num = 0;
  terminal_buf_index = 0;
  terminal_read_enable_signal = false;
  key_buffer = replicate 128 0;
  keyb_index = 0;
}

abbrev pub pic : Pic
pic = record { master_mask = 255; slave_mask = 255; ports = [] }

abbrev pub paging : Paging
paging = record {
  page_dir = λ i. 2;
  page_table = λ i. record { base_address = i; present = 0; read_write = 1; use_supervisor = 0 };
  page_vid_table =
      λ i. record { base_address = i; present = 0; read_write = 1; use_supervisor = 0 };
  page_dir_addr = 0x400000;
  page_table_addr = 0x401000;
  page_vid_table_addr = 0x402000;
  cr0 = 0;
  cr3 = 0;
  cr4 = 0;
  interrupts = false;
}

abbrev pub file : FileOperationTable → ℕ → ℕ → FileObject
file table inode flag = record { file_op_tb = table; inode = inode; file_position = 0; flag = flag }

abbrev pub free_file : FileObject
free_file = file fail_table 0 0

-- A process with a file open on descriptor 2 and the clock on 3.
abbrev pub process : Pcb
process = record {
  pid = 0;
  parent_id = minus_one;
  file_descriptor =
      file stdin_table 0 1
      ∷ file stdout_table 0 1
      ∷ file file_table 1 1
      ∷ file rtc_table minus_one 1
      ∷ free_file
      ∷ free_file
      ∷ free_file
      ∷ free_file
      ∷ [];
  saved_esp = 0;
  saved_ebp = 0;
  esp0 = 0x7FFFFC;
  active = 1;
  argument = 0 ∷ [];
  vidmap = 0;
  tss_esp0 = 0;
  tid = 0;
}

pub process-IsTable : IsTable process
process-IsTable = record {
  eight = refl;
  files = (
    (inr refl, λ e f. cc),
    (
      (inr refl, λ e f. cc),
      (
        (inr refl, λ e f. cc),
        (
          (inr refl, λ e f. cc),
          (
            (inl refl, λ e f. cc),
            ((inl refl, λ e f. cc), ((inl refl, λ e f. cc), ((inl refl, λ e f. cc), tt))),
          ),
        ),
      ),
    ),
  );
  stdin = λ o g.
      let e : file stdin_table 0 1 ≡ o = cc in
      (sym (ap (λ (x : FileObject). x.file_op_tb) e), sym (ap (λ (x : FileObject). x.flag) e));
  stdout = λ o g.
      let e : file stdout_table 0 1 ≡ o = cc in
      (sym (ap (λ (x : FileObject). x.file_op_tb) e), sym (ap (λ (x : FileObject). x.flag) e));
}

abbrev pub machine : Kernel
machine = record {
  fs = image;
  console = screen;
  paging = paging;
  pic = pic;
  rtc = record { rtc_interrupt_occurred = 0; rtc_interrupt_counter = 0 };
  status = record {
    left_shift = false;
    left_ctrl = false;
    left_alt = false;
    capslk = false;
    alt = false;
  };
  pcbs = process ∷ record process { pid = 1; active = 0 } ∷ [];
  curr_pcb = some 0;
  pid = 0;
  tss_esp0 = 0x7FFFFC;
  global_dentry = clock;
}
