-- ===== src/Examples/Programs.antt =====
-- Commands, process slots and system calls on a machine with one running process.
use osgods.Common.{
  ◌*◌, get_elem?, ℕ, ◌-◌, ◌^◌, ◌≤◌, ◌<◌, ◌≡◌, refl, sym, ap, codes, ◌≢◌, ◌⊎◌, inl, inr, false, none,
  some, List, [], ◌∷◌, ◌++◌, arith, length, replicate, length-replicate, minus_one, ◌>>=◌, All,
  Ensures,
}
use osgods.Examples.{process-IsTable, machine, process, free_file}
use osgods.Kernel.{Kernel}
use osgods.Filesystem.{read_data, bytes}
use osgods.Console.{Terminal}
use osgods.Paging.{set_up_paging}
use osgods.Examples.{image, terminal, screen}
use osgods.Files.Table.{IsTable}
use osgods.Process.{switched, started, start_process, word_of}
use osgods.Process.Switching.{return_to_parent}
use osgods.Process.Returning.{waiting_parent, new_child, IsReturned, start_process-return_to_parent}
use osgods.Pcb.{Pcb, FileObject}
use osgods.Process.{determine_which_pcb_empty, parse_cmd, print}
use osgods.Process.Ending.{IsEnded, end_pcb-IsEnded}
use osgods.Process.Parse.{command_name, command_argument, holding, parse_cmd-words}
use osgods.Process.Slots.{IsFirstEmpty, determine_which_pcb_empty-first}
use osgods.Process.Switching.{end_pcb, scheduler}
use osgods.Process.Rounds.{Runs, Current, kept, scheduler-round}
use osgods.Rtc.{returned}
use osgods.Syscall.{read, write}
use osgods.Syscall.Guards.{read-write_refused}

read-write_refused_example :
    (read machine 5 false 4 ≡ some (returned (minus_one, [], machine)))
    × (write machine 5 (some (7 ∷ [])) 4 ≡ some (minus_one, machine))
read-write_refused_example =
    read-write_refused machine process 5 4 (some (7 ∷ [])) refl refl (omega arith) (omega arith)
      (inl (inr (λ o g. let e : free_file ≡ o = cc in sym (ap (λ (x : FileObject). x.flag) e))))

determine_which_pcb_empty-first_example :
    ((i : ℕ) × IsFirstEmpty machine.pcbs i
      × (determine_which_pcb_empty machine ≡ some (i, machine)))
    ⊎ (All (λ (p : Pcb). p.active ≢ 0) machine.pcbs
        × (determine_which_pcb_empty machine ≡ (do
          k ← print machine (codes "no pcb block available, 6 are opened!\n" ++ (0 ∷ [])) []
          some (2 ^ 32 - 2, k))))
determine_which_pcb_empty-first_example = determine_which_pcb_empty-first machine

-- Each terminal has a process, and the first runs.
abbrev waiting_process : ℕ → Pcb
waiting_process i = record process {
  pid = i;
  saved_esp = 0x7FDE00 - i * 8192;
  saved_ebp = 0x7FDE40 - i * 8192;
  tid = i;
}

abbrev busy_terminal : ℕ → Terminal
busy_terminal i = record (terminal i) { pcb_ptr = some i; count_pcb = 1 }

abbrev shared : Kernel
shared = record machine {
  pcbs = process ∷ waiting_process 1 ∷ waiting_process 2 ∷ [];
  console = record screen {
    terminal_list = busy_terminal 0 ∷ busy_terminal 1 ∷ busy_terminal 2 ∷ [];
  };
}

shared-Runs :
    (tid next : ℕ) (p : Pcb)
    → get_elem? shared.console.terminal_list tid ≡ some (busy_terminal tid)
    → (busy_terminal tid).next_terminal ≡ some next
    → get_elem? shared.pcbs tid ≡ some p
    → Runs tid tid next p shared
shared-Runs tid next p there following block = record {
  terminal = busy_terminal tid;
  there = there;
  own = refl;
  following = following;
  its = refl;
  busy = λ e. omega (arith, e);
  block = block;
}

scheduler-round_example :
    (l1 : Kernel) × (l2 : Kernel) × (l : Kernel) × (scheduler shared 0x7FFF00 0x7FFF40
      ≡ some (switched 0x7FBE00 0x7FBE40, l1))
    × (scheduler l1 0x7FBD00 0x7FBD40 ≡ some (switched 0x7F9E00 0x7F9E40, l2))
    × (scheduler l2 0x7F9D00 0x7F9D40 ≡ some (switched 0x7FFF00 0x7FFF40, l))
    × Current 0 0 l
    × (l.tss_esp0 ≡ 0x7FFFFC)
    × (l.paging ≡ set_up_paging l2.paging 0)
    × Runs 0 0 1 (kept process 0x7FFF00 0x7FFF40 0x7FFFFC) l
    × Runs 1 1 2 (kept (waiting_process 1) 0x7FBD00 0x7FBD40 0) l
    × Runs 2 2 0 (kept (waiting_process 2) 0x7F9D00 0x7F9D40 0) l
scheduler-round_example =
    scheduler-round 0 1 2 0 1 2 0x7FFF00 0x7FFF40 0x7FBD00 0x7FBD40 0x7F9D00 0x7F9D40 process
      (waiting_process 1) (waiting_process 2) shared
      (record { scheduled = refl; current = refl; first_done = λ e. omega arith })
      (shared-Runs 0 1 process refl refl refl) (shared-Runs 1 2 (waiting_process 1) refl refl refl)
      (shared-Runs 2 0 (waiting_process 2) refl refl refl)
      (λ e. omega arith, λ e. omega arith, λ e. omega arith)
      (λ e. omega arith, λ e. omega arith, λ e. omega arith)

end_pcb-IsEnded_example : Ensures IsEnded (end_pcb process)
end_pcb-IsEnded_example = end_pcb-IsEnded process process-IsTable

-- `ls -a` with a blank before and after.
abbrev command : List ℕ
command = 32 ∷ 108 ∷ 115 ∷ 32 ∷ 45 ∷ 97 ∷ 32 ∷ []

parse_cmd-words_example :
    let parsed = parse_cmd (command ++ (0 ∷ [])) (replicate 32 0) (some (replicate 128 0)) in
    let name = command_name command in
    let argument = command_argument command in
    (length name < 32
      → length argument < 128
      → parsed ≡ some (some (holding name (replicate 32 0), holding argument (replicate 128 0))))
    × (length name < 32 → 128 < length argument → parsed ≡ some none)
    × (32 ≤ length name → parsed ≡ none)
    × (length name < 32 → length argument ≡ 128 → parsed ≡ none)
parse_cmd-words_example =
    parse_cmd-words command [] (replicate 32 0) (replicate 128 0)
      (
        (λ e. omega arith),
        (
          (λ e. omega arith),
          (
            (λ e. omega arith),
            (
              (λ e. omega arith),
              ((λ e. omega arith), ((λ e. omega arith), ((λ e. omega arith), tt))),
            ),
          ),
        ),
      )
      (length-replicate {A = ℕ} 128 0)

abbrev second : Pcb
second = record process { pid = 1; active = 0 }

abbrev second_runs : Pcb
second_runs = record process { pid = 1; parent_id = 0 }

-- The child in slot 1 runs, and its parent waits with registers 100 and 200.
abbrev child_runs : Kernel
child_runs = record machine {
  pcbs = waiting_parent process 100 200 ∷ second_runs ∷ [];
  curr_pcb = some 1;
}

second-IsTable : IsTable second_runs
second-IsTable = record {
  eight = process-IsTable.eight;
  files = process-IsTable.files;
  stdin = process-IsTable.stdin;
  stdout = process-IsTable.stdout;
}

image_read : read_data image 1 0 false 6 ≡ (6, 0 ∷ 1 ∷ 2 ∷ 3 ∷ 4 ∷ 5 ∷ [])
unfolding read_data bytes
image_read = refl

start_process-return_to_parent_example :
    ((l : Kernel) × (start_process machine 1 (97 ∷ 0 ∷ []) 1 (0 ∷ 128 ∷ 4 ∷ 8 ∷ []) 100 200
        ≡ some (started (word_of (0 ∷ 128 ∷ 4 ∷ 8 ∷ [])) (0 ∷ 1 ∷ 2 ∷ 3 ∷ 4 ∷ 5 ∷ []), l))
      × (l.curr_pcb ≡ some 1)
      × (get_elem? l.pcbs 0 ≡ some (waiting_parent process 100 200))
      × (get_elem? l.pcbs 1 ≡ some (new_child second (terminal 0) 1 0 (97 ∷ 0 ∷ []) 0x7FFFFC)))
    × Ensures
        (IsReturned 1 0 100 200 15 (waiting_parent process 100 200))
        (return_to_parent child_runs 15)
start_process-return_to_parent_example =
    start_process-return_to_parent machine child_runs 1 0 1 100 200 15 (0 ∷ 128 ∷ 4 ∷ 8 ∷ [])
      (97 ∷ 0 ∷ []) (0 ∷ 1 ∷ 2 ∷ 3 ∷ 4 ∷ 5 ∷ []) process second second_runs (terminal 0) refl refl
      refl refl (λ e. omega (arith, e)) (λ e. omega (arith, e)) refl (λ e. omega (arith, e))
      image_read refl refl refl second-IsTable refl (omega arith) (omega arith)
