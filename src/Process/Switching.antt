-- ===== src/Process/Switching.antt =====
-- `halt` and `scheduler` of execute.c.
use osgods.Common.{
  ℕ, zero, suc, ◌+◌, ◌-◌, codes, Option, none, some, [], ◌∷◌, ◌++◌, ◌==◌, if◌then◌else◌, get_elem?,
  set, sub32, minus_one, ◌>>=◌,
}
use osgods.Console.{Console, at_terminal, get_display_tid}
use osgods.Files.{close}
use osgods.Kernel.{Kernel, get_current_pcb, put_current_pcb, memory_switch}
use osgods.Paging.{set_up_paging}
use osgods.Pcb.{Pcb, max_file_num, at_fd}
use osgods.Pic.{send_eoi}
use osgods.Process.{Outcome, returned, resumed, switched, execute, print}
use osgods.Terminal.{set_scheduled_tid}

-- The loop of `halt` that closes what is open, `n` descriptors from `i` on.
unfoldable pub close_files : ℕ → ℕ → Pcb → Option Pcb
close_files zero i p = some p
close_files (suc n) i p = do
  o ← get_elem? p.file_descriptor i
  (r, shut) ← close p i
  close_files n (i + 1) (if o.flag == 1 then shut else p)

-- The block of a process that ends.
unfoldable pub end_pcb : Pcb → Option Pcb
unfolding close_files
end_pcb p = do
  closed ← close_files (max_file_num - 2) 2 p
  no_stdin ← at_fd closed 0 (λ o. record o { flag = 0 })
  no_stdout ← at_fd no_stdin 1 (λ o. record o { flag = 0 })
  some (record no_stdout { active = 0 })

-- A scheduled terminal that was mapped is unmapped, and so is the shown one.
unfoldable pub drop_vidmap : Console → Option Console
drop_vidmap c = do
  t ← get_elem? c.terminal_list c.scheduled_terminal
  let dropped = (do
    d ← at_terminal c c.scheduled_terminal (λ t. record t { vidmap = 0 })
    at_terminal d (get_display_tid d) (λ t. record t { vidmap = 0 }))
  if t.vidmap == 1 then dropped else some c

-- Back to the parent; `none` where the process has none, since slot -1 is no slot.
unfoldable pub return_to_parent : Kernel → ℕ → Option (Outcome × Kernel)
unfolding end_pcb drop_vidmap
return_to_parent k status = do
  i ← k.curr_pcb
  p ← get_elem? k.pcbs i
  parent ← get_elem? k.pcbs p.parent_id
  ended ← end_pcb p
  c ← drop_vidmap k.console
  let status_to_return = if status == 15 then 256 else status
  some (
    resumed parent.saved_esp parent.saved_ebp status_to_return,
    record k {
      console = c;
      paging = set_up_paging k.paging p.parent_id;
      pcbs = set k.pcbs i ended;
      tss_esp0 = parent.esp0;
      curr_pcb = some p.parent_id;
    },
  )

-- A program; a base shell is started again. `esp` and `ebp` are the registers at `execute`. The
-- trap on `count_pcb < 0` is not reached, since the field is unsigned.
unfoldable pub halt : Kernel → ℕ → ℕ → ℕ → Option (Outcome × Kernel)
halt k status esp ebp = do
  k1 ← print k (codes "in halt\n" ++ (0 ∷ [])) []
  c ←
      at_terminal k1.console k1.console.scheduled_terminal
        (λ t. record t { count_pcb = sub32 t.count_pcb 1 })
  let k2 = record k1 { console = c }
  p ← get_current_pcb k2
  let again = (do
    k3 ← print k2 (codes "we can't exit base!\n" ++ (0 ∷ [])) []
    k4 ← put_current_pcb k3 (record p { active = 0 })
    (how, k5) ← execute k4 (some (codes "shell" ++ (0 ∷ []))) esp ebp
    elim how [ returned r ↦ return_to_parent k5 status | other ↦ some (other, k5) ])
  if p.parent_id == minus_one then again else return_to_parent k2 status

-- The registers of the running process are kept, if a process was ever started.
unfoldable pub save_process : Kernel → ℕ → ℕ → Option Kernel
save_process k esp ebp = do
  c ← at_terminal k.console k.console.scheduled_terminal (λ t. record t { pcb_ptr = k.curr_pcb })
  let k' = record k { console = c }
  let saved = (do
    p ← get_current_pcb k'
    put_current_pcb k' (record p { saved_esp = esp; saved_ebp = ebp; tss_esp0 = k.tss_esp0 }))
  if k.pid == minus_one then some k' else saved

-- On in the process where the terminal was left.
unfoldable pub resume_process : Kernel → Option ℕ → Option (Outcome × Kernel)
resume_process k none = none
resume_process k (some i) = do
  p ← get_elem? k.pcbs i
  some (
    switched p.saved_esp p.saved_ebp,
    record k { paging = set_up_paging k.paging p.pid; curr_pcb = some i; tss_esp0 = p.tss_esp0 },
  )

-- The round robin over the terminals, from stack registers `esp` and `ebp`.
unfoldable pub scheduler : Kernel → ℕ → ℕ → Option (Outcome × Kernel)
unfolding save_process resume_process
scheduler k esp ebp = do
  k1 ← save_process k esp ebp
  t ← get_elem? k1.console.terminal_list k1.console.scheduled_terminal
  let go = λ (next : ℕ). (do
    n ← get_elem? k1.console.terminal_list next
    let k2 = record k1 {
      console = set_scheduled_tid (record (k1.console) { scheduled_terminal = next }) n.tid;
      curr_pcb = elim (n.pcb_ptr) [ none ↦ k1.curr_pcb | some i ↦ some i ];
    }
    if n.count_pcb == 0
        then execute k2 (some (codes "shell" ++ (0 ∷ []))) esp ebp
        else resume_process k2 n.pcb_ptr)
  elim (t.next_terminal) [ none ↦ some (returned 0, k1) | some next ↦ go next ]

-- `pit_intr_handler`
unfoldable pub pit_intr_handler : Kernel → ℕ → ℕ → Option (Outcome × Kernel)
pit_intr_handler k esp ebp = do
  k' ← memory_switch (record k { pic = send_eoi k.pic 0 })
  scheduler k' esp ebp
