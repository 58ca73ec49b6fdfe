-- ===== src/Process/Contexts.antt =====
-- What the scheduler keeps of a process and gives back to it.
use osgods.Common.{
  ℕ, ◌<◌, ◌≡◌, refl, ◌≢◌, false, some, arith, ◌==◌, length, get_elem?, get_elem?-set_self,
  minus_one, Ensures, get_elem?-lt, get_elem?-some,
}
use osgods.Console.{Terminal, at_terminal}
use osgods.Kernel.{Kernel, put_current_pcb}
use osgods.Paging.{set_up_paging}
use osgods.Pcb.{Pcb}
use osgods.Process.{switched}
use osgods.Process.Switching.{save_process, resume_process}

-- What `resume_process` on terminal `tid` gives: its process, with registers `esp` and `ebp`.
abbrev ResumesAs : ℕ → ℕ → ℕ → ℕ → Pcb → Kernel → Type 0
ResumesAs tid i esp ebp p k =
    (t : Terminal) × (get_elem? k.console.terminal_list tid ≡ some t)
    × (resume_process k t.pcb_ptr
        ≡ some (
          switched esp ebp,
          record k {
            paging = set_up_paging k.paging p.pid;
            curr_pcb = some i;
            tss_esp0 = k.tss_esp0;
          },
        ))

-- Once a process runs, `save_process` keeps what it needs without a fault: resuming the terminal
-- that was scheduled leads back to the running process, with the stack registers it had, its own
-- pages and the kernel stack of the processor.
save_process-ResumesAs :
    (k : Kernel) (esp ebp i : ℕ) (p : Pcb)
    → k.curr_pcb ≡ some i
    → get_elem? k.pcbs i ≡ some p
    → k.pid ≢ minus_one
    → k.console.scheduled_terminal < length k.console.terminal_list
    → Ensures (ResumesAs k.console.scheduled_terminal i esp ebp p) (save_process k esp ebp)
unfolding save_process at_terminal put_current_pcb resume_process
save_process-ResumesAs k esp ebp i p cur there started sched =
    let (t, here) = get_elem?-lt k.console.terminal_list k.console.scheduled_terminal sched in
    let running : (k.pid == minus_one) ≡ false = ground arith in
    let kept = record p { saved_esp = esp; saved_ebp = ebp; tss_esp0 = k.tss_esp0 } in
    let left = record t { pcb_ptr = some i } in
    rw (here, running, cur, there)
      (
        left,
        get_elem?-set_self k.console.terminal_list k.console.scheduled_terminal left sched,
        rw (get_elem?-set_self k.pcbs i kept (get_elem?-some k.pcbs i p there)) refl,
      )
