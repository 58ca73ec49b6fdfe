-- ===== src/Process/Turns.antt =====
-- `scheduler` goes from the running process to that of the next terminal.
use osgods.Common.{
  ℕ, ◌≡◌, refl, sym, ◌≢◌, false, some, arith, ◌==◌, get_elem?, get_elem?-set_self, get_elem?-set_ne,
  set, ap, Option, ◌∙◌, minus_one, get_elem?-some,
}
use osgods.Console.{Terminal, at_terminal}
use osgods.Kernel.{Kernel, put_current_pcb}
use osgods.Paging.{set_up_paging}
use osgods.Pcb.{Pcb}
use osgods.Process.{switched}
use osgods.Process.Switching.{save_process, resume_process, scheduler}
use osgods.Terminal.{set_scheduled_tid}

-- The process `j` with block `q` runs for terminal `next`, and resuming terminal `tid` gives back the
-- process `i` with block `p`, the registers `esp` and `ebp` and the kernel stack `esp0`.
pub record Turned (tid i esp ebp esp0 : ℕ) (p : Pcb) (next j : ℕ) (q : Pcb) (k : Kernel)
    : Type 0 where
  pub running : k.curr_pcb ≡ some j
  pub scheduled : k.console.scheduled_terminal ≡ next
  pub stack : k.tss_esp0 ≡ q.tss_esp0
  pub left : Terminal
  pub left_there : get_elem? k.console.terminal_list tid ≡ some left
  pub resumes :
      resume_process k left.pcb_ptr
      ≡ some (
        switched esp ebp,
        record k { paging = set_up_paging k.paging p.pid; curr_pcb = some i; tss_esp0 = esp0 },
      )

-- Once a process runs, with another terminal next that has a process of its own, the scheduler does
-- not fault: it goes to that process with the registers that were saved of it, its pages and its kernel
-- stack, the next terminal is the scheduled one, and the process that it leaves is kept, so that resuming
-- its terminal leads back to it with the registers and the kernel stack that it had and its own pages.
-- No other terminal and no other process is changed.
pub scheduler-Turned :
    (k : Kernel) (esp ebp i next j : ℕ) (t n : Terminal) (p q : Pcb)
    → k.curr_pcb ≡ some i
    → get_elem? k.pcbs i ≡ some p
    → k.pid ≢ minus_one
    → get_elem? k.console.terminal_list k.console.scheduled_terminal ≡ some t
    → t.next_terminal ≡ some next
    → get_elem? k.console.terminal_list next ≡ some n
    → n.tid ≡ next
    → n.pcb_ptr ≡ some j
    → n.count_pcb ≢ 0
    → get_elem? k.pcbs j ≡ some q
    → j ≢ i
    → next ≢ k.console.scheduled_terminal
    → (l : Kernel) × (scheduler k esp ebp ≡ some (switched q.saved_esp q.saved_ebp, l))
      × (l.paging ≡ set_up_paging k.paging q.pid)
      × (l.console.terminal_list
          ≡ set k.console.terminal_list k.console.scheduled_terminal
              (record t { pcb_ptr = some i }))
      × (l.pcbs
          ≡ set k.pcbs i (record p { saved_esp = esp; saved_ebp = ebp; tss_esp0 = k.tss_esp0 }))
      × (l.pid ≡ k.pid)
      × Turned k.console.scheduled_terminal i esp ebp k.tss_esp0 p next j q l
unfolding scheduler save_process at_terminal put_current_pcb resume_process set_scheduled_tid
scheduler-Turned k esp ebp i next j t n p q cur there started sched t_next n_there own n_pcb busy
      q_there other elsewhere =
    let kept = record p { saved_esp = esp; saved_ebp = ebp; tss_esp0 = k.tss_esp0 } in
    let left = record t { pcb_ptr = some i } in
    let pcbs = set k.pcbs i kept in
    let terminals = set k.console.terminal_list k.console.scheduled_terminal left in
    let started' : (k.pid == minus_one) ≡ false = ground arith in
    let busy' : (n.count_pcb == 0) ≡ false = ground arith in
    let t_set : get_elem? terminals k.console.scheduled_terminal ≡ some left =
      get_elem?-set_self k.console.terminal_list k.console.scheduled_terminal left
        (get_elem?-some k.console.terminal_list k.console.scheduled_terminal t sched) in
    let n_set : get_elem? terminals next ≡ some n =
      get_elem?-set_ne k.console.terminal_list left (λ e. elsewhere (sym e)) ∙ n_there in
    let p_set : get_elem? pcbs i ≡ some kept =
      get_elem?-set_self k.pcbs i kept (get_elem?-some k.pcbs i p there) in
    let q_set : get_elem? pcbs j ≡ some q =
      get_elem?-set_ne k.pcbs kept (λ e. other (sym e)) ∙ q_there in
    let turned : Option ℕ → Kernel = λ following. record k {
      console = record (k.console) {
        terminal_list =
            set k.console.terminal_list k.console.scheduled_terminal
              (record t { pcb_ptr = some i; next_terminal = following });
        scheduled_terminal = next;
        scheduled_terminal_num = n.tid;
      };
      paging = set_up_paging k.paging q.pid;
      pcbs = pcbs;
      curr_pcb = some j;
      tss_esp0 = q.tss_esp0;
    } in
    (
      turned t.next_terminal,
      rw (sched, started', cur, there, t_set, t_next, n_set, busy', n_pcb, q_set)
          (ap (λ x. some (switched q.saved_esp q.saved_ebp, turned x)) t_next),
      refl,
      refl,
      refl,
      refl,
      record {
        running = refl;
        scheduled = refl;
        stack = refl;
        left = left;
        left_there = t_set;
        resumes = rw p_set refl;
      },
    )
