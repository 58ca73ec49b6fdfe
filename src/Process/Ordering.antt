-- ===== src/Process/Ordering.antt =====
-- A turn of the scheduler, with the first shell of a terminal or without, leaves the console in order.
use osgods.Common.{
  ℕ, ◌<◌, codes, ◌++◌, [], ◌∷◌, refl, inl, inr, none, some, Option, arith, ◌==◌, Option-cases,
  get_elem?, minus_one, Ensures-some, Allows, Allows-bind, Allows-bind_with, Allows-if,
}
use osgods.Console.{Console, Terminal, at_terminal}
use osgods.Kernel.{Kernel, get_current_pcb, put_current_pcb}
use osgods.Printf.{text}
use osgods.Printf.Formats.{a_text, HasKind}
use osgods.Process.Switching.{save_process, resume_process, scheduler, pit_intr_handler}
use osgods.Terminal.{set_scheduled_tid}
use osgods.Terminal.InOrder.{InOrder}
use osgods.Terminal.Ordering.{memory_switch-InOrder}
use osgods.Terminal.Changing.{Good, at_terminal-InOrder, terminal-Good, scheduled-InOrder}
use osgods.Pic.{send_eoi}
use osgods.Process.Executing.{Kept, Leaves, execute-InOrder}

save_process-InOrder :
    (k : Kernel) (esp ebp : ℕ) → InOrder k.console → Allows Kept (save_process k esp ebp)
unfolding save_process put_current_pcb
save_process-InOrder k esp ebp o =
    let kept : Terminal → Terminal = λ t. record t { pcb_ptr = k.curr_pcb } in
    Allows-bind_with InOrder Kept (at_terminal k.console k.console.scheduled_terminal kept) _
      (at_terminal-InOrder k.console k.console.scheduled_terminal kept o o.safe.scheduled (λ t good.
        (
          (
            record {
              own_tid = good.0.own_tid;
              own_page = good.0.own_page;
              own_buffer = good.0.own_buffer;
              own_index = good.0.own_index;
              own_next = good.0.own_next;
            },
            good.1,
          ),
          refl,
        )))
      (λ c p. Allows-if Kept (k.pid == minus_one) _ _ p (
        Allows-bind Kept (get_current_pcb (record k { console = c })) _
          (λ q. Allows-bind Kept k.curr_pcb _ (λ i. p))))

resume_process-InOrder :
    (k : Kernel) (slot : Option ℕ) → InOrder k.console → Allows Leaves (resume_process k slot)
unfolding resume_process
resume_process-InOrder k none o = tt
resume_process-InOrder k (some i) o = Allows-bind Leaves (get_elem? k.pcbs i) _ (λ p. o)

terminals-Good : (c : Console) (i : ℕ) → InOrder c → Allows Good (get_elem? c.terminal_list i)
terminals-Good c i o = elim (Option-cases (get_elem? c.terminal_list i)) [
  | inl missing ↦ rw missing tt
  | inr (t, there) ↦ rw there (terminal-Good c i t o there)
]

shell-HasKind : HasKind a_text (text (codes "shell" ++ (0 ∷ [])))
shell-HasKind = (
  codes "shell",
  [],
  refl,
  (
    (λ e. omega (arith, e)),
    (
      (λ e. omega (arith, e)),
      ((λ e. omega (arith, e)), ((λ e. omega (arith, e)), ((λ e. omega (arith, e)), tt))),
    ),
  ),
  (
    (λ e. omega (arith, e)),
    (
      (λ e. omega (arith, e)),
      ((λ e. omega (arith, e)), ((λ e. omega (arith, e)), ((λ e. omega (arith, e)), tt))),
    ),
  ),
)

scheduler-InOrder :
    (k : Kernel) (esp ebp : ℕ) → InOrder k.console → Allows Leaves (scheduler k esp ebp)
unfolding scheduler set_scheduled_tid
scheduler-InOrder k esp ebp o =
    Allows-bind_with Kept Leaves (save_process k esp ebp) _ (save_process-InOrder k esp ebp o)
      (λ k1 p.
        let c = k1.console in
        Allows-bind_with Good Leaves (get_elem? c.terminal_list c.scheduled_terminal) _
          (terminals-Good c c.scheduled_terminal p)
          (λ t good. elim (Option-cases t.next_terminal) [
            | inl alone ↦ rw alone p
            | inr (next, e) ↦
                let small : next < 3 = good.0.own_next next e in
                rw e (
                  Allows-bind Leaves (get_elem? c.terminal_list next) _ (λ n.
                    let k2 = record k1 {
                      console = record c {
                        scheduled_terminal = next;
                        scheduled_terminal_num = n.tid;
                      };
                      curr_pcb = elim (n.pcb_ptr) [ none ↦ k1.curr_pcb | some i ↦ some i ];
                    } in
                    let q = scheduled-InOrder c next n.tid p small in
                    Allows-if Leaves (n.count_pcb == 0) _ _
                      (execute-InOrder k2 (codes "shell" ++ (0 ∷ [])) esp ebp q shell-HasKind)
                      (resume_process-InOrder k2 n.pcb_ptr q)))
          ]))

-- Whatever the timer's interrupt does, be it that it starts the first shell of a terminal, goes on with
-- a process or stays, it leaves the console in order.
pub pit_intr_handler-InOrder :
    (k : Kernel) (esp ebp : ℕ) → InOrder k.console → Allows Leaves (pit_intr_handler k esp ebp)
unfolding pit_intr_handler
pit_intr_handler-InOrder k esp ebp o =
    let (l, e, p) =
      Ensures-some Kept _ (memory_switch-InOrder (record k { pic = send_eoi k.pic 0 }) o) in
    rw e (scheduler-InOrder l esp ebp p)
