-- ===== src/Process/Executing.antt =====
-- `execute` leaves the console in order.
use osgods.Common.{
  ℕ, ◌^◌, ◌-◌, codes, ◌++◌, [], ◌∷◌, false, ◌≡◌, refl, inl, inr, true, none, some, Option, List,
  arith, ◌==◌, Option-cases, replicate, get_elem?, set, add32, minus_one, Ensures, Ensures-mono,
  Ensures-some, Allows, Allows-bind, Allows-bind_with, Allows-if, if◌then◌else◌, ◌>>=◌,
}
use osgods.Console.{at_terminal}
use osgods.Kernel.{Kernel, get_current_pcb}
use osgods.Printf.{Arg, word, text}
use osgods.Printf.Formats.{Kind, a_word, a_text, is_format, HaveKinds, HasKind}
use osgods.Process.{
  Outcome, print, slot_result, determine_which_pcb_empty, create_pcb, start_process, execute,
  parse_cmd, first_empty, max_argument_size, check_executable, returned,
}
use osgods.Process.Printing.{Prints, print-Prints}
use osgods.Console.{get_scheduled_tid}
use osgods.Filesystem.{read_data}
use osgods.Strings.{strncmp}
use osgods.Terminal.InOrder.{InOrder, drawn-InOrder}
use osgods.Terminal.Changing.{at_terminal-InOrder}
use osgods.Paging.{set_up_paging}

-- The console is in order, and that of a result.
abbrev pub Kept : Kernel → Type 0
Kept k = InOrder k.console

abbrev KeptIn : ℕ × Kernel → Type 0
KeptIn r = InOrder r.1.console

abbrev pub Leaves : Outcome × Kernel → Type 0
Leaves r = InOrder r.1.console

print-InOrder :
    (k : Kernel) (format : List ℕ) (kinds : List Kind) (args : List Arg)
    → is_format none format kinds ≡ true
    → HaveKinds kinds args
    → InOrder k.console
    → Ensures Kept (print k format args)
print-InOrder k format kinds args f h o =
    Ensures-mono (Prints k.console.video_mem k.console.vram k) Kept (print k format args)
      (print-Prints k.console.video_mem k.console.vram k format kinds args (omega (arith, o.page)) f
        h o.safe)
      (λ l p. drawn-InOrder k.console l.console o p.1 p.2)

print-Allows :
    (k : Kernel) (format : List ℕ) (kinds : List Kind) (args : List Arg)
    → is_format none format kinds ≡ true
    → HaveKinds kinds args
    → InOrder k.console
    → Allows Kept (print k format args)
print-Allows k format kinds args f h o =
    let (l, e, p) =
      Ensures-some Kept (print k format args) (print-InOrder k format kinds args f h o) in
    rw e p

slot_result-InOrder :
    (k : Kernel) (slot : Option ℕ) → InOrder k.console → Allows KeptIn (slot_result k slot)
unfolding slot_result
slot_result-InOrder k (some i) o = o
slot_result-InOrder k none o =
    Allows-bind_with Kept KeptIn (print k _ []) _
      (print-Allows k (codes "no pcb block available, 6 are opened!\n" ++ (0 ∷ [])) [] [] refl tt o)
      (λ l p. p)

create_pcb-InOrder :
    (k : Kernel) (pid : ℕ) (argument : List ℕ)
    → InOrder k.console
    → Allows Kept (create_pcb k pid argument)
unfolding create_pcb
create_pcb-InOrder k pid argument o = Allows-bind Kept (get_elem? k.pcbs pid) _ (λ old.
    Allows-bind Kept (get_elem? k.console.terminal_list k.console.scheduled_terminal) _ (λ t.
      Allows-bind Kept
        (if t.count_pcb == 0 then some minus_one else (do p ← get_current_pcb k; some p.pid)) _
        (λ parent.
          Allows-bind_with InOrder Kept
            (at_terminal k.console k.console.scheduled_terminal
              (λ t. record t { count_pcb = add32 t.count_pcb 1 }))
            _
            (at_terminal-InOrder k.console k.console.scheduled_terminal
              (λ t. record t { count_pcb = add32 t.count_pcb 1 }) o o.safe.scheduled
              (λ t good. (
                (
                  record {
                    own_tid = good.0.own_tid;
                    own_page = good.0.own_page;
                    own_buffer = good.0.own_buffer;
                    own_index = good.0.own_index;
                    own_next = good.0.own_next;
                  },
                  good.1,
                ),
                refl,
              )))
            (λ c p. p))))

start_process-InOrder :
    (k : Kernel) (pid : ℕ) (argument : List ℕ) (inode : ℕ) (entry : List ℕ) (esp ebp : ℕ)
    → InOrder k.console
    → Allows Leaves (start_process k pid argument inode entry esp ebp)
unfolding start_process
start_process-InOrder k pid argument inode entry esp ebp o =
    let paged = record k { paging = set_up_paging k.paging pid } in
    let size = (k.fs.inodes inode).length in
    Allows-if Leaves (size == (read_data k.fs inode 0 false size).0) _ _
      (Allows-bind_with Kept Leaves (create_pcb paged pid argument) _
        (create_pcb-InOrder paged pid argument o)
        (λ created p. Allows-bind Leaves (get_elem? created.pcbs pid) _ (λ q.
          let current = record created { curr_pcb = some pid; tss_esp0 = q.esp0 } in
          let with_parent = (do
            parent ← get_elem? created.pcbs q.parent_id
            some (record current {
              pcbs =
                  set created.pcbs q.parent_id (record parent { saved_esp = esp; saved_ebp = ebp });
            })) in
          Allows-bind_with Kept Leaves
            (if q.parent_id == minus_one then some current else with_parent) _
            (Allows-if Kept (q.parent_id == minus_one) _ _ p
              (Allows-bind Kept (get_elem? created.pcbs q.parent_id) _ (λ parent. p)))
            (λ done ok. ok))))
      o

-- What is left once the command has been split into its words.
loaded-InOrder :
    (k : Kernel) (pid esp ebp : ℕ)
    → InOrder k.console
    → (parsed : Option (List ℕ × List ℕ))
    → Allows Leaves (elim parsed [
      | none ↦ some (returned minus_one, k)
      | some (filename, argument) ↦ (do
        found ← check_executable k.fs filename
        elim found [
          | none ↦ some (returned minus_one, k)
          | some (inode, entry) ↦ start_process k pid argument inode entry esp ebp
        ])
    ])
loaded-InOrder k pid esp ebp o none = o
loaded-InOrder k pid esp ebp o (some (filename, argument)) =
    Allows-bind Leaves (check_executable k.fs filename) _ (λ found. elim (Option-cases found) [
      | inl missing ↦ rw missing o
      | inr (program, f) ↦ rw f (start_process-InOrder k pid argument program.0 program.1 esp ebp o)
    ])

pub execute-InOrder :
    (k : Kernel) (command : List ℕ) (esp ebp : ℕ)
    → InOrder k.console
    → HasKind a_text (text command)
    → Allows Leaves (execute k (some command) esp ebp)
unfolding execute determine_which_pcb_empty
execute-InOrder k command esp ebp o is_text =
    let shell = codes "shell" ++ (0 ∷ []) in
    let announced = codes "command is %s \n" ++ (0 ∷ []) in
    let placed = codes "in terminal %d now\n" ++ (0 ∷ []) in
    Allows-bind_with KeptIn Leaves (slot_result k (first_empty 0 k.pcbs)) _
      (slot_result-InOrder k (first_empty 0 k.pcbs) o)
      (λ r p.
        let k2 = record (r.1) { pid = r.0 } in
        Allows-if Leaves (r.0 == 2 ^ 32 - 2) _ _ p (
          Allows-bind_with Kept Leaves (print k2 announced (text command ∷ [])) _
            (print-Allows k2 announced (a_text ∷ []) (text command ∷ []) refl (is_text, tt) p)
            (λ k3 p3. Allows-bind Leaves (strncmp command shell 5) _ (λ differ.
              Allows-bind Leaves (get_scheduled_tid k3.console) _ (λ tid.
                Allows-bind_with Kept Leaves
                  (if differ == 0 then print k3 placed (word (add32 tid 1) ∷ []) else some k3) _
                  (Allows-if Kept (differ == 0) _ _
                    (print-Allows k3 placed (a_word ∷ []) (word (add32 tid 1) ∷ []) refl
                      (omega arith, tt) p3)
                    p3)
                  (λ k4 p4.
                    Allows-bind Leaves
                      (parse_cmd command (replicate 32 0) (some (replicate max_argument_size 0))) _
                      (loaded-InOrder k4 r.0 esp ebp p4)))))))
