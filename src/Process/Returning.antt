-- ===== src/Process/Returning.antt =====
-- A command that another process executes, and the way back when it ends.
use osgods.Common.{
  ℕ, ◌<◌, ◌≡◌, refl, sym, ap, ◌∙◌, ◌≢◌, inl, inr, false, some, List, arith, ◌==◌, if◌then◌else◌,
  ==_iff, ==_ne, Bool-cases, length, get_elem?, set, length-set, get_elem?-set_self,
  get_elem?-set_ne, add32, minus_one, ◌>>=◌, Ensures, Ensures-some, get_elem?-lt, get_elem?-some,
}
use osgods.Console.{Console, Terminal, at_terminal}
use osgods.Files.Table.{IsTable}
use osgods.Filesystem.{read_data}
use osgods.Kernel.{Kernel}
use osgods.Pcb.{Pcb}
use osgods.Process.{
  Outcome, started, resumed, start_process, create_pcb, new_files, kernel_stack, word_of,
}
use osgods.Process.Ending.{IsEnded, end_pcb-IsEnded}
use osgods.Process.Switching.{end_pcb, drop_vidmap, return_to_parent}
use osgods.Paging.{set_up_paging}

-- The parent with the registers of its `execute`.
abbrev pub waiting_parent : Pcb → ℕ → ℕ → Pcb
waiting_parent q esp ebp = record q { saved_esp = esp; saved_ebp = ebp }

-- The child in its slot.
abbrev pub new_child : Pcb → Terminal → ℕ → ℕ → List ℕ → ℕ → Pcb
new_child old t pid parent argument esp0 = record old {
  file_descriptor = new_files;
  pid = pid;
  argument = argument;
  tss_esp0 = esp0;
  tid = t.tid;
  active = 1;
  esp0 = kernel_stack pid;
  parent_id = parent;
}

create_pcb-child :
    (k : Kernel) (pid i : ℕ) (argument : List ℕ) (q old : Pcb) (t : Terminal)
    → k.curr_pcb ≡ some i
    → get_elem? k.pcbs i ≡ some q
    → q.pid ≡ i
    → get_elem? k.pcbs pid ≡ some old
    → get_elem? k.console.terminal_list k.console.scheduled_terminal ≡ some t
    → t.count_pcb ≢ 0
    → (c : Console) × (create_pcb k pid argument
        ≡ some (record k {
          console = c;
          pcbs = set k.pcbs pid (new_child old t pid i argument k.tss_esp0);
        }))
unfolding create_pcb at_terminal
create_pcb-child k pid i argument q old t cur here own slot term busy =
    let c = k.console in
    let t' = record t { count_pcb = add32 t.count_pcb 1 } in
    (
      record c { terminal_list = set c.terminal_list c.scheduled_terminal t' },
      rw (slot, term, ==_ne t.count_pcb 0 busy, cur, here, own) refl,
    )

-- `start_process` by process `i`, in a terminal where processes run, with the whole image read: the
-- child is the current process, and the parent has the registers.
start_process-child :
    (k : Kernel) (pid i inode esp ebp : ℕ) (entry argument image : List ℕ) (q old : Pcb)
    (t : Terminal)
    → k.curr_pcb ≡ some i
    → get_elem? k.pcbs i ≡ some q
    → q.pid ≡ i
    → get_elem? k.pcbs pid ≡ some old
    → i ≢ pid
    → i ≢ minus_one
    → get_elem? k.console.terminal_list k.console.scheduled_terminal ≡ some t
    → t.count_pcb ≢ 0
    → read_data k.fs inode 0 false (k.fs.inodes inode).length ≡ ((k.fs.inodes inode).length, image)
    → (l : Kernel) × (start_process k pid argument inode entry esp ebp
        ≡ some (started (word_of entry) image, l))
      × (l.curr_pcb ≡ some pid)
      × (get_elem? l.pcbs i ≡ some (waiting_parent q esp ebp))
      × (get_elem? l.pcbs pid ≡ some (new_child old t pid i argument k.tss_esp0))
unfolding start_process
start_process-child k pid i inode esp ebp entry argument image q old t cur here own slot ne valid
      term busy all =
    let paged = record k { paging = set_up_paging k.paging pid } in
    let child = new_child old t pid i argument k.tss_esp0 in
    let (c, e) = create_pcb-child paged pid i argument q old t cur here own slot term busy in
    let pcbs = set k.pcbs pid child in
    let new : get_elem? pcbs pid ≡ some child =
      get_elem?-set_self k.pcbs pid child (get_elem?-some k.pcbs pid old slot) in
    let still : get_elem? pcbs i ≡ some q =
      get_elem?-set_ne k.pcbs child (λ h. ne (sym h)) ∙ here in
    let len = (k.fs.inodes inode).length in
    (
      record paged {
        console = c;
        pcbs = set pcbs i (waiting_parent q esp ebp);
        curr_pcb = some pid;
        tss_esp0 = kernel_stack pid;
      },
      rw (all, (==_iff len len).1 refl, e, new, ==_ne i minus_one valid, still) refl,
      refl,
      get_elem?-set_self pcbs i _ (get_elem?-some pcbs i q still),
      get_elem?-set_ne pcbs _ ne ∙ new,
    )

drop_vidmap-some :
    (c : Console)
    → c.scheduled_terminal < length c.terminal_list
    → c.curr_terminal_num < length c.terminal_list
    → (d : Console) × (drop_vidmap c ≡ some d)
unfolding drop_vidmap at_terminal
drop_vidmap-some c p q =
    let (t, e) = get_elem?-lt c.terminal_list c.scheduled_terminal p in
    let list = set c.terminal_list c.scheduled_terminal (record t { vidmap = 0 }) in
    let (u, f) =
      get_elem?-lt list c.curr_terminal_num (
        omega (arith, length-set c.terminal_list c.scheduled_terminal (record t { vidmap = 0 }))) in
    elim (Bool-cases (t.vidmap == 1)) [
      | inl mapped ↦ (
        record c { terminal_list = set list c.curr_terminal_num (record u { vidmap = 0 }) },
        rw (e, mapped, f) refl,
      )
      | inr other ↦ (c, rw (e, other) refl)
    ]

-- The status of a program that an exception ended is 256.
abbrev pub status_of : ℕ → ℕ
status_of status = if status == 15 then 256 else status

-- What `return_to_parent` leaves: the parent is the current process, as it was, and its `execute` goes
-- on with its registers and the status; the slot of the child has ended.
pub record IsReturned (pid i esp ebp status : ℕ) (parent : Pcb) (r : Outcome × Kernel)
    : Type 0 where
  pub how : r.0 ≡ resumed esp ebp (status_of status)
  pub current : r.1.curr_pcb ≡ some i
  pub there : get_elem? r.1.pcbs i ≡ some parent
  pub stack : r.1.tss_esp0 ≡ parent.esp0
  pub ended : Ensures IsEnded (get_elem? r.1.pcbs pid)

abbrev finish : Kernel → ℕ → Pcb → Pcb → ℕ → Pcb → Console → Outcome × Kernel
finish k pid child parent status ended c = (
  resumed parent.saved_esp parent.saved_ebp (status_of status),
  record k {
    console = c;
    paging = set_up_paging k.paging child.parent_id;
    pcbs = set k.pcbs pid ended;
    tss_esp0 = parent.esp0;
    curr_pcb = some child.parent_id;
  },
)

return_to_parent-step :
    (k : Kernel) (status : ℕ)
    → return_to_parent k status ≡ (do
      i ← k.curr_pcb
      p ← get_elem? k.pcbs i
      parent ← get_elem? k.pcbs p.parent_id
      ended ← end_pcb p
      c ← drop_vidmap k.console
      some (finish k i p parent status ended c))
unfolding return_to_parent
return_to_parent-step k status = refl

-- A process that ends in a state where its parent still has the registers of its `execute`.
return_to_parent-IsReturned :
    (k : Kernel) (pid i esp ebp status : ℕ) (q child : Pcb)
    → k.curr_pcb ≡ some pid
    → get_elem? k.pcbs pid ≡ some child
    → child.parent_id ≡ i
    → IsTable child
    → get_elem? k.pcbs i ≡ some (waiting_parent q esp ebp)
    → i ≢ pid
    → k.console.scheduled_terminal < length k.console.terminal_list
    → k.console.curr_terminal_num < length k.console.terminal_list
    → Ensures
        (IsReturned pid i esp ebp status (waiting_parent q esp ebp))
        (return_to_parent k status)
return_to_parent-IsReturned k pid i esp ebp status q child cur slot from table parent ne sched
      shown =
    let (ended, e, ok) = Ensures-some IsEnded (end_pcb child) (end_pcb-IsEnded child table) in
    let (d, f) = drop_vidmap-some k.console sched shown in
    let par : get_elem? k.pcbs child.parent_id ≡ some (waiting_parent q esp ebp) =
      ap (get_elem? k.pcbs) from ∙ parent in
    rw (return_to_parent-step k status, cur, slot, par, e, f)
      (record {
        how = refl;
        current = ap some from;
        there = get_elem?-set_ne k.pcbs ended (λ h. ne (sym h)) ∙ parent;
        stack = refl;
        ended = rw (get_elem?-set_self k.pcbs pid ended (get_elem?-some k.pcbs pid child slot)) ok;
      })

-- A process `i` that executes a program, in a terminal where processes run and with a slot `pid` for
-- the child, starts it: the child is the current process, has `i` as its parent, and the two
-- registers of the call are kept in the parent. In any later state, whatever happened in between,
-- where the child is current with its descriptors in order and the parent's slot is as it was left,
-- the end of the child with a status brings the system back into the parent's call: with the same
-- registers, the status (256 for an exception) and the parent as the current process, while the
-- slot of the child and all its descriptors are free. Nothing of this faults.
pub start_process-return_to_parent :
    (k m : Kernel) (pid i inode esp ebp status : ℕ) (entry argument image : List ℕ)
    (q old child : Pcb) (t : Terminal)
    → k.curr_pcb ≡ some i
    → get_elem? k.pcbs i ≡ some q
    → q.pid ≡ i
    → get_elem? k.pcbs pid ≡ some old
    → i ≢ pid
    → i ≢ minus_one
    → get_elem? k.console.terminal_list k.console.scheduled_terminal ≡ some t
    → t.count_pcb ≢ 0
    → read_data k.fs inode 0 false (k.fs.inodes inode).length ≡ ((k.fs.inodes inode).length, image)
    → m.curr_pcb ≡ some pid
    → get_elem? m.pcbs pid ≡ some child
    → child.parent_id ≡ i
    → IsTable child
    → get_elem? m.pcbs i ≡ some (waiting_parent q esp ebp)
    → m.console.scheduled_terminal < length m.console.terminal_list
    → m.console.curr_terminal_num < length m.console.terminal_list
    → ((l : Kernel) × (start_process k pid argument inode entry esp ebp
          ≡ some (started (word_of entry) image, l))
        × (l.curr_pcb ≡ some pid)
        × (get_elem? l.pcbs i ≡ some (waiting_parent q esp ebp))
        × (get_elem? l.pcbs pid ≡ some (new_child old t pid i argument k.tss_esp0)))
      × Ensures
          (IsReturned pid i esp ebp status (waiting_parent q esp ebp))
          (return_to_parent m status)
start_process-return_to_parent k m pid i inode esp ebp status entry argument image q old child t cur
      here own slot ne valid term busy all cur' slot' from table parent sched shown =
    (
      start_process-child k pid i inode esp ebp entry argument image q old t cur here own slot ne
          valid term busy all,
      return_to_parent-IsReturned m pid i esp ebp status q child cur' slot' from table parent ne
          sched shown,
    )
