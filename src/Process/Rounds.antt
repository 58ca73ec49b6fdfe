-- ===== src/Process/Rounds.antt =====
-- Three turns of `scheduler` go round the terminals.
use osgods.Common.{
  ℕ, ◌≡◌, refl, sym, ◌∙◌, ◌≢◌, some, get_elem?, get_elem?-set_ne, set, get_elem?-set_self,
  get_elem?-some, minus_one,
}
use mathlib.Core.Path.{subst}
use osgods.Console.{Terminal}
use osgods.Kernel.{Kernel}
use osgods.Paging.{set_up_paging}
use osgods.Pcb.{Pcb}
use osgods.Process.{switched}
use osgods.Process.Switching.{scheduler}
use osgods.Process.Turns.{scheduler-Turned}

-- Terminal `tid` has the process `i`, whose block is `p`, and `next` comes after it.
pub record Runs (tid i next : ℕ) (p : Pcb) (k : Kernel) : Type 0 where
  pub terminal : Terminal
  pub there : get_elem? k.console.terminal_list tid ≡ some terminal
  pub own : terminal.tid ≡ tid
  pub following : terminal.next_terminal ≡ some next
  pub its : terminal.pcb_ptr ≡ some i
  pub busy : terminal.count_pcb ≢ 0
  pub block : get_elem? k.pcbs i ≡ some p

-- The block of a process that was left with these registers.
abbrev pub kept : Pcb → ℕ → ℕ → ℕ → Pcb
kept p esp ebp esp0 = record p { saved_esp = esp; saved_ebp = ebp; tss_esp0 = esp0 }

-- Terminal `tid` is scheduled and its process `i` is the current one.
pub record Current (tid i : ℕ) (k : Kernel) : Type 0 where
  pub scheduled : k.console.scheduled_terminal ≡ tid
  pub current : k.curr_pcb ≡ some i
  pub first_done : k.pid ≢ minus_one

-- What one turn from terminal `x` with process `i` to terminal `y` with process `j` leaves.
pub record Turn (x i y j : ℕ) (p : Pcb) (esp ebp : ℕ) (q : Pcb) (k l : Kernel) : Type 0 where
  pub switches : scheduler k esp ebp ≡ some (switched q.saved_esp q.saved_ebp, l)
  pub now : Current y j l
  pub stack : l.tss_esp0 ≡ q.tss_esp0
  pub pages : l.paging ≡ set_up_paging k.paging q.pid
  pub left : Runs x i y (kept p esp ebp k.tss_esp0) l
  pub others : (w m after : ℕ) (r : Pcb) → x ≢ w → i ≢ m → Runs w m after r k → Runs w m after r l

turn :
    (x i y j after : ℕ) (p q : Pcb) (esp ebp : ℕ) (k : Kernel)
    → Current x i k
    → Runs x i y p k
    → Runs y j after q k
    → y ≢ x
    → j ≢ i
    → (l : Kernel) × Turn x i y j p esp ebp q k l
turn x i y j after p q esp ebp k c here to elsewhere other =
    let sched : get_elem? k.console.terminal_list k.console.scheduled_terminal
        ≡ some here.terminal =
      rw c.scheduled here.there in
    let (l, runs, pages, terminals, pcbs, pid, turned) =
      scheduler-Turned k esp ebp i y j here.terminal to.terminal p q c.current here.block
        c.first_done sched here.following to.there to.own to.its to.busy to.block other
        (rw c.scheduled elsewhere) in
    let terminals' : l.console.terminal_list
        ≡ set k.console.terminal_list x (record here.terminal { pcb_ptr = some i }) =
      terminals ∙ rw c.scheduled refl in
    (
      l,
      record {
        switches = runs;
        now = record {
          scheduled = turned.scheduled;
          current = turned.running;
          first_done = λ e. c.first_done (sym pid ∙ e);
        };
        stack = turned.stack;
        pages = pages;
        left = record {
          terminal = record here.terminal { pcb_ptr = some i };
          there = rw terminals' (
              get_elem?-set_self k.console.terminal_list x _
                (get_elem?-some k.console.terminal_list x here.terminal here.there));
          own = here.own;
          following = here.following;
          its = refl;
          busy = here.busy;
          block = rw pcbs (get_elem?-set_self k.pcbs i _ (get_elem?-some k.pcbs i p here.block));
        };
        others = λ w m later r x_w i_m runs. record {
          terminal = runs.terminal;
          there = rw terminals' (get_elem?-set_ne k.console.terminal_list _ x_w ∙ runs.there);
          own = runs.own;
          following = runs.following;
          its = runs.its;
          busy = runs.busy;
          block = rw pcbs (get_elem?-set_ne k.pcbs _ i_m ∙ runs.block);
        };
      },
    )

-- Three terminals in a ring, each with a process of its own, and nothing changed between the turns but
-- registers: no turn of the scheduler faults, the first and second turn go to the second and third
-- process, and whatever registers these have when their turns end, the third turn brings the first
-- process back, with its registers, its pages and its kernel stack, on its terminal, and all three are
-- kept as they were left.
pub scheduler-round :
    (x y z i j m esp ebp esp1 ebp1 esp2 ebp2 : ℕ) (p q r : Pcb) (k : Kernel)
    → Current x i k
    → Runs x i y p k
    → Runs y j z q k
    → Runs z m x r k
    → (x ≢ y) × (y ≢ z) × (z ≢ x)
    → (i ≢ j) × (j ≢ m) × (m ≢ i)
    → (l1 : Kernel) × (l2 : Kernel) × (l : Kernel) × (scheduler k esp ebp
        ≡ some (switched q.saved_esp q.saved_ebp, l1))
      × (scheduler l1 esp1 ebp1 ≡ some (switched r.saved_esp r.saved_ebp, l2))
      × (scheduler l2 esp2 ebp2 ≡ some (switched esp ebp, l))
      × Current x i l
      × (l.tss_esp0 ≡ k.tss_esp0)
      × (l.paging ≡ set_up_paging l2.paging p.pid)
      × Runs x i y (kept p esp ebp k.tss_esp0) l
      × Runs y j z (kept q esp1 ebp1 q.tss_esp0) l
      × Runs z m x (kept r esp2 ebp2 r.tss_esp0) l
scheduler-round x y z i j m esp ebp esp1 ebp1 esp2 ebp2 p q r k c a b d (xy, yz, zx) (ij, jm, mi) =
    let (l1, t1) = turn x i y j z p q esp ebp k c a b (λ e. xy (sym e)) (λ e. ij (sym e)) in
    let d1 = t1.others z m x r (λ e. zx (sym e)) (λ e. mi (sym e)) d in
    let b1 = t1.others y j z q xy ij b in
    let (l2, t2) =
      turn y j z m x q r esp1 ebp1 l1 t1.now b1 d1 (λ e. yz (sym e)) (λ e. jm (sym e)) in
    let a2 = t2.others x i y _ (λ e. xy (sym e)) (λ e. ij (sym e)) t1.left in
    let d2 = t2.others z m x r yz jm d1 in
    let (l, t3) =
      turn z m x i y r _ esp2 ebp2 l2 t2.now d2 a2 (λ e. zx (sym e)) (λ e. mi (sym e)) in
    (
      l1,
      l2,
      l,
      t1.switches,
      t2.switches,
      t3.switches,
      t3.now,
      t3.stack,
      t3.pages,
      t3.others x i y _ zx mi a2,
      subst (λ s. Runs y j z (kept q esp1 ebp1 s) l) t1.stack
          (t3.others y j z _ (λ e. yz (sym e)) (λ e. jm (sym e)) t2.left),
      subst (λ s. Runs z m x (kept r esp2 ebp2 s) l) t2.stack t3.left,
    )
