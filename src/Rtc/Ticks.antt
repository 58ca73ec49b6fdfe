-- ===== src/Rtc/Ticks.antt =====
-- A tick of the clock and the read that waits for it.
use osgods.Common.{
  ℕ, zero, suc, ◌-◌, ◌^◌, ◌≤◌, ◌<◌, ◌≡◌, refl, sym, ap, ◌∙◌, ◌≢◌, inl, inr, true, false, ◌&&◌,
  Option, none, some, List, [], ◌∷◌, arith, ◌==◌, if◌then◌else◌, ==_iff, Bool-cases, length,
  get_elem?, set, get_elem?-set_self, add32, minus_one, All, Ensures, Ensures-bind, Ensures-some,
  Ensures-if, All-at,
}
use osgods.Pcb.{Pcb, FileObject, at_fd, max_file_num}
use osgods.Pic.{Pic}
use osgods.Rtc.{Rtc, returned, tick_fds, tick_pcbs, rtc_intr_handler, rtc_read}

-- An open descriptor of the clock, as the handler tells it.
abbrev IsClock : FileObject → Type 0
IsClock o = (o.inode ≡ minus_one) × (o.flag ≡ 1)

-- `fd` is the first such descriptor.
abbrev pub IsFirstClock : List FileObject → ℕ → Type 0
IsFirstClock [] fd = ⊥
IsFirstClock (o ∷ os) zero = IsClock o
IsFirstClock (o ∷ os) (suc fd) = (IsClock o → ⊥) × IsFirstClock os fd

-- A descriptor with one tick more.
abbrev ticked : FileObject → FileObject
ticked o = record o { file_position = add32 o.file_position 1 }

tick_fds-first :
    (n : ℕ) (os : List FileObject) (fd : ℕ) (o : FileObject)
    → fd < n
    → IsFirstClock os fd
    → get_elem? os fd ≡ some o
    → tick_fds n os ≡ some (set os fd (ticked o))
unfolding tick_fds
tick_fds-first zero os fd o lt h g = absurd (omega arith)
tick_fds-first (suc n) [] fd o lt h g = absurd h
tick_fds-first (suc n) (x ∷ os) zero o lt clock g =
    let e : (x.inode == minus_one && x.flag == 1) ≡ true = ground arith in
    let same : x ≡ o = cc in rw e (ap (λ y. some (ticked y ∷ os)) same)
tick_fds-first (suc n) (x ∷ os) (suc fd) o lt (other, h) g =
    let e : (x.inode == minus_one && x.flag == 1) ≡ false =
      elim (Bool-cases (x.inode == minus_one && x.flag == 1)) [
        | inl is ↦ absurd (other (ground arith, ground arith))
        | inr other_file ↦ other_file
      ] in
    rw (e, tick_fds-first n os fd o (omega arith) h g) refl

tick_fds-Ensures :
    (n : ℕ) (os : List FileObject) → n ≤ length os → Ensures (λ os'. Unit {0}) (tick_fds n os)
unfolding tick_fds
tick_fds-Ensures zero os h = tt
tick_fds-Ensures (suc n) [] h = absurd (omega arith)
tick_fds-Ensures (suc n) (o ∷ os) h = elim (Bool-cases (o.inode == minus_one && o.flag == 1)) [
  | inl clock ↦ rw clock tt
  | inr other ↦ rw other (
      let (r, e, u) =
        Ensures-some (λ os'. Unit {0}) (tick_fds n os) (tick_fds-Ensures n os (omega arith)) in
      rw e tt)
]

-- A process with eight descriptors is handled without a fault.
tick_one : Pcb → Option (List FileObject)
tick_one q =
    if q.active == 0 then some q.file_descriptor else tick_fds max_file_num q.file_descriptor

tick_one-Ensures :
    (q : Pcb) → length q.file_descriptor ≡ max_file_num → Ensures (λ os. Unit {0}) (tick_one q)
unfolding tick_one
tick_one-Ensures q h =
    Ensures-if (λ os. Unit {0}) (q.active == 0) _ _ (λ e. tt)
      (λ e. tick_fds-Ensures max_file_num q.file_descriptor (omega (arith, h)))

tick_pcbs-Ensures :
    (ps : List Pcb)
    → All (λ q. length q.file_descriptor ≡ max_file_num) ps
    → Ensures (λ qs. Unit {0}) (tick_pcbs ps)
unfolding tick_pcbs tick_one
tick_pcbs-Ensures [] all = tt
tick_pcbs-Ensures (q ∷ ps) all =
    Ensures-bind (λ os. Unit {0}) (λ qs. Unit {0}) (tick_one q) _ (tick_one-Ensures q all.0)
      λ os u.
        Ensures-bind (λ qs. Unit {0}) (λ qs. Unit {0}) (tick_pcbs ps) _ (tick_pcbs-Ensures ps all.1)
          λ r u. tt

-- The process after the tick reads without waiting, and its position is back at 0.
abbrev pub IsWoken : Pcb → ℕ → FileObject → Option Pcb → Type 0
IsWoken p fd o none = ⊥
IsWoken p fd o (some q) =
    rtc_read q fd
    ≡ some (
        returned (
          0,
          record p { file_descriptor = set p.file_descriptor fd (record o { file_position = 0 }) },
        ))

set-set : {A : Type 0} (xs : List A) (i : ℕ) (v w : A) → set (set xs i v) i w ≡ set xs i w
set-set [] i v w = refl
set-set (x ∷ xs) zero v w = refl
set-set (x ∷ xs) (suc i) v w = ap (λ r. x ∷ r) (set-set xs i v w)

module _ (p : Pcb) (fd : ℕ) (o : FileObject) (there : get_elem? p.file_descriptor fd ≡ some o)
    (first : IsFirstClock p.file_descriptor fd) (small : o.file_position < 2 ^ 32 - 1)
    (active : p.active ≢ 0) (in_range : fd < max_file_num)
    (eight : length p.file_descriptor ≡ max_file_num) where
  ticked-IsWoken :
      IsWoken p fd o (some (record p { file_descriptor = set p.file_descriptor fd (ticked o) }))
  unfolding rtc_read at_fd
  ticked-IsWoken =
      let some_ticks : (add32 o.file_position 1 == 0) ≡ false = ground arith in
      rw
        (
          get_elem?-set_self p.file_descriptor fd (ticked o) (omega arith),
          some_ticks,
          set-set p.file_descriptor fd (ticked o) (record o { file_position = 0 }),
        )
        refl

  tick_pcbs-IsWoken :
      (ps : List Pcb) (i : ℕ)
      → All (λ q. length q.file_descriptor ≡ max_file_num) ps
      → get_elem? ps i ≡ some p
      → Ensures (λ qs. IsWoken p fd o (get_elem? qs i)) (tick_pcbs ps)
  unfolding tick_pcbs tick_one
  tick_pcbs-IsWoken [] i all g = absurd cc
  tick_pcbs-IsWoken (q ∷ ps) zero all g =
      let same : q ≡ p = cc in
      let on : (q.active == 0) ≡ false = elim (Bool-cases (q.active == 0)) [
        | inl off ↦ absurd (active (sym (ap (λ x. x.active) same) ∙ (==_iff q.active 0).0 off))
        | inr on ↦ on
      ] in
      let woken : IsWoken p fd o
          (some (record q { file_descriptor = set p.file_descriptor fd (ticked o) })) =
        rw same ticked-IsWoken in
      let ticks : tick_fds max_file_num q.file_descriptor
          ≡ some (set p.file_descriptor fd (ticked o)) =
        rw same (tick_fds-first max_file_num p.file_descriptor fd o in_range first there) in
      rw (on, ticks)
        (Ensures-bind (λ qs. Unit {0}) (λ qs. IsWoken p fd o (get_elem? qs 0)) (tick_pcbs ps) _
          (tick_pcbs-Ensures ps all.1) λ r u. woken)
  tick_pcbs-IsWoken (q ∷ ps) (suc i) all g =
      Ensures-bind (λ os. Unit {0}) (λ qs. IsWoken p fd o (get_elem? qs (suc i))) (tick_one q) _
        (tick_one-Ensures q all.0)
        λ os u.
          Ensures-bind (λ qs. IsWoken p fd o (get_elem? qs i))
            (λ qs. IsWoken p fd o (get_elem? qs (suc i))) (tick_pcbs ps) _
            (tick_pcbs-IsWoken ps i all.1 g) λ r woken. woken

-- With eight descriptors in every process, the clock's interrupt does not fault, and after it a
-- process that is active no longer waits in `rtc_read` on its first open descriptor of the clock:
-- the read gives 0 and sets the position of that descriptor to 0, and the block is otherwise as
-- before the interrupt. The position must not be at its last value, from which it wraps.
pub rtc_intr_handler-IsWoken :
    (r : Rtc) (pic : Pic) (ps : List Pcb) (i : ℕ) (p : Pcb) (fd : ℕ) (o : FileObject)
    → All (λ q. length q.file_descriptor ≡ max_file_num) ps
    → get_elem? ps i ≡ some p
    → p.active ≢ 0
    → fd < max_file_num
    → get_elem? p.file_descriptor fd ≡ some o
    → IsFirstClock p.file_descriptor fd
    → o.file_position < 2 ^ 32 - 1
    → Ensures (λ (r', pic', qs). IsWoken p fd o (get_elem? qs i)) (rtc_intr_handler r pic ps)
unfolding rtc_intr_handler
rtc_intr_handler-IsWoken r pic ps i p fd o all g active in_range there first small =
    Ensures-bind (λ qs. IsWoken p fd o (get_elem? qs i)) _ (tick_pcbs ps) _
      (tick_pcbs-IsWoken p fd o there first small active in_range
        (All-at (λ q. length q.file_descriptor ≡ max_file_num) ps i p all g) ps i all g)
      λ qs woken. woken
