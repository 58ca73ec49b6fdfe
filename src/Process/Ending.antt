-- ===== src/Process/Ending.antt =====
-- What is left of a process that ends.
use osgods.Common.{
  ℕ, zero, suc, ◌+◌, ◌≤◌, ◌<◌, ◌≡◌, refl, sym, ap, ◌∙◌, inl, inr, true, false, not, ◌&&◌, ◌||◌,
  Option, none, some, List, [], ◌∷◌, arith, ◌==◌, if◌then◌else◌, Bool-cases, length, get_elem?, set,
  length-set, get_elem?-set_self, get_elem?-set_ne, minus_one, slt, All, Ensures, Ensures-bind,
  All-at, get_elem?-lt, get_elem?-some,
}
use osgods.Files.{close}
use osgods.Files.Table.{IsFile, IsTable, set-IsTable, closed}
use osgods.Pcb.{Pcb, FileObject, at_fd, max_file_num}
use osgods.Process.Switching.{close_files, end_pcb}

-- From `i` on, `n` descriptors are free; the ones below are those of `p`.
record Freed (p : Pcb) (i n : ℕ) (q : Pcb) : Type 0 where
  table : IsTable q
  free :
      (j : ℕ) (o : FileObject)
      → i ≤ j
      → j < i + n
      → get_elem? q.file_descriptor j ≡ some o
      → o.flag ≡ 0
  below : (j : ℕ) → j < i → get_elem? q.file_descriptor j ≡ get_elem? p.file_descriptor j

-- Equal places hold equal elements.
same_at :
    (xs : List FileObject) {i j : ℕ} (o x : FileObject)
    → get_elem? xs i ≡ some o
    → i ≡ j
    → get_elem? xs j ≡ some x
    → o ≡ x
same_at xs o x g here h = let e : some o ≡ some x = sym g ∙ ap (get_elem? xs) here ∙ h in cc

Ensures-mono :
    {A : Type 0} (P Q : A → Type 0) (m : Option A)
    → Ensures P m
    → ((a : A) → P a → Q a)
    → Ensures Q m
Ensures-mono P Q none h k = h
Ensures-mono P Q (some a) h k = k a h

-- One round of the loop.
close_round :
    (p : Pcb) (i : ℕ) (o : FileObject)
    → IsTable p
    → 2 ≤ i
    → i < max_file_num
    → get_elem? p.file_descriptor i ≡ some o
    → (r : ℕ) × (shut : Pcb) × (close p i ≡ some (r, shut))
      × Freed p i 1 (if o.flag == 1 then shut else p)
unfolding close at_fd
close_round p i o t two eight there =
    let low : (i == 0 || i == 1) ≡ false = ground arith in
    let inside : (slt i max_file_num && not (slt i 2)) ≡ true = ground arith in
    elim (Bool-cases (o.flag == 1)) [
      | inl used ↦
          let taken : (o.flag == 0) ≡ false = ground arith in
          let fds = set p.file_descriptor i (closed o) in
          (
            0,
            record p { file_descriptor = fds },
            rw (low, inside, there, taken) refl,
            rw used (record {
              table = set-IsTable p i (closed o) t two (inl refl, λ e. ground arith);
              free = λ j x le lt g.
                  let here : i ≡ j = omega arith in
                  let same : closed o ≡ x =
                    same_at fds (closed o) x
                      (get_elem?-set_self p.file_descriptor i (closed o) (omega (arith, t.eight)))
                      here g in
                  sym (ap (λ (o : FileObject). o.flag) same);
              below = λ j lt. get_elem?-set_ne p.file_descriptor (closed o) (λ e. omega (arith, e));
            }),
          )
      | inr unused ↦
          let zero_flag : o.flag ≡ 0 = elim (All-at IsFile p.file_descriptor i o t.files there).0 [
            | inl z ↦ z
            | inr z ↦ absurd (ground arith)
          ] in
          let free : (o.flag == 0) ≡ true = ground arith in
          (
            minus_one,
            p,
            rw (low, inside, there, free) refl,
            rw unused (record {
              table = t;
              free = λ j x le lt g.
                  let here : i ≡ j = omega arith in
                  let same : o ≡ x = same_at p.file_descriptor o x there here g in
                  sym (ap (λ (o : FileObject). o.flag) same) ∙ zero_flag;
              below = λ j lt. refl;
            }),
          )
    ]

close_files-Freed :
    (n i : ℕ) (p : Pcb)
    → IsTable p
    → 2 ≤ i
    → i + n ≤ max_file_num
    → Ensures (Freed p i n) (close_files n i p)
unfolding close_files
close_files-Freed zero i p t two fits = record {
  table = t;
  free = λ j o le lt g. absurd (omega arith);
  below = λ j lt. refl;
}
close_files-Freed (suc n) i p t two fits =
    let (o, there) = get_elem?-lt p.file_descriptor i (omega (arith, t.eight)) in
    let (r, shut, e, f) = close_round p i o t two (omega arith) there in
    let p' = if o.flag == 1 then shut else p in
    rw (there, e)
      (Ensures-mono (Freed p' (i + 1) n) (Freed p i (suc n)) (close_files n (i + 1) p')
        (close_files-Freed n (i + 1) p' f.table (omega arith) (omega arith))
        λ q g. record {
          table = g.table;
          free = λ j o le lt there. elim (Bool-cases (i == j)) [
            | inl same ↦ f.free j o le (ground arith) (sym (g.below j (ground arith)) ∙ there)
            | inr later ↦ g.free j o (ground arith) (omega arith) there
          ];
          below = λ j lt. g.below j (omega arith) ∙ f.below j lt;
        })

-- All descriptors are free and the slot is.
pub record IsEnded (q : Pcb) : Type 0 where
  pub inactive : q.active ≡ 0
  pub eight : length q.file_descriptor ≡ max_file_num
  pub files : All (λ o. o.flag ≡ 0) q.file_descriptor

All-from_places :
    (P : FileObject → Type 0) (xs : List FileObject)
    → ((j : ℕ) (o : FileObject) → get_elem? xs j ≡ some o → P o)
    → All P xs
All-from_places P [] h = tt
All-from_places P (x ∷ xs) h = (h 0 x refl, All-from_places P xs (λ j o g. h (suc j) o g))

-- With the terminal's two closed after the others, all are free.
closed_io-free :
    (fds : List FileObject) (a b : FileObject)
    → length fds ≡ max_file_num
    → a.flag ≡ 0
    → b.flag ≡ 0
    → ((j : ℕ) (o : FileObject) → 2 ≤ j → j < max_file_num → get_elem? fds j ≡ some o → o.flag ≡ 0)
    → All (λ o. o.flag ≡ 0) (set (set fds 0 a) 1 b)
closed_io-free fds a b eight za zb free =
    All-from_places (λ o. o.flag ≡ 0) (set (set fds 0 a) 1 b) place
  where
    one : length (set fds 0 a) ≡ length fds
    one = length-set fds 0 a

    place : (j : ℕ) (o : FileObject) → get_elem? (set (set fds 0 a) 1 b) j ≡ some o → o.flag ≡ 0
    place zero o g =
        let at : get_elem? (set (set fds 0 a) 1 b) 0 ≡ some a =
          get_elem?-set_ne (set fds 0 a) b (λ e. omega (arith, e))
          ∙ get_elem?-set_self fds 0 a (omega (arith, eight)) in
        sym (ap (λ (o : FileObject). o.flag) (same_at (set (set fds 0 a) 1 b) a o at refl g)) ∙ za
    place (suc zero) o g =
        let at = get_elem?-set_self (set fds 0 a) 1 b (omega (arith, eight, one)) in
        sym (ap (λ (o : FileObject). o.flag) (same_at (set (set fds 0 a) 1 b) b o at refl g)) ∙ zb
    place (suc (suc j)) o g =
        let at : get_elem? (set (set fds 0 a) 1 b) (suc (suc j)) ≡ get_elem? fds (suc (suc j)) =
          get_elem?-set_ne (set fds 0 a) b (λ e. omega (arith, e))
          ∙ get_elem?-set_ne fds a (λ e. omega (arith, e)) in
        let there : get_elem? fds (suc (suc j)) ≡ some o = sym at ∙ g in
        free (suc (suc j)) o (omega arith)
          (omega (arith, eight, get_elem?-some fds (suc (suc j)) o there)) there

-- Of a process with its descriptors in order, `end_pcb` leaves a slot that is not active, with all
-- eight descriptors free, and does not fault.
pub end_pcb-IsEnded : (p : Pcb) → IsTable p → Ensures IsEnded (end_pcb p)
unfolding end_pcb at_fd
end_pcb-IsEnded p t =
    Ensures-bind (Freed p 2 6) IsEnded (close_files 6 2 p) _
      (close_files-Freed 6 2 p t (omega arith) (omega arith))
      λ q f.
        let fds = q.file_descriptor in
        let (a, ga) = get_elem?-lt fds 0 (omega (arith, f.table.eight)) in
        let (b, gb) = get_elem?-lt fds 1 (omega (arith, f.table.eight)) in
        let a' : FileObject = record a { flag = 0 } in
        let b' : FileObject = record b { flag = 0 } in
        let gb' : get_elem? (set fds 0 a') 1 ≡ some b =
          get_elem?-set_ne fds a' (λ e. omega (arith, e)) ∙ gb in
        rw (ga, gb')
          (record {
            inactive = refl;
            eight = length-set (set fds 0 a') 1 b' ∙ length-set fds 0 a' ∙ f.table.eight;
            files = closed_io-free fds a' b' f.table.eight refl refl f.free;
          })
