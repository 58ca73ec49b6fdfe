-- ===== src/Files/Table.antt =====
-- The descriptor table: which descriptor is given out, and what stays with the terminal.
use osgods.Common.{
  ℕ, ◌^◌, ◌≤◌, ◌<◌, ◌≡◌, refl, sym, ap, ◌∙◌, ◌≢◌, ◌⊎◌, inl, inr, not, ◌&&◌, ◌||◌, Option, some,
  arith, ◌==◌, Bool-cases, length, get_elem?, set, length-set, get_elem?-set_self, get_elem?-set_ne,
  minus_one, slt, All, All-set, All-get_elem?,
}
use mathlib.Core.Option
use osgods.Files.{close}
use osgods.Pcb.{
  Pcb, FileObject, null_table, stdin_table, stdout_table, fail_table, at_fd, max_file_num,
}

-- A descriptor is free or in use, and one in use has a table that can be called.
abbrev pub IsFile : FileObject → Type 0
IsFile o = ((o.flag ≡ 0) ⊎ (o.flag ≡ 1)) × (o.flag ≡ 1 → o.file_op_tb ≢ null_table)

-- Eight descriptors in order, the first two those of the terminal.
pub record IsTable (p : Pcb) : Type 0 where
  pub eight : length p.file_descriptor ≡ max_file_num
  pub files : All IsFile p.file_descriptor
  pub stdin :
      (o : FileObject)
      → get_elem? p.file_descriptor 0 ≡ some o
      → (o.file_op_tb ≡ stdin_table) × (o.flag ≡ 1)
  pub stdout :
      (o : FileObject)
      → get_elem? p.file_descriptor 1 ≡ some o
      → (o.file_op_tb ≡ stdout_table) × (o.flag ≡ 1)

-- A change of a descriptor behind the terminal's keeps the table in order.
pub set-IsTable :
    (p : Pcb) (fd : ℕ) (o : FileObject)
    → IsTable p
    → 2 ≤ fd
    → IsFile o
    → IsTable (record p { file_descriptor = set p.file_descriptor fd o })
set-IsTable p fd o t two ok = record {
  eight = length-set p.file_descriptor fd o ∙ t.eight;
  files = All-set IsFile p.file_descriptor fd o t.files ok;
  stdin = λ x g. t.stdin x (sym (get_elem?-set_ne p.file_descriptor o (λ e. omega arith)) ∙ g);
  stdout = λ x g. t.stdout x (sym (get_elem?-set_ne p.file_descriptor o (λ e. omega arith)) ∙ g);
}

-- What `close` leaves of a descriptor.
abbrev pub closed : FileObject → FileObject
closed o = record o { flag = 0; file_op_tb = fail_table; inode = 0; file_position = 0 }

-- Descriptor `fd` is one of the six that are not the terminal's, and open.
abbrev pub IsOpen : Pcb → ℕ → Type 0
IsOpen p fd =
    (2 ≤ fd)
    × (fd < max_file_num)
    × (o : FileObject) × (get_elem? p.file_descriptor fd ≡ some o)
    × (o.flag ≡ 1)

-- What `close` does with `p`: it refuses a descriptor that is not open or the terminal's and changes
-- nothing, or it frees an open one and changes no other.
pub record Closes (p : Pcb) (fd : ℕ) (result : Option (ℕ × Pcb)) : Type 0 where
  pub code : ℕ
  pub after : Pcb
  pub returns : result ≡ some (code, after)
  pub table : IsTable after
  pub effect :
      ((IsOpen p fd → ⊥) × (code ≡ minus_one) × (after ≡ p))
      ⊎ (IsOpen p fd
          × (code ≡ 0)
          × ((i : ℕ) → fd ≢ i → get_elem? after.file_descriptor i ≡ get_elem? p.file_descriptor i)
          × (get_elem? after.file_descriptor fd
              ≡ some (record { file_op_tb = fail_table; inode = 0; file_position = 0; flag = 0 })))

pub refused : (p : Pcb) (fd : ℕ) → IsTable p → (IsOpen p fd → ⊥) → Closes p fd (some (minus_one, p))
refused p fd t other = record {
  code = minus_one;
  after = p;
  returns = refl;
  table = t;
  effect = inl (other, refl, refl);
}

-- Whatever its argument, `close` returns: for a descriptor from 2 to 7 that is open it gives 0, the
-- descriptor is free, with the table that fails, and no other is changed; for every other argument it
-- gives -1 and changes nothing. The descriptors stay in order, the first two those of the terminal.
pub close-Closes : (p : Pcb) (fd : ℕ) → IsTable p → fd < 2 ^ 32 → Closes p fd (close p fd)
unfolding close at_fd
close-Closes p fd t small = elim (Bool-cases (fd == 0 || fd == 1)) [
  | inl low ↦ rw low (refused p fd t (λ h. ground (arith, h.0)))
  | inr other ↦ elim (Bool-cases (slt fd max_file_num && not (slt fd 2))) [
    | inr out ↦ rw (other, out) (refused p fd t (λ h. ground (arith, h.0, h.1)))
    | inl inside ↦
        let lt : fd < max_file_num = ground arith in
        let ge : 2 ≤ fd = ground arith in
        let (o, there, ok) =
          All-get_elem? IsFile p.file_descriptor fd t.files (omega (arith, t.eight)) in
        rw (other, inside, there)
          (elim (Bool-cases (o.flag == 0)) [
            | inl free ↦ rw free (
                refused p fd t (λ h.
                  let same : o ≡ h.2 = Option.some_inj.0 (sym there ∙ h.3) in
                  ground (arith, h.4, ap (λ (x : FileObject). x.flag) same)))
            | inr used ↦ rw used (record {
              code = 0;
              after = record p { file_descriptor = set p.file_descriptor fd (closed o) };
              returns = refl;
              table = set-IsTable p fd (closed o) t ge (inl refl, λ e. ground arith);
              effect = inr (
                (ge, lt, o, there, ground (arith, ok.0)),
                refl,
                (λ i ne. get_elem?-set_ne p.file_descriptor (closed o) ne),
                get_elem?-set_self p.file_descriptor fd (closed o) (omega (arith, t.eight)),
              );
            })
          ])
  ]
]
