-- ===== src/Files/Opening.antt =====
-- `open`: the lowest free descriptor, and what it is set up for.
use osgods.Common.{
  ℕ, zero, suc, ◌+◌, ◌-◌, ◌^◌, ◌≤◌, ◌<◌, ◌≡◌, refl, sym, ap, ◌∙◌, ◌⊎◌, inl, inr, not, ◌&&◌, ◌||◌,
  Option, none, some, List, [], ◌∷◌, arith, ◌==◌, if◌then◌else◌, Bool-cases, length, get_elem?, set,
  get_elem?-set_self, get_elem?-set_ne, ◌≢◌, minus_one, slt, All,
}
use mathlib.Core.Path.{subst}
use osgods.Files.{free_fd, open_fd, open_with, open_at, type_table, blank_dentry}
use osgods.Files.Table.{IsFile, IsTable, set-IsTable}
use osgods.Filesystem.{Image, Dentry, read_dentry_by_name}
use osgods.Pcb.{Pcb, FileObject, at_fd, max_file_num}

-- The first `n` descriptors are in use.
abbrev pub InUse : ℕ → List FileObject → Type 0
InUse zero os = Unit {0}
InUse (suc n) [] = Unit {0}
InUse (suc n) (o ∷ os) = (o.flag ≡ 1) × InUse n os

-- Descriptor `k` is the lowest free one.
pub record IsLowestFree (os : List FileObject) (k : ℕ) : Type 0 where
  pub file : FileObject
  pub there : get_elem? os k ≡ some file
  pub free : file.flag ≡ 0
  pub below : InUse k os

pub data Search (os : List FileObject) (n i : ℕ) (r : Option (Option ℕ)) : Type 0 where
  found : (k : ℕ) → k < n → r ≡ some (some (i + k)) → IsLowestFree os k → Search os n i r
  full : r ≡ some none → InUse n os → Search os n i r

Search-cons :
    (o : FileObject) (os : List FileObject) (n i : ℕ) (r : Option (Option ℕ))
    → o.flag ≡ 1
    → Search os n (i + 1) r
    → Search (o ∷ os) (suc n) i r
Search-cons o os n i r used (found k lt e f) =
    found (suc k) (omega arith) (e ∙ ap (λ m. some (some m)) (omega arith))
      (record { file = f.file; there = f.there; free = f.free; below = (used, f.below) })
Search-cons o os n i r used (full e all) = full e (used, all)

free_fd-Search :
    (n i : ℕ) (os : List FileObject)
    → length os ≡ n
    → i + n ≡ max_file_num
    → 0 < n
    → All IsFile os
    → Search os n i (free_fd n i os)
unfolding free_fd
free_fd-Search zero i os fits e pos files = absurd (omega arith)
free_fd-Search (suc n) i [] fits e pos files = absurd (omega arith)
free_fd-Search (suc n) i (o ∷ os) fits e pos files = elim (Bool-cases (o.flag == 0)) [
  | inl free ↦ rw free (
      found 0 (omega arith) (ap (λ m. some (some m)) (omega arith))
        (record { file = o; there = refl; free = ground arith; below = tt }))
  | inr taken ↦
      let used : o.flag ≡ 1 = ground (arith, files.0) in
      elim (Bool-cases (i == max_file_num - 1 && o.flag == 1)) [
        | inl last ↦
            rw (taken, last)
              (full refl
                (used, let n0 : n ≡ 0 = ground arith in subst (λ n. InUse n os) (sym n0) tt))
        | inr more ↦
            rw (taken, more)
              (Search-cons o os n i (free_fd n (i + 1) os) used
                (free_fd-Search n (i + 1) os (omega arith) (omega arith) (ground arith) files.1))
      ]
]

-- Why `open` refuses: the directory has no such name, the entry has none of the three types, or all
-- eight descriptors are in use.
abbrev pub CannotOpen : Pcb → ℕ → Dentry → Type 0
CannotOpen p r d = (r ≢ 0) ⊎ ((2 < d.file_type) ⊎ InUse max_file_num p.file_descriptor)

-- What `open` does with `p`, when looking up the name in the directory gives `r` and the entry `d`: if it
-- cannot open the entry it gives -1 and changes nothing, otherwise it sets up the lowest free
-- descriptor for it and changes no other.
pub record Opens (p : Pcb) (r : ℕ) (d : Dentry) (result : Option (ℕ × Pcb)) : Type 0 where
  pub code : ℕ
  pub after : Pcb
  pub returns : result ≡ some (code, after)
  pub table : IsTable after
  pub effect :
      (CannotOpen p r d × (code ≡ minus_one) × (after ≡ p))
      ⊎ ((r ≡ 0)
          × (d.file_type ≤ 2)
          × ((i : ℕ) → code ≢ i → get_elem? after.file_descriptor i ≡ get_elem? p.file_descriptor i)
          × IsLowestFree p.file_descriptor code
          × (2 ≤ code)
          × (code < max_file_num)
          × (get_elem? after.file_descriptor code
              ≡ some (record {
                file_op_tb = type_table d.file_type;
                inode =
                    if d.file_type == 2
                    then d.inode_id
                    else if d.file_type == 0
                    then minus_one
                    else 0;
                file_position = 0;
                flag = 1;
              })))

module _ (fs : Image) (p : Pcb) (name : List ℕ) (t : IsTable p) where
  refused-Opens : (r : ℕ) (d : Dentry) → CannotOpen p r d → Opens p r d (some (minus_one, p))
  refused-Opens r d why = record {
    code = minus_one;
    after = p;
    returns = refl;
    table = t;
    effect = inl (why, refl, refl);
  }

  -- A free descriptor is not one of the terminal's.
  lowest-ge-two : (k : ℕ) → IsLowestFree p.file_descriptor k → 2 ≤ k
  lowest-ge-two zero f = absurd (ground (arith, t.stdin f.file f.there, f.free))
  lowest-ge-two (suc zero) f = absurd (ground (arith, t.stdout f.file f.there, f.free))
  lowest-ge-two (suc (suc k)) f = omega arith

  opened : Dentry → FileObject
  opened d = record {
    file_op_tb = type_table d.file_type;
    inode = if d.file_type == 2 then d.inode_id else if d.file_type == 0 then minus_one else 0;
    file_position = 0;
    flag = 1;
  }

  opened-IsFile : (d : Dentry) → IsFile (opened d)
  unfolding opened
  opened-IsFile d = ground arith

  open_at-Opens :
      (k r : ℕ) (d : Dentry)
      → read_dentry_by_name fs name blank_dentry ≡ some (r, d)
      → d.file_type < 2 ^ 32
      → k < max_file_num
      → IsLowestFree p.file_descriptor k
      → Opens p r d (open_at fs p name k)
  unfolding open_at at_fd opened
  open_at-Opens k r d e small lt f = rw e (elim (Bool-cases (not (r == 0))) [
    | inl missing ↦ rw missing (refused-Opens r d (inl (λ e. ground (arith, e))))
    | inr there ↦ elim (Bool-cases (slt d.file_type 0 || slt 2 d.file_type)) [
      | inl bad ↦ rw (there, bad) (refused-Opens r d (inr (inl (ground arith))))
      | inr good ↦
          let zero_r : r ≡ 0 = ground arith in
          rw (there, good, f.there)
            (record {
              code = k;
              after = record p { file_descriptor = set p.file_descriptor k (opened d) };
              returns = refl;
              table = set-IsTable p k (opened d) t (lowest-ge-two k f) (opened-IsFile d);
              effect = inr (
                zero_r,
                ground arith,
                (λ i ne. get_elem?-set_ne p.file_descriptor (opened d) ne),
                f,
                lowest-ge-two k f,
                lt,
                get_elem?-set_self p.file_descriptor k (opened d) (omega (arith, t.eight)),
              );
            })
    ]
  ])

  -- Where the directory can be read, `open` of a name returns. It gives -1 and changes nothing only if
  -- the directory has no such name, the entry has none of the three types or all descriptors are in
  -- use. Otherwise it gives the lowest free descriptor, from 2 to 7, set to the start of the entry that
  -- has the name, with the table of the entry's type and with the entry's inode, 0 for a directory and
  -- -1 for the clock, and no other is changed. The descriptors stay in order.
  pub open_fd-Opens :
      (r : ℕ) (d : Dentry)
      → read_dentry_by_name fs name blank_dentry ≡ some (r, d)
      → d.file_type < 2 ^ 32
      → Opens p r d (open_fd fs p (some name))
  unfolding open_fd open_with
  open_fd-Opens r d e small =
      by_search (free_fd-Search 8 0 p.file_descriptor t.eight refl (omega arith) t.files)
    where
      same : (k : ℕ) → 0 + k ≡ k
      same k = omega arith

      by_search :
          Search p.file_descriptor 8 0 (free_fd 8 0 p.file_descriptor)
          → Opens p r d (open_fd fs p (some name))
      by_search (found k lt eq f) =
          rw (eq ∙ ap (λ m. some (some m)) (same k)) (open_at-Opens k r d e small lt f)
      by_search (full eq all) = rw eq (refused-Opens r d (inr (inr all)))
