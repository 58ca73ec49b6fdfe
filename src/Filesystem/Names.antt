-- ===== src/Filesystem/Names.antt =====
-- Directory lookup: by name the first entry of that name, by index exactly the entries in use.
use osgods.Common.{
  get_elem?-lt, ℕ, zero, suc, ◌+◌, ◌^◌, ◌≤◌, ◌<◌, ◌≡◌, refl, ap, ◌∙◌, ◌⊎◌, inl, inr, true, not,
  ◌||◌, Option, some, List, [], ◌∷◌, arith, ◌==◌, ==_iff, Bool-cases, length, get_elem?, sub32,
  minus_one, slt, sign_extend8,
}
use mathlib.Core.Path.{subst}
use osgods.Strings.{strncmp}
use osgods.Strings.Compare.{prefix, Readable, strncmp_eq_zero}
use osgods.Filesystem.{
  Image, Dentry, file_name_size, find_dentry, read_dentry_by_name, read_dentry_by_index,
}

-- Names agree in the 32 bytes that count, up to a NUL.
abbrev pub SameName : List ℕ → Dentry → Type 0
SameName fname e = prefix file_name_size e.file_name ≡ prefix file_name_size fname

-- None of the first `n` entries has the name.
abbrev pub Absent : List ℕ → ℕ → List Dentry → Type 0
Absent fname n es = (j : ℕ) (e : Dentry) → j < n → get_elem? es j ≡ some e → ¬ SameName fname e

-- Every entry's name field is readable.
abbrev pub Readables : List Dentry → Type 0
Readables [] = Unit {0}
Readables (e ∷ es) = Readable file_name_size e.file_name × Readables es

-- The first entry of the name, and its place.
pub record Found (fname : List ℕ) (n : ℕ) (es : List Dentry) (r : Option (ℕ × Dentry))
    : Type 0 where
  pub index : ℕ
  pub entry : Dentry
  pub in_use : index < n
  pub there : get_elem? es index ≡ some entry
  pub same : SameName fname entry
  pub first : Absent fname index es
  pub returns : r ≡ some (0, entry)

abbrev pub Lookup : List ℕ → Dentry → ℕ → List Dentry → Option (ℕ × Dentry) → Type 0
Lookup fname d n es r = Found fname n es r ⊎ (Absent fname n es × (r ≡ some (minus_one, d)))

-- A comparison of readable names returns.
strncmp_returns :
    (n : ℕ) (s t : List ℕ) → Readable n s → Readable n t → (r : ℕ) × (strncmp s t n ≡ some r)
unfolding strncmp
strncmp_returns zero s t p q = (0, refl)
strncmp_returns (suc n) [] t p q = absurd p
strncmp_returns (suc n) (a ∷ s) [] p q = absurd q
strncmp_returns (suc n) (a ∷ s) (b ∷ t) p q = elim (Bool-cases (not (a == b) || a == 0)) [
  | inl stop ↦ (sub32 (sign_extend8 a) (sign_extend8 b), rw stop)
  | inr go ↦
      let more : Readable n s × Readable n t = ground arith in
      let (r, e) = strncmp_returns n s t more.0 more.1 in (r, rw go e)
]

module _ (fname : List ℕ) (d : Dentry) (ok : Readable file_name_size fname) where
  Absent-cons :
      (e : Dentry) (es : List Dentry) (n : ℕ)
      → ¬ SameName fname e
      → Absent fname n es
      → Absent fname (suc n) (e ∷ es)
  Absent-cons e es n ne rest zero e' h g =
      let here : e' ≡ e = cc in λ same. ne (subst (SameName fname) here same)
  Absent-cons e es n ne rest (suc j) e' h g = rest j e' (omega arith) g

  Lookup-cons :
      (e : Dentry) (es : List Dentry) (n : ℕ) (r : Option (ℕ × Dentry))
      → ¬ SameName fname e
      → Lookup fname d n es r
      → Lookup fname d (suc n) (e ∷ es) r
  Lookup-cons e es n r ne (inl f) = inl (record {
    index = suc f.index;
    entry = f.entry;
    in_use = omega arith;
    there = f.there;
    same = f.same;
    first = Absent-cons e es f.index ne f.first;
    returns = f.returns;
  })
  Lookup-cons e es n r ne (inr (absent, returns)) = inr (Absent-cons e es n ne absent, returns)

  Lookup-head :
      (e : Dentry) (es : List Dentry) (n : ℕ)
      → SameName fname e
      → Lookup fname d (suc n) (e ∷ es) (some (0, e))
  Lookup-head e es n same = inl (record {
    index = 0;
    entry = e;
    in_use = omega arith;
    there = refl;
    same = same;
    first = λ j e' lt g. absurd (omega arith);
    returns = refl;
  })

  find_dentry-Lookup :
      (es : List Dentry) (i n num : ℕ)
      → num ≡ i + n
      → num < 2 ^ 31
      → n ≤ length es
      → Readables es
      → Lookup fname d n es (find_dentry fname d num i es)
  unfolding find_dentry
  find_dentry-Lookup [] i n num e small fits r = inr (λ j x lt g. ground arith, ground arith)
  find_dentry-Lookup (x ∷ es) i zero num e small fits r =
      inr (λ j x lt g. absurd (omega arith), ground arith)
  find_dentry-Lookup (x ∷ es) i (suc n) num e small (fits) r =
      let more : slt i num ≡ true = ground arith in
      let (v, ev) = strncmp_returns file_name_size x.file_name fname r.0 ok in
      let agree = strncmp_eq_zero file_name_size x.file_name fname r.0 ok in
      elim (Bool-cases (v == 0)) [
        | inl equal ↦
            rw (more, ev, equal)
              (Lookup-head x es n (agree.0 (ev ∙ ap some ((==_iff v 0).0 equal))))
        | inr other ↦
            rw (more, ev, other)
              (Lookup-cons x es n _ (λ same. ground (arith, agree.1 same))
                (find_dentry-Lookup es (i + 1) n num (omega arith) small (omega arith) r.1))
      ]

-- With a directory whose count of entries is that of its list and readable names,
-- `read_dentry_by_name` copies out the first entry of the name and returns 0, or leaves the out
-- parameter alone and returns -1 because no entry has the name.
pub read_dentry_by_name-Lookup :
    (fs : Image) (fname : List ℕ) (d : Dentry)
    → Readable file_name_size fname
    → Readables fs.dir_entries
    → fs.num_dir_entries ≤ length fs.dir_entries
    → fs.num_dir_entries < 2 ^ 31
    → Lookup fname d fs.num_dir_entries fs.dir_entries (read_dentry_by_name fs fname d)
unfolding read_dentry_by_name
read_dentry_by_name-Lookup fs fname d ok names fits small =
    find_dentry-Lookup fname d ok fs.dir_entries 0 fs.num_dir_entries fs.num_dir_entries
      (omega arith) small fits names

-- In a directory that is not empty, `read_dentry_by_index` gives entry `index` and 0 for an index
-- in use, and -1 with the out parameter left alone for every other.
pub read_dentry_by_index-in_use :
    (fs : Image) (index : ℕ) (d : Dentry)
    → 0 < fs.num_dir_entries
    → fs.num_dir_entries ≤ length fs.dir_entries
    → fs.num_dir_entries < 2 ^ 31
    → (index < fs.num_dir_entries
        → (e : Dentry) × (get_elem? fs.dir_entries index ≡ some e)
          × (read_dentry_by_index fs index d ≡ some (0, e)))
      × (fs.num_dir_entries ≤ index → read_dentry_by_index fs index d ≡ some (minus_one, d))
unfolding read_dentry_by_index
read_dentry_by_index-in_use fs index d some_entry fits small = (
  λ h. let (e, there) = get_elem?-lt fs.dir_entries index (omega arith) in (e, there, ground arith),
  λ h. ground arith,
)
