-- ===== src/Process/Slots.antt =====
-- Which process slot is taken.
use osgods.Common.{
  codes, ◌++◌, ℕ, zero, suc, ◌+◌, ◌-◌, ◌^◌, ◌<◌, ◌≡◌, refl, ap, ◌∙◌, codes, ◌≢◌, ◌⊎◌, inl, inr,
  ◌>>=◌, Option-cases, none, some, List, [], ◌∷◌, arith, ◌==◌, Bool-cases, get_elem?, All,
}
use osgods.Kernel.{Kernel}
use osgods.Pcb.{Pcb}
use osgods.Process.{first_empty, print, slot_result, determine_which_pcb_empty}

-- Slot `i` is the first that is not active.
pub record IsFirstEmpty (pcbs : List Pcb) (i : ℕ) : Type 0 where
  pub slot : Pcb
  pub there : get_elem? pcbs i ≡ some slot
  pub empty : slot.active ≡ 0
  pub first : (j : ℕ) (p : Pcb) → j < i → get_elem? pcbs j ≡ some p → p.active ≢ 0

first_empty-none :
    (pcbs : List Pcb) (i : ℕ) → first_empty i pcbs ≡ none → All (λ p. p.active ≢ 0) pcbs
unfolding first_empty
first_empty-none [] i h = tt
first_empty-none (p ∷ ps) i h = elim (Bool-cases (p.active == 0)) [
  | inl e ↦ absurd (ground arith)
  | inr e ↦ ((λ z. ground arith), first_empty-none ps (i + 1) (ground arith))
]

first_empty-some :
    (pcbs : List Pcb) (i r : ℕ)
    → first_empty i pcbs ≡ some r
    → (k : ℕ) × (r ≡ i + k) × IsFirstEmpty pcbs k
unfolding first_empty
first_empty-some [] i r h = cc
first_empty-some (p ∷ ps) i r h = elim (Bool-cases (p.active == 0)) [
  | inl e ↦ (
    0,
    ground arith,
    record { slot = p; there = refl; empty = ground arith; first = λ j q lt. absurd (omega arith) },
  )
  | inr e ↦
      let (k, at, f) = first_empty-some ps (i + 1) r (ground arith) in
      (
        suc k,
        omega arith,
        record {
          slot = f.slot;
          there = f.there;
          empty = f.empty;
          first = later k f (λ z. ground arith);
        },
      )
]
  where
    later :
        (k : ℕ)
        → IsFirstEmpty ps k
        → p.active ≢ 0
        → (j : ℕ) (q : Pcb) → j < suc k
        → get_elem? (p ∷ ps) j ≡ some q
        → q.active ≢ 0
    later k f ne zero q lt g =
        let here : p ≡ q = cc in λ z. ne (ap (λ (q : Pcb). q.active) here ∙ z)
    later k f ne (suc j) q lt g = f.first j q (omega arith) g

-- `determine_which_pcb_empty` gives the first slot that is not active and changes nothing, or every
-- slot is active and, once its message is printed, it gives -2.
pub determine_which_pcb_empty-first :
    (k : Kernel)
    → ((i : ℕ) × IsFirstEmpty k.pcbs i × (determine_which_pcb_empty k ≡ some (i, k)))
      ⊎ (All (λ p. p.active ≢ 0) k.pcbs
          × (determine_which_pcb_empty k ≡ (do
            k' ← print k (codes "no pcb block available, 6 are opened!\n" ++ (0 ∷ [])) []
            some (2 ^ 32 - 2, k'))))
unfolding determine_which_pcb_empty slot_result
determine_which_pcb_empty-first k = elim (Option-cases (first_empty 0 k.pcbs)) [
  | inl full ↦ inr (first_empty-none k.pcbs 0 full, rw full refl)
  | inr (i, at) ↦
      let (j, same, first) = first_empty-some k.pcbs 0 i at in
      let e : i ≡ j = omega arith in inl (j, first, rw (at, e) refl)
]
