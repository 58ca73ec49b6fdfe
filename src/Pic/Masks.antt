-- ===== src/Pic/Masks.antt =====
-- Which lines the masks let through, and what an acknowledgement sends.
use osgods.Common.{
  ℕ, zero, suc, ◌+◌, ◌-◌, ◌/◌, ◌%◌, ◌^◌, ◌<◌, ◌≡◌, refl, ◌∙◌, inl, inr, Bool, true, false, not,
  ◌&&◌, arith, ltb, leb, ◌==◌, if◌then◌else◌, ==_iff, Bool-cases, holds_below, holds_below-at,
}
use osgods.Pic.{
  Pic, outb, enable_irq, disable_irq, init_irqs, i8259_init, num_master_irq, clear_bit, set_bit,
  cascade_to_secondary,
}

-- Line `i` of both controllers is masked: bit `i` of the master's mask, or `i - 8` of the slave's.
unfoldable pub masked : Pic → ℕ → Bool
masked p i = if ltb i 8 then p.master_mask / 2 ^ i % 2 == 1 else p.slave_mask / 2 ^ (i - 8) % 2 == 1

-- Bit `k` of every byte changes and the others do not, by evaluation.
mask_table :
    holds_below 256 (λ m. holds_below 8 (λ k. holds_below 8 (λ j.
      (clear_bit m k / 2 ^ j % 2 == (if j == k then 0 else m / 2 ^ j % 2))
      && (set_bit m k / 2 ^ j % 2 == (if j == k then 1 else m / 2 ^ j % 2)))))
    ≡ true
unfolding holds_below
mask_table = refl

-- The masks are bytes.
pub record IsPic (p : Pic) : Type 0 where
  pub master : p.master_mask < 256
  pub slave : p.slave_mask < 256

bit_changed :
    (m k j : ℕ)
    → m < 256
    → k < 8
    → j < 8
    → (clear_bit m k / 2 ^ j % 2 ≡ (if j == k then 0 else m / 2 ^ j % 2))
      × (set_bit m k / 2 ^ j % 2 ≡ (if j == k then 1 else m / 2 ^ j % 2))
bit_changed m k j hm hk hj =
    ((==_iff _ _).0 (and_split _ _ row).0, (==_iff _ _).0 (and_split _ _ row).1)
  where
    and_split : (a b : Bool) → a && b ≡ true → (a ≡ true) × (b ≡ true)
    and_split a b h = ground arith

    row :
        (clear_bit m k / 2 ^ j % 2 == (if j == k then 0 else m / 2 ^ j % 2))
          && (set_bit m k / 2 ^ j % 2 == (if j == k then 1 else m / 2 ^ j % 2))
        ≡ true
    row = holds_below-at 8 _ j (holds_below-at 8 _ k (holds_below-at 256 _ m mask_table hm) hk) hj

pub enable_irq-IsPic : (p : Pic) (i : ℕ) → IsPic p → IsPic (enable_irq p i)
unfolding enable_irq
enable_irq-IsPic p i h = elim (Bool-cases (leb num_master_irq i)) [
  | inl second ↦ rw second (record { master = h.master; slave = omega arith })
  | inr first ↦ rw first (record { master = omega arith; slave = h.slave })
]

disable_irq-IsPic : (p : Pic) (i : ℕ) → IsPic p → IsPic (disable_irq p i)
unfolding disable_irq
disable_irq-IsPic p i h = elim (Bool-cases (leb num_master_irq i)) [
  | inl second ↦ rw second (record { master = h.master; slave = omega arith })
  | inr first ↦ rw first (record { master = omega arith; slave = h.slave })
]

-- Unmasking one of the 16 lines opens that line and leaves the other 15 as they were.
pub enable_irq-masked :
    (p : Pic) (i j : ℕ)
    → IsPic p
    → i < 16
    → j < 16
    → masked (enable_irq p i) j ≡ (if j == i then false else masked p j)
unfolding enable_irq masked
enable_irq-masked p i j h hi hj =
    ground (arith, bit_changed p.master_mask i j, bit_changed p.slave_mask (i - 8) (j - 8))

-- Masking one of the 16 lines closes that line and leaves the other 15 as they were.
pub disable_irq-masked :
    (p : Pic) (i j : ℕ)
    → IsPic p
    → i < 16
    → j < 16
    → masked (disable_irq p i) j ≡ (if j == i then true else masked p j)
unfolding disable_irq masked
disable_irq-masked p i j h hi hj =
    ground (arith, bit_changed p.master_mask i j, bit_changed p.slave_mask (i - 8) (j - 8))

-- One round of the loop of `i8259_init`.
init_irq-masked :
    (p : Pic) (i j : ℕ)
    → IsPic p
    → i < 16
    → j < 16
    → let p' =
        if i == cascade_to_secondary then enable_irq p cascade_to_secondary else disable_irq p i in
      (masked p' j ≡ (if j == i then not (j == cascade_to_secondary) else masked p j)) × IsPic p'
init_irq-masked p i j h hi hj = elim (Bool-cases (i == cascade_to_secondary)) [
  | inl e ↦
      rw e (ground (arith, enable_irq-masked p 2 j h (omega arith) hj), enable_irq-IsPic p 2 h)
  | inr e ↦ rw e (ground (arith, disable_irq-masked p i j h hi hj), disable_irq-IsPic p i h)
]

init_irqs-masked :
    (n i j : ℕ) (p : Pic)
    → IsPic p
    → i + n ≡ 16
    → j < 16
    → masked (init_irqs n i p) j ≡ (if ltb j i then masked p j else not (j == cascade_to_secondary))
unfolding init_irqs
init_irqs-masked zero i j p h e hj = ground arith
init_irqs-masked (suc n) i j p h e hj =
    let p' =
      if i == cascade_to_secondary then enable_irq p cascade_to_secondary else disable_irq p i in
    let (now, ok) = init_irq-masked p i j h (omega arith) hj in
    init_irqs-masked n (i + 1) j p' ok (omega arith) hj ∙ ground (arith, now)

-- Whatever byte masks it starts from, `i8259_init` leaves every line masked but the cascade line 2.
pub i8259_init-masked :
    (p : Pic) (j : ℕ) → IsPic p → j < 16 → masked (i8259_init p) j ≡ not (j == cascade_to_secondary)
unfolding i8259_init outb
i8259_init-masked p j h hj =
    init_irqs-masked 16 0 j _ (record { master = h.master; slave = h.slave }) refl hj ∙ ground arith

init_irqs-IsPic : (n i : ℕ) (p : Pic) → IsPic p → IsPic (init_irqs n i p)
unfolding init_irqs
init_irqs-IsPic zero i p h = h
init_irqs-IsPic (suc n) i p h = elim (Bool-cases (i == cascade_to_secondary)) [
  | inl e ↦ rw e (init_irqs-IsPic n (i + 1) _ (enable_irq-IsPic p 2 h))
  | inr e ↦ rw e (init_irqs-IsPic n (i + 1) _ (disable_irq-IsPic p i h))
]

pub i8259_init-IsPic : (p : Pic) → IsPic p → IsPic (i8259_init p)
unfolding i8259_init outb
i8259_init-IsPic p h = init_irqs-IsPic 16 0 _ (record { master = h.master; slave = h.slave })
