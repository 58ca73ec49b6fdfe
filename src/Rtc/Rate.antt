-- ===== src/Rtc/Rate.antt =====
-- Which frequencies `rtc_write` accepts, and the rate that it sends.
use osgods.Common.{
  ℕ, zero, suc, ◌-◌, ◌^◌, ◌≤◌, ◌<◌, bit_and, ◌≡◌, refl, ap, ◌∙◌, inl, inr, Bool, true, false, not,
  ◌&&◌, ◌||◌, Option, none, some, arith, ltb, leb, ◌==◌, if◌then◌else◌, Bool-cases, sub32,
  minus_one, slt, holds_below, holds_below-at,
}
use osgods.Pic.{Pic, outb}
use osgods.Rtc.{find_rate, rtc_write, status_reg_a, rtc_reg_port, cmos_port}

-- The frequencies that the clock has: 2 ^ k Hz for k from 1 to 10.
abbrev pub IsFrequency : ℕ → Type 0
IsFrequency freq = (k : ℕ) × (1 ≤ k) × (k ≤ 10) × (freq ≡ 2 ^ k)

abbrev rate_is : Option ℕ → ℕ → Bool
rate_is none r = false
rate_is (some x) r = x == r && bit_and x 0x0F == r

rate_table :
    holds_below 11 (λ k.
      k == 0
      || (rate_is (find_rate 15 0 (2 ^ k) none) (16 - k) && bit_and (2 ^ k) (2 ^ k - 1) == 0))
    ≡ true
unfolding holds_below find_rate
rate_table = refl

find_power : ℕ → ℕ → Option ℕ
find_power zero f = none
find_power (suc k) f = if f == 2 ^ suc k then some (suc k) else find_power k f

abbrev power_is : Option ℕ → ℕ → Bool
power_is none f = false
power_is (some k) f = f == 2 ^ k && leb 1 k && leb k 10

power_table :
    holds_below 1025 (λ f. ltb f 2 || not (bit_and f (f - 1) == 0) || power_is (find_power 10 f) f)
    ≡ true
unfolding holds_below find_power
power_table = refl

power_is-IsFrequency : (o : Option ℕ) (f : ℕ) → power_is o f ≡ true → IsFrequency f
power_is-IsFrequency none f h = cc
power_is-IsFrequency (some k) f h = (k, ground arith, ground arith, ground arith)

bit_and-IsFrequency : (f : ℕ) → 2 ≤ f → f ≤ 1024 → bit_and f (sub32 f 1) ≡ 0 → IsFrequency f
bit_and-IsFrequency f lo hi e = power_is-IsFrequency (find_power 10 f) f (ground (arith, row, pred))
  where
    row : ltb f 2 || not (bit_and f (f - 1) == 0) || power_is (find_power 10 f) f ≡ true
    row = holds_below-at 1025 _ f power_table (omega arith)

    pred : sub32 f 1 ≡ f - 1
    pred = omega arith

rate_is-some : (o : Option ℕ) (r : ℕ) → rate_is o r ≡ true → (o ≡ some r) × (bit_and r 0x0F ≡ r)
rate_is-some none r h = cc
rate_is-some (some x) r h = ground arith

-- The search sends rate 16 - k for 2 ^ k Hz, and the test of powers lets 2 ^ k pass.
find_rate-power :
    (k : ℕ)
    → 1 ≤ k
    → k ≤ 10
    → (find_rate 15 0 (2 ^ k) none ≡ some (16 - k))
      × (bit_and (16 - k) 0x0F ≡ 16 - k)
      × (bit_and (2 ^ k) (2 ^ k - 1) ≡ 0)
find_rate-power k lo hi = (rated.0, rated.1, ground (arith, row))
  where
    row :
        k == 0
          || (rate_is (find_rate 15 0 (2 ^ k) none) (16 - k) && bit_and (2 ^ k) (2 ^ k - 1) == 0)
        ≡ true
    row = holds_below-at 11 _ k rate_table (omega arith)

    rated : (find_rate 15 0 (2 ^ k) none ≡ some (16 - k)) × (bit_and (16 - k) 0x0F ≡ 16 - k)
    rated = rate_is-some (find_rate 15 0 (2 ^ k) none) (16 - k) (ground (arith, row))

power_bounds : (k : ℕ) → 1 ≤ k → k ≤ 10 → (2 ≤ 2 ^ k) × (2 ^ k ≤ 1024)
power_bounds k lo hi = ground (arith, row)
  where
    row : k == 0 || (leb 2 (2 ^ k) && leb (2 ^ k) 1024) ≡ true
    row =
        holds_below-at 11 (λ k. k == 0 || (leb 2 (2 ^ k) && leb (2 ^ k) 1024)) k
          (unfold holds_below in refl) (omega arith)

-- `rtc_write` of four bytes that hold 2 ^ k with k from 1 to 10 returns 4 and sends rate 16 - k to
-- register A; any other number of bytes or frequency returns -1 and sends nothing.
pub rtc_write-IsFrequency :
    (pic : Pic) (freq nbytes : ℕ)
    → freq < 2 ^ 32
    → ((k : ℕ)
        → 1 ≤ k
        → k ≤ 10
        → freq ≡ 2 ^ k
        → nbytes ≡ 4
        → rtc_write pic (some freq) nbytes
          ≡ some (4, outb (outb pic status_reg_a rtc_reg_port) (16 - k) cmos_port))
      × (¬ (IsFrequency freq × (nbytes ≡ 4))
          → rtc_write pic (some freq) nbytes ≡ some (minus_one, pic))
unfolding rtc_write
rtc_write-IsFrequency pic freq nbytes small = (
  λ k lo hi e four.
      let (found, low, power) = find_rate-power k lo hi in
      let (ge, le) = power_bounds k lo hi in
      let pred : sub32 (2 ^ k) 1 ≡ 2 ^ k - 1 = omega arith in
      ground (
        arith,
        ap (λ f. find_rate 15 0 f none) e ∙ found,
        low,
        ap (λ f. bit_and f (sub32 f 1)) e ∙ ap (bit_and (2 ^ k)) pred ∙ power,
        ge,
        le,
      ),
  λ other. elim (Bool-cases (nbytes == 4)) [
    | inr short ↦ rw short
    | inl four ↦ rw four (elim (Bool-cases (slt freq 2 || slt 1024 freq)) [
      | inl out ↦ rw out
      | inr inside ↦ rw inside (elim (Bool-cases (bit_and freq (sub32 freq 1) == 0)) [
        | inr mixed ↦ rw mixed
        | inl power ↦ absurd (
            other
              (bit_and-IsFrequency freq (ground arith) (ground arith) (ground arith), ground arith))
      ])
    ])
  ],
)
