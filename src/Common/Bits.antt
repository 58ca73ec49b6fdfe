-- ===== src/Common/Bits.antt =====
-- A statement about every value of a small range, by evaluation.
use Prim.Native.Nat.{
  ℕ, zero, suc, ◌<◌, ◌+◌, ◌*◌, ◌/◌, ◌%◌, ◌^◌, max, digits, bit_or, bit_or-bitwise,
}
use mathlib.Core.Path.{◌≡◌, sym, ap, ◌∙◌}
use native.Mathlib.Nat.{div-div-eq-div-mul}
use mathlib.Core.Bool.{Bool, true, ◌&&◌}
use native.Mathlib.Omega.{arith}

unfoldable pub holds_below : ℕ → (ℕ → Bool) → Bool
holds_below zero test = true
holds_below (suc bound) test = holds_below bound test && test bound

-- What was evaluated for all holds of each.
pub holds_below-at :
    (bound : ℕ) (test : ℕ → Bool) (x : ℕ)
    → holds_below bound test ≡ true
    → x < bound
    → test x ≡ true
unfolding holds_below
holds_below-at zero test x evaluated inside = absurd (omega arith)
holds_below-at (suc bound) test x evaluated inside =
    let earlier = holds_below-at bound test x in ground (arith, earlier)

-- A bit of the second number is a bit of both together.
digits-bit : (n k a b : ℕ) → b / 2 ^ k % 2 ≡ 1 → digits (λ x. x) max n a b / 2 ^ k % 2 ≡ 1
digits-bit zero k a b h = h
digits-bit (suc n) k zero b h = h
digits-bit (suc n) zero (suc a) b h =
    let D = digits (λ x. x) max n (suc a / 2) (b / 2) in
    let odd : b % 2 ≡ 1 = omega (arith, h) in
    let top : max (suc a % 2) (b % 2) ≡ 1 = ground (arith, odd) in omega (arith, top)
digits-bit (suc n) (suc k) (suc a) b h =
    let D = digits (λ x. x) max n (suc a / 2) (b / 2) in
    let m = max (suc a % 2) (b % 2) in
    let top : m < 2 = ground arith in
    let power : 2 ^ suc k ≡ 2 * 2 ^ k = omega arith in
    let down : (x : ℕ) → x / 2 ^ suc k ≡ x / 2 / 2 ^ k =
      λ x. ap (λ p. x / p) power ∙ sym (div-div-eq-div-mul x 2 (2 ^ k)) in
    let half : (D * 2 + m) / 2 ≡ D = omega (arith, top) in
    ap (λ x. x % 2) (down (D * 2 + m))
    ∙ ap (λ x. x / 2 ^ k % 2) half
    ∙ digits-bit n k (suc a / 2) (b / 2) (ap (λ x. x % 2) (sym (down b)) ∙ h)

pub bit_or-bit : (k a b : ℕ) → b / 2 ^ k % 2 ≡ 1 → bit_or a b / 2 ^ k % 2 ≡ 1
bit_or-bit k a b h = ap (λ x. x / 2 ^ k % 2) (bit_or-bitwise a b) ∙ digits-bit a k a b h
