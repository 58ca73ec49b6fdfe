-- ===== src/Filesystem/Bytes.antt =====
-- Parts of the bytes of a memory.
use osgods.Common.{
  ℕ, zero, suc, ◌+◌, ◌-◌, min, ◌≡◌, refl, ap, ap₂, ◌∙◌, ◌∷◌, arith, length, take, drop,
}
use osgods.Filesystem.{bytes}

pub length-bytes : (mem : ℕ → ℕ) (a n : ℕ) → length (bytes mem a n) ≡ n
unfolding bytes
length-bytes mem a zero = refl
length-bytes mem a (suc n) = ap suc (length-bytes mem (a + 1) n)

pub take-bytes : (mem : ℕ → ℕ) (a n k : ℕ) → take n (bytes mem a k) ≡ bytes mem a (min n k)
unfolding bytes
take-bytes mem a zero k = let e : 0 ≡ min 0 k = omega arith in ap (bytes mem a) e
take-bytes mem a (suc n) zero = let e : 0 ≡ min (suc n) 0 = omega arith in ap (bytes mem a) e
take-bytes mem a (suc n) (suc k) =
    let e : suc (min n k) ≡ min (suc n) (suc k) = omega arith in
    ap (λ r. mem a ∷ r) (take-bytes mem (a + 1) n k) ∙ ap (bytes mem a) e

pub drop-bytes :
    (mem : ℕ → ℕ) (a n k : ℕ) → drop n (bytes mem a k) ≡ bytes mem (a + min n k) (k - min n k)
unfolding bytes
drop-bytes mem a zero k = ap₂ (bytes mem) (omega arith) (omega arith)
drop-bytes mem a (suc n) zero =
    let e : 0 ≡ 0 - min (suc n) 0 = omega arith in ap (bytes mem (a + min (suc n) 0)) e
drop-bytes mem a (suc n) (suc k) =
    drop-bytes mem (a + 1) n k ∙ ap₂ (bytes mem) (omega arith) (omega arith)
