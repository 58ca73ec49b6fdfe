-- ===== src/Programs/Streams.antt =====
-- What a program may rely on when it copies a file to the terminal.
use osgods.Common.{
  ℕ, zero, suc, ◌^◌, ◌≤◌, ◌<◌, min, ◌≡◌, refl, ◌≢◌, some, List, [], ◌∷◌, ◌++◌, arith, length, take,
  drop, All,
}
use osgods.Programs.{Calls, overlay}

-- A character that the terminal puts out; a backspace takes one back.
abbrev pub Plain : ℕ → Type 0
Plain ch = ch ≢ 8

-- `Reads s fd xs`: descriptor `fd` has `xs` left to read, and descriptor 1 is the terminal.
-- `Shows s xs t`: from `s` to `t` the characters `xs` went to the terminal.
pub record FileCalls {S : Type 0} (calls : Calls S) : Type 1 where
  pub Reads : S → ℕ → List ℕ → Type 0
  pub Shows : S → List ℕ → S → Type 0
  pub shows_nothing : (s : S) → Shows s [] s
  pub shows_more : (s t u : S) (xs ys : List ℕ) → Shows s xs t → Shows t ys u → Shows s (xs ++ ys) u
  pub reads :
      (s : S) (fd n : ℕ) (xs : List ℕ)
      → Reads s fd xs
      → n < 2 ^ 31
      → (t : S) × (calls.read s fd n ≡ some (min n (length xs), take n xs, t))
        × Reads t fd (drop n xs)
        × Shows s [] t
  pub writes :
      (s : S) (fd : ℕ) (xs bs rest : List ℕ)
      → Reads s fd xs
      → All Plain bs
      → length bs < 2 ^ 31
      → (t : S) × (calls.write s 1 (bs ++ rest) (length bs) ≡ some (length bs, t))
        × Reads t fd xs
        × Shows s bs t

pub overlay-append :
    (bs buf : List ℕ) → length bs ≤ length buf → overlay bs buf ≡ some (bs ++ drop (length bs) buf)
unfolding overlay
overlay-append [] buf h = refl
overlay-append (b ∷ bs) [] h = absurd (omega arith)
overlay-append (b ∷ bs) (x ∷ buf) h = rw (overlay-append bs buf (omega arith)) refl

module _ {ℓ} {A : Type 0} (P : A → Type ℓ) where
  pub All-take : (n : ℕ) (xs : List A) → All P xs → All P (take n xs)
  All-take zero xs h = tt
  All-take (suc n) [] h = tt
  All-take (suc n) (x ∷ xs) h = (h.0, All-take n xs h.1)

  pub All-drop : (n : ℕ) (xs : List A) → All P xs → All P (drop n xs)
  All-drop zero xs h = h
  All-drop (suc n) [] h = tt
  All-drop (suc n) (x ∷ xs) h = All-drop n xs h.1
