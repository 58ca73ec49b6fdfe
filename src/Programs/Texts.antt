-- ===== src/Programs/Texts.antt =====
-- What a program may rely on when it writes to the terminal.
use osgods.Common.{ℕ, ◌^◌, ◌<◌, ◌≡◌, refl, ◌∙◌, some, List, [], ◌∷◌, ◌++◌, length, All}
use osgods.Programs.{Calls}
use osgods.Programs.Streams.{Plain}
use osgods.Programs.Support.{ece391_strlen, ece391_fdputs}
use osgods.Programs.Support.Same.{ece391-same}
use osgods.Strings.Reverse.{NoNul, strlen-text}

-- `Ready s`: descriptor 1 is the terminal, which is in order.
-- `Shows s xs t`: from `s` to `t` the characters `xs` went to it.
pub record TerminalCalls {S : Type 0} (calls : Calls S) : Type 1 where
  pub Ready : S → Type 0
  pub Shows : S → List ℕ → S → Type 0
  pub shows_nothing : (s : S) → Shows s [] s
  pub shows_more : (s t u : S) (xs ys : List ℕ) → Shows s xs t → Shows t ys u → Shows s (xs ++ ys) u
  pub writes :
      (s : S) (bs rest : List ℕ)
      → Ready s
      → All Plain bs
      → length bs < 2 ^ 31
      → (t : S) × (calls.write s 1 (bs ++ rest) (length bs) ≡ some (length bs, t))
        × Ready t
        × Shows s bs t

pub ece391_strlen-text :
    (s rest : List ℕ) → NoNul s → ece391_strlen (s ++ (0 ∷ rest)) ≡ some (length s)
ece391_strlen-text s rest h = (ece391-same (s ++ (0 ∷ rest)) [] [] 0 0).0 ∙ strlen-text s rest h

module _ {S : Type 0} (calls : Calls S) (laws : TerminalCalls calls) where
  open laws use {Ready, Shows, writes}

  -- `ece391_fdputs` puts out the text before the NUL.
  pub ece391_fdputs-Shows :
      (s : S) (text rest : List ℕ)
      → Ready s
      → NoNul text
      → All Plain text
      → length text < 2 ^ 31
      → (t : S) × (ece391_fdputs calls s 1 (text ++ (0 ∷ rest)) ≡ some t) × Ready t × Shows s text t
  unfolding ece391_fdputs
  ece391_fdputs-Shows s text rest ready h plain small =
      let (t, e, ok, shown) = writes s text (0 ∷ rest) ready plain small in
      (t, rw (ece391_strlen-text text rest h, e) refl, ok, shown)
