-- ===== src/Programs/Counter/Counts.antt =====
-- The numbers that the counter puts out.
use osgods.Common.{
  ℕ, zero, suc, ◌+◌, ◌^◌, ◌<◌, ◌≡◌, refl, ◌∙◌, some, List, [], ◌∷◌, ◌++◌, append_assoc, arith,
  length, length-append, add32, All,
}
use mathlib.Core.Path.{subst}
use osgods.Programs.{Calls, literal}
use osgods.Programs.Counter.{counter_loop}
use osgods.Programs.Streams.{Plain}
use osgods.Programs.Support.{ece391_fdputs, ece391_itoa}
use osgods.Programs.Support.Same.{ece391-same}
use osgods.Programs.Texts.{TerminalCalls, ece391_fdputs-Shows}
use osgods.Strings.Digits.{IsDigit, IsDigit-NoNul, IsNumeral}
use osgods.Strings.Number.{itoa-number_of}

-- `n` lines, each the decimal numeral of a number, that count up from the one after `i`.
abbrev pub IsCount : ℕ → ℕ → List ℕ → Type 0
IsCount i zero out = out ≡ []
IsCount i (suc n) out =
    (text : List ℕ) × (rest : List ℕ) × (out ≡ text ++ (b'\n' ∷ rest))
    × IsNumeral 10 (i + 1) text
    × IsCount (i + 1) n rest

IsDigit-Plain : (s : List ℕ) → All (IsDigit 10) s → All Plain s
IsDigit-Plain [] h = tt
IsDigit-Plain (c ∷ s) h = ((λ e. ground (arith, h.0.0, e)), IsDigit-Plain s h.1)

module _ {S : Type 0} (calls : Calls S) (laws : TerminalCalls calls) where
  open laws use {Ready, Shows, shows_nothing, shows_more}

  -- One line.
  counter_line :
      (i : ℕ) (s : S) (buf : List ℕ)
      → i + 1 < 10 ^ 10
      → length buf ≡ 1024
      → Ready s
      → (text : List ℕ) × (rest : List ℕ) × (mid : S) × (t : S) × (ece391_itoa (i + 1) buf 10
          ≡ some (text ++ (0 ∷ rest)))
        × (ece391_fdputs calls s 1 (text ++ (0 ∷ rest)) ≡ some mid)
        × (ece391_fdputs calls mid 1 (literal "\n") ≡ some t)
        × (length (text ++ (0 ∷ rest)) ≡ 1024)
        × IsNumeral 10 (i + 1) text
        × Ready t
        × Shows s (text ++ (b'\n' ∷ [])) t
  counter_line i s buf small size ready =
      let (text, rest, e, numeral, short, full) =
        itoa-number_of 10 10 (i + 1) buf (omega arith) (omega arith) small (omega arith)
          (omega arith) (omega arith) in
      let (t, f, ok, shown) =
        ece391_fdputs-Shows calls laws s text rest ready (IsDigit-NoNul 10 text numeral.1)
          (IsDigit-Plain text numeral.1) (omega arith) in
      let (u, g, ok', shown') =
        ece391_fdputs-Shows calls laws t (b'\n' ∷ []) [] ok ((λ e. omega arith), tt)
          ((λ e. omega arith), tt) (omega arith) in
      (
        text,
        rest,
        t,
        u,
        (ece391-same [] [] buf (i + 1) 10).3 ∙ e,
        f,
        g,
        length-append text (0 ∷ rest) ∙ omega (arith, full),
        numeral,
        ok',
        shows_more s t u text (b'\n' ∷ []) shown shown',
      )

  -- The loop of the counter from `i` on puts out the numbers after `i`, each on a line of its own, in
  -- decimal and without a fault, in its buffer of 1024 bytes.
  pub counter_loop-IsCount :
      (n i : ℕ) (s : S) (buf : List ℕ)
      → i + n < 2 ^ 32
      → length buf ≡ 1024
      → Ready s
      → (out : List ℕ) × (t : S) × (counter_loop calls n i s buf ≡ some t)
        × IsCount i n out
        × Ready t
        × Shows s out t
  unfolding counter_loop
  counter_loop-IsCount zero i s buf small size ready = ([], s, refl, refl, ready, shows_nothing s)
  counter_loop-IsCount (suc n) i s buf small size ready =
      let (text, rest, mid, t, e, f, h, size', numeral, ok, shown) =
        counter_line i s buf (omega arith) size ready in
      let (out, u, g, count, ok', shown') =
        counter_loop-IsCount n (i + 1) t (text ++ (0 ∷ rest)) (omega arith) size' ok in
      let number : add32 i 1 ≡ i + 1 = omega arith in
      let all = shows_more s t u (text ++ (b'\n' ∷ [])) out shown shown' in
      (
        text ++ (b'\n' ∷ out),
        u,
        rw (number, e, f, h) g,
        (text, out, refl, numeral, count),
        ok',
        subst (λ xs. Shows s xs u) (append_assoc text (b'\n' ∷ []) out) all,
      )
