-- ===== src/Programs/Grep/Lines.antt =====
-- When grep finds a text in a line.
use osgods.Common.{
  if-true, if-false, ℕ, zero, suc, ◌+◌, ◌<◌, ◌≡◌, refl, sym, ap, ap₂, ◌∙◌, ◌↔◌, ◌⊎◌, inl, inr, Bool,
  true, false, Option, some, List, [], ◌∷◌, ◌++◌, append_assoc, arith, ◌==◌, if◌then◌else◌, ==_iff,
  ==_ne, Bool-cases, length, get_elem?, length-append, drop, sub32, All,
}
use mathlib.Core.Option
use osgods.Programs.Grep.{search_line, char_value}
use osgods.Programs.Support.{ece391_strncmp}
use osgods.Programs.Support.Equal.{IsText, ece391_strncmp_eq_zero}
use osgods.Strings.Reverse.{get_elem?-middle}
use osgods.Strings.Compare.{prefix, Readable}

-- The word stands at the start of the line, or somewhere in it.
abbrev pub Starts : List ℕ → List ℕ → Type 0
Starts word line = (after : List ℕ) × (line ≡ word ++ after)

abbrev pub Occurs : List ℕ → List ℕ → Type 0
Occurs word line = (before : List ℕ) × (after : List ℕ) × (line ≡ before ++ (word ++ after))

prefix-text :
    (word more : List ℕ) → All IsText word → prefix (length word) (word ++ (0 ∷ more)) ≡ word
prefix-text [] more h = refl
prefix-text (c ∷ word) more h =
    rw (==_ne c 0 (λ e. omega (arith, h.0, e))) (ap (λ r. c ∷ r) (prefix-text word more h.1))

-- Past the end of the line there is its NUL, so a line of any length can be read.
Readable-line : (n : ℕ) (text more : List ℕ) → All IsText text → Readable n (text ++ (0 ∷ more))
Readable-line zero text more h = tt
Readable-line (suc n) [] more h = (omega arith, inl refl)
Readable-line (suc n) (c ∷ text) more h = (h.0.1, inr (Readable-line n text more h.1))

-- The prefix of a line is the word exactly if the word starts it.
prefix-Starts :
    (word line more : List ℕ)
    → All IsText word
    → All IsText line
    → (prefix (length word) (line ++ (0 ∷ more)) ≡ word) ↔ Starts word line
prefix-Starts [] line more h k = (λ e. (line, refl), λ s. refl)
prefix-Starts (c ∷ word) [] more h k = (λ e. absurd cc, λ s. let e = s.1 in absurd cc)
prefix-Starts (c ∷ word) (d ∷ line) more h k =
    let other : (d == 0) ≡ false = ==_ne d 0 (λ e. omega (arith, k.0, e)) in
    let (to, from) = prefix-Starts word line more h.1 k.1 in
    (
      λ e.
          let f : d ∷ prefix (length word) (line ++ (0 ∷ more)) ≡ c ∷ word =
            sym (if-false (d == 0) [] _ other) ∙ e in
          let same : d ≡ c = cc in
          let tail : prefix (length word) (line ++ (0 ∷ more)) ≡ word = cc in
          let (after, q) = to tail in (after, ap₂ (λ a b. a ∷ b) same q),
      λ s.
          let e = s.1 in
          let same : d ≡ c = cc in
          let tail : line ≡ word ++ s.0 = cc in
          if-false (d == 0) [] _ other ∙ ap₂ (λ a b. a ∷ b) same (from (s.0, tail)),
    )

drop-middle : (pre rest : List ℕ) → drop (length pre) (pre ++ rest) ≡ rest
drop-middle [] rest = refl
drop-middle (x ∷ pre) rest = drop-middle pre rest

-- A comparison of readable strings has a result.
ece391_strncmp-some :
    (n : ℕ) (s t : List ℕ) → Readable n s → Readable n t → (r : ℕ) × (ece391_strncmp s t n ≡ some r)
unfolding ece391_strncmp
ece391_strncmp-some zero s t p q = (0, refl)
ece391_strncmp-some (suc n) [] t p q = absurd p
ece391_strncmp-some (suc n) (a ∷ s) [] p q = absurd q
ece391_strncmp-some (suc n) (a ∷ s) (b ∷ t) p q = elim (Bool-cases (a == b)) [
  | inr differ ↦ (sub32 a b, rw differ refl)
  | inl same ↦ elim (Bool-cases (a == 0)) [
    | inl nul ↦ (0, rw (same, nul) refl)
    | inr other ↦
        let e : a ≡ b = (==_iff a b).0 same in
        let (r, f) =
          ece391_strncmp-some n s t (further a s p other)
            (further b t q (ap (λ c. c == 0) (sym e) ∙ other)) in
        (r, rw (same, other) f)
  ]
]
  where
    further :
        (c : ℕ) (u : List ℕ)
        → (c < 256) × ((c ≡ 0) ⊎ Readable n u)
        → (c == 0) ≡ false
        → Readable n u
    further c u (_, inl z) h = absurd (ground arith)
    further c u (_, inr r) h = r

-- The comparison at a place of a line is 0 exactly if the word stands there.
compare-Starts :
    (word line more rest : List ℕ)
    → All IsText word
    → All IsText line
    → (r : ℕ) × (ece391_strncmp (line ++ (0 ∷ rest)) (word ++ (0 ∷ more)) (length word) ≡ some r)
      × ((r ≡ 0) ↔ Starts word line)
compare-Starts word line more rest h k =
    let n = length word in
    let p = Readable-line n line rest k in
    let q = Readable-line n word more h in
    let (r, compared) = ece391_strncmp-some n (line ++ (0 ∷ rest)) (word ++ (0 ∷ more)) p q in
    let (equal, equal') = ece391_strncmp_eq_zero n (line ++ (0 ∷ rest)) (word ++ (0 ∷ more)) p q in
    let (starts, starts') = prefix-Starts word line rest h k in
    let text : prefix n (word ++ (0 ∷ more)) ≡ word = prefix-text word more h in
    (
      r,
      compared,
      (
        λ z. starts (equal (compared ∙ ap some z) ∙ text),
        λ st. Option.some_inj.0 (sym compared ∙ equal' (starts' st ∙ sym text)),
      ),
    )

Occurs-later :
    (word line : List ℕ) (d : ℕ)
    → (Starts word (d ∷ line) → ⊥)
    → Occurs word line ↔ Occurs word (d ∷ line)
Occurs-later word line d not_here = (λ o. (d ∷ o.0, o.1, ap (λ l. d ∷ l) o.2), later)
  where
    later : Occurs word (d ∷ line) → Occurs word line
    later ([], after, e) = absurd (not_here (after, e))
    later (x ∷ before, after, e) =
        let tail : line ≡ before ++ (word ++ after) = cc in (before, after, tail)

-- A search that answers with whether the word occurs.
abbrev pub Finds : List ℕ → List ℕ → Option Bool → Type 0
Finds word line out = (b : Bool) × (out ≡ some b) × ((b ≡ true) ↔ Occurs word line)

-- One start of the search, with the result of the comparison.
search_line-step :
    (s chunk : List ℕ) (s_len n check c first r : ℕ)
    → get_elem? chunk check ≡ some c
    → get_elem? s 0 ≡ some first
    → ece391_strncmp (drop check chunk) s s_len ≡ some r
    → search_line s chunk s_len (suc n) check ≡ (
        if char_value first == c
        then (if r == 0 then some true else search_line s chunk s_len n (check + 1))
        else search_line s chunk s_len n (check + 1))
unfolding search_line
search_line-step s chunk s_len n check c first r here head compared = rw (here, head, compared) refl

search_line-nothing :
    (s chunk : List ℕ) (s_len check : ℕ) → search_line s chunk s_len 0 check ≡ some false
unfolding search_line
search_line-nothing s chunk s_len check = refl

nowhere : (w : ℕ) (ws : List ℕ) → Occurs (w ∷ ws) [] → ⊥
nowhere w ws ([], after, e) = absurd cc
nowhere w ws (x ∷ before, after, e) = absurd cc

-- The search of one line by grep, from its start and for as many starts as it has characters, ends
-- without an access outside the buffer and answers whether the text, of one character or more
-- of which the first is below 128, occurs in the line, wherever the line lies in the buffer.
pub search_line-Finds :
    (w : ℕ) (ws more pre line rest : List ℕ)
    → w < 128
    → All IsText (w ∷ ws)
    → All IsText line
    → Finds (w ∷ ws) line (
        search_line
          ((w ∷ ws) ++ (0 ∷ more))
          (pre ++ (line ++ (0 ∷ rest)))
          (length (w ∷ ws))
          (length line)
          (length pre))
search_line-Finds w ws more pre [] rest ascii h k = (
  false,
  search_line-nothing ((w ∷ ws) ++ (0 ∷ more)) (pre ++ (0 ∷ rest)) (length (w ∷ ws)) (length pre),
  (λ e. absurd cc, λ o. absurd (nowhere w ws o)),
)
search_line-Finds w ws more pre (d ∷ line) rest ascii h k =
    let word = w ∷ ws in
    let s = word ++ (0 ∷ more) in
    let here = (d ∷ line) ++ (0 ∷ rest) in
    let (b, e, answer) = search_line-Finds w ws more (pre ++ (d ∷ [])) line rest ascii h k.1 in
    let later : search_line s (pre ++ here) (length word) (length line) (length pre + 1) ≡ some b =
      sym (
        ap₂ (λ chunk i. search_line s chunk (length word) (length line) i)
          (append_assoc pre (d ∷ []) (line ++ (0 ∷ rest)))
          (length-append pre (d ∷ []) ∙ omega arith))
      ∙ e in
    let (r, compared, (starts, starts')) = compare-Starts word (d ∷ line) more rest h k in
    let step =
      search_line-step s (pre ++ here) (length word) (length line) (length pre) d w r
        (get_elem?-middle pre (line ++ (0 ∷ rest)) d) refl
        (ap (λ l. ece391_strncmp l s (length word)) (drop-middle pre here) ∙ compared) in
    let skip : (Starts word (d ∷ line) → ⊥) → (b ≡ true) ↔ Occurs word (d ∷ line) = λ n.
      let (to, from) = Occurs-later word line d n in
      ((λ x. to (answer.0 x)), λ o. answer.1 (from o)) in
    let signed : char_value w ≡ w = ground (arith, ascii) in
    let compares : (char_value w == d) ≡ (w == d) = ap (λ n. n == d) signed in
    elim (Bool-cases (w == d)) [
      | inr differ ↦
          let n : Starts word (d ∷ line) → ⊥ =
            λ st. let q = st.1 in let same : d ≡ w = cc in absurd (ground arith) in
          (b, step ∙ if-false (char_value w == d) _ _ (compares ∙ differ) ∙ later, skip n)
      | inl first ↦ elim (Bool-cases (r == 0)) [
        | inl zero_r ↦
            let z : r ≡ 0 = (==_iff r 0).0 zero_r in
            let (after, q) = starts z in
            (
              true,
              step
                  ∙ if-true (char_value w == d) _ _ (compares ∙ first)
                  ∙ if-true (r == 0) _ _ zero_r,
              ((λ x. ([], after, q)), λ o. refl),
            )
        | inr other ↦
            let n : Starts word (d ∷ line) → ⊥ =
              λ st. let z = starts' st in absurd (ground arith) in
            (
              b,
              step
                  ∙ if-true (char_value w == d) _ _ (compares ∙ first)
                  ∙ if-false (r == 0) _ _ other
                  ∙ later,
              skip n,
            )
      ]
    ]
