-- ===== src/Strings/Reverse.antt =====
-- In-place reversal of a C string, and the length of one.
use osgods.Common.{
  ℕ, zero, suc, ◌+◌, ◌^◌, ◌≤◌, ◌<◌, ◌≡◌, refl, sym, ap, ap₂, ◌∙◌, ◌≢◌, true, false, some, List, [],
  ◌∷◌, ◌++◌, reverse, append_assoc, reverse-append, arith, length, set, length-append, get_elem?,
  get_or, sub32, slt,
}
use osgods.Strings.{strlen, strlen_from, swap_loop, strrev}

-- No byte is NUL.
abbrev pub NoNul : List ℕ → Type 0
NoNul [] = Unit {0}
NoNul (c ∷ s) = (c ≢ 0) × NoNul s

strlen_from-text :
    (k : ℕ) (s rest : List ℕ) → NoNul s → strlen_from k (s ++ (0 ∷ rest)) ≡ some (k + length s)
unfolding strlen_from
strlen_from-text k [] rest h = ap some (omega arith)
strlen_from-text k (c ∷ s) rest h = ground (arith, strlen_from-text (k + 1) s rest h.1)

-- `strlen` counts the bytes before the first NUL.
pub strlen-text : (s rest : List ℕ) → NoNul s → strlen (s ++ (0 ∷ rest)) ≡ some (length s)
unfolding strlen
strlen-text s rest h = strlen_from-text 0 s rest h ∙ ap some (omega arith)

pub get_elem?-middle : (xs ys : List ℕ) (v : ℕ) → get_elem? (xs ++ (v ∷ ys)) (length xs) ≡ some v
get_elem?-middle [] ys v = refl
get_elem?-middle (x ∷ xs) ys v = get_elem?-middle xs ys v

module _ {ℓ} {A : Type ℓ} where
  get_or-middle : (pre rest : List A) (a d : A) → get_or (pre ++ (a ∷ rest)) (length pre) d ≡ a
  get_or-middle [] rest a d = refl
  get_or-middle (x ∷ pre) rest a d = get_or-middle pre rest a d

  pub set-middle :
      (pre rest : List A) (a v : A) → set (pre ++ (a ∷ rest)) (length pre) v ≡ pre ++ (v ∷ rest)
  set-middle [] rest a v = refl
  set-middle (x ∷ pre) rest a v = ap (λ r. x ∷ r) (set-middle pre rest a v)

  -- Both ends of a list of two or more.
  data Ends : List A → Type ℓ where
    empty : Ends []
    one : (a : A) → Ends (a ∷ [])
    two : (a : A) (m : List A) (b : A) → Ends (a ∷ (m ++ (b ∷ [])))

  cons-Ends : (a : A) {m : List A} → Ends m → Ends (a ∷ m)
  cons-Ends a empty = one a
  cons-Ends a (one b) = two a [] b
  cons-Ends a (two x m b) = two a (x ∷ m) b

  ends : (m : List A) → Ends m
  ends [] = empty
  ends (a ∷ m) = cons-Ends a (ends m)

swap_loop-stop :
    (fuel beg end : ℕ) (s : List ℕ) → slt beg end ≡ false → swap_loop fuel beg end s ≡ s
unfolding swap_loop
swap_loop-stop zero beg end s h = refl
swap_loop-stop (suc fuel) beg end s h = rw h

regroup :
    (pre m post : List ℕ) (a b : ℕ)
    → pre ++ (a ∷ (m ++ (b ∷ post))) ≡ (pre ++ (a ∷ m)) ++ (b ∷ post)
regroup pre m post a b = simp append_assoc

module _ (pre m post : List ℕ) (a b : ℕ) (end : ℕ) (e : end ≡ length pre + length m + 1) where
  end-length : end ≡ length (pre ++ (a ∷ m))
  end-length = omega (arith, length-append pre (a ∷ m))

  get_or-last : get_or (pre ++ (a ∷ (m ++ (b ∷ post)))) end 0 ≡ b
  get_or-last =
      ap₂ (λ s i. get_or s i 0) (regroup pre m post a b) end-length
      ∙ get_or-middle (pre ++ (a ∷ m)) post b 0

  set-last : (v : ℕ) → set (pre ++ (a ∷ (m ++ (b ∷ post)))) end v ≡ pre ++ (a ∷ (m ++ (v ∷ post)))
  set-last v =
      ap₂ (λ s i. set s i v) (regroup pre m post a b) end-length
      ∙ set-middle (pre ++ (a ∷ m)) post b v
      ∙ sym (regroup pre m post a v)

  -- One round exchanges the two ends.
  swap_ends :
      let s = pre ++ (a ∷ (m ++ (b ∷ post))) in
      set (set s end (get_or s (length pre) 0)) (length pre) (get_or s end 0)
      ≡ pre ++ (b ∷ (m ++ (a ∷ post)))
  swap_ends =
      rw (get_or-last, get_or-middle pre (m ++ (b ∷ post)) a 0, set-last a)
        (set-middle pre (m ++ (a ∷ post)) a b)

-- What the loop does with at most `fuel` rounds: it reverses the part between the two indices.
abbrev Reverses : ℕ → List ℕ → Type 0
Reverses fuel mid =
    (end : ℕ) (pre post : List ℕ)
    → end ≡ sub32 (length pre + length mid) 1
    → length pre + length mid < 2 ^ 31
    → swap_loop fuel (length pre) end (pre ++ (mid ++ post)) ≡ pre ++ (reverse mid ++ post)

reverse-ends :
    (a : ℕ) (m : List ℕ) (b : ℕ) → reverse (a ∷ (m ++ (b ∷ []))) ≡ b ∷ (reverse m ++ (a ∷ []))
reverse-ends a m b = reverse-append (a ∷ m) (b ∷ []) ∙ ap (λ r. b ∷ r) (reverse-append (a ∷ []) m)

-- The loop after its first round, on the text with the two ends exchanged.
swap_loop-round :
    (fuel end : ℕ) (pre m post : List ℕ) (a b : ℕ)
    → end ≡ length pre + length m + 1
    → end < 2 ^ 31
    → swap_loop (suc fuel) (length pre) end (pre ++ (a ∷ (m ++ (b ∷ post))))
      ≡ swap_loop fuel (length pre + 1) (sub32 end 1) (pre ++ (b ∷ (m ++ (a ∷ post))))
unfolding swap_loop
swap_loop-round fuel end pre m post a b e small =
    let more : slt (length pre) end ≡ true = ground arith in
    rw more (ap (swap_loop fuel (length pre + 1) (sub32 end 1)) (swap_ends pre m post a b end e))

Reverses-step :
    (fuel : ℕ) (a : ℕ) (m : List ℕ) (b : ℕ)
    → Reverses fuel m
    → Reverses (suc fuel) (a ∷ (m ++ (b ∷ [])))
Reverses-step fuel a m b ih end pre post e small =
    let count : length (m ++ (b ∷ [])) ≡ length m + 1 = omega (arith, length-append m (b ∷ [])) in
    let moved : length (pre ++ (b ∷ [])) ≡ length pre + 1 =
      omega (arith, length-append pre (b ∷ [])) in
    let last : end ≡ length pre + length m + 1 = omega arith in
    ap (λ r. swap_loop (suc fuel) (length pre) end (pre ++ (a ∷ r))) (append_assoc m (b ∷ []) post)
    ∙ swap_loop-round fuel end pre m post a b last (omega arith)
    ∙ ap₂ (λ i s. swap_loop fuel i (sub32 end 1) s) (sym moved)
        (sym (append_assoc pre (b ∷ []) (m ++ (a ∷ post))))
    ∙ ih (sub32 end 1) (pre ++ (b ∷ [])) (a ∷ post) (omega arith) (omega arith)
    ∙ append_assoc pre (b ∷ []) (reverse m ++ (a ∷ post))
    ∙ ap (λ r. pre ++ (b ∷ r)) (sym (append_assoc (reverse m) (a ∷ []) post))
    ∙ ap (λ r. pre ++ (r ++ post)) (sym (reverse-ends a m b))

Reverses-short : (fuel : ℕ) (mid : List ℕ) → length mid ≤ 1 → Reverses fuel mid
Reverses-short fuel [] h end pre post e small =
    swap_loop-stop fuel (length pre) end (pre ++ post) (ground arith)
Reverses-short fuel (a ∷ []) h end pre post e small =
    swap_loop-stop fuel (length pre) end (pre ++ (a ∷ post)) (ground arith)
Reverses-short fuel (a ∷ b ∷ m) h end pre post e small = absurd (omega arith)

Reverses-suc :
    (fuel : ℕ) {mid : List ℕ}
    → Ends mid
    → ((m : List ℕ) → length m ≤ fuel → Reverses fuel m)
    → length mid ≤ suc fuel
    → Reverses (suc fuel) mid
Reverses-suc fuel empty ih f = Reverses-short (suc fuel) [] (omega arith)
Reverses-suc fuel (one a) ih f = Reverses-short (suc fuel) (a ∷ []) (omega arith)
Reverses-suc fuel (two a m b) ih f =
    Reverses-step fuel a m b (ih m (omega (arith, length-append m (b ∷ []))))

swap_loop-Reverses : (fuel : ℕ) (mid : List ℕ) → length mid ≤ fuel → Reverses fuel mid
swap_loop-Reverses zero mid f = Reverses-short zero mid (omega arith)
swap_loop-Reverses (suc fuel) mid f = Reverses-suc fuel (ends mid) (swap_loop-Reverses fuel) f

-- `strrev` reverses the text before the NUL in place and leaves the bytes behind it alone.
pub strrev-reverse :
    (s rest : List ℕ)
    → NoNul s
    → length s < 2 ^ 31
    → strrev (s ++ (0 ∷ rest)) ≡ some (reverse s ++ (0 ∷ rest))
unfolding strrev
strrev-reverse s rest h small = rw (strlen-text s rest h) (
    ap some (
      swap_loop-Reverses (length s) s (omega arith) (sub32 (length s) 1) [] (0 ∷ rest) (omega arith)
        (omega arith)))
