-- ===== src/Programs/Ls/Entries.antt =====
-- `ls` puts out the names of the directory.
use osgods.Common.{
  ℕ, zero, suc, ◌^◌, ◌<◌, ◌≡◌, refl, sym, ap, ◌∙◌, ◌≢◌, true, Option, some, List, [], ◌∷◌, ◌++◌,
  arith, ltb, lt→ltb, ==_ne, length, set, length-append, drop, length-drop, minus_one, All,
}
use osgods.Console.{store}
use osgods.Programs.{Calls, overlay, literal}
use osgods.Programs.Ls.{ls_sbufsize, ls_loop, ls_main}
use osgods.Programs.Streams.{Plain, overlay-append}
use osgods.Strings.Reverse.{set-middle}

-- `Lists s fd names`: descriptor `fd` is on a directory with the entries `names` left to read, and
-- descriptor 1 is the terminal. A name fills 32 bytes.
pub record DirCalls {S : Type 0} (calls : Calls S) : Type 1 where
  pub Lists : S → ℕ → List (List ℕ) → Type 0
  pub Shows : S → List ℕ → S → Type 0
  pub shows_more : (s t u : S) (xs ys : List ℕ) → Shows s xs t → Shows t ys u → Shows s (xs ++ ys) u
  pub reads_end :
      (s : S) (fd : ℕ)
      → Lists s fd []
      → (t : S) × (calls.read s fd 32 ≡ some (0, [], t)) × Shows s [] t
  pub reads_entry :
      (s : S) (fd : ℕ) (name : List ℕ) (names : List (List ℕ))
      → Lists s fd (name ∷ names)
      → (t : S) × (calls.read s fd 32 ≡ some (32, name, t))
        × (length name ≡ 32)
        × Lists t fd names
        × Shows s [] t
  pub writes :
      (s : S) (fd : ℕ) (names : List (List ℕ)) (bs : List ℕ)
      → Lists s fd names
      → All Plain bs
      → length bs < 2 ^ 31
      → (t : S) × (calls.write s 1 bs (length bs) ≡ some (length bs, t))
        × Lists t fd names
        × Shows s bs t

-- Each name on a line of its own.
abbrev pub lines : List (List ℕ) → List ℕ
lines [] = []
lines (name ∷ names) = (name ++ (b'\n' ∷ [])) ++ lines names

overlay-nil : (buf : List ℕ) → overlay [] buf ≡ some buf
unfolding overlay
overlay-nil buf = refl

one_left : (xs : List ℕ) → length xs ≡ 1 → (x : ℕ) × (xs ≡ x ∷ [])
one_left [] h = absurd (omega arith)
one_left (x ∷ []) h = (x, refl)
one_left (x ∷ y ∷ xs) h = absurd (omega arith)

Plain-append : (xs ys : List ℕ) → All Plain xs → All Plain ys → All Plain (xs ++ ys)
Plain-append [] ys p q = q
Plain-append (x ∷ xs) ys p q = (p.0, Plain-append xs ys p.1 q)

-- The buffer with a name and the newline behind it.
line_buffer :
    (name buf : List ℕ)
    → length name ≡ 32
    → length buf ≡ ls_sbufsize
    → (x : ℕ) × (overlay name buf ≡ some (name ++ (x ∷ [])))
      × (store (name ++ (x ∷ [])) 32 b'\n' ≡ some (name ++ (b'\n' ∷ [])))
unfolding store
line_buffer name buf len size =
    let (x, one) =
      one_left (drop (length name) buf)
        (length-drop (length name) buf ∙ omega (arith, len, size)) in
    let at : set (name ++ (x ∷ [])) 32 b'\n' ≡ name ++ (b'\n' ∷ []) =
      ap (λ n. set (name ++ (x ∷ [])) n b'\n') (sym len) ∙ set-middle name [] x b'\n' in
    let fits : ltb 32 (length (name ++ (x ∷ []))) ≡ true =
      lt→ltb 32 (length (name ++ (x ∷ []))) (omega (arith, length-append name (x ∷ []), len)) in
    (
      x,
      overlay-append name buf (omega (arith, len, size)) ∙ ap (λ r. some (name ++ r)) one,
      rw fits (ap some at),
    )

module _ {S : Type 0} (calls : Calls S) (laws : DirCalls calls) where
  open laws use {Lists, Shows, shows_more, reads_end, reads_entry, writes}

  -- A program that ends with status 0 after it put out `xs`.
  abbrev pub Lines : S → List ℕ → Option (ℕ × S) → Type 0
  Lines s xs result = (t : S) × (result ≡ some (0, t)) × Shows s xs t

  ls_loop-Lines :
      (n : ℕ) (s : S) (fd : ℕ) (names : List (List ℕ)) (buf : List ℕ)
      → Lists s fd names
      → All (All Plain) names
      → length buf ≡ ls_sbufsize
      → length names < n
      → Lines s (lines names) (ls_loop calls n s fd buf)
  unfolding ls_loop
  ls_loop-Lines zero s fd names buf dir plain size fuel = absurd (omega arith)
  ls_loop-Lines (suc n) s fd [] buf dir plain size fuel =
      let (t, e, shown) = reads_end s fd dir in (t, rw (e, overlay-nil buf) refl, shown)
  ls_loop-Lines (suc n) s fd (name ∷ names) buf dir plain size fuel =
      let (t, e, len, dir', silent) = reads_entry s fd name names dir in
      let (x, laid, stored) = line_buffer name buf len size in
      let line = name ++ (b'\n' ∷ []) in
      let count : length line ≡ 33 = length-append name (b'\n' ∷ []) ∙ omega (arith, len) in
      let plain' = Plain-append name (b'\n' ∷ []) plain.0 ((λ h. omega arith), tt) in
      let (u, w, dir'', shown) = writes t fd names line dir' plain' (omega (arith, count)) in
      let w' : calls.write t 1 line 33 ≡ some (33, u) =
        ap (calls.write t 1 line) (sym count) ∙ w ∙ ap (λ c. some (c, u)) count in
      let (v, f, shown') = ls_loop-Lines n u fd names line dir'' plain.1 count (omega arith) in
      (
        v,
        rw (e, laid, stored, w') f,
        shows_more s u v line (lines names) (shows_more s t u [] line silent shown) shown',
      )

  -- Where the calls keep to what a program may rely on, `ls` of a directory that it could open puts
  -- out every name that is left to read, on a line of its own and in the order of the directory, and
  -- ends with status 0. One round for each entry and one more are enough.
  pub ls_main-Lines :
      (n : ℕ) (s t : S) (fd : ℕ) (names : List (List ℕ)) (buf : List ℕ)
      → calls.open_name s (literal ".") ≡ some (fd, t)
      → fd ≢ minus_one
      → Lists t fd names
      → All (All Plain) names
      → length buf ≡ ls_sbufsize
      → length names < n
      → Lines t (lines names) (ls_main calls n s buf)
  unfolding ls_main
  ls_main-Lines n s t fd names buf opened ok dir plain size fuel =
      rw (opened, ==_ne fd minus_one ok) (ls_loop-Lines n t fd names buf dir plain size fuel)
