-- ===== src/Programs/Cat/Copies.antt =====
-- `cat` puts out the file.
use osgods.Common.{
  ℕ, zero, suc, ◌*◌, ◌≤◌, ◌<◌, min, ◌≡◌, refl, sym, ap, ◌∙◌, ◌≢◌, Option, some, List, [], ◌∷◌, ◌++◌,
  arith, ==_ne, length, length-append, take, drop, take-append-drop, length-take, length-drop,
  minus_one, All,
}
use mathlib.Core.Path.{subst}
use osgods.Programs.{Calls, overlay}
use osgods.Programs.Cat.{cat_bufsize, cat_loop, cat_main}
use osgods.Programs.Streams.{Plain, FileCalls, overlay-append, All-take, All-drop}

module _ {S : Type 0} (calls : Calls S) (laws : FileCalls calls) where
  open laws use {Reads, Shows, shows_nothing, shows_more, reads, writes}

  -- A program that ends with status 0 after it put out `xs`.
  abbrev pub Copied : S → List ℕ → Option (ℕ × S) → Type 0
  Copied s xs result = (t : S) × (result ≡ some (0, t)) × Shows s xs t

  cat_loop-empty :
      (n : ℕ) (s : S) (fd : ℕ) (buf : List ℕ)
      → Reads s fd []
      → Copied s [] (cat_loop calls (suc n) s fd buf)
  unfolding cat_loop overlay
  cat_loop-empty n s fd buf r =
      let (t, e, left, shown) = reads s fd cat_bufsize [] r (omega arith) in (t, rw e refl, shown)

  -- A round that reads something puts it out and goes on with the rest.
  cat_round :
      (n : ℕ) (s : S) (fd : ℕ) (xs buf : List ℕ)
      → Reads s fd xs
      → All Plain xs
      → length buf ≡ cat_bufsize
      → 0 < length xs
      → (u : S) × (buf' : List ℕ) × (cat_loop calls (suc n) s fd buf ≡ cat_loop calls n u fd buf')
        × (length buf' ≡ cat_bufsize)
        × Reads u fd (drop cat_bufsize xs)
        × Shows s (take cat_bufsize xs) u
  unfolding cat_loop
  cat_round n s fd xs buf r plain size some_left =
      let out = take cat_bufsize xs in
      let rest = drop (length out) buf in
      let cnt : length out ≡ min cat_bufsize (length xs) = length-take cat_bufsize xs in
      let (t, e, left, silent) = reads s fd cat_bufsize xs r (omega arith) in
      let (u, w, left', shown) =
        writes t fd (drop cat_bufsize xs) out rest left (All-take Plain cat_bufsize xs plain)
          (omega arith) in
      let w' : calls.write t 1 (out ++ rest) (min cat_bufsize (length xs)) ≡ some (length out, u) =
        ap (calls.write t 1 (out ++ rest)) (sym cnt) ∙ w in
      let not0 = ==_ne (min cat_bufsize (length xs)) 0 (λ e. omega (arith, e)) in
      let not1 = ==_ne (min cat_bufsize (length xs)) minus_one (λ e. omega (arith, e)) in
      let not2 = ==_ne (length out) minus_one (λ e. omega (arith, e, cnt)) in
      (
        u,
        out ++ rest,
        rw (e, overlay-append out buf (omega (arith, cnt)), not0, not1, w', not2) refl,
        length-append out rest ∙ omega (arith, length-drop (length out) buf, cnt),
        left',
        shows_more s t u [] out silent shown,
      )

  cat_loop-Copied :
      (n : ℕ) (s : S) (fd : ℕ) (xs buf : List ℕ)
      → Reads s fd xs
      → All Plain xs
      → length buf ≡ cat_bufsize
      → length xs ≤ n * cat_bufsize
      → Copied s xs (cat_loop calls (suc n) s fd buf)
  cat_loop-Copied n s fd [] buf r plain size fuel = cat_loop-empty n s fd buf r
  cat_loop-Copied zero s fd (x ∷ xs) buf r plain size fuel = absurd (omega arith)
  cat_loop-Copied (suc n) s fd (x ∷ xs) buf r plain size fuel =
      let all : List ℕ = x ∷ xs in
      let (u, buf', step, size', left, shown) =
        cat_round (suc n) s fd all buf r plain size (omega arith) in
      let (v, rest, shown') =
        cat_loop-Copied n u fd (drop cat_bufsize all) buf' left
          (All-drop Plain cat_bufsize all plain) size'
          (omega (arith, length-drop cat_bufsize all)) in
      (
        v,
        step ∙ rest,
        subst (λ l. Shows s l v) (take-append-drop cat_bufsize all)
            (shows_more s u v (take cat_bufsize all) (drop cat_bufsize all) shown shown'),
      )

  -- Where the calls keep to what a program may rely on, `cat` of a file that it could open puts out
  -- exactly the rest of the file and ends with status 0, for a file without backspaces and enough
  -- rounds for its blocks of 1024 bytes and the read that finds the end.
  pub cat_main-Copied :
      (n : ℕ) (s t : S) (fd : ℕ) (name xs buf : List ℕ)
      → calls.getargs s buf cat_bufsize ≡ some (0, name)
      → length name ≡ cat_bufsize
      → calls.open_name s name ≡ some (fd, t)
      → fd ≢ minus_one
      → Reads t fd xs
      → All Plain xs
      → length xs ≤ n * cat_bufsize
      → Copied t xs (cat_main calls (suc n) s buf)
  unfolding cat_main
  cat_main-Copied n s t fd name xs buf args size opened ok r plain fuel =
      rw (args, opened, ==_ne fd minus_one ok) (cat_loop-Copied n t fd xs name r plain size fuel)
