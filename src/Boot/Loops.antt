-- ===== src/Boot/Loops.antt =====
-- The loops of the report keep the screen in order, and end.
use osgods.Common.{
  ℕ, zero, suc, ◌+◌, ◌*◌, ◌^◌, ◌≤◌, ◌<◌, ◌≡◌, refl, ap, Bool, true, false, none, List, [], ◌∷◌,
  arith, ltb, ltb→lt, add32, Ensures, Ensures-bind, Ensures-some, Ensures-if,
}
use mathlib.Core.Path.{subst}
use osgods.Boot.Multiboot.{Module, module_at, memory_map_at, field_at}
use osgods.Boot.Report.{
  print_bytes, print_module, print_modules, print_memory_map, print_memory_maps, print_if,
}
use osgods.Filesystem.Layout.{word_in}
use osgods.Kernel.{Kernel}
use osgods.Printf.{Arg}
use osgods.Printf.Formats.{Kind, a_word, is_format, HaveKinds}
use osgods.Process.{print}
use osgods.Process.Printing.{Prints, Prints-again, print-Prints}
use osgods.Programs.{literal}

-- What the boot loader gives is bytes.
abbrev pub IsMemory : (ℕ → ℕ) → Type 0
IsMemory mem = (a : ℕ) → mem a < 256

word_in-small : (mem : ℕ → ℕ) (a : ℕ) → IsMemory mem → word_in mem a < 2 ^ 32
word_in-small mem a h = omega (arith, h a, h (a + 1), h (a + 2), h (a + 3))

-- The steps over a memory map from `a` up to `end`, of which none wraps around.
pub data IsWalk (mem : ℕ → ℕ) (end : ℕ) : ℕ → Type 0 where
  walked : (a : ℕ) → end ≤ a → IsWalk mem end a
  next_step :
      (a : ℕ)
      → a + field_at mem a 0 + 4 < 2 ^ 32
      → IsWalk mem end (a + field_at mem a 0 + 4)
      → IsWalk mem end a

-- The start of the last of `n` modules from address `a` on.
abbrev pub last_start : (ℕ → ℕ) → ℕ → ℕ → ℕ → ℕ
last_start mem zero a start = start
last_start mem (suc n) a start = (module_at mem (add32 a (16 * n))).mod_start

module _ (base : ℕ) (fits : base + 4000 ≤ 2 ^ 32) (kept mem : ℕ → ℕ) (is_memory : IsMemory mem)
    (k0 : Kernel) where
  -- Everything printed since `k0`.
  abbrev Since : Kernel → Type 0
  Since k = Prints base kept k0 k

  pub print_more :
      (k : Kernel) (format : List ℕ) (kinds : List Kind) (args : List Arg)
      → is_format none format kinds ≡ true
      → HaveKinds kinds args
      → Since k
      → Ensures Since (print k format args)
  print_more k format kinds args f h p =
      let (l, e, q) =
        Ensures-some (Prints base kept k) (print k format args)
          (print-Prints base kept k format kinds args fits f h p.1) in
      rw e (Prints-again base kept k0 k l p q)

  pub print_if-more :
      (flag : Bool) (k : Kernel) (format : List ℕ) (kinds : List Kind) (args : List Arg)
      → is_format none format kinds ≡ true
      → HaveKinds kinds args
      → Since k
      → Ensures Since (print_if flag k format args)
  unfolding print_if
  print_if-more flag k format kinds args f h p =
      Ensures-if Since flag _ _ (λ e. print_more k format kinds args f h p) (λ e. p)

  pub small : (a offset : ℕ) → field_at mem a offset < 2 ^ 32
  small a offset = word_in-small mem (add32 a offset) is_memory

  print_bytes-more :
      (mod_start n i : ℕ) (k : Kernel) → Since k → Ensures Since (print_bytes mem mod_start n i k)
  unfolding print_bytes
  print_bytes-more mod_start zero i k p = p
  print_bytes-more mod_start (suc n) i k p =
      let byte = is_memory (add32 mod_start i) in
      Ensures-bind Since Since _ _
        (print_more k (literal "0x%x ") (a_word ∷ []) _ refl (ground (arith, byte), tt) p)
        (λ l q. print_bytes-more mod_start n (i + 1) l q)

  print_module-more :
      (mod_count : ℕ) (m : Module) (k : Kernel)
      → mod_count < 2 ^ 32
      → m.mod_start < 2 ^ 32
      → m.mod_end < 2 ^ 32
      → Since k
      → Ensures Since (print_module mem mod_count m k)
  unfolding print_module
  print_module-more mod_count m k a b c p =
      Ensures-bind Since Since _ _
        (print_more k (literal "Module %d loaded at address: 0x%#x\n") (a_word ∷ a_word ∷ []) _ refl
          (a, (b, tt)) p)
        (λ k1 p1.
          Ensures-bind Since Since _ _
            (print_more k1 (literal "Module %d ends at address: 0x%#x\n") (a_word ∷ a_word ∷ []) _
              refl (a, (c, tt)) p1)
            (λ k2 p2.
              Ensures-bind Since Since _ _
                (print_more k2 (literal "First few bytes of module:\n") [] [] refl tt p2)
                (λ k3 p3.
                  Ensures-bind Since Since _ _ (print_bytes-more m.mod_start 16 0 k3 p3)
                    (λ k4 p4. print_more k4 (literal "\n") [] [] refl tt p4))))

  last_start-next :
      (n a start : ℕ)
      → a < 2 ^ 32
      → last_start mem n (add32 a 16) (module_at mem a).mod_start ≡ last_start mem (suc n) a start
  unfolding module_at
  last_start-next zero a start h =
      let same : a ≡ add32 a 0 = omega arith in ap (λ b. field_at mem b 0) same
  last_start-next (suc n) a start h =
      let same : add32 (add32 a 16) (16 * n) ≡ add32 a (16 * suc n) = omega arith in
      ap (λ b. field_at mem b 0) same

  pub print_modules-more :
      (n mod_count a start : ℕ) (k : Kernel)
      → mod_count + n < 2 ^ 32
      → a < 2 ^ 32
      → Since k
      → Ensures
          (λ r. (r.0 ≡ last_start mem n a start) × Since r.1)
          (print_modules mem n mod_count a start k)
  unfolding print_modules module_at
  print_modules-more zero mod_count a start k h b p = (refl, p)
  print_modules-more (suc n) mod_count a start k h b p =
      let m = module_at mem a in
      Ensures-bind Since _ _ _
        (print_module-more mod_count m k (omega arith) (small a 0) (small a 4) p)
        (λ l q.
          subst
            (λ z.
              Ensures (λ (r : ℕ × Kernel). (r.0 ≡ z) × Since r.1)
                (print_modules mem n (mod_count + 1) (add32 a 16) m.mod_start l))
            (last_start-next n a start b)
            (print_modules-more n (mod_count + 1) (add32 a 16) m.mod_start l (omega arith)
              (omega arith) q))

  print_memory_map-more :
      (a : ℕ) (k : Kernel) → Since k → Ensures Since (print_memory_map (memory_map_at mem a) k)
  unfolding print_memory_map memory_map_at
  print_memory_map-more a k p =
      print_more k
        (literal "    size = 0x%x, base_addr = 0x%#x%#x\n    type = 0x%x,  length    = 0x%#x%#x\n")
        (a_word ∷ a_word ∷ a_word ∷ a_word ∷ a_word ∷ a_word ∷ []) _ refl
        (small a 0, (small a 8, (small a 4, (small a 20, (small a 16, (small a 12, tt)))))) p

  IsWalk-on :
      (end a : ℕ)
      → IsWalk mem end a
      → a < end
      → (a + field_at mem a 0 + 4 < 2 ^ 32) × IsWalk mem end (a + field_at mem a 0 + 4)
  IsWalk-on end a (walked _ over) inside = absurd (omega arith)
  IsWalk-on end a (next_step _ bound further) inside = (bound, further)

  -- As many rounds as there are bytes left are enough.
  pub print_memory_maps-more :
      (fuel end a : ℕ) (k : Kernel)
      → IsWalk mem end a
      → end ≤ a + fuel
      → Since k
      → Ensures Since (print_memory_maps mem fuel end a k)
  unfolding print_memory_maps memory_map_at
  print_memory_maps-more zero end a k walk enough p =
      let over : ltb a end ≡ false = ground arith in rw over p
  print_memory_maps-more (suc fuel) end a k walk enough p =
      Ensures-if Since (ltb a end) _ _
        (λ inside.
          let (bound, further) = IsWalk-on end a walk (ltb→lt a end inside) in
          let same : a + field_at mem a 0 + 4 ≡ add32 (add32 a (field_at mem a 0)) 4 =
            omega (arith, bound) in
          Ensures-bind Since Since _ _ (print_memory_map-more a k p) (λ l q.
            print_memory_maps-more fuel end (add32 (add32 a (field_at mem a 0)) 4) l
              (subst (IsWalk mem end) same further) (omega (arith, bound)) q))
        (λ over. p)
