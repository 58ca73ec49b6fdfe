-- ===== src/Syscall/Guards.antt =====
-- What the calls of a program do with arguments that are not allowed.
use osgods.Common.{
  ℕ, ◌^◌, ◌≤◌, ◌<◌, ◌≡◌, refl, ◌⊎◌, inl, inr, Bool, true, false, Option, none, some, List, [],
  arith, ◌==◌, ==_iff, Bool-cases, length, get_elem?, minus_one, get_elem?-lt,
}
use osgods.Kernel.{Kernel, get_current_pcb}
use osgods.Pcb.{Pcb, FileObject, max_file_num}
use osgods.Rtc.{returned}
use osgods.Syscall.{bad_call, read, write}

-- A descriptor that no file is open on: out of range, or free.
abbrev pub IsNotOpen : Pcb → ℕ → Type 0
IsNotOpen p fd =
    (max_file_num ≤ fd) ⊎ ((o : FileObject) → get_elem? p.file_descriptor fd ≡ some o → o.flag ≡ 0)

-- The calls that `read` and `write` must refuse.
abbrev pub IsRefused : Pcb → ℕ → Bool → ℕ → Type 0
IsRefused p fd buf_is_null nbytes = IsNotOpen p fd ⊎ ((buf_is_null ≡ true) ⊎ (2 ^ 31 ≤ nbytes))

abbrev pub is_null : Option (List ℕ) → Bool
is_null none = true
is_null (some b) = false

bad_call-not_open :
    (p : Pcb) (fd nbytes : ℕ) (null : Bool)
    → fd < 2 ^ 32
    → nbytes < 2 ^ 32
    → IsRefused p fd null nbytes
    → bad_call fd null nbytes ≡ false
    → (o : FileObject) → get_elem? p.file_descriptor fd ≡ some o
    → o.flag ≡ 0
bad_call-not_open p fd nbytes null hf hn (inl (inl far)) ok o g = absurd (ground arith)
bad_call-not_open p fd nbytes null hf hn (inl (inr free)) ok o g = free o g
bad_call-not_open p fd nbytes null hf hn (inr (inl e)) ok o g = absurd (ground arith)
bad_call-not_open p fd nbytes null hf hn (inr (inr neg)) ok o g = absurd (ground arith)

-- With eight descriptors, `read` gives -1, stores nothing and changes nothing on a descriptor that
-- is out of range or not open, on a null pointer and on a negative number of bytes, and so does
-- `write`.
pub read-write_refused :
    (k : Kernel) (p : Pcb) (fd nbytes : ℕ) (buf : Option (List ℕ))
    → get_current_pcb k ≡ some p
    → length p.file_descriptor ≡ max_file_num
    → fd < 2 ^ 32
    → nbytes < 2 ^ 32
    → IsRefused p fd (is_null buf) nbytes
    → (read k fd (is_null buf) nbytes ≡ some (returned (minus_one, [], k)))
      × (write k fd buf nbytes ≡ some (minus_one, k))
unfolding read write
read-write_refused k p fd nbytes none cur eight hf hn r =
    let bad : bad_call fd true nbytes ≡ true = ground arith in (rw bad refl, refl)
read-write_refused k p fd nbytes (some buf) cur eight hf hn r =
    elim (Bool-cases (bad_call fd false nbytes)) [
      | inl bad ↦ (rw bad refl, rw bad refl)
      | inr ok ↦
          let (o, there) = get_elem?-lt p.file_descriptor fd (ground (arith, eight)) in
          let free : (o.flag == 0) ≡ true =
            (==_iff o.flag 0).1 (bad_call-not_open p fd nbytes false hf hn r ok o there) in
          (rw (ok, cur, there, free) refl, rw (ok, cur, there, free) refl)
    ]
