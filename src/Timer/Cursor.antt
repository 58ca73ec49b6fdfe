-- ===== src/Timer/Cursor.antt =====
-- What reaches the video controller.
use osgods.Common.{ℕ, ◌+◌, ◌*◌, ◌<◌, ◌≡◌, refl, List, [], ◌∷◌, ◌++◌, arith, ◌==◌, if◌then◌else◌}
use osgods.Pic.{Pic, outb}
use osgods.Timer.{update_cursor}

-- The value that the last two writes of a register number and a byte leave in register `reg` of
-- the controller: writes to the index port select, writes to the data port store.
pub record Crtc : Type 0 where
  pub selected : ℕ
  pub registers : ℕ → ℕ

unfoldable pub crtc_write : Crtc → ℕ × ℕ → Crtc
crtc_write v (byte, port) =
    if port == 0x3D4
    then record v { selected = byte }
    else if port == 0x3D5
    then record v { registers = λ r. if r == v.selected then byte else v.registers r }
    else v

unfoldable pub crtc_run : Crtc → List (ℕ × ℕ) → Crtc
crtc_run v [] = v
crtc_run v (w ∷ ws) = crtc_run (crtc_write v w) ws

crtc_run-append :
    (v : Crtc) (ws us : List (ℕ × ℕ)) → crtc_run v (ws ++ us) ≡ crtc_run (crtc_run v ws) us
unfolding crtc_run
crtc_run-append v [] us = refl
crtc_run-append v (w ∷ ws) us = crtc_run-append (crtc_write v w) ws us

-- After `update_cursor` for a cell of the screen, the registers 0x0E and 0x0F of the controller
-- hold the high and the low byte of the cell's number, whatever was written before.
pub update_cursor-position :
    (p : Pic) (v : Crtc) (x y : ℕ)
    → x < 80
    → y < 25
    → let r = (crtc_run v (update_cursor p x y).ports).registers in
      r 0x0E * 256 + r 0x0F ≡ y * 80 + x
unfolding update_cursor outb
update_cursor-position p v x y hx hy =
    simp crtc_run-append (unfold crtc_run crtc_write in omega arith)
