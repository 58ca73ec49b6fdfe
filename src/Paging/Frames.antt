-- ===== src/Paging/Frames.antt =====
-- What the page directory maps for each process.
use osgods.Common.{
  bit_or-bit, ℕ, ◌/◌, ◌%◌, ◌^◌, ◌<◌, ◌≡◌, refl, ◌≢◌, true, not, ◌&&◌, ◌||◌, arith, ltb, ◌==◌,
  holds_below, holds_below-at,
}
use osgods.Paging.{Paging, pde_4m_usr, set_up_paging, set_user_video_map, set_vid_map}

-- The frame of 4 MB that a page directory entry names.
abbrev pub frame : ℕ → ℕ
frame pde = pde / 2 ^ 22

pde_table :
    holds_below 6 (λ i. holds_below 6 (λ j.
      (i == j || not (pde_4m_usr i / 2 ^ 22 == pde_4m_usr j / 2 ^ 22))
      && (pde_4m_usr i % 2 ^ 22 == 0x87)
      && ltb 1 (pde_4m_usr i / 2 ^ 22)))
    ≡ true
unfolding holds_below pde_4m_usr
pde_table = refl

pde_row :
    (i j : ℕ)
    → i < 6
    → j < 6
    → (i == j || not (frame (pde_4m_usr i) == frame (pde_4m_usr j)))
        && (pde_4m_usr i % 2 ^ 22 == 0x87)
        && ltb 1 (frame (pde_4m_usr i))
      ≡ true
pde_row i j hi hj = holds_below-at 6 _ j (holds_below-at 6 _ i pde_table hi) hj

-- `set_up_paging` for two of the six processes maps the program page, entry 32, to different
-- frames, each above the frames 0 and 1 of the kernel, present, writable, open to the user and of
-- 4 MB; every other entry of the directory stays, the directory is loaded, and the paging bit 31 of cr0 is set.
pub set_up_paging-isolates :
    (p q : Paging) (i j : ℕ)
    → i < 6
    → j < 6
    → let di = (set_up_paging p i).page_dir in
      let dj = (set_up_paging q j).page_dir in
      (i ≢ j → frame (di 32) ≢ frame (dj 32))
      × (1 < frame (di 32))
      × (di 32 % 2 ^ 22 ≡ 0x87)
      × ((k : ℕ) → k ≢ 32 → di k ≡ p.page_dir k)
      × ((set_up_paging p i).cr3 ≡ p.page_dir_addr)
      × ((set_up_paging p i).cr0 / 2 ^ 31 % 2 ≡ 1)
unfolding set_up_paging
set_up_paging-isolates p q i j hi hj =
    let row = pde_row i j hi hj in
    (
      λ ne. ground arith,
      ground arith,
      ground arith,
      λ k ne. ground arith,
      refl,
      bit_or-bit 31 p.cr0 0x80000000 (omega arith),
    )

-- `set_user_video_map` followed by `set_vid_map` leaves user page 0 of the video table writable
-- and open to the user, and mapped to the page of `target_addr` with the given presence.
pub set_vid_map-user :
    (p : Paging) (target present : ℕ)
    → let e = (set_vid_map (set_user_video_map p) target present).page_vid_table 0 in
      (e.base_address ≡ target / 4096)
      × (e.present ≡ present % 2)
      × (e.read_write ≡ 1)
      × (e.use_supervisor ≡ 1)
unfolding set_vid_map set_user_video_map
set_vid_map-user p target present = (refl, refl, refl, refl)
