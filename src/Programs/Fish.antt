-- ===== src/Programs/Fish.antt =====
-- fish.c of fish: two frames that blink. The array of structs is zero at the start and is not kept.
use osgods.Common.{
  ℕ, zero, suc, ◌+◌, ◌*◌, ◌^◌, Bool, true, false, not, ◌&&◌, ◌||◌, Option, none, some, List, [],
  ◌∷◌, ◌==◌, if◌then◌else◌, get_elem?, u8, u16, minus_one, slt, ◌>>=◌,
}
use mathlib.Core.Option
use osgods.Programs.{Calls, overlay, literal}

abbrev pub fish_wait : ℕ
fish_wait = 100

-- `struct mp1_blink_struct`, less the fields that blink.S fills in.
pub record BlinkStruct : Type 0 where
  pub on_char : ℕ
  pub off_char : ℕ
  pub on_length : ℕ
  pub off_length : ℕ
  pub location : ℕ

-- The functions of blink.S, and `vidmap`: its result and the address that it stores.
pub record BlinkCalls (S : Type 0) : Type 0 where
  pub rtc_add : S → BlinkStruct → S
  pub rtc_remove : S → ℕ → S
  pub rtc_sync : S → ℕ → S
  pub rtc_tasklet : S → S
  pub vidmap : S → ℕ × ℕ × S

-- `add_frames` ends the program, or comes back.
pub data Frames (S : Type 0) : Type 0 where
  halted : ℕ → S → Frames S
  added : S → Frames S

-- The index of the struct that `mp1_malloc` gives; `none` is NULL.
unfoldable pub mp1_malloc : ℕ → List BlinkStruct → Option ℕ
mp1_malloc i [] = none
mp1_malloc i (b ∷ bs) = if b.location == 0 then some i else mp1_malloc (i + 1) bs

-- `n` bytes from the start of an object; `none` is a write past its end.
unfoldable pub ece391_memset : List ℕ → ℕ → ℕ → Option (List ℕ)
ece391_memset mem c zero = some mem
ece391_memset [] c (suc n) = none
ece391_memset (m ∷ mem) c (suc n) = Option.map (λ r. u8 c ∷ r) (ece391_memset mem c n)

unfoldable pub ece391_memcpy : List ℕ → List ℕ → ℕ → Option (List ℕ)
ece391_memcpy dest src zero = some dest
ece391_memcpy [] src (suc n) = none
ece391_memcpy (d ∷ dest) [] (suc n) = none
ece391_memcpy (d ∷ dest) (c ∷ src) (suc n) = Option.map (λ r. c ∷ r) (ece391_memcpy dest src n)

-- What is shown of a character: the end of a line is a blank.
abbrev pub shown_char : ℕ → ℕ
shown_char c = if c == b'\n' then b' ' else c

abbrev pub is_drawn : ℕ → Bool
is_drawn c = not (c == b' ') && not (c == b'\n')

module _ {S : Type 0} (calls : Calls S) (blink : BlinkCalls S) where
  -- The result is a pointer; 0 is NULL.
  unfoldable pub mp1_set_video_mode : S → ℕ × S
  mp1_set_video_mode s =
      let (r, vmem_base_addr, s1) = blink.vidmap s in
      (if r == minus_one then 0 else vmem_base_addr, s1)

  -- One character of a line that has not ended: the character, whether the file has ended.
  unfoldable pub frame_char : S → ℕ → ℕ → Bool → Option (S × ℕ × Bool)
  frame_char s fd c eof = do
    let next = (do
      (num_bytes, out, s1) ← calls.read s fd 1
      got ← overlay out (c ∷ [])
      c' ← get_elem? got 0
      some (if num_bytes == 0 then (s1, b'\n', true) else (s1, c', eof)))
    if not (c == b'\n') then next else some (s, c, eof)

  -- The inner loop, at most `fuel` columns from `col` on: the system and the two ends of file.
  unfoldable pub frame_row : ℕ → S → ℕ → ℕ → ℕ → ℕ → ℕ → ℕ → Bool → Bool → Option (S × Bool × Bool)
  frame_row zero s fd0 fd1 row col c0 c1 eof0 eof1 = none
  frame_row (suc fuel) s fd0 fd1 row col c0 c1 eof0 eof1 = do
    (s1, d0, end0) ← frame_char s fd0 c0 eof0
    (s2, d1, end1) ← frame_char s1 fd1 c1 eof1
    let blinking = blink.rtc_add s2 (record {
      on_char = shown_char d0;
      off_char = shown_char d1;
      on_length = 15;
      off_length = 15;
      location = u16 (row * 80 + col + 40);
    })
    let s3 = if is_drawn d0 || is_drawn d1 then blinking else s2
    let rest = frame_row fuel s3 fd0 fd1 row (col + 1) d0 d1 end0 end1
    if d0 == b'\n' && d1 == b'\n' then some (s2, end0, end1) else rest

  -- What follows a row: a file at its end is closed, and its character stays the end of a line.
  unfoldable pub end_row : S → ℕ → Bool → Option (S × ℕ)
  end_row s fd eof = do
    let closed = (do (r, s1) ← calls.close s fd; some (s1, b'\n'))
    if eof then closed else some (s, b'0')

  -- The outer loop, at most `fuel` rows of at most `width` columns.
  unfoldable pub frame_rows : ℕ → ℕ → S → ℕ → ℕ → ℕ → ℕ → ℕ → Bool → Bool → Option S
  frame_rows zero width s fd0 fd1 row c0 c1 eof0 eof1 = none
  frame_rows (suc fuel) width s fd0 fd1 row c0 c1 eof0 eof1 = do
    let more = (do
      (s1, end0, end1) ← frame_row width s fd0 fd1 row 0 c0 c1 eof0 eof1
      (s2, d0) ← end_row s1 fd0 end0
      (s3, d1) ← end_row s2 fd1 end1
      frame_rows fuel width s3 fd0 fd1 (row + 1) d0 d1 end0 end1)
    if not eof0 || not eof1 then more else some s

  unfoldable pub add_frames : ℕ → ℕ → S → List ℕ → List ℕ → Option (Frames S)
  add_frames fuel width s f0 f1 = do
    (fd0, s1) ← calls.open_name s f0
    let second = (do
      (fd1, s2) ← calls.open_name s1 f1
      let draw = (do s3 ← frame_rows fuel width s2 fd0 fd1 0 b'0' b'0' false false; some (added s3))
      if slt fd1 0 then some (halted (u8 minus_one) s2) else draw)
    if slt fd0 0 then some (halted (u8 minus_one) s1) else second

  -- `n` ticks of the clock.
  unfoldable pub fish_ticks : ℕ → S → ℕ → Option S
  fish_ticks zero s rtc_fd = some s
  fish_ticks (suc n) s rtc_fd = do
    (r, garbage, s1) ← calls.read s rtc_fd 4
    fish_ticks n (blink.rtc_tasklet s1) rtc_fd

  -- The part of `main` behind `add_frames`.
  unfoldable pub blink_fish : S → ℕ → Option (ℕ × S)
  blink_fish s rtc_fd = do
    (r, s1) ← calls.write s rtc_fd (32 ∷ 0 ∷ 0 ∷ 0 ∷ []) 4
    s2 ← fish_ticks fish_wait s1 rtc_fd
    let s3 = blink.rtc_add s2 (record {
      on_char = b'I';
      off_char = b'M';
      on_length = 7;
      off_length = 6;
      location = 6 * 80 + 60;
    })
    s4 ← fish_ticks fish_wait s3 rtc_fd
    s5 ← fish_ticks fish_wait (blink.rtc_sync s4 (40 * 2 ^ 16 + (6 * 80 + 60))) rtc_fd
    s6 ← fish_ticks fish_wait (blink.rtc_remove s5 (6 * 80 + 60)) rtc_fd
    (r', s7) ← calls.close s6 rtc_fd
    some (0, s7)

  unfoldable pub fish_main : ℕ → ℕ → S → Option (ℕ × S)
  fish_main fuel width s = do
    let (video, s1) = mp1_set_video_mode s
    let start = (do
      (rtc_fd, s2) ← calls.open_name s1 (literal "rtc")
      frames ← add_frames fuel width s2 (literal "frame0.txt") (literal "frame1.txt")
      elim frames [ halted status s3 ↦ some (status, s3) | added s3 ↦ blink_fish s3 rtc_fd ])
    if video == 0 then some (minus_one, s1) else start
