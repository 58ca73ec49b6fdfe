-- ===== src/Programs/Syserr.antt =====
-- ece391syserr.c: the program that tries what the system calls must refuse.
pub mod Refused
pub mod OnScreen
use osgods.Common.{
  ℕ, zero, suc, ◌+◌, Option, some, List, ◌==◌, if◌then◌else◌, tests, get_elem?, sub32, minus_one,
  ◌>>=◌,
}
use osgods.Programs.{Calls, overlay, literal}
use osgods.Programs.Support.{ece391_fdputs}

-- NEG_FD and NEG_NUM, and BIG_FD and BIG_NUM, as patterns of an `int`.
abbrev pub neg_fd : ℕ
neg_fd = 3221225473

abbrev pub big_fd : ℕ
big_fd = 1073741823

module _ {S : Type 0} (calls : Calls S) where
  -- A call must have given -1; otherwise the message is put out and `fail` is 2.
  unfoldable pub expect : S → ℕ → ℕ → List ℕ → Option (ℕ × S)
  expect s fail result message =
      let complain = (do s' ← ece391_fdputs calls s 1 message; some (2, s')) in
      if result == minus_one then some (fail, s) else complain

  -- The end of a test: the message for the outcome is put out, and `fail` returned.
  unfoldable pub verdict : S → ℕ → List ℕ → List ℕ → Option (ℕ × S)
  verdict s fail failed passed = do
    s' ← ece391_fdputs calls s 1 (if fail == 0 then passed else failed)
    some (fail, s')

  -- `read`, `write` and `close` on one descriptor, with `buf` what the buffer on the stack held.
  unfoldable pub try_fd : S → ℕ → List ℕ → Option (ℕ × S)
  unfolding expect
  try_fd s fd buf = do
    (r1, out, s1) ← calls.read s fd 31
    buf' ← overlay out buf
    (f1, s2) ← expect s1 0 r1 (literal "read fail\n")
    (r2, s3) ← calls.write s2 fd buf' 31
    (f2, s4) ← expect s3 f1 r2 (literal "write fail\n")
    (r3, s5) ← calls.close s4 fd
    expect s5 f2 r3 (literal "close fail\n")

  unfoldable pub err_neg_fd : S → List ℕ → Option (ℕ × S)
  unfolding try_fd verdict
  err_neg_fd s buf = do
    (fail, s1) ← try_fd s neg_fd buf
    verdict s1 fail (literal "err_neg_fd: FAIL\n") (literal "err_neg_fd: PASS\n")

  unfoldable pub err_big_fd : S → List ℕ → Option (ℕ × S)
  unfolding try_fd verdict
  err_big_fd s buf = do
    (fail, s1) ← try_fd s big_fd buf
    verdict s1 fail (literal "err_big_fd: FAIL\n") (literal "err_big_fd: PASS\n")

  -- `n` rounds that open the directory, and how many of them failed.
  unfoldable pub open_rounds : ℕ → S → ℕ → Option (ℕ × S)
  open_rounds zero s cnt = some (cnt, s)
  open_rounds (suc n) s cnt = do
    (r, s') ← calls.open_name s (literal ".")
    open_rounds n s' (if r == minus_one then cnt + 1 else cnt)

  -- `n` rounds that close the descriptors from `i` on.
  unfoldable pub close_rounds : ℕ → ℕ → S → Option S
  close_rounds zero i s = some s
  close_rounds (suc n) i s = do (r, s') ← calls.close s i; close_rounds n (i + 1) s'

  unfoldable pub err_open_lots : S → Option (ℕ × S)
  unfolding open_rounds close_rounds verdict
  err_open_lots s = do
    (cnt, s1) ← open_rounds 7 s 0
    s2 ← close_rounds 6 2 s1
    verdict s2 (if cnt == 1 then 0 else 2) (literal "err_open_lots: FAIL\n")
        (literal "err_open_lots: PASS\n")

  unfoldable pub err_open : S → Option (ℕ × S)
  unfolding expect verdict
  err_open s = do
    (r1, s1) ← calls.open_name s (literal "helloo")
    (f1, s2) ← expect s1 0 r1 (literal "'helloo' fail\n")
    (r2, s3) ← calls.open_name s2 (literal "shel")
    (f2, s4) ← expect s3 f1 r2 (literal "'shel' fail\n")
    (r3, s5) ← calls.open_name s4 (literal "")
    (f3, s6) ← expect s5 f2 r3 (literal "empty string fail\n")
    verdict s6 f3 (literal "err_open: FAIL\n") (literal "err_open: PASS\n")

  -- `n` rounds of each of the loops of `err_unopened`, from the descriptor `i` on.
  unfoldable pub closing : ℕ → ℕ → S → ℕ → Option (ℕ × S)
  unfolding expect
  closing zero i s fail = some (fail, s)
  closing (suc n) i s fail = do
    (r, s1) ← calls.close s i
    (fail', s2) ← expect s1 fail r (literal "close unopened or invalid fd fail\n")
    closing n (i + 1) s2 fail'

  unfoldable pub reading : ℕ → ℕ → S → ℕ → List ℕ → Option (ℕ × List ℕ × S)
  unfolding expect
  reading zero i s fail buf = some (fail, buf, s)
  reading (suc n) i s fail buf = do
    (r, out, s1) ← calls.read s i 31
    buf' ← overlay out buf
    (fail', s2) ← expect s1 fail r (literal "read from unopened fd fail\n")
    reading n (i + 1) s2 fail' buf'

  unfoldable pub writing : ℕ → ℕ → S → ℕ → List ℕ → Option (ℕ × S)
  unfolding expect
  writing zero i s fail buf = some (fail, s)
  writing (suc n) i s fail buf = do
    (r, s1) ← calls.write s i buf 31
    (fail', s2) ← expect s1 fail r (literal "write to unopened fd fail\n")
    writing n (i + 1) s2 fail' buf

  unfoldable pub err_unopened : S → List ℕ → Option (ℕ × S)
  unfolding closing reading writing verdict
  err_unopened s buf = do
    (f1, s1) ← closing 8 0 s 0
    (f2, buf', s2) ← reading 6 2 s1 f1 buf
    (f3, s3) ← writing 6 2 s2 f2 buf'
    verdict s3 f3 (literal "err_unopened: FAIL\n") (literal "err_unopened: PASS\n")

  unfoldable pub err_stdin_out : S → List ℕ → Option (ℕ × S)
  unfolding expect verdict
  err_stdin_out s buf = do
    (r1, s1) ← calls.write s 0 buf 31
    (f1, s2) ← expect s1 0 r1 (literal "write to stdin fail\n")
    (r2, out, s3) ← calls.read s2 1 31
    buf' ← overlay out buf
    (f2, s4) ← expect s3 f1 r2 (literal "read from stdout fail\n")
    verdict s4 f2 (literal "err_stdin_out: FAIL\n") (literal "err_stdin_out: PASS\n")

  -- `vidmap` takes the address to write to; `call_sys` is the trap with a number of a call.
  module _ (vidmap call_sys : S → ℕ → Option (ℕ × S)) where
    unfoldable pub err_vidmap : S → Option (ℕ × S)
    unfolding expect verdict
    err_vidmap s = do
      (r1, s1) ← vidmap s 0
      (f1, s2) ← expect s1 0 r1 (literal "Null pointer fail\n")
      (r2, s3) ← vidmap s2 0x400000
      (f2, s4) ← expect s3 f1 r2 (literal "Kernel pointer fail fail\n")
      verdict s4 f2 (literal "err_vidmap: FAIL\n") (literal "err_vidmap: PASS\n")

    unfoldable pub err_syscall_num : S → Option (ℕ × S)
    unfolding expect verdict
    err_syscall_num s = do
      (r1, s1) ← call_sys s big_fd
      (f1, s2) ← expect s1 0 r1 (literal "syscall 0 fail\n")
      (r2, s3) ← call_sys s2 neg_fd
      (f2, s4) ← expect s3 f1 r2 (literal "big num syscall fail\n")
      (r3, s5) ← call_sys s4 0
      (f3, s6) ← expect s5 f2 r3 (literal "neg num syscall fail\n")
      verdict s6 f3 (literal "err_syscall_num: FAIL\n") (literal "err_syscall_num: PASS\n")

    -- Test 0: all tests in turn. `frames` is what the buffer of each test held.
    unfoldable pub run_all : S → (ℕ → List ℕ) → Option (ℕ × S)
    unfolding err_neg_fd err_big_fd err_open_lots err_open err_unopened err_vidmap err_stdin_out
        err_syscall_num verdict
    run_all s frames = do
      (a, s1) ← err_neg_fd s (frames 1)
      (b, s2) ← err_big_fd s1 (frames 2)
      (c, s3) ← err_open_lots s2
      (d, s4) ← err_open s3
      (e, s5) ← err_unopened s4 (frames 5)
      (f, s6) ← err_vidmap s5
      (g, s7) ← err_stdin_out s6 (frames 7)
      (h, s8) ← err_syscall_num s7
      verdict s8 (a + b + c + d + e + f + g + h) (literal "\nOverall Tests: FAIL\n")
          (literal "\nOverall Tests: PASS\n")

    -- The switch of `main`.
    unfoldable pub select_test : S → ℕ → (ℕ → List ℕ) → Option (ℕ × S)
    unfolding run_all err_neg_fd err_big_fd err_open_lots err_open err_unopened err_vidmap
        err_stdin_out err_syscall_num
    select_test s select frames =
        let invalid = (do
          s1 ← ece391_fdputs calls s 1 (literal "Invalid test number. Choose from tests 1-8 or 0")
          some (0, s1)) in
        if select == 0
        then run_all s frames
        else if select == 1
        then err_neg_fd s (frames 1)
        else if select == 2
        then err_big_fd s (frames 2)
        else if select == 3
        then err_open_lots s
        else if select == 4
        then err_open s
        else if select == 5
        then err_unopened s (frames 5)
        else if select == 6
        then err_vidmap s
        else if select == 7
        then err_stdin_out s (frames 7)
        else if select == 8
        then err_syscall_num s
        else invalid

    -- `buf` is what the buffer of `main` held.
    unfoldable pub syserr_main : S → List ℕ → (ℕ → List ℕ) → Option (ℕ × S)
    unfolding select_test
    syserr_main s buf frames = do
      s1 ← ece391_fdputs calls s 1 (literal "Choose from tests 1-8. 0 to run all: ")
      (cnt, out, s2) ← calls.read s1 0 127
      buf' ← overlay out buf
      let failed = (do s3 ← ece391_fdputs calls s2 1 (literal "Can't read test #\n"); some (2, s3))
      let go = (do first ← get_elem? buf' 0; select_test s2 (sub32 first b'0') frames)
      if cnt == minus_one then failed else go
