-- ===== src/Programs/Grep.antt =====
-- ece391grep.c
pub mod Lines
use osgods.Common.{
  ℕ, zero, suc, ◌+◌, ◌-◌, ◌^◌, ltb, Bool, true, false, not, ◌&&◌, Option, none, some, List, ◌++◌,
  leb, ◌==◌, if◌then◌else◌, get_elem?, take, drop, add32, sub32, minus_one, ◌>>=◌,
}
use osgods.Console.{store}
use osgods.Programs.{Calls, overlay, literal}
use osgods.Programs.Support.{ece391_fdputs, ece391_strlen, ece391_strcpy, ece391_strncmp}

abbrev pub grep_bufsize : ℕ
grep_bufsize = 1024

abbrev pub grep_sbufsize : ℕ
grep_sbufsize = 33

-- `while (line_end < last && '\n' != chunk[line_end]) line_end++`, with `n` bytes left before `last`.
unfoldable pub find_line_end : List ℕ → ℕ → ℕ → Option ℕ
find_line_end chunk zero line_end = some line_end
find_line_end chunk (suc n) line_end = do
  c ← get_elem? chunk line_end
  let further = find_line_end chunk n (line_end + 1)
  if not (c == b'\n') then further else some line_end

-- A `char` as the `int` that it is compared as: the bytes from 128 on are negative.
abbrev pub char_value : ℕ → ℕ
char_value c = if ltb c 128 then c else c + (2 ^ 32 - 256)

-- Whether the loop over the `n` starts from `check` on comes to its `break`. The characters of `s` are
-- signed and those of the chunk are not.
unfoldable pub search_line : List ℕ → List ℕ → ℕ → ℕ → ℕ → Option Bool
search_line s chunk s_len zero check = some false
search_line s chunk s_len (suc n) check = do
  c ← get_elem? chunk check
  first ← get_elem? s 0
  let later = search_line s chunk s_len n (check + 1)
  let compared = (do
    r ← ece391_strncmp (drop check chunk) s s_len
    if r == 0 then some true else later)
  if char_value first == c then compared else later

-- `held` is what the buffer `data` of `do_one_file` holds before its first read.
module _ {S : Type 0} (calls : Calls S) (held : S → List ℕ) where
  unfoldable pub print_line : S → List ℕ → List ℕ → Option S
  print_line s fname line = do
    s1 ← ece391_fdputs calls s 1 fname
    s2 ← ece391_fdputs calls s1 1 (literal ":")
    s3 ← ece391_fdputs calls s2 1 line
    ece391_fdputs calls s3 1 (literal "\n")

  -- The lines of one read, at most `fuel` of them: the system, `data` and `last`. The bytes moved to the
  -- front are read before they are overwritten, since `line_start` is not 0.
  unfoldable pub grep_lines :
      ℕ → S → List ℕ → ℕ → List ℕ → List ℕ → ℕ → ℕ → ℕ → Option (S × List ℕ × ℕ)
  grep_lines zero t s s_len fname chunk last cnt line_start = none
  grep_lines (suc fuel) t s s_len fname chunk last cnt line_start = do
    line_end ← find_line_end chunk (last - line_start) line_start
    c ← get_elem? chunk line_end
    ended ← store chunk line_end 0
    let keep = (do
      moved ← ece391_strcpy ended (drop line_start ended)
      some (t, moved, sub32 last line_start))
    let search = (do
      found ← search_line s ended s_len (line_end - line_start) line_start
      t1 ← if found then print_line t fname (drop line_start ended) else some t
      let rest = grep_lines fuel t1 s s_len fname ended last cnt (line_end + 1)
      if leb last (line_end + 1) then some (t1, ended, 0) else rest)
    if not (c == b'\n') && (not (cnt == 0) && not (line_start == 0)) then keep else search

  -- The reads of one file, at most `fuel`; `none` in the result is the return of -1.
  unfoldable pub grep_reads :
      ℕ → S → List ℕ → ℕ → List ℕ → ℕ → List ℕ → ℕ → Option (S × Option (List ℕ))
  grep_reads zero t s s_len fname fd chunk last = none
  grep_reads (suc fuel) t s s_len fname fd chunk last = do
    (cnt, out, t1) ← calls.read t fd (sub32 grep_bufsize last)
    filled ← overlay out (drop last chunk)
    let failed = (do t2 ← ece391_fdputs calls t1 1 (literal "file read failed\n"); some (t2, none))
    let lines = (do
      let now = add32 last cnt
      (t2, chunk', last') ←
          grep_lines (now + 1) t1 s s_len fname (take last chunk ++ filled) now cnt 0
      let rest = grep_reads fuel t2 s s_len fname fd chunk' last'
      if cnt == 0 then some (t2, some chunk') else rest)
    if cnt == minus_one then failed else lines

  unfoldable pub do_one_file : ℕ → S → List ℕ → List ℕ → Option (ℕ × S)
  do_one_file fuel t s fname = do
    s_len ← ece391_strlen s
    (fd, t1) ← calls.open_name t fname
    let missing = (do
      t2 ← ece391_fdputs calls t1 1 (literal "file open failed\n")
      some (minus_one, t2))
    let close = λ (t2 : S). (do
      (r, t3) ← calls.close t2 fd
      let stuck = (do
        t4 ← ece391_fdputs calls t3 1 (literal "file close failed\n")
        some (minus_one, t4))
      if r == minus_one then stuck else some (0, t3))
    let search = (do
      (t2, done) ← grep_reads fuel t1 s s_len fname fd (held t) 0
      elim done [ none ↦ some (minus_one, t2) | some chunk' ↦ close t2 ])
    if fd == minus_one then missing else search

  -- The loop over the directory.
  unfoldable pub grep_entries : ℕ → S → List ℕ → ℕ → List ℕ → Option (ℕ × S)
  grep_entries zero t wanted fd buf = none
  grep_entries (suc fuel) t wanted fd buf = do
    (cnt, out, t1) ← calls.read t fd (grep_sbufsize - 1)
    buf' ← overlay out buf
    c ← get_elem? buf' 0
    let failed = (do
      t2 ← ece391_fdputs calls t1 1 (literal "directory entry read failed\n")
      some (3, t2))
    let next_entry = grep_entries fuel t1 wanted fd buf'
    let file = (do
      name ← store buf' cnt 0
      (r, t2) ← do_one_file fuel t1 wanted name
      let rest = grep_entries fuel t2 wanted fd name
      if not (r == 0) then some (3, t2) else rest)
    let used = if c == b'.' then next_entry else file
    if cnt == 0 then some (0, t1) else if cnt == minus_one then failed else used

  unfoldable pub grep_main : ℕ → S → List ℕ → List ℕ → Option (ℕ × S)
  grep_main fuel t buf wanted = do
    (r, wanted') ← calls.getargs t wanted grep_bufsize
    let no_args = (do
      t1 ← ece391_fdputs calls t 1 (literal "could not read argument\n")
      some (3, t1))
    let entries = (do
      (fd, t1) ← calls.open_name t (literal ".")
      let failed = (do
        t2 ← ece391_fdputs calls t1 1 (literal "directory open failed\n")
        some (2, t2))
      if fd == minus_one then failed else grep_entries fuel t1 wanted' fd buf)
    if not (r == 0) then no_args else entries
