-- ===== src/Examples/Data.antt =====
-- Strings, memory and the file system on concrete data.
use osgods.Common.{
  replicate, length, ◌+◌, ℕ, ◌≤◌, ◌≡◌, refl, ◌↔◌, inl, inr, false, some, List, [], ◌∷◌, ◌++◌, arith,
  set,
}
use osgods.Examples.{process-IsTable, image, clock, process}
use osgods.Files.Opening.{Opens, open_fd-Opens}
use osgods.Files.Reading.{IsReader, file_read-advances}
use osgods.Files.Table.{Closes, close-Closes}
use osgods.Files.{open_fd, close, file_read, blank_dentry}
use osgods.Filesystem.Data.{file_byte, read_data-file_bytes}
use osgods.Filesystem.Names.{Lookup, read_dentry_by_name-Lookup}
use osgods.Filesystem.{bytes, read_data, read_dentry_by_name}
use osgods.Memory.Blocks.{filled, moved, memset-filled, memcpy-moved, memmove-moved}
use osgods.Memory.{memset, memcpy, memmove}
use osgods.Pcb.{file_table}
use osgods.Strings.Compare.{prefix, strncmp_eq_zero}
use osgods.Strings.Reverse.{strrev-reverse}
use osgods.Strings.{strlen, strncmp, strrev, strcpy, itoa}
use osgods.Strings.Digits.{IsNumeral}
use osgods.Strings.Number.{itoa-number_of}
use osgods.Programs.Support.{ece391_strlen, ece391_strcpy, ece391_strrev, ece391_itoa}
use osgods.Programs.Support.Same.{ece391-same}

abbrev abc : List ℕ
abc = 97 ∷ 98 ∷ 99 ∷ []

strrev-reverse_example : strrev (abc ++ (0 ∷ 7 ∷ [])) ≡ some (99 ∷ 98 ∷ 97 ∷ 0 ∷ 7 ∷ [])
strrev-reverse_example =
    strrev-reverse abc (7 ∷ []) ((λ e. omega arith), ((λ e. omega arith), ((λ e. omega arith), tt)))
      (omega arith)

strncmp_eq_zero_example :
    (strncmp abc (abc ++ (0 ∷ [])) 2 ≡ some 0) ↔ (prefix 2 abc ≡ prefix 2 (abc ++ (0 ∷ [])))
strncmp_eq_zero_example =
    strncmp_eq_zero 2 abc (abc ++ (0 ∷ [])) (omega arith, inr (omega arith, inr tt))
      (omega arith, inr (omega arith, inr tt))

memset-filled_example : memset (λ a. a) 6 0x141 7 9 ≡ filled (λ a. a) 6 0x41 7 9
memset-filled_example = memset-filled (λ a. a) 6 0x141 7 9

memcpy-moved_example : memcpy (λ a. a) 3 9 6 5 ≡ moved (λ a. a) 3 9 6 5
memcpy-moved_example = memcpy-moved (λ a. a) 3 9 6 5 (inl (omega arith))

memmove-moved_example : memmove (λ a. a) 5 3 6 9 ≡ moved (λ a. a) 5 3 6 9
memmove-moved_example = memmove-moved (λ a. a) 5 3 6 9

read_data-file_bytes_example : read_data image 1 2 false 10 ≡ (4, bytes (file_byte image 1) 2 4)
read_data-file_bytes_example =
    read_data-file_bytes image 1 2 10 (omega arith) (omega arith) (omega arith) (omega arith)

abbrev rtc_name : List ℕ
rtc_name = 114 ∷ 116 ∷ 99 ∷ 0 ∷ []

read_dentry_by_name-Lookup_example :
    Lookup rtc_name blank_dentry 2 image.dir_entries
      (read_dentry_by_name image rtc_name blank_dentry)
read_dentry_by_name-Lookup_example =
    read_dentry_by_name-Lookup image rtc_name blank_dentry
      (omega arith, inr (omega arith, inr (omega arith, inr (omega arith, inl refl))))
      (
        (omega arith, inr (omega arith, inr (omega arith, inr (omega arith, inl refl)))),
        (
          (
            omega arith,
            inr (
              omega arith,
              inr (omega arith, inr (omega arith, inr (omega arith, inr (omega arith, inl refl)))),
            ),
          ),
          tt,
        ),
      )
      (omega arith) (omega arith)

close-Closes_example : Closes process 2 (close process 2)
close-Closes_example = close-Closes process 2 process-IsTable (omega arith)

rtc-found : read_dentry_by_name image rtc_name blank_dentry ≡ some (0, clock)
unfolding read_dentry_by_name strncmp
rtc-found = refl

open_fd-Opens_example : Opens process 0 clock (open_fd image process (some rtc_name))
open_fd-Opens_example =
    open_fd-Opens image process rtc_name process-IsTable 0 clock rtc-found (omega arith)

file_read-advances_example :
    (file_read image process 2 false 4
      ≡ some (
        4,
        bytes (file_byte image 1) 0 4,
        record process {
          file_descriptor =
              set process.file_descriptor 2
                (record { file_op_tb = file_table; inode = 1; file_position = 4; flag = 1 });
        },
      ))
    × IsReader image (record { file_op_tb = file_table; inode = 1; file_position = 4; flag = 1 })
file_read-advances_example =
    file_read-advances image process 2 4
      (record { file_op_tb = file_table; inode = 1; file_position = 0; flag = 1 }) refl
      (record {
        inode = omega arith;
        inodes = omega arith;
        size = omega arith;
        position = omega arith;
      })
      (omega arith)

itoa-number_of_example :
    (s : List ℕ) × (rest : List ℕ) × (itoa 391 (replicate 12 0) 10 ≡ some (s ++ (0 ∷ rest)))
    × IsNumeral 10 391 s
    × (length s ≤ 10)
    × (length s + 1 + length rest ≡ length (replicate {A = ℕ} 12 0))
itoa-number_of_example =
    itoa-number_of 10 10 391 (replicate 12 0) (omega arith) (omega arith) (omega arith)
      (omega arith) (omega arith) (omega arith)

ece391-same_example :
    (ece391_strlen (abc ++ (0 ∷ [])) ≡ strlen (abc ++ (0 ∷ [])))
    × (ece391_strcpy (replicate 9 0) (abc ++ (0 ∷ [])) ≡ strcpy (replicate 9 0) (abc ++ (0 ∷ [])))
    × (ece391_strrev (abc ++ (0 ∷ [])) ≡ strrev (abc ++ (0 ∷ [])))
    × (ece391_itoa 255 (replicate 9 0) 16 ≡ itoa 255 (replicate 9 0) 16)
ece391-same_example = ece391-same (abc ++ (0 ∷ [])) (replicate 9 0) (replicate 9 0) 255 16
