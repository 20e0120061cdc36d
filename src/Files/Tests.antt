-- ===== src/Files/Tests.antt =====
-- The theorems on files at a small image, and at a process with one file open.
use neox.Base.{
  ℕ, ◌+◌, ◌-◌, ◌≤◌, ◌≡◌, inl, inr, refl, true, List, [], ◌∷◌, ◌==◌, if◌then◌else◌, arith,
}
use neox.Base.Result.{done}
use neox.Base.Memory.{store}
use neox.Strings.{strcmp, memcpy}
use neox.Fs.{find_from, fs_find, fs_file_data, fs_file_size}
use neox.Fs.Example.{memory, mounted_fs, memory-AreBytes, memory-IsImage, path-IsString}
use neox.Files.{
  File, OpenFiles, update, file_data, file_size, read_bytes, file_read, open_entry, file_open,
  use_slot, open_from, process_open, process_close,
}
use neox.Files.Read.{IsOpen, IsBuffer, min}
use neox.Files.Stream.{bytes_at, read_sequence, requested, read_sequence_lem}
use neox.Files.Slots.{Opened, process_open-Opened, Restored, process_close-process_open}

abbrev open_file : File
open_file = record { fs_file = 120; position = 1; access = 1 }

abbrev closed_file : File
closed_file = record { fs_file = 0; position = 0; access = 0 }

-- The descriptor 0 is taken.
abbrev one_open : OpenFiles
one_open = record { file = λ j. if j == 0 then open_file else closed_file; used = λ j. j == 0 }

data_is : file_data memory mounted_fs open_file ≡ 192
unfolding file_data fs_file_data
data_is = refl

size_is : file_size memory open_file ≡ 3
unfolding file_size fs_file_size
size_is = refl

open_file-IsOpen : IsOpen memory mounted_fs open_file
open_file-IsOpen = record {
  entry = λ e. absurd (omega arith);
  readable = inl refl;
  has_data = λ e. absurd (omega (arith, data_is, e));
  small = omega (arith, size_is);
  position = omega (arith, size_is);
}

abbrev two_reads : List (ℕ × ℕ)
two_reads = (400, 1) ∷ (410, 5) ∷ []

away-IsBuffer :
    (buffer count : ℕ) → 400 ≤ buffer → IsBuffer memory mounted_fs open_file buffer count
away-IsBuffer buffer count h = record {
  present = λ e. absurd (omega arith);
  off_data = inr (omega (arith, data_is, size_is));
  off_entry = inr (omega arith);
}

read_sequence_lem_example :
    read_sequence memory mounted_fs open_file two_reads
    ≡ bytes_at memory
        (file_data memory mounted_fs open_file + 1)
        (min (requested two_reads) (file_size memory open_file - 1))
read_sequence_lem_example =
    read_sequence_lem two_reads memory mounted_fs open_file open_file-IsOpen
      (away-IsBuffer 400 1 (omega arith), (away-IsBuffer 410 5 (omega arith), tt))

reads_rest : read_sequence memory mounted_fs open_file two_reads ≡ 8 ∷ 9 ∷ []
unfolding read_sequence bytes_at file_read file_size fs_file_size read_bytes memcpy store file_data
    fs_file_data
reads_rest = refl

process_open-Opened_example :
    Opened memory mounted_fs one_open 300 1 1 (process_open 10 memory mounted_fs one_open 300 1)
process_open-Opened_example =
    process_open-Opened memory mounted_fs one_open 300 1 1 10 memory-AreBytes memory-IsImage refl
      path-IsString (omega arith) (omega arith) (inl refl)

abbrev two_open : OpenFiles
two_open = record {
  file = update one_open.file 1 (record { fs_file = 120; position = 0; access = 1 });
  used = update one_open.used 1 true;
}

opens : process_open 10 memory mounted_fs one_open 300 1 ≡ done (two_open, 1)
unfolding process_open open_from file_open fs_find find_from strcmp use_slot open_entry
opens = refl

process_close-process_open_example : Restored one_open 1 (process_close two_open 1)
process_close-process_open_example =
    process_close-process_open memory mounted_fs one_open 300 1 1 10 memory-AreBytes memory-IsImage
      refl path-IsString (omega arith) (omega arith) (inl refl) two_open 1 opens
      (λ e. absurd (omega arith))
