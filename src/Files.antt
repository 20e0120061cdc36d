-- ===== src/Files.antt =====
-- kernel/file/file.c over kernel/fs/fs.c, and the open files of a process in
-- kernel/task/process.c. Pointers into the process are names of its slots; an `int` and a `ssize_t`
-- are their 32-bit patterns.
pub mod Read
pub mod Stream
pub mod Slots
mod Tests
use neox.Base.{
  ℕ, zero, suc, ◌+◌, ◌-◌, ◌^◌, Bool, true, false, not, ◌&&◌, ◌||◌, Option, none, some, leb, ltb,
  ◌==◌, if◌then◌else◌, u32,
}
use neox.Base.Memory.{Bytes}
use neox.Base.Result.{Result, done, ◌>>=◌}
use neox.Strings.{memcpy}
use neox.Fs.{Fs, failure, fs_find, fs_file_data, fs_file_size}

-- `struct file`; `fs_file` is the address of its entry.
pub record File : Type 0 where
  pub fs_file : ℕ
  pub position : ℕ
  pub access : ℕ

-- `FILE_ACCESS_READ`, `FILE_ACCESS_WRITE` and `FILE_ACCESS_READ_WRITE`
abbrev pub access_read : ℕ
access_read = 1

abbrev pub access_write : ℕ
access_write = 2

abbrev pub access_read_write : ℕ
access_read_write = 3

-- `file_open` of a file that is not NULL, with the entry that `fs_find` returns.
unfoldable pub open_entry : File → ℕ → ℕ → File × ℕ
open_entry file access fs_file =
    if fs_file == 0
    then (file, failure)
    else (record { fs_file = fs_file; position = 0; access = access }, 0)

unfoldable pub file_open : ℕ → Bytes → Fs → ℕ → ℕ → File → Result (File × ℕ)
file_open fuel m s path access file =
    if not (access == access_read)
      && not (access == access_write)
      && not (access == access_read_write)
    then done (file, failure)
    else if path == 0
    then done (file, failure)
    else (fs_find fuel m s path >>= λ fs_file. done (open_entry file access fs_file))

-- `file_data` and `file_size` of a file that is not NULL.
unfoldable pub file_data : Bytes → Fs → File → ℕ
file_data m s file = fs_file_data m s file.fs_file

unfoldable pub file_size : Bytes → File → ℕ
file_size m file = if file.fs_file == 0 then 0 else fs_file_size m file.fs_file

-- The end of `file_read`, once the count is known: the copy, and the position.
unfoldable pub read_bytes : Bytes → Fs → File → ℕ → ℕ → Bytes × File × ℕ
read_bytes m s file buffer count = (
  memcpy m buffer (file_data m s file + file.position) count,
  record file { position = u32 (file.position + count) },
  count,
)

-- The memory, the file and the result.
unfoldable pub file_read : Bytes → Fs → File → ℕ → ℕ → Bytes × File × ℕ
file_read m s file buffer count =
    if buffer == 0
    then (m, file, failure)
    else if file.fs_file == 0
    then (m, file, failure)
    else if not (file.access == access_read) && not (file.access == access_read_write)
    then (m, file, failure)
    else if leb (file_size m file) file.position
    then (m, file, 0)
    else let remaining = file_size m file - file.position in
      read_bytes m s file buffer (if ltb remaining count then remaining else count)

unfoldable pub file_close : File → File
file_close file = record { fs_file = 0; position = 0; access = 0 }

-- `PROCESS_MAX_FILES`
abbrev pub process_max_files : ℕ
process_max_files = 16

-- The array `files` of a process: `struct process_file` by its index.
pub record OpenFiles : Type 0 where
  pub file : ℕ → File
  pub used : ℕ → Bool

abbrev pub update {ℓ} : {A : Type ℓ} → (ℕ → A) → ℕ → A → ℕ → A
update f i v j = if j == i then v else f j

-- The slot `fd` once `file_open` has returned: the state and the result of `process_open`.
unfoldable pub use_slot : OpenFiles → ℕ → File × ℕ → OpenFiles × ℕ
use_slot p fd (file, result) =
    if not (result == 0)
    then (record p { file = update p.file fd file }, failure)
    else (record { file = update p.file fd file; used = update p.used fd true }, fd)

-- The scan of `process_open` from the slot `fd` on, with `n` slots left.
unfoldable pub open_from : ℕ → Bytes → Fs → OpenFiles → ℕ → ℕ → ℕ → ℕ → Result (OpenFiles × ℕ)
open_from fuel m s p path access zero fd = done (p, failure)
open_from fuel m s p path access (suc n) fd =
    let rest = open_from fuel m s p path access n (fd + 1) in
    if not (p.used fd)
    then (file_open fuel m s path access (p.file fd) >>= λ r. done (use_slot p fd r))
    else rest

-- `process_open` of a process that is not NULL.
unfoldable pub process_open : ℕ → Bytes → Fs → OpenFiles → ℕ → ℕ → Result (OpenFiles × ℕ)
process_open fuel m s p path access =
    if path == 0 then done (p, failure) else open_from fuel m s p path access process_max_files 0

-- The slot of an open file, or NULL; a negative `fd` has its top bit set.
unfoldable pub process_get_file : OpenFiles → ℕ → Option ℕ
process_get_file p fd =
    if leb (2 ^ 31) fd || leb process_max_files fd
    then none
    else if not (p.used fd)
    then none
    else some fd

-- `process_read` with what `process_get_file` returns.
unfoldable pub read_slot : Bytes → Fs → OpenFiles → ℕ → ℕ → Option ℕ → Bytes × OpenFiles × ℕ
read_slot m s p buffer count none = (m, p, failure)
read_slot m s p buffer count (some fd) =
    let (t, file, result) = file_read m s (p.file fd) buffer count in
    (t, record p { file = update p.file fd file }, result)

unfoldable pub process_read : Bytes → Fs → OpenFiles → ℕ → ℕ → ℕ → Bytes × OpenFiles × ℕ
process_read m s p fd buffer count = read_slot m s p buffer count (process_get_file p fd)

-- `process_close` with what `process_get_file` returns.
unfoldable pub close_slot : OpenFiles → Option ℕ → OpenFiles × ℕ
close_slot p none = (p, failure)
close_slot p (some fd) =
    (record { file = update p.file fd (file_close (p.file fd)); used = update p.used fd false }, 0)

unfoldable pub process_close : OpenFiles → ℕ → OpenFiles × ℕ
process_close p fd = close_slot p (process_get_file p fd)
