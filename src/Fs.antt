-- ===== src/Fs.antt =====
-- kernel/fs/fs.c, with the format of include/fs_format.h: a read-only image of files in memory. A
-- pointer is its address and NULL is 0; an `int` is its 32-bit pattern, so that -1 is `failure`.
pub mod Mount
pub mod Find
pub mod Example
mod Tests
use neox.Base.{ℕ, zero, suc, ◌+◌, ◌-◌, ◌*◌, ◌/◌, ◌^◌, not, ◌==◌, if◌then◌else◌, ltb, u32}
use neox.Base.Memory.{Bytes}
use neox.Base.Result.{Result, done, ◌>>=◌}
use neox.Strings.{word, strcmp}

-- The static variables; `superblock` is the address that the code casts.
pub record Fs : Type 0 where
  pub image : ℕ
  pub image_size : ℕ
  pub superblock : ℕ

abbrev pub failure : ℕ
failure = 2 ^ 32 - 1

-- `FS_MAGIC` and `FS_VERSION`
abbrev pub fs_magic : ℕ
fs_magic = 0x4E584653

abbrev pub fs_version : ℕ
fs_version = 1

-- The fields of `struct fs_superblock`, and those of `struct fs_file`, whose name comes first.
abbrev pub magic : Bytes → ℕ → ℕ
magic m superblock = word m superblock

abbrev pub version : Bytes → ℕ → ℕ
version m superblock = word m (superblock + 4)

abbrev pub file_count : Bytes → ℕ → ℕ
file_count m superblock = word m (superblock + 8)

abbrev pub files_offset : Bytes → ℕ → ℕ
files_offset m superblock = word m (superblock + 12)

abbrev pub data_offset : Bytes → ℕ → ℕ
data_offset m superblock = word m (superblock + 16)

abbrev pub file_offset : Bytes → ℕ → ℕ
file_offset m file = word m (file + 64)

abbrev pub file_size_field : Bytes → ℕ → ℕ
file_size_field m file = word m (file + 68)

-- `sizeof(struct fs_superblock)` and `sizeof(struct fs_file)`
abbrev pub superblock_size : ℕ
superblock_size = 20

abbrev pub entry_size : ℕ
entry_size = 72

-- The checks of `fs_mount` once the static variables are written.
unfoldable pub check_image : Bytes → ℕ → ℕ → ℕ
check_image m image size =
    if not (magic m image == fs_magic)
    then failure
    else if not (version m image == fs_version)
    then failure
    else if ltb size (files_offset m image)
    then failure
    else if ltb ((size - files_offset m image) / entry_size) (file_count m image)
    then failure
    else let files_end = u32 (files_offset m image + u32 (file_count m image * entry_size)) in
      if ltb (data_offset m image) files_end
      then failure
      else if ltb size (data_offset m image)
      then failure
      else 0

unfoldable pub fs_mount : Bytes → Fs → ℕ → ℕ → Fs × ℕ
fs_mount m s image size =
    if image == 0
    then (s, failure)
    else if ltb size superblock_size
    then (s, failure)
    else (record { image = image; image_size = size; superblock = image }, check_image m image size)

-- The loop of `fs_find` from entry `i` on, with `n` entries left. The fuel is that of `strcmp`.
unfoldable pub find_from : ℕ → Bytes → ℕ → ℕ → ℕ → ℕ → Result ℕ
find_from fuel m files path zero i = done 0
find_from fuel m files path (suc n) i =
    let rest = find_from fuel m files path n (i + 1) in
    strcmp fuel m (files + i * entry_size) path >>= λ r.
    if r == 0 then done (files + i * entry_size) else rest

-- The address of the entry, or NULL.
unfoldable pub fs_find : ℕ → Bytes → Fs → ℕ → Result ℕ
fs_find fuel m s path =
    if s.superblock == 0
    then done 0
    else find_from fuel m (s.image + files_offset m s.superblock) path (file_count m s.superblock) 0

unfoldable pub fs_file_data : Bytes → Fs → ℕ → ℕ
fs_file_data m s file =
    if file == 0
    then 0
    else if ltb s.image_size (file_offset m file)
    then 0
    else if ltb (s.image_size - file_offset m file) (file_size_field m file)
    then 0
    else s.image + file_offset m file

unfoldable pub fs_file_size : Bytes → ℕ → ℕ
fs_file_size m file = if file == 0 then 0 else file_size_field m file
