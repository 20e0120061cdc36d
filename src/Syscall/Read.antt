-- ===== src/Syscall/Read.antt =====
-- The memory that `sys_read` of kernel/arch/x86/syscall.c writes.
use neox.Base.{
  ℕ, zero, suc, ◌+◌, ◌-◌, ◌^◌, ◌≤◌, ◌<◌, ◌≡◌, ◌≢◌, ◌⊎◌, inl, inr, refl, Bool-cases, not, ◌&&◌,
  Option, none, some, leb, ltb, ◌==◌, ==_cases, ==_true, ==_false, if◌then◌else◌, arith,
}
use neox.Base.Memory.{Bytes, store}
use neox.Strings.{memcpy}
use neox.Fs.{Fs, failure}
use neox.Files.{
  File, OpenFiles, access_read, access_read_write, file_size, read_bytes, file_read,
  process_get_file, read_slot, process_read,
}
use neox.Paging.{Paging}
use neox.Paging.UserRange.{paging_user_range_valid, IsReadable, paging_user_range_valid-IsReadable}
use neox.Syscall.{Caller, sys_read}

-- Two memories agree outside a range.
abbrev pub AgreeBeside : Bytes → Bytes → ℕ → ℕ → Type 0
AgreeBeside m t buffer count = (j : ℕ) → (j < buffer) ⊎ (buffer + count ≤ j) → t j ≡ m j

memcpy-AgreeBeside : (m : Bytes) (dest src n : ℕ) → AgreeBeside m (memcpy m dest src n) dest n
unfolding memcpy store
memcpy-AgreeBeside m dest src zero j h = refl
memcpy-AgreeBeside m dest src (suc n) j h =
    let rest = memcpy-AgreeBeside m dest src n j (ground arith) in ground (arith, rest)

-- The memory and the result of a read: at most the range is written.
pub data ReadInto (m : Bytes) (buffer count : ℕ) : Bytes → ℕ → Type 0 where
  failed : ReadInto m buffer count m failure
  read : {t : Bytes} (n : ℕ) → n ≤ count → AgreeBeside m t buffer n → ReadInto m buffer count t n

module _ (m : Bytes) (s : Fs) (file : File) (buffer count : ℕ) where
  bytes-ReadInto :
      (n : ℕ)
      → n ≤ count
      → ReadInto m buffer count (read_bytes m s file buffer n).0 (read_bytes m s file buffer n).2
  unfolding read_bytes
  bytes-ReadInto n h = read n h (memcpy-AgreeBeside m buffer _ n)

  file_read-ReadInto :
      ReadInto m buffer count
        (file_read m s file buffer count).0
        (file_read m s file buffer count).2
  unfolding file_read
  file_read-ReadInto = elim (==_cases buffer 0) [
    | inl null ↦ rw (==_true buffer 0 null) failed
    | inr present ↦ elim (==_cases file.fs_file 0) [
      | inl null ↦ rw (==_false buffer 0 present, ==_true file.fs_file 0 null) failed
      | inr entry ↦
          elim (Bool-cases
            (not (file.access == access_read) && not (file.access == access_read_write))) [
              | inl forbidden ↦
                  rw (==_false buffer 0 present, ==_false file.fs_file 0 entry, forbidden) failed
              | inr allowed ↦ elim (Bool-cases (leb (file_size m file) file.position)) [
                | inl over ↦
                    rw (==_false buffer 0 present, ==_false file.fs_file 0 entry, allowed, over)
                      (read 0 (omega arith) (λ j h. refl))
                | inr inside ↦
                    rw (==_false buffer 0 present, ==_false file.fs_file 0 entry, allowed, inside)
                      (bytes-ReadInto
                        (if ltb (file_size m file - file.position) count
                          then file_size m file - file.position
                          else count)
                        (ground arith))
              ]
            ]
    ]
  ]

slot-ReadInto :
    (m : Bytes) (s : Fs) (p : OpenFiles) (buffer count : ℕ) (slot : Option ℕ)
    → ReadInto m buffer count
        (read_slot m s p buffer count slot).0
        (read_slot m s p buffer count slot).2
unfolding read_slot
slot-ReadInto m s p buffer count none = failed
slot-ReadInto m s p buffer count (some fd) = file_read-ReadInto m s (p.file fd) buffer count

-- How `sys_read` ends.
pub data SysRead (m : Bytes) (s : Paging) (directory : ℕ) (buffer count : ℕ)
    : Bytes × Option Caller × ℕ → Type 0 where
  refused :
      {o : Option Caller}
      → ¬ IsReadable s directory buffer count
      → SysRead m s directory buffer count (m, o, failure)
  served :
      {t : Bytes} {o : Option Caller} {result : ℕ}
      → IsReadable s directory buffer count
      → ReadInto m buffer count t result
      → SysRead m s directory buffer count (t, o, result)

module _ (m : Bytes) (s : Paging) (fs : Fs) (process : Caller) (fd buffer count : ℕ)
    (some_directory : process.page_directory ≢ 0) (some_bytes : 0 < count)
    (address : buffer < 2 ^ 32) (small : count < 2 ^ 32) where
  -- sys_read of a process with a page directory, with a 32-bit buffer and a 32-bit count that is
  -- not 0: either the range is not open to user mode, and -1 is returned with the memory as it was;
  -- or it is, and what is returned is -1 with the memory as it was, or at most the count, where no
  -- byte is changed but that many from the start of the buffer on.
  pub sys_read-SysRead :
      SysRead m s process.page_directory buffer count
        (sys_read m s fs (some process) fd buffer count)
  unfolding sys_read process_read
  sys_read-SysRead =
      elim (Bool-cases (paging_user_range_valid s process.page_directory buffer count)) [
        | inl valid ↦ rw valid (
            served
              ((paging_user_range_valid-IsReadable s process.page_directory buffer count
                  some_directory some_bytes address small).0
                valid)
              (slot-ReadInto m fs process.files buffer count (process_get_file process.files fd)))
        | inr invalid ↦
            let iff =
              paging_user_range_valid-IsReadable s process.page_directory buffer count
                some_directory some_bytes address small in
            rw invalid (refused (λ r. let ok = iff.1 r in ground arith))
      ]
