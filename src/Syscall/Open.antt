-- ===== src/Syscall/Open.antt =====
-- How `sys_open` of kernel/arch/x86/syscall.c ends.
use neox.Base.{
  ℕ, ◌^◌, ◌<◌, ◌≡◌, ◌≢◌, ◌⊎◌, inl, inr, refl, Bool, false, Option, some, ==_cases, ==_true,
  ==_false, arith,
}
use neox.Base.Memory.{Bytes, AreBytes}
use neox.Base.Result.{Result, done, ◌>>=◌}
use neox.Fs.{Fs, failure}
use neox.Fs.Mount.{IsImage}
use neox.Files.{OpenFiles}
use neox.Files.Slots.{IsAccess, Opened, process_open-Opened}
use neox.Paging.{Paging}
use neox.Paging.UserString.{paging_user_string_valid, IsUserString, Scanned}
use neox.Paging.UserString.Scan.{paging_user_string_valid-Scanned}
use neox.Syscall.{Caller, with_files, open_valid, sys_open}

-- How `sys_open` ends: the path is refused, or the process has opened it.
pub data SysOpen (m : Bytes) (s : Paging) (fs : Fs) (process : Caller) (path access : ℕ)
    : Result (Option Caller × ℕ) → Type 0 where
  refused :
      (path ≡ 0) ⊎ ((n : ℕ) → ¬ IsUserString m s process.page_directory path n)
      → SysOpen m s fs process path access (done (some process, failure))
  served :
      {r : Result (OpenFiles × ℕ)} (n : ℕ)
      → IsUserString m s process.page_directory path n
      → Opened m fs process.files path n access r
      → SysOpen m s fs process path access (r >>= λ q. done (with_files process q))

module _ (m : Bytes) (s : Paging) (fs : Fs) (process : Caller) (path access fuel : ℕ)
    (v : AreBytes m) (mounted : IsImage m fs.image fs.image_size) (cast : fs.superblock ≡ fs.image)
    (some_directory : process.page_directory ≢ 0) (small : path < 0xFFFFF000)
    (how : IsAccess access) (enough : 2 ^ 33 < fuel) where
  null_path : path ≡ 0 → paging_user_string_valid fuel m s process.page_directory path ≡ done false
  unfolding paging_user_string_valid
  null_path e = rw (==_false process.page_directory 0 some_directory, ==_true path 0 e) refl

  short : (n : ℕ) → IsUserString m s process.page_directory path n → n < fuel
  short n u = elim u.below [ inl none ↦ omega arith | inr low ↦ omega arith ]

  of_scan :
      {r : Result Bool}
      → path ≢ 0
      → Scanned m s process.page_directory path r
      → SysOpen m s fs process path access (r >>= open_valid fuel m fs process path access)
  unfolding open_valid
  of_scan some_path (Scanned.rejected never) = refused (inr never)
  of_scan some_path (Scanned.accepted n u) = served n u (
      process_open-Opened m fs process.files path n access fuel v mounted cast
        (record { inside = u.inside; end = u.end }) (short n u) some_path how)

  -- sys_open of a process with a page directory, with one of the three ways to open a file, a
  -- mounted image, a path below the last page of the address space and fuel above 2^33, returns: -1
  -- with the process as it was, where the path is NULL or no string that user mode can read; or
  -- what process_open leaves for that string, with its length: the first free descriptor for the
  -- first file of that name, or -1 where no file has the name or no descriptor is free.
  pub sys_open-SysOpen :
      SysOpen m s fs process path access (sys_open fuel m s fs (some process) path access)
  unfolding sys_open
  sys_open-SysOpen = elim (==_cases path 0) [
    | inl null ↦ rw (null_path null) (refused_null null)
    | inr some_path ↦ of_scan some_path (
        paging_user_string_valid-Scanned m s process.page_directory path some_directory fuel
          some_path small (omega arith))
  ]
    where
      refused_null :
          path ≡ 0
          → SysOpen m s fs process path access
              (done false >>= open_valid fuel m fs process path access)
      refused_null null = unfold open_valid in refused (inl null)
