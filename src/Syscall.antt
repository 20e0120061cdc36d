-- ===== src/Syscall.antt =====
-- The handlers sys_write, sys_open, sys_read and sys_close of kernel/arch/x86/syscall.c. The current process is
-- none where there is no current thread or it has no process. An `int` is its 32-bit pattern.
pub mod Read
pub mod Open
mod Tests
use neox.Base.{Bool, ℕ, zero, suc, ◌+◌, Option, none, some, List, [], ◌∷◌, not, ◌==◌, if◌then◌else◌}
use neox.Base.Memory.{Bytes}
use neox.Fs.{Fs, failure}
use neox.Base.Result.{Result, done, ◌>>=◌}
use neox.Files.{OpenFiles, process_open, process_read, process_close}
use neox.Paging.{Paging}
use neox.Paging.UserRange.{paging_user_range_valid}
use neox.Paging.UserString.{paging_user_string_valid}

-- The fields of `struct process` that are used here.
pub record Caller : Type 0 where
  pub page_directory : ℕ
  pub files : OpenFiles

-- The loop of `sys_write`: the characters that `printf` gets, from `buf` on.
unfoldable pub written : Bytes → ℕ → ℕ → List ℕ
written m buf zero = []
written m buf (suc n) = m buf ∷ written m (buf + 1) n

-- The output and the result.
unfoldable pub sys_write : Bytes → Paging → Option Caller → ℕ → ℕ → ℕ → List ℕ × ℕ
sys_write m s none fd buf len = ([], failure)
sys_write m s (some process) fd buf len =
    if not (fd == 1)
    then ([], failure)
    else if not (paging_user_range_valid s process.page_directory buf len)
    then ([], failure)
    else (written m buf len, len)

-- The memory, the process and the result.
unfoldable pub sys_read :
    Bytes → Paging → Fs → Option Caller → ℕ → ℕ → ℕ → Bytes × Option Caller × ℕ
sys_read m s fs none fd buffer count = (m, none, failure)
sys_read m s fs (some process) fd buffer count =
    if not (paging_user_range_valid s process.page_directory buffer count)
    then (m, some process, failure)
    else let (t, files, result) = process_read m fs process.files fd buffer count in
      (t, some (record process { files = files }), result)

-- `sys_open` with what `process_open` returns.
unfoldable pub with_files : Caller → OpenFiles × ℕ → Option Caller × ℕ
with_files process (files, result) = (some (record process { files = files }), result)

-- `sys_open` once `paging_user_string_valid` has returned.
unfoldable pub open_valid : ℕ → Bytes → Fs → Caller → ℕ → ℕ → Bool → Result (Option Caller × ℕ)
open_valid fuel m fs process path access valid =
    if not valid
    then done (some process, failure)
    else (process_open fuel m fs process.files path access >>= λ r. done (with_files process r))

unfoldable pub sys_open :
    ℕ → Bytes → Paging → Fs → Option Caller → ℕ → ℕ → Result (Option Caller × ℕ)
sys_open fuel m s fs none path access = done (none, failure)
sys_open fuel m s fs (some process) path access =
    paging_user_string_valid fuel m s process.page_directory path
    >>= open_valid fuel m fs process path access

unfoldable pub sys_close : Option Caller → ℕ → Option Caller × ℕ
sys_close none fd = (none, failure)
sys_close (some process) fd =
    let (files, result) = process_close process.files fd in
    (some (record process { files = files }), result)
