-- ===== src/Paging/UserString.antt =====
-- `paging_user_string_valid` of kernel/mm/paging.c, on the memory of the active address space. Its
-- two loops are one function: a round of the inner loop where the address is below the end of the
-- page, and otherwise the start of a round of the outer loop. A round of each kind for each address
-- up to the end of the address space is enough.
pub mod Scan
use neox.Base.{
  ℕ, zero, suc, ◌+◌, ◌-◌, ◌*◌, ◌/◌, ◌^◌, ◌≤◌, ◌<◌, ◌≡◌, ◌≢◌, ◌↔◌, ◌⊎◌, inl, inr, refl, sym, ◌∙◌,
  subst, Bool, true, false, Bool-cases, not, ltb, ◌==◌, ==_cases, ==_true, ==_false, lt_cases,
  lt→ltb, ge→ltb, if◌then◌else◌, u32, page_size, arith,
}
use neox.Base.Memory.{Bytes}
use neox.Base.Result.{Result, done, out_of_fuel}
use neox.Paging.{Paging}
use neox.Paging.UserRange.{
  user_page, user_page-same, paging_user_range_valid, IsReadable,
  paging_user_range_valid-IsReadable,
}

-- `USER_VIRT_END`
abbrev pub user_virt_end : ℕ
user_virt_end = 0xBFFFFFFF

unfoldable pub scan_string : ℕ → Bytes → Paging → ℕ → ℕ → ℕ → Result Bool
scan_string zero m s directory page_end address = out_of_fuel
scan_string (suc fuel) m s directory page_end address =
    let same_page = scan_string fuel m s directory page_end (u32 (address + 1)) in
    let next_page =
      scan_string fuel m s directory (u32 (address / page_size * page_size + page_size)) address in
    if ltb address page_end
    then (if m address == 0
        then done true
        else if ltb user_virt_end (u32 (address + 1))
        then done false
        else same_page)
    else if not (paging_user_range_valid s directory address 1)
    then done false
    else next_page

unfoldable pub paging_user_string_valid : ℕ → Bytes → Paging → ℕ → ℕ → Result Bool
paging_user_string_valid fuel m s directory string =
    if directory == 0
    then done false
    else if string == 0
    then done false
    else scan_string fuel m s directory 0 string

-- A string of `n` bytes that user mode can read with its end, and that does not leave the addresses
-- of user mode.
pub record IsUserString (m : Bytes) (s : Paging) (directory string n : ℕ) : Type 0 where
  pub inside : (k : ℕ) → k < n → m (string + k) ≢ 0
  pub end : m (string + n) ≡ 0
  pub readable : (k : ℕ) → k ≤ n → user_page s directory (string + k) ≡ true
  pub below : (n ≡ 0) ⊎ (string + n ≤ user_virt_end)

-- What `paging_user_string_valid` decides.
pub data Scanned (m : Bytes) (s : Paging) (directory string : ℕ) : Result Bool → Type 0 where
  accepted :
      (n : ℕ) → IsUserString m s directory string n → Scanned m s directory string (done true)
  rejected :
      ((n : ℕ) → ¬ IsUserString m s directory string n) → Scanned m s directory string (done false)

-- The last page of the address space is not open to user mode.
abbrev pub IsShut : Paging → ℕ → Type 0
IsShut s directory = (a : ℕ) → 0xFFFFF000 ≤ a → a < 2 ^ 32 → user_page s directory a ≡ false
