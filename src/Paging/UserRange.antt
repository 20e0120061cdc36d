-- ===== src/Paging/UserRange.antt =====
-- `paging_user_range_valid` of kernel/mm/paging.c.
use neox.Base.{
  ==_cases, lt_cases, ℕ, zero, suc, ◌+◌, ◌-◌, ◌*◌, ◌/◌, ◌%◌, ◌^◌, ◌≤◌, ◌<◌, ◌≡◌, ◌≢◌, ◌↔◌, inl, inr,
  ap, sym, ◌∙◌, Bool, true, false, not, ltb, ◌==◌, if◌then◌else◌, u32, page_size, arith,
}
use neox.Paging.{Paging, is_present, is_user, directory_index, table_index, paging_get_table}

-- One round: whether user mode may read the page by its entry.
unfoldable pub user_page : Paging → ℕ → ℕ → Bool
user_page s directory page =
    let table = paging_get_table s directory (directory_index page) in
    if table == 0
    then false
    else let entry = s.entries table (table_index page) in
      if not (is_present entry) then false else is_user entry

-- The loop from `page` on, with `n` rounds left behind this one; it ends at the page `end`.
unfoldable pub user_pages : Paging → ℕ → ℕ → ℕ → Bool
user_pages s directory page zero = user_page s directory page
user_pages s directory page (suc n) =
    let rest = user_pages s directory (page + page_size) n in
    if user_page s directory page then rest else false

-- `& ~(PAGE_SIZE - 1)` clears the low 12 bits. The loop has a round for each page from `start` to
-- `end`.
unfoldable pub paging_user_range_valid : Paging → ℕ → ℕ → ℕ → Bool
paging_user_range_valid s directory addr len =
    if directory == 0
    then false
    else if len == 0
    then true
    else if ltb (u32 (addr + len)) addr
    then false
    else let start = addr / page_size * page_size in
      let end = u32 (addr + len + 2 ^ 32 - 1) / page_size * page_size in
      user_pages s directory start ((end - start) / page_size)

-- A page is as readable as each address in it.
user_page_base :
    (s : Paging) (d a : ℕ) → user_page s d (a / page_size * page_size) ≡ user_page s d a
unfolding user_page
user_page_base s d a =
    let h : directory_index (a / page_size * page_size) ≡ directory_index a = omega arith in
    let k : table_index (a / page_size * page_size) ≡ table_index a = omega arith in rw (h, k)

pub user_page-same :
    (s : Paging) (d a b : ℕ) → a / page_size ≡ b / page_size → user_page s d a ≡ user_page s d b
user_page-same s d a b same =
    sym (user_page_base s d a) ∙ ap (λ q. user_page s d (q * page_size)) same ∙ user_page_base s d b

module _ (s : Paging) (d : ℕ) where
  user_pages_sound :
      (q n a : ℕ)
      → user_pages s d (q * page_size) n ≡ true
      → q ≤ a / page_size
      → a / page_size ≤ q + n
      → user_page s d a ≡ true
  unfolding user_pages
  user_pages_sound q zero a ok low high =
      let same : a / page_size ≡ q = omega arith in ground (arith, same, user_page_base s d a)
  user_pages_sound q (suc n) a ok low high =
      let there : user_page s d (q * page_size) ≡ true = ground arith in
      let step : user_pages s d ((q + 1) * page_size) n ≡ true = ground arith in
      elim (==_cases (a / page_size) q) [
        | inl same ↦ ground (arith, same, user_page_base s d a)
        | inr other ↦ user_pages_sound (q + 1) n a step (omega arith) (omega arith)
      ]

  user_pages_complete :
      (q n : ℕ)
      → ((a : ℕ) → q ≤ a / page_size → a / page_size ≤ q + n → user_page s d a ≡ true)
      → user_pages s d (q * page_size) n ≡ true
  unfolding user_pages
  user_pages_complete q zero all = all (q * page_size) (omega arith) (omega arith)
  user_pages_complete q (suc n) all =
      let rest = user_pages_complete (q + 1) n (λ a h k. all a (omega arith) (omega arith)) in
      let there = all (q * page_size) (omega arith) (omega arith) in ground (arith, rest, there)

-- The entry that the tables of a directory have for an address, at 0xC0000000 above their frames.
abbrev pub table_at : Paging → ℕ → ℕ → ℕ
table_at s directory a = u32 (s.entries directory (a / 2 ^ 22) / 2 ^ 12 * 2 ^ 12 + 0xC0000000)

abbrev pub entry_of : Paging → ℕ → ℕ → ℕ
entry_of s directory a = s.entries (table_at s directory a) (a / 2 ^ 12 % 1024)

-- The directory has a table for the address, and the entry of the table is present and open to user
-- mode.
pub record IsUser (s : Paging) (directory a : ℕ) : Type 0 where
  pub has_table : s.entries directory (a / 2 ^ 22) % 2 ≡ 1
  pub some_table : table_at s directory a ≢ 0
  pub present : entry_of s directory a % 2 ≡ 1
  pub user : entry_of s directory a / 4 % 2 ≡ 1

pub user_page-IsUser :
    (s : Paging) (directory a : ℕ) → (user_page s directory a ≡ true) ↔ IsUser s directory a
unfolding user_page paging_get_table
user_page-IsUser s directory a = (
  λ h. record {
    has_table = ground arith;
    some_table = ground arith;
    present = ground arith;
    user = ground arith;
  },
  λ u. ground (arith, u.has_table, u.some_table, u.present, u.user),
)

-- What `paging_user_range_valid` promises of a range.
pub record IsReadable (s : Paging) (directory addr len : ℕ) : Type 0 where
  pub fits : addr + len < 2 ^ 32
  pub readable : (a : ℕ) → addr ≤ a → a < addr + len → IsUser s directory a

module _ (s : Paging) (d addr len : ℕ) (some_directory : d ≢ 0) (some_len : 0 < len)
    (ha : addr < 2 ^ 32) (hl : len < 2 ^ 32) where
  range_wraps : 2 ^ 32 ≤ addr + len → paging_user_range_valid s d addr len ≡ false
  unfolding paging_user_range_valid
  range_wraps h = ground arith

  range_fits :
      addr + len < 2 ^ 32
      → paging_user_range_valid s d addr len
        ≡ user_pages s d
            (addr / page_size * page_size)
            ((addr + len - 1) / page_size - addr / page_size)
  unfolding paging_user_range_valid
  range_fits h =
      let sum : u32 (addr + len) ≡ addr + len = omega arith in
      let last : u32 (addr + len + 2 ^ 32 - 1) ≡ addr + len - 1 = omega arith in
      let rounds : ((addr + len - 1) / page_size * page_size - addr / page_size * page_size)
            / page_size
          ≡ (addr + len - 1) / page_size - addr / page_size =
        omega arith in
      ground (arith, sum, last, rounds)

  sound_range :
      paging_user_range_valid s d addr len ≡ true → addr + len < 2 ^ 32 → IsReadable s d addr len
  sound_range ok fits = record {
    fits = fits;
    readable = λ a low high. (user_page-IsUser s d a).0 (
        user_pages_sound s d (addr / page_size) ((addr + len - 1) / page_size - addr / page_size) a
          (sym (range_fits fits) ∙ ok) (omega arith) (omega arith));
  }

  complete_range : IsReadable s d addr len → paging_user_range_valid s d addr len ≡ true
  complete_range r =
      let open_page : (a : ℕ) → addr ≤ a → a < addr + len → user_page s d a ≡ true =
        λ a low high. (user_page-IsUser s d a).1 (r.readable a low high) in
      range_fits r.fits
      ∙ user_pages_complete s d (addr / page_size) _ (λ a low high.
        elim (==_cases (a / page_size) (addr / page_size)) [
          | inl first ↦ user_page-same s d a addr first ∙ open_page addr (omega arith) (omega arith)
          | inr later ↦ elim (==_cases (a / page_size) ((addr + len - 1) / page_size)) [
            | inl last ↦
                user_page-same s d a (addr + len - 1) last
                ∙ open_page (addr + len - 1) (omega arith) (omega arith)
            | inr inside ↦ open_page a (omega arith) (omega arith)
          ]
        ])

-- For a directory that is not NULL and a 32-bit address and length that is not 0,
-- paging_user_range_valid returns true exactly when the range ends below the last byte of the
-- address space and the directory has for every address in it a table, at an address that is not
-- NULL, whose entry is present and open to user mode.
pub paging_user_range_valid-IsReadable :
    (s : Paging) (directory addr len : ℕ)
    → directory ≢ 0
    → 0 < len
    → addr < 2 ^ 32
    → len < 2 ^ 32
    → (paging_user_range_valid s directory addr len ≡ true) ↔ IsReadable s directory addr len
paging_user_range_valid-IsReadable s directory addr len some_directory some_len ha hl = (
  λ ok. elim (lt_cases (addr + len) (2 ^ 32)) [
    | inl fits ↦ sound_range s directory addr len some_directory some_len ha hl ok fits
    | inr wraps ↦
        absurd
          (ground (arith, range_wraps s directory addr len some_directory some_len ha hl wraps, ok))
  ],
  complete_range s directory addr len some_directory some_len ha hl,
)
