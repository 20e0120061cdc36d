-- ===== src/Paging/UserString/Scan.antt =====
-- What `paging_user_string_valid` of kernel/mm/paging.c decides, by the rounds of its loops.
use neox.Base.{
  ℕ, zero, suc, ◌+◌, ◌-◌, ◌*◌, ◌/◌, ◌^◌, ◌≤◌, ◌<◌, ◌≡◌, ◌≢◌, ◌↔◌, ◌⊎◌, inl, inr, refl, sym, ◌∙◌,
  subst, Bool, true, false, Bool-cases, ==_cases, ==_true, ==_false, lt_cases, lt→ltb, ge→ltb, u32,
  page_size, arith,
}
use neox.Base.Memory.{Bytes}
use neox.Base.Result.{Result, done}
use neox.Paging.{Paging}
use neox.Paging.UserRange.{
  user_page, user_page-same, user_page-IsUser, paging_user_range_valid, IsReadable,
  paging_user_range_valid-IsReadable,
}
use neox.Paging.UserString.{
  user_virt_end, scan_string, paging_user_string_valid, IsUserString, Scanned, accepted, rejected,
  IsShut,
}

module _ (m : Bytes) (s : Paging) (directory string : ℕ) (some_directory : directory ≢ 0) where
  one_byte :
      (a : ℕ)
      → a + 1 < 2 ^ 32
      → (paging_user_range_valid s directory a 1 ≡ true) ↔ (user_page s directory a ≡ true)
  one_byte a h = (
    λ ok. (user_page-IsUser s directory a).1 ((iff.0 ok).readable a (omega arith) (omega arith)),
    λ open_page. iff.1 (record {
      fits = h;
      readable = λ b low high.
          (user_page-IsUser s directory b).0
            (subst (λ x. user_page s directory x ≡ true) (omega arith) open_page);
    }),
  )
    where
      iff : (paging_user_range_valid s directory a 1 ≡ true) ↔ IsReadable s directory a 1
      iff =
          paging_user_range_valid-IsReadable s directory a 1 some_directory (omega arith)
            (omega arith) (omega arith)

  -- The first `k` bytes are characters that can be read.
  record Prefix (k : ℕ) : Type 0 where
    some_bytes : (j : ℕ) → j < k → m (string + j) ≢ 0
    open_bytes : (j : ℕ) → j < k → user_page s directory (string + j) ≡ true
    low : (k ≡ 0) ⊎ (string + k ≤ user_virt_end)

  no_shorter : (k n : ℕ) → Prefix k → IsUserString m s directory string n → k ≤ n
  no_shorter k n p u = elim (lt_cases n k) [
    | inl shorter ↦ absurd (p.some_bytes n shorter u.end)
    | inr longer ↦ longer
  ]

  -- The page of the address is known to be readable, or not yet.
  abbrev Position : ℕ → ℕ → Type 0
  Position page_end address =
      ((page_end ≡ address / page_size * page_size + page_size)
        × (user_page s directory address ≡ true))
      ⊎ (page_end ≤ address)

  advance :
      (page_end address : ℕ)
      → page_end ≡ address / page_size * page_size + page_size
      → user_page s directory address ≡ true
      → Position page_end (address + 1)
  advance page_end address e open_page = elim (lt_cases (address + 1) page_end) [
    | inl same ↦
        inl
          (omega arith, user_page-same s directory (address + 1) address (omega arith) ∙ open_page)
    | inr next ↦ inr next
  ]

  longer :
      (k : ℕ)
      → Prefix k
      → m (string + k) ≢ 0
      → user_page s directory (string + k) ≡ true
      → string + k + 1 ≤ user_virt_end
      → Prefix (k + 1)
  longer k p char open_page low = record {
    some_bytes = λ j h. elim (==_cases j k) [
      | inl here ↦ subst (λ x. m (string + x) ≢ 0) (sym here) char
      | inr before ↦ p.some_bytes j (omega arith)
    ];
    open_bytes = λ j h. elim (==_cases j k) [
      | inl here ↦ subst (λ x. user_page s directory (string + x) ≡ true) (sym here) open_page
      | inr before ↦ p.open_bytes j (omega arith)
    ];
    low = inr (omega arith);
  }

  complete :
      (k : ℕ)
      → Prefix k
      → m (string + k) ≡ 0
      → user_page s directory (string + k) ≡ true
      → IsUserString m s directory string k
  complete k p end open_page = record {
    inside = p.some_bytes;
    end = end;
    readable = λ j h. elim (==_cases j k) [
      | inl here ↦ subst (λ x. user_page s directory (string + x) ≡ true) (sym here) open_page
      | inr before ↦ p.open_bytes j (omega arith)
    ];
    below = p.low;
  }

  -- Rounds for each address that is left, with one more to enter a page.
  abbrev Enough : ℕ → ℕ → ℕ → Type 0
  Enough fuel page_end address =
      (2 * (2 ^ 32 - address) < fuel) ⊎ ((address < page_end) × (2 * (2 ^ 32 - address) ≤ fuel))

  too_far :
      (k : ℕ)
      → Prefix k
      → m (string + k) ≢ 0
      → user_virt_end < string + k + 1
      → (n : ℕ) → ¬ IsUserString m s directory string n
  too_far k p char far n u = elim (==_cases n k) [
    | inl here ↦ char (subst (λ x. m (string + x) ≡ 0) here u.end)
    | inr other ↦
        let more = no_shorter k n p u in
        elim u.below [ inl none ↦ omega arith | inr low ↦ omega arith ]
  ]

  closed_page :
      (k : ℕ)
      → Prefix k
      → string + k < 0xFFFFF000
      → paging_user_range_valid s directory (string + k) 1 ≡ false
      → (n : ℕ) → ¬ IsUserString m s directory string n
  closed_page k p small invalid n u =
      let valid = (one_byte (string + k) (omega arith)).1 (u.readable k (no_shorter k n p u)) in
      ground arith

  scan_string-Scanned :
      (fuel k page_end a : ℕ)
      → a ≡ string + k
      → Prefix k
      → Position page_end a
      → a < 0xFFFFF000
      → Enough fuel page_end a
      → Scanned m s directory string (scan_string fuel m s directory page_end a)
  unfolding scan_string
  scan_string-Scanned zero k page_end a e p position small enough = absurd (ground arith)
  scan_string-Scanned (suc fuel) k page_end a e p (inl (ends, open_page)) small enough =
      let below : a < page_end = omega arith in
      elim (==_cases (m a) 0) [
        | inl end ↦
            rw (lt→ltb a page_end below, ==_true (m a) 0 end)
              (accepted k (
                complete k p (subst (λ x. m x ≡ 0) e end)
                  (subst (λ x. user_page s directory x ≡ true) e open_page)))
        | inr char ↦
            let next : u32 (a + 1) ≡ a + 1 = omega arith in
            elim (lt_cases user_virt_end (a + 1)) [
              | inl far ↦
                  rw
                    (
                      lt→ltb a page_end below,
                      ==_false (m a) 0 char,
                      next,
                      lt→ltb user_virt_end (a + 1) far,
                    )
                    (rejected (too_far k p (subst (λ x. m x ≢ 0) e char) (omega arith)))
              | inr near ↦
                  rw
                    (
                      lt→ltb a page_end below,
                      ==_false (m a) 0 char,
                      next,
                      ge→ltb user_virt_end (a + 1) near,
                    )
                    (scan_string-Scanned fuel (k + 1) page_end (a + 1) (omega arith)
                      (longer k p (subst (λ x. m x ≢ 0) e char)
                        (subst (λ x. user_page s directory x ≡ true) e open_page) (omega arith))
                      (advance page_end a ends open_page) (omega arith) (ground arith))
            ]
      ]
  scan_string-Scanned (suc fuel) k page_end a e p (inr over) small enough =
      elim (Bool-cases (paging_user_range_valid s directory a 1)) [
        | inl valid ↦
            let last : u32 (a / page_size * page_size + page_size)
                ≡ a / page_size * page_size + page_size =
              omega arith in
            rw (ge→ltb a page_end over, valid, last)
              (scan_string-Scanned fuel k (a / page_size * page_size + page_size) a e p
                (inl (refl, (one_byte a (omega arith)).0 valid)) small
                (inr (omega arith, ground arith)))
        | inr invalid ↦
            rw (ge→ltb a page_end over, invalid)
              (rejected (
                closed_page k p (omega arith)
                  (subst (λ x. paging_user_range_valid s directory x 1 ≡ false) e invalid)))
      ]

  -- paging_user_string_valid for a page directory and a string that is not NULL and below the last
  -- page of the address space returns with fuel of two rounds for each address from the string on:
  -- true exactly when there is a string there whose bytes and end lie in pages open to user mode
  -- and which does not go beyond the last address of user mode.
  pub paging_user_string_valid-Scanned :
      (fuel : ℕ)
      → string ≢ 0
      → string < 0xFFFFF000
      → 2 * (2 ^ 32 - string) < fuel
      → Scanned m s directory string (paging_user_string_valid fuel m s directory string)
  unfolding paging_user_string_valid
  paging_user_string_valid-Scanned fuel some_string small enough =
      rw (==_false directory 0 some_directory, ==_false string 0 some_string)
        (scan_string-Scanned fuel 0 0 string (omega arith)
          (record {
            some_bytes = λ j h. absurd (omega arith);
            open_bytes = λ j h. absurd (omega arith);
            low = inl refl;
          })
          (inr (omega arith)) small (inl enough))

module _ (fuel : ℕ) (m : Bytes) (s : Paging) (directory string : ℕ) (some_directory : directory ≢ 0)
    (shut : IsShut s directory) (address : string < 2 ^ 32) (enough : 2 ^ 33 < fuel) where
  last_page : 0xFFFFF000 ≤ string → paging_user_range_valid s directory string 1 ≡ false
  unfolding paging_user_range_valid
  last_page high = elim (Bool-cases (paging_user_range_valid s directory string 1)) [
    | inr invalid ↦ invalid
    | inl valid ↦ elim (==_cases (string + 1) (2 ^ 32)) [
      | inl top ↦ let wraps : u32 (string + 1) ≡ 0 = omega arith in ground (arith, wraps, valid)
      | inr inside ↦
          let open_page =
            (one_byte m s directory string some_directory string (omega arith)).0 valid in
          let closed = shut string high address in absurd (ground arith)
    ]
  ]

  scan_last :
      (rounds : ℕ)
      → 0xFFFFF000 ≤ string
      → scan_string (suc rounds) m s directory 0 string ≡ done false
  unfolding scan_string
  scan_last rounds high = rw (ge→ltb string 0 (omega arith), last_page high) refl

  pub string_returns : (b : Bool) × (paging_user_string_valid fuel m s directory string ≡ done b)
  unfolding paging_user_string_valid
  string_returns = elim (==_cases string 0) [
    | inl null ↦ (false, rw (==_false directory 0 some_directory, ==_true string 0 null) refl)
    | inr some_string ↦ elim (lt_cases string 0xFFFFF000) [
      | inl low ↦ decided (
          paging_user_string_valid-Scanned m s directory string some_directory fuel some_string low
            (omega arith))
      | inr high ↦
          let e : suc (fuel - 1) ≡ fuel = omega arith in
          (
            false,
            rw (==_false directory 0 some_directory, ==_false string 0 some_string)
                (subst (λ n. scan_string n m s directory 0 string ≡ done false) e
                  (scan_last (fuel - 1) high)),
          )
    ]
  ]
    where
      decided : {r : Result Bool} → Scanned m s directory string r → (b : Bool) × (r ≡ done b)
      decided (Scanned.accepted n u) = (true, refl)
      decided (Scanned.rejected none) = (false, refl)
