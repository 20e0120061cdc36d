-- ===== src/Pmm/Alloc.antt =====
-- `pmm_alloc_page`: which page it takes, and when it returns NULL.
use neox.Base.{
  ℕ, zero, suc, ◌+◌, ◌-◌, ◌*◌, ◌≤◌, ◌<◌, ◌≡◌, inl, inr, ◌∙◌, refl, true, false, Option, none, some,
  page_size, Bool-cases, arith,
}
use neox.Base.Memory.{Bytes, AreBytes, is_set}
use neox.Pmm.{Pmm, bitmap_set, find_free, pmm_alloc_page}
use neox.Pmm.Bitmap.{bitmap_test_lem}
use neox.Pmm.Inv.{IsValid, clear_bits-le, clear_bits_pos, clear_bits_zero}

-- What the scan finds among the `n` pages from `page` on: the first clear bit, or none.
pub data Found (m : Bytes) (page n : ℕ) : Option ℕ → Type 0 where
  first :
      {p : ℕ}
      → page ≤ p
      → p < page + n
      → is_set m p ≡ false
      → ((q : ℕ) → page ≤ q → q < p → is_set m q ≡ true)
      → Found m page n (some p)
  full : ((q : ℕ) → page ≤ q → q < page + n → is_set m q ≡ true) → Found m page n none

pub find_free-Found : (m : Bytes) (n page : ℕ) → AreBytes m → Found m page n (find_free m n page)
unfolding find_free
find_free-Found m zero page v = full (λ q h k. absurd (omega arith))
find_free-Found m (suc n) page v = elim (Bool-cases (is_set m page)) [
  | inl taken ↦
      rw (bitmap_test_lem m page v, taken) (later (find_free-Found m n (page + 1) v) taken)
  | inr clear ↦
      rw (bitmap_test_lem m page v, clear)
        (first (omega arith) (omega arith) clear (λ q h k. absurd (omega arith)))
]
  where
    later : {o : Option ℕ} → Found m (page + 1) n o → is_set m page ≡ true → Found m page (suc n) o
    later (first lo hi clear before) taken =
        first (omega arith) (omega arith) clear (λ q h k. ground (arith, before q))
    later (full all) taken = full (λ q h k. ground (arith, all q))

-- The outcomes of an allocation that is not made to fail.
pub data Allocated (s : Pmm) : Pmm × ℕ → Type 0 where
  page :
      (p : ℕ)
      → 0 < p
      → p < s.total_pages
      → is_set s.bitmap p ≡ false
      → ((q : ℕ) → q < p → is_set s.bitmap q ≡ true)
      → 0 < s.free_pages
      → {t : Pmm} {addr : ℕ}
      → t ≡ record s { bitmap = bitmap_set s.bitmap p; free_pages = s.free_pages - 1 }
      → addr ≡ p * page_size
      → Allocated s (t, addr)
  none_left :
      ((q : ℕ) → q < s.total_pages → is_set s.bitmap q ≡ true)
      → s.free_pages ≡ 0
      → {t : Pmm} {addr : ℕ} → t ≡ s
      → addr ≡ 0
      → Allocated s (t, addr)

module _ (s : Pmm) (v : IsValid s) where
  -- The scan starts at page 0, which is taken.
  found_pos : (p : ℕ) → is_set s.bitmap p ≡ false → 0 < p
  found_pos zero clear = absurd (cc (v.page_zero))
  found_pos (suc p) clear = omega arith

  alloc_outcome :
      {o : Option ℕ}
      → find_free s.bitmap s.total_pages 0 ≡ o
      → Found s.bitmap 0 s.total_pages o
      → s.fail_allocations ≡ 0
      → Allocated s (pmm_alloc_page s)
  unfolding pmm_alloc_page
  alloc_outcome e (first {p} lo hi clear before) h =
      page p (found_pos p clear) (omega arith) clear (λ q k. before q (omega arith) k)
        (omega (arith, v.counted, clear_bits_pos s.bitmap p s.total_pages clear (omega arith)))
        (ground (
          arith,
          v.counted,
          v.small,
          clear_bits-le s.bitmap s.total_pages,
          clear_bits_pos s.bitmap p s.total_pages clear (omega arith),
        ))
        (ground (arith, v.small))
  alloc_outcome e (full all) h =
      none_left (λ q k. all q (omega arith) (omega arith))
        (v.counted
          ∙ clear_bits_zero s.bitmap s.total_pages (λ q k. all q (omega arith) (omega arith)))
        (ground arith) (ground arith)

  -- In a valid state, an allocation that is not made to fail takes the lowest clear page, which is
  -- above page 0, marks it, takes one from the counter and returns the page number times PAGE_SIZE;
  -- if no tracked page is clear it returns NULL and changes nothing.
  pub pmm_alloc_page-Allocated : s.fail_allocations ≡ 0 → Allocated s (pmm_alloc_page s)
  pmm_alloc_page-Allocated h =
      alloc_outcome refl (find_free-Found s.bitmap s.total_pages 0 v.bytes) h
