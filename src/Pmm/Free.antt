-- ===== src/Pmm/Free.antt =====
-- What `pmm_alloc_page` and `pmm_free_page` keep, and `pmm_free_page` against its page.
use neox.Base.{
  ℕ, ◌+◌, ◌-◌, ◌*◌, ◌/◌, ◌≤◌, ◌<◌, ◌≡◌, ◌≢◌, inl, inr, sym, ap, subst, ◌↔◌, Bool, false, not, ◌&&◌,
  ltb, ◌==◌, if◌then◌else◌, page_size, Bool-cases, arith,
}
use neox.Base.Memory.{is_set}
use neox.Pmm.{Pmm, bitmap_set, bitmap_clear, pmm_alloc_page, pmm_free_page}
use neox.Pmm.Bitmap.{
  bitmap_test_lem, is_set-bitmap_set, is_set-bitmap_clear, bitmap_set-AreBytes,
  bitmap_clear-AreBytes,
}
use neox.Pmm.Inv.{IsValid, clear_bits-le, clear_bits-bitmap_set, clear_bits-bitmap_clear}
use neox.Pmm.Alloc.{Allocated, page, none_left, pmm_alloc_page-Allocated}

pub set-IsValid :
    (s : Pmm) (p : ℕ)
    → IsValid s
    → p < s.total_pages
    → is_set s.bitmap p ≡ false
    → 0 < s.free_pages
    → IsValid (record s { bitmap = bitmap_set s.bitmap p; free_pages = s.free_pages - 1 })
set-IsValid s p v hi clear pos = record {
  bytes = bitmap_set-AreBytes s.bitmap p v.bytes;
  counted = ground (arith, clear_bits-bitmap_set s.bitmap p s.total_pages v.bytes, v.counted);
  small = v.small;
  page_zero = ground (arith, is_set-bitmap_set s.bitmap p 0 v.bytes, v.page_zero);
  sized = v.sized;
}

fail_counter-IsValid : (s : Pmm) (n : ℕ) → IsValid s → IsValid (record s { fail_allocations = n })
fail_counter-IsValid s n v = record {
  bytes = v.bytes;
  counted = v.counted;
  small = v.small;
  page_zero = v.page_zero;
  sized = v.sized;
}

Allocated-IsValid : (s t : Pmm) (addr : ℕ) → IsValid s → Allocated s (t, addr) → IsValid t
Allocated-IsValid s t addr v (page p lo hi clear before pos e ea) =
    subst IsValid (sym e) (set-IsValid s p v hi clear pos)
Allocated-IsValid s t addr v (none_left all empty e ea) = subst IsValid (sym e) v

pub alloc_failing :
    (s : Pmm)
    → s.fail_allocations ≢ 0
    → pmm_alloc_page s ≡ (record s { fail_allocations = s.fail_allocations - 1 }, 0)
unfolding pmm_alloc_page
alloc_failing s h = ground arith

-- pmm_alloc_page keeps the invariant, on the branch of an injected failure too.
pub pmm_alloc_page-IsValid : (s : Pmm) → IsValid s → IsValid (pmm_alloc_page s).0
pmm_alloc_page-IsValid s v = elim (Bool-cases (s.fail_allocations == 0)) [
  | inl none_fail ↦
      Allocated-IsValid s (pmm_alloc_page s).0 (pmm_alloc_page s).1 v
        (pmm_alloc_page-Allocated s v (ground arith))
  | inr some_fail ↦
      rw (alloc_failing s (ground arith)) (fail_counter-IsValid s (s.fail_allocations - 1) v)
]

-- Whether `pmm_free_page` of an address has a page to free: one that is tracked and taken.
abbrev pub frees : Pmm → ℕ → Bool
frees s addr = ltb (addr / page_size) s.total_pages && is_set s.bitmap (addr / page_size)

-- In a valid state, pmm_free_page of any address clears the bit of its page and counts it if the
-- page is tracked and taken, changes no other bit, and leaves everything else as it was.
pub pmm_free_page_lem :
    (s : Pmm) (addr : ℕ)
    → IsValid s
    → (pmm_free_page s addr ≡ record s {
      bitmap = (if frees s addr then bitmap_clear s.bitmap (addr / page_size) else s.bitmap);
      free_pages = s.free_pages + (if frees s addr then 1 else 0);
    })
      × ((q : ℕ)
          → is_set (pmm_free_page s addr).bitmap q
            ≡ (is_set s.bitmap q && not (frees s addr && (addr / page_size == q))))
unfolding pmm_free_page
pmm_free_page_lem s addr v = (
  ground (
    arith,
    bitmap_test_lem s.bitmap (addr / page_size) v.bytes,
    v.counted,
    v.small,
    clear_bits-le s.bitmap s.total_pages,
  ),
  λ q. ground (
    arith,
    bitmap_test_lem s.bitmap (addr / page_size) v.bytes,
    is_set-bitmap_clear s.bitmap (addr / page_size) q v.bytes,
  ),
)

-- pmm_free_page of any address from PAGE_SIZE on keeps the invariant, for pages that are free
-- already or not tracked too.
pub pmm_free_page-IsValid :
    (s : Pmm) (addr : ℕ) → IsValid s → page_size ≤ addr → IsValid (pmm_free_page s addr)
unfolding pmm_free_page
pmm_free_page-IsValid s addr v nonzero = record {
  bytes =
      λ j. ground (arith, v.bytes j, bitmap_clear-AreBytes s.bitmap (addr / page_size) v.bytes j);
  counted = ground (
    arith,
    bitmap_test_lem s.bitmap (addr / page_size) v.bytes,
    v.counted,
    v.small,
    clear_bits-le s.bitmap s.total_pages,
    clear_bits-bitmap_clear s.bitmap (addr / page_size) s.total_pages v.bytes,
  );
  small = ground (arith, v.small);
  page_zero =
      ground (arith, v.page_zero, is_set-bitmap_clear s.bitmap (addr / page_size) 0 v.bytes);
  sized = ground (arith, v.sized);
}

-- In a valid state and with no injected failure, pmm_alloc_page returns NULL exactly when the
-- counter of free pages is 0.
pub pmm_alloc_page-null :
    (s : Pmm) → IsValid s → s.fail_allocations ≡ 0 → ((pmm_alloc_page s).1 ≡ 0) ↔ (s.free_pages ≡ 0)
pmm_alloc_page-null s v h = of_outcome (pmm_alloc_page-Allocated s v h)
  where
    of_outcome : {t : Pmm} {addr : ℕ} → Allocated s (t, addr) → (addr ≡ 0) ↔ (s.free_pages ≡ 0)
    of_outcome (page p lo hi clear before pos e ea) =
        (λ z. absurd (omega arith), λ z. absurd (omega arith))
    of_outcome (none_left all empty e ea) = (λ z. empty, λ z. ea)

-- The state after an allocation, freed again.
Restored : Pmm → Pmm × ℕ → Type 0
Restored s (t, addr) =
    (addr ≢ 0)
    × ((pmm_free_page t addr).free_pages ≡ s.free_pages)
    × ((q : ℕ) → is_set (pmm_free_page t addr).bitmap q ≡ is_set s.bitmap q)

free_back_page :
    (s : Pmm) (p addr : ℕ)
    → IsValid s
    → 0 < p
    → p < s.total_pages
    → is_set s.bitmap p ≡ false
    → 0 < s.free_pages
    → addr ≡ p * page_size
    → Restored s (record s { bitmap = bitmap_set s.bitmap p; free_pages = s.free_pages - 1 }, addr)
unfolding Restored
free_back_page s p addr v lo hi clear pos ea = (
  omega arith,
  ground (
    arith,
    at_page,
    ap (λ (u : Pmm). u.free_pages) freed.0,
    is_set-bitmap_set s.bitmap p p v.bytes,
  ),
  λ q. ground (
    arith,
    at_page,
    freed.1 q,
    is_set-bitmap_set s.bitmap p q v.bytes,
    is_set-bitmap_set s.bitmap p p v.bytes,
  ),
)
  where
    t : Pmm
    t = record s { bitmap = bitmap_set s.bitmap p; free_pages = s.free_pages - 1 }

    at_page : addr / page_size ≡ p
    at_page = omega arith

    freed :
        (pmm_free_page t addr ≡ record t {
          bitmap = (if frees t addr then bitmap_clear t.bitmap (addr / page_size) else t.bitmap);
          free_pages = t.free_pages + (if frees t addr then 1 else 0);
        })
        × ((q : ℕ)
            → is_set (pmm_free_page t addr).bitmap q
              ≡ (is_set t.bitmap q && not (frees t addr && (addr / page_size == q))))
    freed = pmm_free_page_lem t addr (set-IsValid s p v hi clear pos)

-- In a valid state with a free page and no injected failure, pmm_alloc_page returns an address
-- other than NULL, and pmm_free_page of it brings back the counter and every bit.
pub free-alloc :
    (s : Pmm)
    → IsValid s
    → s.fail_allocations ≡ 0
    → 0 < s.free_pages
    → let (t, addr) = pmm_alloc_page s in
      (addr ≢ 0)
      × ((pmm_free_page t addr).free_pages ≡ s.free_pages)
      × ((q : ℕ) → is_set (pmm_free_page t addr).bitmap q ≡ is_set s.bitmap q)
unfolding Restored
free-alloc s v h pos = of_outcome (pmm_alloc_page-Allocated s v h)
  where
    of_outcome : {t : Pmm} {addr : ℕ} → Allocated s (t, addr) → Restored s (t, addr)
    of_outcome {t} {addr} (page p lo hi clear before some_free e ea) =
        subst (λ u. Restored s (u, addr)) (sym e) (free_back_page s p addr v lo hi clear pos ea)
    of_outcome (none_left all empty e ea) = absurd (omega arith)
