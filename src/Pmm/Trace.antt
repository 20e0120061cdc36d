-- ===== src/Pmm/Trace.antt =====
-- Sequences of calls of the physical memory manager, made-to-fail allocations, the bounds of the
-- bitmap, and frames beyond 4 GiB.
use neox.Base.{
  ℕ, zero, suc, ◌-◌, ◌*◌, ◌/◌, ◌^◌, ◌≤◌, ◌<◌, ◌≡◌, ◌≢◌, inl, inr, refl, sym, subst, true, false,
  Option, none, some, List, [], ◌∷◌, ◌==◌, page_size, Bool-cases, arith,
}
use neox.Base.Memory.{Bytes, AreBytes, is_set, set_index_in_bounds, clear_index_in_bounds}
use neox.Pmm.{
  Pmm, bitmap_set, bitmap_clear, pmm_alloc_page, pmm_free_page, pmm_fail_next_allocations,
}
use neox.Pmm.Bitmap.{is_set-bitmap_set}
use neox.Pmm.Inv.{IsValid}
use neox.Pmm.Alloc.{
  Allocated, page, none_left, Found, first, full, find_free-Found, pmm_alloc_page-Allocated,
}
use neox.Pmm.Free.{alloc_failing, pmm_alloc_page-IsValid, pmm_free_page-IsValid, pmm_free_page_lem}

-- A call of the interface in pmm.h.
pub data Call : Type 0 where
  alloc : Call
  free : ℕ → Call
  fail : ℕ → Call

-- The state after a call, and the address that an allocation returns.
unfoldable pub call : Pmm → Call → Pmm × Option ℕ
call s alloc = let (t, addr) = pmm_alloc_page s in (t, some addr)
call s (free addr) = (pmm_free_page s addr, none)
call s (fail count) = (pmm_fail_next_allocations s count, none)

-- The calls that do not free page `p`, and free no page 0.
abbrev pub Keeps : ℕ → Call → Type 0
Keeps p alloc = Unit {0}
Keeps p (free addr) = (addr / page_size ≢ p) × (page_size ≤ addr)
Keeps p (fail count) = Unit {0}

abbrev pub AllKeep : ℕ → List Call → Type 0
AllKeep p [] = Unit {0}
AllKeep p (c ∷ cs) = Keeps p c × AllKeep p cs

-- No allocation among the calls returns the address `a`.
abbrev pub NeverReturns : ℕ → Pmm → List Call → Type 0
NeverReturns a s [] = Unit {0}
NeverReturns a s (c ∷ cs) = ((call s c).1 ≢ some a) × NeverReturns a (call s c).0 cs

-- Page `p` is held: tracked and marked.
abbrev pub Held : ℕ → Pmm → Type 0
Held p s = (0 < p) × (p < s.total_pages) × (is_set s.bitmap p ≡ true)

Allocated-Held :
    (p : ℕ) (s t : Pmm) (addr : ℕ)
    → IsValid s
    → Held p s
    → Allocated s (t, addr)
    → Held p t × (addr ≢ p * page_size)
Allocated-Held p s t addr v held (page r lo hi clear before pos e ea) =
    (ground (arith, e, is_set-bitmap_set s.bitmap r p v.bytes), ground arith)
Allocated-Held p s t addr v held (none_left all empty e ea) =
    (subst (Held p) (sym e) held, omega arith)

alloc-Held :
    (p : ℕ) (s : Pmm)
    → IsValid s
    → Held p s
    → Held p (pmm_alloc_page s).0 × ((pmm_alloc_page s).1 ≢ p * page_size)
alloc-Held p s v held = elim (Bool-cases (s.fail_allocations == 0)) [
  | inl none_fail ↦
      Allocated-Held p s (pmm_alloc_page s).0 (pmm_alloc_page s).1 v held
        (pmm_alloc_page-Allocated s v (ground arith))
  | inr some_fail ↦ rw (alloc_failing s (ground arith)) (held, omega arith)
]

call-Held :
    (p : ℕ) (s : Pmm) (c : Call)
    → IsValid s
    → Held p s
    → Keeps p c
    → IsValid (call s c).0 × Held p (call s c).0 × ((call s c).1 ≢ some (p * page_size))
unfolding call pmm_fail_next_allocations
call-Held p s alloc v held keeps =
    (pmm_alloc_page-IsValid s v, (alloc-Held p s v held).0, λ e. (alloc-Held p s v held).1 (cc))
call-Held p s (free addr) v held keeps = (
  pmm_free_page-IsValid s addr v keeps.1,
  ground (arith, (pmm_free_page_lem s addr v).0, (pmm_free_page_lem s addr v).1 p),
  λ e. cc,
)
call-Held p s (fail count) v held keeps = (
  record {
    bytes = v.bytes;
    counted = v.counted;
    small = v.small;
    page_zero = v.page_zero;
    sized = v.sized;
  },
  held,
  λ e. cc,
)

-- From a valid state in which a tracked page above page 0 is marked, no sequence of allocations,
-- injected failures and frees of other pages (page 0 not among them) returns the address of that
-- page.
pub Held-NeverReturns :
    (p : ℕ) (s : Pmm) (cs : List Call)
    → IsValid s
    → Held p s
    → AllKeep p cs
    → NeverReturns (p * page_size) s cs
Held-NeverReturns p s [] v held keeps = tt
Held-NeverReturns p s (c ∷ cs) v held keeps =
    let after = call-Held p s c v held keeps.0 in
    (after.2, Held-NeverReturns p (call s c).0 cs after.0 after.1 keeps.1)

-- `n` allocations in a row.
unfoldable pub alloc_times : ℕ → Pmm → Pmm × List ℕ
alloc_times zero s = (s, [])
alloc_times (suc n) s =
    let (t, addr) = pmm_alloc_page s in let (u, rest) = alloc_times n t in (u, addr ∷ rest)

abbrev pub nulls : ℕ → List ℕ
nulls zero = []
nulls (suc n) = 0 ∷ nulls n

-- After pmm_fail_next_allocations(n), n allocations in a row return NULL and take nothing, and the
-- counter of failures is back at 0.
pub fail_next_allocations :
    (s : Pmm) (n : ℕ)
    → alloc_times n (pmm_fail_next_allocations s n) ≡ (record s { fail_allocations = 0 }, nulls n)
unfolding alloc_times pmm_fail_next_allocations pmm_alloc_page
fail_next_allocations s zero = refl
fail_next_allocations s (suc n) = ground (arith, fail_next_allocations s n)

alloc_in_bounds :
    (s t : Pmm) (addr j : ℕ)
    → IsValid s
    → s.bitmap_size ≤ j
    → Allocated s (t, addr)
    → t.bitmap j ≡ s.bitmap j
unfolding bitmap_set
alloc_in_bounds s t addr j v out (page r lo hi clear before pos e ea) =
    ground (arith, e, v.sized, set_index_in_bounds s.bitmap r s.bitmap_size j)
alloc_in_bounds s t addr j v out (none_left all empty e ea) = ground (arith, e)

-- In a valid state neither pmm_alloc_page nor pmm_free_page of any address writes a byte behind the
-- bitmap.
pub bitmap_in_bounds :
    (s : Pmm) (addr j : ℕ)
    → IsValid s
    → s.bitmap_size ≤ j
    → ((pmm_alloc_page s).0.bitmap j ≡ s.bitmap j) × ((pmm_free_page s addr).bitmap j ≡ s.bitmap j)
unfolding pmm_free_page bitmap_clear
bitmap_in_bounds s addr j v out = (
  elim (Bool-cases (s.fail_allocations == 0)) [
    | inl none_fail ↦
        alloc_in_bounds s (pmm_alloc_page s).0 (pmm_alloc_page s).1 j v out
          (pmm_alloc_page-Allocated s v (ground arith))
    | inr some_fail ↦ rw (alloc_failing s (ground arith))
  ],
  ground (arith, v.sized, clear_index_in_bounds s.bitmap (addr / page_size) s.bitmap_size j),
)

-- The scan stops at `p`, if `p` is the first clear bit.
find_free_first :
    (m : Bytes) (p n : ℕ) {o : Option ℕ}
    → is_set m p ≡ false
    → p < n
    → ((q : ℕ) → q < p → is_set m q ≡ true)
    → Found m 0 n o
    → o ≡ some p
find_free_first m p n clear lt before (first {p = r} lo hi clear' before') =
    ground (arith, before r, before' p)
find_free_first m p n clear lt before (full all) = ground (arith, all p)

-- Where the first clear bit belongs to a frame in the second 4 GiB, pmm_alloc_page returns the
-- truncated address, which is that of a frame that is already taken.
pub pmm_alloc_page_truncates :
    (s : Pmm) (p : ℕ)
    → AreBytes s.bitmap
    → s.fail_allocations ≡ 0
    → p < s.total_pages
    → 2 ^ 20 ≤ p
    → p < 2 ^ 21
    → is_set s.bitmap p ≡ false
    → ((q : ℕ) → q < p → is_set s.bitmap q ≡ true)
    → ((pmm_alloc_page s).1 ≡ (p - 2 ^ 20) * page_size) × (is_set s.bitmap (p - 2 ^ 20) ≡ true)
unfolding pmm_alloc_page
pmm_alloc_page_truncates s p v h lt big small clear before = (
  ground (
    arith,
    find_free_first s.bitmap p s.total_pages clear lt before
        (find_free-Found s.bitmap s.total_pages 0 v),
  ),
  before (p - 2 ^ 20) (omega arith),
)
