-- ===== src/Vam/Tests.antt =====
-- The theorems on the virtual address manager at small states.
use neox.Base.{ℕ, ◌+◌, ◌%◌, ◌≡◌, refl, true, false, some, ◌==◌, if◌then◌else◌, arith, within}
use neox.Base.Bits.{masked_bit, masked_bit-zero}
use neox.Base.Memory.{Bytes, AreBytes, is_set}
use neox.Layout.{vam_total_pages}
use neox.Vam.{Vam, vam_alloc_pages, find_run, bitmap_range_free, bitmap_test, vam_index_to_addr}
use neox.Vam.Pages.{Allocated, vam_alloc_pages-Allocated}

abbrev zeros : Bytes
zeros j = 0

zeros-AreBytes : AreBytes zeros
zeros-AreBytes j = omega arith

-- Pages 0 and 2 and stack slot 0 are occupied.
abbrev some_pages : Vam
some_pages = record {
  bitmap = λ j. if j == 0 then 5 else 0;
  kernel_stack_bitmap = λ j. if j == 0 then 1 else 0;
}

some_pages-AreBytes : AreBytes some_pages.bitmap
some_pages-AreBytes j = ground arith

some_slots-AreBytes : AreBytes some_pages.kernel_stack_bitmap
some_slots-AreBytes j = ground arith

-- Two pages fit behind page 2, one fits before it.
alloc_two : find_run some_pages.bitmap 2 10 0 ≡ some 3
unfolding find_run bitmap_range_free bitmap_test masked_bit
alloc_two = refl

alloc_one : find_run some_pages.bitmap 1 10 0 ≡ some 1
unfolding find_run bitmap_range_free bitmap_test masked_bit
alloc_one = refl

vam_alloc_pages-Allocated_example : Allocated some_pages 2 (vam_alloc_pages some_pages 2)
vam_alloc_pages-Allocated_example =
    vam_alloc_pages-Allocated some_pages 2 (omega arith) (omega arith)

granted : (vam_alloc_pages some_pages 2).1 ≡ 0xC0003000
unfolding vam_alloc_pages find_run bitmap_range_free bitmap_test masked_bit vam_index_to_addr
granted = refl

abbrev no_pages : Vam
no_pages = record { bitmap = zeros; kernel_stack_bitmap = zeros }

zeros_clear : (q : ℕ) → within 0 (vam_total_pages + 2) q ≡ true → is_set zeros q ≡ false
unfolding is_set
zeros_clear q h = ground (arith, masked_bit-zero (q % 8) (omega arith))
