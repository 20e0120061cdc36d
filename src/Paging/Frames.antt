-- ===== src/Paging/Frames.antt =====
-- One page of kernel/mm/vmm.c, on every branch.
use neox.Base.{
  ℕ, ◌-◌, ◌*◌, ◌/◌, ◌^◌, ◌<◌, ◌≡◌, ◌≢◌, inl, inr, ap, sym, subst, ◌∙◌, refl, true, false, ==_true,
  ==_false, if◌then◌else◌, page_size, arith,
}
use neox.Base.Result.{Result, done, ◌>>=◌}
use neox.Base.Memory.{is_set}
use neox.Pmm.{Pmm, bitmap_set, pmm_alloc_page}
use neox.Pmm.Bitmap.{is_set-bitmap_set}
use neox.Pmm.Inv.{clear_bits_zero}
use neox.Pmm.Alloc.{Allocated, pmm_alloc_page-Allocated}
use neox.Pmm.Free.{set-IsValid}
use neox.Pmm.Init.{virt_to_phys}
use neox.Paging.{Paging, directory_index, paging_get_table, paging_map, paging_translate}
use neox.Paging.Map.{same_cases, IsAlone, Mapped}
use neox.Paging.NewTable.{IsTaken, IsOwned, Outcome, paging_map-Outcome}
use neox.Paging.Virtual.{
  page_at, any_mapped, map_frame, map_from, vmm_map_pages, vmm_alloc_pages, vmm_alloc_page,
  vmm_unmap_pages,
}

-- The state with the frame `p` taken.
abbrev pub taken : Paging → ℕ → Paging
taken s p = record s {
  pmm = record s.pmm { bitmap = bitmap_set s.pmm.bitmap p; free_pages = s.pmm.free_pages - 1 };
}

-- How `vmm_alloc_page` ends. In the last case the page table takes no frame, since the page's frame
-- was the last: the address is returned all the same, and the frame is lost.
pub data PageOutcome (s : Paging) (virt : ℕ) : Result (Paging × ℕ) → Type 0 where
  already : paging_translate s s.kernel_directory virt ≢ 0 → PageOutcome s virt (done (s, 0))
  no_frame :
      paging_translate s s.kernel_directory virt ≡ 0
      → s.pmm.free_pages ≡ 0
      → PageOutcome s virt (done (s, 0))
  page :
      (p : ℕ) {t : Paging}
      → 0 < p
      → p < s.pmm.total_pages
      → is_set s.pmm.bitmap p ≡ false
      → Mapped s s.kernel_directory virt (p * page_size) t
      → PageOutcome s virt (done (t, virt))
  lost :
      (p : ℕ)
      → s.pmm.free_pages ≡ 1
      → paging_translate (taken s p) s.kernel_directory virt ≡ 0
      → PageOutcome s virt (done (taken s p, virt))

module _ (s : Paging) (virt : ℕ) (small : virt < 2 ^ 32) where
  first_page : page_at virt 0 ≡ virt
  first_page = omega arith

  alloc_mapped :
      paging_translate s s.kernel_directory virt ≢ 0 → vmm_alloc_page s virt ≡ done (s, 0)
  unfolding vmm_alloc_page vmm_alloc_pages vmm_map_pages any_mapped
  alloc_mapped h = rw (first_page, ==_false (paging_translate s s.kernel_directory virt) 0 h) refl

  alloc_unmapped :
      paging_translate s s.kernel_directory virt ≡ 0
      → vmm_alloc_page s virt ≡ (
          map_frame s virt 0 (λ t. done (t, true)) (pmm_alloc_page s.pmm) >>= λ (t, mapped).
          done (t, if mapped then virt else 0))
  unfolding vmm_alloc_page vmm_alloc_pages vmm_map_pages any_mapped map_from
  alloc_unmapped h = rw (first_page, h) refl

  frame_none :
      (pmm : Pmm) (addr : ℕ)
      → pmm ≡ s.pmm
      → addr ≡ 0
      → map_frame s virt 0 (λ t. done (t, true)) (pmm, addr) ≡ done (s, false)
  unfolding map_frame vmm_unmap_pages
  frame_none pmm addr same null =
      rw (==_true addr 0 null) (ap (λ q. done (record s { pmm = q }, false)) same)

  frame_some :
      (pmm : Pmm) (addr : ℕ)
      → addr ≢ 0
      → map_frame s virt 0 (λ t. done (t, true)) (pmm, addr)
        ≡ done (paging_map (record s { pmm = pmm }) s.kernel_directory virt addr 3, true)
  unfolding map_frame
  frame_some pmm addr some = rw (==_false addr 0 some, first_page) refl

-- A free frame is taken, and the directory stands as it did.
module _ (s : Paging) (d p : ℕ) (owned : IsOwned s d) (below : p < s.pmm.total_pages)
    (free : is_set s.pmm.bitmap p ≡ false) (count : 0 < s.pmm.free_pages) where
  taken_table : (i : ℕ) → paging_get_table (taken s p) d i ≡ paging_get_table s d i
  unfolding paging_get_table
  taken_table i = refl

  taken_translates : (v : ℕ) → paging_translate (taken s p) d v ≡ paging_translate s d v
  unfolding paging_translate paging_get_table
  taken_translates v = refl

  still_taken : (t : ℕ) → IsTaken s.pmm t → IsTaken (taken s p).pmm t
  still_taken t h =
      is_set-bitmap_set s.pmm.bitmap p (virt_to_phys t / page_size) owned.valid.bytes
      ∙ ground (arith, h)

  taken-IsOwned : IsOwned (taken s p) d
  unfolding paging_get_table
  taken-IsOwned = record {
    valid = set-IsValid s.pmm p owned.valid below free count;
    reach = owned.reach;
    reached = owned.reached;
    tables_reached = owned.tables_reached;
    directory = still_taken d owned.directory;
    tables = λ i some. still_taken _ (owned.tables i (λ none. some (taken_table i ∙ none)));
  }

  taken-IsAlone : (i : ℕ) → IsAlone s d i → IsAlone (taken s p) d i
  unfolding paging_get_table
  taken-IsAlone i alone = record {
    apart = alone.apart;
    unshared = λ j some same. alone.unshared j some same;
  }

  Mapped-taken :
      (virt phys : ℕ) (t : Paging) → Mapped (taken s p) d virt phys t → Mapped s d virt phys t
  Mapped-taken virt phys t m = record {
    here = m.here;
    elsewhere = λ v other window.
        m.elsewhere v other (λ h. window (sym (taken_table _) ∙ h)) ∙ taken_translates v;
  }

module _ (s : Paging) (virt : ℕ) (small : virt < 2 ^ 32) (owned : IsOwned s s.kernel_directory)
    (alone : IsAlone s s.kernel_directory (directory_index virt))
    (unmapped : paging_translate s s.kernel_directory virt ≡ 0) where
  mapped-Outcome :
      (p : ℕ)
      → 0 < p
      → p < s.pmm.total_pages
      → is_set s.pmm.bitmap p ≡ false
      → 0 < s.pmm.free_pages
      → {t : Paging} → Outcome (taken s p) s.kernel_directory virt (p * page_size) t
      → PageOutcome s virt (done (t, virt))
  mapped-Outcome p pos below free count (Outcome.mapped m) =
      page p pos below free
        (Mapped-taken s s.kernel_directory p owned below free count virt (p * page_size) _ m)
  mapped-Outcome p pos below free count (Outcome.refused missing full e) =
      let after = taken-IsOwned s s.kernel_directory p owned below free count in
      let none = clear_bits_zero (taken s p).pmm.bitmap s.pmm.total_pages full in
      subst (λ x. PageOutcome s virt (done (x, virt))) (sym e)
        (lost p (omega (arith, after.valid.counted, none))
          (taken_translates s s.kernel_directory p owned below free count virt ∙ unmapped))

  frame-PageOutcome :
      s.pmm.fail_allocations ≡ 0
      → {r : Pmm × ℕ} → Allocated s.pmm r
      → PageOutcome s virt (
          map_frame s virt 0 (λ t. done (t, true)) r >>= λ (t, ok).
          done (t, if ok then virt else 0))
  frame-PageOutcome reliable (Allocated.page p pos below free before count {t} {addr} e at) =
      let after = taken-IsOwned s s.kernel_directory p owned below free count in
      let still = taken-IsAlone s s.kernel_directory p owned below free count _ alone in
      rw (e, at, frame_some s virt small _ (p * page_size) (omega arith))
        (mapped-Outcome p pos below free count (
          paging_map-Outcome (taken s p) s.kernel_directory virt (p * page_size) 3 after still refl
            (omega arith) (omega (arith, owned.reach)) reliable))
  frame-PageOutcome reliable (Allocated.none_left full count {t} {addr} e null) =
      rw (frame_none s virt small t addr e null) (no_frame unmapped count)

-- vmm_alloc_page at a 32-bit address, with a kernel directory whose frames are taken and lie in the
-- first 16 MiB and whose table at the index of the address is no other's, a valid physical memory
-- manager of at most 16 MiB and no injected failure, ends in one of four ways: the page was mapped
-- already, and NULL is returned in the same state; no frame was free, and likewise; the address is
-- returned, it translates to a frame that was free, and every address of another page, outside the
-- window on the directory itself, translates as before; or the address is returned though it
-- translates to 0, where the last frame was taken for it.
pub vmm_alloc_page-PageOutcome :
    (s : Paging) (virt : ℕ)
    → virt < 2 ^ 32
    → IsOwned s s.kernel_directory
    → IsAlone s s.kernel_directory (directory_index virt)
    → s.pmm.fail_allocations ≡ 0
    → PageOutcome s virt (vmm_alloc_page s virt)
vmm_alloc_page-PageOutcome s virt small owned alone reliable =
    elim (same_cases (paging_translate s s.kernel_directory virt) 0) [
      | inl unmapped ↦ rw (alloc_unmapped s virt small unmapped) (
          frame-PageOutcome s virt small owned alone unmapped reliable
            (pmm_alloc_page-Allocated s.pmm owned.valid reliable))
      | inr some ↦ rw (alloc_mapped s virt small some) (already some)
    ]
