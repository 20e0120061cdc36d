-- ===== src/Paging/Created.antt =====
-- `paging_create_directory` of kernel/mm/paging.c: the kernel half is shared, the user half empty.
use neox.Base.{
  ℕ, ◌*◌, ◌^◌, ◌≤◌, ◌<◌, ◌≡◌, ◌≢◌, ap, sym, ◌∙◌, refl, false, ==_true, ==_false, page_size, arith,
}
use neox.Base.Memory.{is_set}
use neox.Base.Result.{Result, done}
use neox.Pmm.{Pmm}
use neox.Pmm.Alloc.{Allocated, pmm_alloc_page-Allocated}
use neox.Pmm.Init.{phys_to_virt}
use neox.Paging.{Paging, clear, directory_index, table_index, paging_get_table, paging_translate}
use neox.Paging.Map.{table_of, get_table_lem, translate_across, translate_no_table}
use neox.Paging.NewTable.{IsOwned, frame_apart, frame_some, clear_table, clear_there}
use neox.Paging.Directory.{
  copy, create_in, paging_create_directory, paging_copy_kernel_mappings, kernel_pde_start,
}

-- How `paging_create_directory` ends.
pub data Created (s : Paging) : Result (Paging × ℕ) → Type 0 where
  created :
      {t : Paging} {directory : ℕ}
      → directory ≢ 0
      → ((v : ℕ) → v < 0xC0000000 → paging_translate t directory v ≡ 0)
      → ((v : ℕ)
          → 0xC0000000 ≤ v
          → v < 2 ^ 32
          → paging_translate t directory v ≡ paging_translate s s.kernel_directory v)
      → ((v : ℕ)
          → paging_translate t s.kernel_directory v ≡ paging_translate s s.kernel_directory v)
      → Created s (done (t, directory))
  refused : s.pmm.free_pages ≡ 0 → Created s (done (s, 0))

module _ (m : ℕ → ℕ → ℕ) (source directory first t i : ℕ) where
  copy_apart : t ≢ directory → copy m source directory first t i ≡ m t i
  copy_apart h = ground (arith, ==_false t directory h)

  copy_below : i < first → copy m source directory first t i ≡ m t i
  copy_below h = ground arith

  copy_there : t ≡ directory → first ≤ i → i < 1024 → copy m source directory first t i ≡ m source i
  copy_there h low high = ground (arith, ==_true t directory h)

module _ (s : Paging) (p : ℕ) (owned : IsOwned s s.kernel_directory) (pos : 0 < p)
    (below : p < s.pmm.total_pages) (free : is_set s.pmm.bitmap p ≡ false) (pmm : Pmm) where
  abbrev kernel : ℕ
  kernel = s.kernel_directory

  abbrev fresh : ℕ
  fresh = phys_to_virt (p * page_size)

  abbrev copied : Paging
  copied = record s {
    pmm = pmm;
    entries = copy (clear s.entries fresh) kernel fresh kernel_pde_start;
  }

  apart : (t i : ℕ) → t ≢ fresh → copied.entries t i ≡ s.entries t i
  apart t i h =
      copy_apart (clear s.entries fresh) kernel fresh kernel_pde_start t i h
      ∙ clear_table s.entries fresh t i h

  kernel_apart : kernel ≢ fresh
  kernel_apart = frame_apart s kernel p owned pos below free kernel owned.directory

  table_apart : (i : ℕ) → paging_get_table s kernel i ≢ 0 → paging_get_table s kernel i ≢ fresh
  table_apart i some = frame_apart s kernel p owned pos below free _ (owned.tables i some)

  user_half : (i : ℕ) → i < 768 → paging_get_table copied fresh i ≡ 0
  unfolding table_of
  user_half i low =
      get_table_lem copied fresh i
      ∙ ap table_of (
          copy_below (clear s.entries fresh) kernel fresh kernel_pde_start fresh i low
          ∙ clear_there s.entries fresh i (omega arith))

  kernel_half :
      (i : ℕ) → 768 ≤ i → i < 1024 → paging_get_table copied fresh i ≡ paging_get_table s kernel i
  kernel_half i low high =
      get_table_lem copied fresh i
      ∙ ap table_of (
          copy_there (clear s.entries fresh) kernel fresh kernel_pde_start fresh i refl low high
          ∙ clear_table s.entries fresh kernel i kernel_apart)
      ∙ sym (get_table_lem s kernel i)

  kernel_kept : (i : ℕ) → paging_get_table copied kernel i ≡ paging_get_table s kernel i
  kernel_kept i =
      get_table_lem copied kernel i
      ∙ ap table_of (apart kernel i kernel_apart)
      ∙ sym (get_table_lem s kernel i)

  copied-Created : Created s (done (copied, fresh))
  copied-Created =
      created (frame_some s kernel p owned pos below free)
        (λ v low. translate_no_table copied fresh v (user_half (directory_index v) (omega arith)))
        (λ v low high.
          translate_across s copied kernel fresh v
            (kernel_half (directory_index v) (omega arith) (omega arith))
            (λ some. apart _ (table_index v) (table_apart (directory_index v) some)))
        (λ v.
          translate_across s copied kernel kernel v (kernel_kept (directory_index v))
            (λ some. apart _ (table_index v) (table_apart (directory_index v) some)))

module _ (s : Paging) (owned : IsOwned s s.kernel_directory) (some : s.kernel_directory ≢ 0) where
  create_none :
      (pmm : Pmm) (addr : ℕ) → pmm ≡ s.pmm → addr ≡ 0 → create_in s (pmm, addr) ≡ done (s, 0)
  unfolding create_in
  create_none pmm addr same null =
      rw (==_true addr 0 null) (ap (λ q. done (record s { pmm = q }, 0)) same)

  create_some :
      (pmm : Pmm) (addr : ℕ)
      → addr ≢ 0
      → phys_to_virt addr ≢ 0
      → create_in s (pmm, addr)
        ≡ done (
          record s {
            pmm = pmm;
            entries =
                copy
                  (clear s.entries (phys_to_virt addr))
                  s.kernel_directory
                  (phys_to_virt addr)
                  kernel_pde_start;
          },
          phys_to_virt addr,
        )
  unfolding create_in paging_copy_kernel_mappings
  create_some pmm addr nonzero there =
      rw
        (
          ==_false addr 0 nonzero,
          ==_false (phys_to_virt addr) 0 there,
          ==_false s.kernel_directory 0 some,
        )
        refl

  create-Created : {r : Pmm × ℕ} → Allocated s.pmm r → Created s (create_in s r)
  create-Created (Allocated.page p pos below free before count {t} {addr} e at) =
      rw
        (
          at,
          create_some t (p * page_size) (omega arith)
              (frame_some s s.kernel_directory p owned pos below free),
        )
        (copied-Created s p owned pos below free t)
  create-Created (Allocated.none_left full count {t} {addr} e null) =
      rw (create_none t addr e null) (refused count)

  -- paging_create_directory, with a kernel directory that is not NULL and whose frames are taken
  -- and lie in the first 16 MiB, a valid physical memory manager of at most 16 MiB and no injected
  -- failure: either no frame was free, and NULL is returned in the same state; or a directory is
  -- returned in which every user address translates to 0 and every kernel address as in the kernel
  -- directory, which translates every address as before.
  pub paging_create_directory-Created :
      s.pmm.fail_allocations ≡ 0 → Created s (paging_create_directory s)
  unfolding paging_create_directory
  paging_create_directory-Created reliable =
      create-Created (pmm_alloc_page-Allocated s.pmm owned.valid reliable)
