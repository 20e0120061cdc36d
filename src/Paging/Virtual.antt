-- ===== src/Paging/Virtual.antt =====
-- kernel/mm/vmm.c, the virtual memory manager: it maps fresh frames at pages of the kernel directory.
use neox.Base.{ℕ, zero, suc, ◌+◌, ◌*◌, Bool, true, false, not, ◌==◌, if◌then◌else◌, u32, page_size}
use neox.Base.Result.{Result, done, ◌>>=◌}
use neox.Pmm.{Pmm, pmm_alloc_page, pmm_free_page}
use neox.Vam.{Vam, vam_alloc_pages, vam_free_pages}
use neox.Paging.{Paging, frame, paging_map, paging_unmap, paging_translate}

-- `virt + i * PAGE_SIZE`
abbrev pub page_at : ℕ → ℕ → ℕ
page_at virt i = u32 (virt + i * page_size)

-- One round of `vmm_unmap_pages`; the frame is that of the address, without its low 12 bits.
unfoldable pub unmap_page : Paging → ℕ → Result Paging
unmap_page s virt =
    let phys = paging_translate s s.kernel_directory virt in
    if phys == 0
    then done s
    else (paging_unmap s s.kernel_directory virt >>= λ t.
        done (record t { pmm = pmm_free_page t.pmm (frame phys) }))

-- The state after `count` rounds.
unfoldable pub vmm_unmap_pages : Paging → ℕ → ℕ → Result Paging
vmm_unmap_pages s virt zero = done s
vmm_unmap_pages s virt (suc n) = vmm_unmap_pages s virt n >>= λ t. unmap_page t (page_at virt n)

-- Whether one of the first `n` pages is mapped: the first loop of `vmm_map_pages`.
unfoldable pub any_mapped : Paging → ℕ → ℕ → Bool
any_mapped s virt zero = false
any_mapped s virt (suc n) =
    let rest = any_mapped s virt n in
    if not (paging_translate s s.kernel_directory (page_at virt n) == 0) then true else rest

-- A round of the second loop of `vmm_map_pages` with the frame that was allocated: it goes on, or it
-- takes back the `i` pages before. `PAGE_PRESENT | PAGE_WRITABLE` is 3.
unfoldable pub map_frame :
    Paging → ℕ → ℕ → (Paging → Result (Paging × Bool)) → Pmm × ℕ → Result (Paging × Bool)
map_frame s virt i next (pmm, phys) =
    let t = record s { pmm = pmm } in
    if phys == 0
    then (vmm_unmap_pages t virt i >>= λ u. done (u, false))
    else next (paging_map t t.kernel_directory (page_at virt i) phys 3)

-- The second loop, from round `i` on with `n` rounds left.
unfoldable pub map_from : Paging → ℕ → ℕ → ℕ → Result (Paging × Bool)
map_from s virt zero i = done (s, true)
map_from s virt (suc n) i =
    map_frame s virt i (λ t. map_from t virt n (i + 1)) (pmm_alloc_page s.pmm)

unfoldable pub vmm_map_pages : Paging → ℕ → ℕ → Result (Paging × Bool)
vmm_map_pages s virt count =
    if any_mapped s virt count then done (s, false) else map_from s virt count 0

-- The new state and the address, or NULL.
unfoldable pub vmm_alloc_pages : Paging → ℕ → ℕ → Result (Paging × ℕ)
vmm_alloc_pages s virt count =
    if count == 0
    then done (s, 0)
    else (vmm_map_pages s virt count >>= λ (t, mapped). done (t, if mapped then virt else 0))

unfoldable pub vmm_alloc_page : Paging → ℕ → Result (Paging × ℕ)
vmm_alloc_page s virt = vmm_alloc_pages s virt 1

unfoldable pub vmm_free_pages : Paging → ℕ → ℕ → Result Paging
vmm_free_pages s virt count = vmm_unmap_pages s virt count

unfoldable pub vmm_free_page : Paging → ℕ → Result Paging
vmm_free_page s virt = vmm_free_pages s virt 1

-- `vmm_alloc_pages_any` with the range that `vam_alloc_pages` returns.
unfoldable pub alloc_in : Paging → ℕ → Vam × ℕ → Result (Paging × Vam × ℕ)
alloc_in s count (vam, virt) =
    if virt == 0
    then done (s, vam, 0)
    else (vmm_map_pages s virt count >>= λ (t, mapped).
        done (t, if mapped then vam else vam_free_pages vam virt count, if mapped then virt else 0))

unfoldable pub vmm_alloc_pages_any : Paging → Vam → ℕ → Result (Paging × Vam × ℕ)
vmm_alloc_pages_any s vam count =
    if count == 0 then done (s, vam, 0) else alloc_in s count (vam_alloc_pages vam count)
