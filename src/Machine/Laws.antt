-- ===== src/Machine/Laws.antt =====
-- What the clients of a machine rely on, and the heap of Heap.antt as an instance.
use neox.Base.{
  ℕ, ◌+◌, ◌-◌, ◌^◌, ◌≤◌, ◌<◌, ◌≡◌, ◌≢◌, ◌↔◌, ◌⊎◌, inl, inr, refl, sym, subst, List, [], ◌∷◌, ◌++◌,
  arith,
}
use neox.Base.Result.{Result, done}
use neox.Layout.{kernel_heap_start}
use neox.Strings.{memcpy}
use neox.Pmm.{pmm_alloc_page, pmm_free_page}
use neox.Pmm.Init.{kernel_phys_offset}
use neox.Paging.{Paging, paging_map, paging_unmap}
use neox.Heap.{Pages, Heap, header_size}
use neox.Heap.Chain.{used}
use neox.Heap.Expand.{IsValid}
use neox.Heap.Alloc.{Allocated, kmalloc-Allocated}
use neox.Heap.Live.{Ascending, Ascending-le, NotLive, NotLive-below, used-Ascending}
use neox.Heap.Free.{Freed, kfree-Freed}
use neox.Machine.{Machine, Parts, heap_machine}

-- What the clients do to frames and tables: they take frames of the physical memory manager and give
-- them back, and map and unmap pages of user mode, below the kernel and so apart from the pages of the
-- heap.
pub data UserChange (s : Paging) : Paging → Type 0 where
  unchanged : UserChange s s
  takes : {p : Paging} → UserChange s p → UserChange s (record p { pmm = (pmm_alloc_page p.pmm).0 })
  gives :
      {p : Paging} (page : ℕ)
      → UserChange s p
      → UserChange s (record p { pmm = pmm_free_page p.pmm page })
  maps :
      {p : Paging} (directory virt phys flags : ℕ)
      → virt < kernel_phys_offset
      → UserChange s p
      → UserChange s (paging_map p directory virt phys flags)
  unmaps :
      {p q : Paging} (directory virt : ℕ)
      → virt < kernel_phys_offset
      → paging_unmap p directory virt ≡ done q
      → UserChange s p
      → UserChange s q

module _ (machine : Machine) where
  open machine use {State, paging, set_paging, memory, set_memory, kmalloc, kfree}

  -- `kmalloc` returns in a sound state, and so does `kfree` of a pointer in use. The heap, whose
  -- headers stand in memory behind the tables, survives changes of pages of user mode and copies
  -- into a block in use that has room for them (`Room`). Nothing is said of other changes: a page
  -- that replaces one of the heap destroys it.
  pub record Laws : Type 1 where
    pub IsSound : State → Type 0
    pub InUse : State → ℕ → Type 0
    pub paging_set : (st : State) (p : Paging) → paging (set_paging st p) ≡ p
    pub Room : State → ℕ → ℕ → Type 0
    pub set_paging-IsSound :
        (st : State) (p : Paging)
        → UserChange (paging st) p
        → IsSound st
        → IsSound (set_paging st p)
    pub set_paging-InUse :
        (st : State) (p : Paging) (q : ℕ)
        → UserChange (paging st) p
        → InUse (set_paging st p) q ↔ InUse st q
    pub copy-IsSound :
        (st : State) (ptr source n : ℕ)
        → Room st ptr n
        → IsSound st
        → IsSound (set_memory st (memcpy (memory st) ptr source n))
    pub copy-InUse :
        (st : State) (ptr source n q : ℕ)
        → Room st ptr n
        → InUse (set_memory st (memcpy (memory st) ptr source n)) q ↔ InUse st q
    pub kmalloc_returns :
        (st : State) (size : ℕ)
        → IsSound st
        → size < 2 ^ 32
        → (t : State) × (ptr : ℕ) × (kmalloc st size ≡ done (t, ptr))
          × IsSound t
          × (ptr ≢ 0 → ¬ InUse st ptr)
          × ((q : ℕ) → InUse t q ↔ (InUse st q ⊎ ((ptr ≢ 0) × (q ≡ ptr))))
          × (ptr ≢ 0 → Room t ptr size)
    pub kfree_returns :
        (st : State) (ptr : ℕ)
        → IsSound st
        → InUse st ptr
        → (t : State) × (kfree st ptr ≡ done t)
          × IsSound t
          × ((q : ℕ) → InUse t q ↔ (InUse st q × (q ≢ ptr)))

-- A block of the list has its payload at `q`.
abbrev pub IsPayload : ℕ → List (ℕ × ℕ) → Type 0
IsPayload q [] = ⊥
IsPayload q ((a, n) ∷ blocks) = (a + header_size ≡ q) ⊎ IsPayload q blocks

-- A block of the list has its payload at `q` and room for `size` bytes.
abbrev pub HasRoom : ℕ → ℕ → List (ℕ × ℕ) → Type 0
HasRoom q size [] = ⊥
HasRoom q size ((a, n) ∷ blocks) = ((a + header_size ≡ q) × (size ≤ n)) ⊎ HasRoom q size blocks

HasRoom-between :
    (q size a n : ℕ) (before after : List (ℕ × ℕ))
    → a + header_size ≡ q
    → size ≤ n
    → HasRoom q size (before ++ (a, n) ∷ after)
HasRoom-between q size a n [] after at room = inl (at, room)
HasRoom-between q size a n ((b, m) ∷ before) after at room =
    inr (HasRoom-between q size a n before after at room)

IsPayload-NotLive : (q : ℕ) (blocks : List (ℕ × ℕ)) → IsPayload q blocks → NotLive q blocks → ⊥
IsPayload-NotLive q [] i dead = i
IsPayload-NotLive q ((a, n) ∷ blocks) (inl here) dead = dead.0 here
IsPayload-NotLive q ((a, n) ∷ blocks) (inr there) dead = IsPayload-NotLive q blocks there dead.1

IsPayload-le : (q : ℕ) (blocks : List (ℕ × ℕ)) → IsPayload q blocks → header_size ≤ q
IsPayload-le q [] i = absurd i
IsPayload-le q ((a, n) ∷ blocks) (inl here) = omega arith
IsPayload-le q ((a, n) ∷ blocks) (inr there) = IsPayload-le q blocks there

-- One more alternative on both sides.
beside : {A B C D : Type 0} → B ↔ (C ⊎ D) → (A ⊎ B) ↔ ((A ⊎ C) ⊎ D)
beside {A} {B} {C} {D} e = (split, join)
  where
    split : A ⊎ B → (A ⊎ C) ⊎ D
    split (inl a) = inl (inl a)
    split (inr b) = elim (e.0 b) [ inl c ↦ inl (inr c) | inr d ↦ inr d ]

    join : (A ⊎ C) ⊎ D → A ⊎ B
    join (inl (inl a)) = inl a
    join (inl (inr c)) = inr (e.1 (inl c))
    join (inr d) = inr (e.1 (inr d))

-- A block between two lists.
module _ (ptr n : ℕ) (above : header_size ≤ ptr) (after : List (ℕ × ℕ)) where
  IsPayload-insert :
      (q : ℕ) (before : List (ℕ × ℕ))
      → IsPayload q (before ++ (ptr - header_size, n) ∷ after)
        ↔ (IsPayload q (before ++ after) ⊎ (q ≡ ptr))
  IsPayload-insert q [] = (split, join)
    where
      split :
          (ptr - header_size + header_size ≡ q) ⊎ IsPayload q after → IsPayload q after ⊎ (q ≡ ptr)
      split (inl here) = inr (omega arith)
      split (inr there) = inl there

      join :
          IsPayload q after ⊎ (q ≡ ptr) → (ptr - header_size + header_size ≡ q) ⊎ IsPayload q after
      join (inl there) = inr there
      join (inr here) = inl (omega arith)
  IsPayload-insert q ((a, m) ∷ before) = beside (IsPayload-insert q before)

  -- Without overlap, no other block has the same payload.
  NotLive-others :
      (lo : ℕ) (before : List (ℕ × ℕ)) (hi : ℕ)
      → Ascending lo (before ++ (ptr - header_size, n) ∷ after) hi
      → NotLive ptr (before ++ after)
  NotLive-others lo [] hi asc =
      NotLive-below (ptr - header_size + header_size + n) after hi ptr (omega arith) asc.1
  NotLive-others lo ((b, m) ∷ before) hi asc = (
    omega (arith, Ascending-le (b + header_size + m) before (ptr - header_size) n after hi asc.1),
    NotLive-others (b + header_size + m) before hi asc.1,
  )

module _ (vmm : Pages) where
  abbrev pub IsLive : Heap vmm → ℕ → Type 0
  IsLive h q = IsPayload q (used h.blocks)

  pub of_kmalloc :
      (h : Heap vmm) (size : ℕ) {r : Result (Heap vmm × ℕ)}
      → Allocated vmm h size r
      → (t : Heap vmm) × (ptr : ℕ) × (r ≡ done (t, ptr))
        × IsValid vmm t
        × (ptr ≢ 0 → ¬ IsLive h ptr)
        × ((q : ℕ) → IsLive t q ↔ (IsLive h q ⊎ ((ptr ≢ 0) × (q ≡ ptr))))
        × (ptr ≢ 0 → HasRoom ptr size (used t.blocks))
  of_kmalloc h size (Allocated.granted {g} {p} n before after v e f low aligned fits inside) =
      let above : header_size ≤ p = omega arith in
      let others = NotLive-others p n above after kernel_heap_start before g.heap_end (
        subst (λ us. Ascending kernel_heap_start us g.heap_end) f
          (used-Ascending kernel_heap_start g.blocks g.heap_end v.chain)) in
      (
        g,
        p,
        refl,
        v,
        (λ some i. IsPayload-NotLive p (before ++ after) (subst (IsPayload p) e i) others),
        (λ q. (
          (λ i. elim ((IsPayload-insert p n above after q before).0 (subst (IsPayload q) f i)) [
            | inl other ↦ inl (subst (IsPayload q) (sym e) other)
            | inr same ↦ inr ((λ z. absurd (omega arith)), same)
          ]),
          (λ i. elim i [
            | inl other ↦
                subst (IsPayload q) (sym f) (
                  (IsPayload-insert p n above after q before).1 (inl (subst (IsPayload q) e other)))
            | inr same ↦
                subst (IsPayload q) (sym f)
                  ((IsPayload-insert p n above after q before).1 (inr same.1))
          ]),
        )),
        (λ some.
            subst (HasRoom p size) (sym f)
              (HasRoom-between p size (p - header_size) n before after (omega arith) fits)),
      )
  of_kmalloc h size (Allocated.denied {g} {p} v e null why) = (
    g,
    p,
    refl,
    v,
    (λ some. absurd (some null)),
    (λ q. (
      (λ i. inl (subst (IsPayload q) e i)),
      (λ i. elim i [
        | inl other ↦ subst (IsPayload q) (sym e) other
        | inr same ↦ absurd (same.0 null)
      ]),
    )),
    (λ some. absurd (some null)),
  )

  pub of_kfree :
      (h : Heap vmm) (ptr : ℕ) {r : Result (Heap vmm)}
      → Freed vmm h ptr r
      → IsValid vmm h
      → IsLive h ptr
      → (t : Heap vmm) × (r ≡ done t)
        × IsValid vmm t
        × ((q : ℕ) → IsLive t q ↔ (IsLive h q × (q ≢ ptr)))
  of_kfree h ptr (Freed.freed {g} n before after v e f) valid live =
      let above : header_size ≤ ptr = IsPayload-le ptr (used h.blocks) live in
      let others = NotLive-others ptr n above after kernel_heap_start before h.heap_end (
        subst (λ us. Ascending kernel_heap_start us h.heap_end) e
          (used-Ascending kernel_heap_start h.blocks h.heap_end valid.chain)) in
      (
        g,
        refl,
        v,
        (λ q. (
          (λ i.
              let other = subst (IsPayload q) f i in
              (
                subst (IsPayload q) (sym e)
                    ((IsPayload-insert ptr n above after q before).1 (inl other)),
                (λ same.
                    IsPayload-NotLive ptr (before ++ after)
                      (subst (λ x. IsPayload x (before ++ after)) same other) others),
              )),
          (λ i. elim ((IsPayload-insert ptr n above after q before).0 (subst (IsPayload q) e i.0)) [
            | inl other ↦ subst (IsPayload q) (sym f) other
            | inr same ↦ absurd (i.1 same)
          ]),
        )),
      )
  of_kfree h ptr (Freed.null_pointer {g} null e) valid live =
      absurd (omega (arith, IsPayload-le ptr (used h.blocks) live))
  of_kfree h ptr (Freed.rejected some dead) valid live =
      absurd (IsPayload-NotLive ptr (used h.blocks) live dead)

  abbrev pub heap_laws : (parts : Parts vmm) → Laws (heap_machine vmm parts)
  heap_laws parts = record {
    IsSound = IsValid vmm;
    InUse = IsLive;
    paging_set = λ h p. parts.paging_set h.pages p;
    Room = λ h q size. HasRoom q size (used h.blocks);
    set_paging-IsSound = λ h p change v. record {
      chain = v.chain;
      merged = v.merged;
      started = v.started;
      bounded = v.bounded;
      paged = v.paged;
    };
    set_paging-InUse = λ h p q change. (λ i. i, λ i. i);
    copy-IsSound = λ h ptr source n room v. record {
      chain = v.chain;
      merged = v.merged;
      started = v.started;
      bounded = v.bounded;
      paged = v.paged;
    };
    copy-InUse = λ h ptr source n q room. (λ i. i, λ i. i);
    kmalloc_returns = λ h size v lt. of_kmalloc h size (kmalloc-Allocated vmm h size v lt);
    kfree_returns = λ h ptr v live. of_kfree h ptr (kfree-Freed vmm h ptr v) v live;
  }
