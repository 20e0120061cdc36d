-- ===== src/Paging/NewTable.antt =====
-- `paging_map` of kernel/mm/paging.c, with the page table that it allocates where there is none.
use neox.Base.{
  ℕ, ◌*◌, ◌/◌, ◌%◌, ◌^◌, ◌≤◌, ◌<◌, ◌≡◌, ◌≢◌, inl, inr, ap, sym, ◌∙◌, refl, true, false, ==_true,
  ==_false, page_size, arith,
}
use neox.Base.Memory.{is_set}
use neox.Pmm.{Pmm, pmm_alloc_page}
use neox.Pmm.Inv.{IsValid}
use neox.Pmm.Alloc.{Allocated, pmm_alloc_page-Allocated}
use neox.Pmm.Init.{phys_to_virt, virt_to_phys}
use neox.Paging.{
  Paging, store, clear, directory_index, table_index, directory_entry, paging_get_table,
  paging_alloc_table, cleared_table, map_in_new, set_entry, paging_map, paging_translate,
}
use neox.Paging.Map.{
  same_cases, table_of, get_table_lem, address_of, translate_across, translate_no_table,
  translate_table, IsAlone, Mapped, store_there, store_apart, store_index, set_entry-Mapped,
  table_of-directory_entry,
}

-- A table or a directory stands in a frame that is taken.
abbrev pub IsTaken : Pmm → ℕ → Type 0
IsTaken pmm table = is_set pmm.bitmap (virt_to_phys table / page_size) ≡ true

-- A frame that PHYS_TO_VIRT reaches: the mapping of the higher half covers the first 16 MiB.
abbrev pub IsReached : ℕ → Type 0
IsReached table = virt_to_phys table < 2 ^ 24

-- The frames of a directory and of its tables are taken and reached, and so is each frame that the
-- physical memory manager may give for a new one.
pub record IsOwned (s : Paging) (d : ℕ) : Type 0 where
  pub valid : IsValid s.pmm
  pub reach : s.pmm.total_pages ≤ 2 ^ 12
  pub reached : IsReached d
  pub tables_reached : (i : ℕ) → paging_get_table s d i ≢ 0 → IsReached (paging_get_table s d i)
  pub directory : IsTaken s.pmm d
  pub tables : (i : ℕ) → paging_get_table s d i ≢ 0 → IsTaken s.pmm (paging_get_table s d i)

pub clear_table : (m : ℕ → ℕ → ℕ) (table t i : ℕ) → t ≢ table → clear m table t i ≡ m t i
clear_table m table t i h = ground (arith, ==_false t table h)

pub clear_there : (m : ℕ → ℕ → ℕ) (table i : ℕ) → i < 1024 → clear m table table i ≡ 0
clear_there m table i h = ground (arith, ==_true table table refl)

zero_entry : (v : ℕ) → address_of 0 v ≡ 0
unfolding address_of
zero_entry v = refl

-- A free frame is apart from the frames in use.
module _ (s : Paging) (d p : ℕ) (owned : IsOwned s d) (pos : 0 < p) (below : p < s.pmm.total_pages)
    (free : is_set s.pmm.bitmap p ≡ false) where
  low : p < 2 ^ 12
  low = omega (arith, owned.reach)

  pub frame_some : phys_to_virt (p * page_size) ≢ 0
  frame_some h = absurd (omega (arith, low))

  pub frame_apart : (t : ℕ) → IsTaken s.pmm t → t ≢ phys_to_virt (p * page_size)
  frame_apart t taken same =
      let page : virt_to_phys (phys_to_virt (p * page_size)) / page_size ≡ p = omega (arith, low) in
      let clash =
        sym taken
        ∙ ap (λ x. is_set s.pmm.bitmap (virt_to_phys x / page_size)) same
        ∙ ap (is_set s.pmm.bitmap) page
        ∙ free in
      ground (arith, clash)

-- A frame that was clear, made the table at an index of the directory that had none.
module _ (s : Paging) (d virt flags p : ℕ) (owned : IsOwned s d) (pos : 0 < p)
    (below : p < s.pmm.total_pages) (free : is_set s.pmm.bitmap p ≡ false)
    (missing : paging_get_table s d (directory_index virt) ≡ 0) (pmm : Pmm) where
  abbrev table : ℕ
  table = phys_to_virt (p * page_size)

  abbrev attached : Paging
  attached = record s {
    pmm = pmm;
    entries = store (clear s.entries table) d (directory_index virt) (directory_entry table flags);
  }

  table_some : table ≢ 0
  table_some = frame_some s d p owned pos below free

  untaken : (t : ℕ) → IsTaken s.pmm t → t ≢ table
  untaken = frame_apart s d p owned pos below free

  attached_there : paging_get_table attached d (directory_index virt) ≡ table
  attached_there =
      get_table_lem attached d (directory_index virt)
      ∙ ap table_of (store_there (clear s.entries table) d (directory_index virt) _ d _ refl refl)
      ∙ table_of-directory_entry p flags pos (omega (arith, owned.reach))

  attached_other :
      (i : ℕ) → i ≢ directory_index virt → paging_get_table attached d i ≡ paging_get_table s d i
  attached_other i other =
      get_table_lem attached d i
      ∙ ap table_of (
          store_index (clear s.entries table) d (directory_index virt) _ d i other
          ∙ clear_table s.entries table d i (untaken d owned.directory))
      ∙ sym (get_table_lem s d i)

  attached-IsAlone : IsAlone attached d (directory_index virt)
  attached-IsAlone = record {
    apart = λ h. untaken d owned.directory (sym h ∙ attached_there);
    unshared = λ j some same. elim (same_cases j (directory_index virt)) [
      | inl here ↦ here
      | inr other ↦
          let old = sym (attached_other j other) ∙ same ∙ attached_there in
          absurd (untaken _ (owned.tables j (λ h. table_some (sym old ∙ h))) old)
    ];
  }

  attached_empty :
      (v : ℕ)
      → directory_index v ≡ directory_index virt
      → paging_translate attached d v ≡ paging_translate s d v
  attached_empty v same =
      translate_table attached d v table (ap (paging_get_table attached d) same ∙ attached_there)
        table_some
      ∙ ap (λ e. address_of e v)
          (store_apart (clear s.entries table) d (directory_index virt) _ table (table_index v)
              (λ h. untaken d owned.directory (sym h))
            ∙ clear_there s.entries table (table_index v) (omega arith))
      ∙ zero_entry v
      ∙ sym (translate_no_table s d v (ap (paging_get_table s d) same ∙ missing))

  attached_translates :
      (v : ℕ)
      → paging_get_table s d (directory_index v) ≢ d
      → paging_translate attached d v ≡ paging_translate s d v
  attached_translates v window = elim (same_cases (directory_index v) (directory_index virt)) [
    | inl same ↦ attached_empty v same
    | inr other ↦ translate_across s attached d d v (attached_other _ other) (λ some.
        store_apart (clear s.entries table) d (directory_index virt) _ _ (table_index v) window
        ∙ clear_table s.entries table _ (table_index v) (untaken _ (owned.tables _ some)))
  ]

  attached_window :
      (v : ℕ)
      → paging_get_table s d (directory_index v) ≢ d
      → paging_get_table attached d (directory_index v) ≢ d
  attached_window v window h = elim (same_cases (directory_index v) (directory_index virt)) [
    | inl same ↦ attached-IsAlone.apart (ap (paging_get_table attached d) (sym same) ∙ h)
    | inr other ↦ window (sym (attached_other (directory_index v) other) ∙ h)
  ]

  set_entry-attached :
      (phys : ℕ)
      → flags % 2 ≡ 1
      → flags < page_size
      → phys < 2 ^ 32
      → Mapped s d virt phys (set_entry attached table virt phys flags)
  set_entry-attached phys odd small_flags small =
      let m =
        set_entry-Mapped attached d virt table attached_there table_some attached-IsAlone phys flags
          odd small_flags small in
      record {
        here = m.here;
        elsewhere = λ v other window.
            m.elsewhere v other (attached_window v window) ∙ attached_translates v window;
      }

-- How `paging_map` ends.
pub data Outcome (s : Paging) (d virt phys : ℕ) : Paging → Type 0 where
  mapped : {t : Paging} → Mapped s d virt phys t → Outcome s d virt phys t
  refused :
      {t : Paging}
      → paging_get_table s d (directory_index virt) ≡ 0
      → ((q : ℕ) → q < s.pmm.total_pages → is_set s.pmm.bitmap q ≡ true)
      → t ≡ s
      → Outcome s d virt phys t

module _ (s : Paging) (d virt phys flags : ℕ) where
  map_present :
      paging_get_table s d (directory_index virt) ≢ 0
      → paging_map s d virt phys flags
        ≡ set_entry s (paging_get_table s d (directory_index virt)) virt phys flags
  unfolding paging_map
  map_present h = ground (arith, ==_false _ 0 h)

  map_missing :
      paging_get_table s d (directory_index virt) ≡ 0
      → paging_map s d virt phys flags
        ≡ map_in_new d virt phys flags (cleared_table s (pmm_alloc_page s.pmm))
  unfolding paging_map paging_alloc_table
  map_missing h = ground (arith, ==_true _ 0 h)

  map_none :
      (pmm : Pmm) (addr : ℕ)
      → pmm ≡ s.pmm
      → addr ≡ 0
      → map_in_new d virt phys flags (cleared_table s (pmm, addr)) ≡ s
  unfolding map_in_new cleared_table
  map_none pmm addr same null = rw (==_true addr 0 null) (ap (λ q. record s { pmm = q }) same)

  map_new :
      (pmm : Pmm) (addr : ℕ)
      → addr ≢ 0
      → phys_to_virt addr ≢ 0
      → map_in_new d virt phys flags (cleared_table s (pmm, addr))
        ≡ set_entry
            (record s {
              pmm = pmm;
              entries =
                  store
                    (clear s.entries (phys_to_virt addr))
                    d
                    (directory_index virt)
                    (directory_entry (phys_to_virt addr) flags);
            })
            (phys_to_virt addr)
            virt
            phys
            flags
  unfolding map_in_new cleared_table
  map_new pmm addr some there = rw (==_false addr 0 some, ==_false (phys_to_virt addr) 0 there) refl

module _ (s : Paging) (d virt phys flags : ℕ) (owned : IsOwned s d)
    (alone : IsAlone s d (directory_index virt)) (odd : flags % 2 ≡ 1) (low : flags < page_size)
    (small : phys < 2 ^ 32) where
  new-Outcome :
      {r : Pmm × ℕ}
      → Allocated s.pmm r
      → paging_get_table s d (directory_index virt) ≡ 0
      → Outcome s d virt phys (map_in_new d virt phys flags (cleared_table s r))
  new-Outcome (Allocated.page p pos below free before count {t} {addr} e at) missing =
      let there : phys_to_virt (p * page_size) ≢ 0 =
        table_some s d virt flags p owned pos below free missing t in
      let done_page =
        set_entry-attached s d virt flags p owned pos below free missing t phys odd low small in
      rw (at, map_new s d virt phys flags t (p * page_size) (omega arith) there) (mapped done_page)
  new-Outcome (Allocated.none_left full count {t} {addr} e null) missing =
      refused missing full (map_none s d virt phys flags t addr e null)

  -- paging_map of a 32-bit physical address with flags below 4096 that say that it is present, in a
  -- directory whose frames are taken and lie in the first 16 MiB, at an index whose table is no
  -- other's, with a valid physical memory manager of at most 16 MiB and no injected failure: either
  -- the page translates to the frame with the offset of the address, and every address of another
  -- page, outside the window on the directory itself, translates as before; or there is no table
  -- and no frame for one, and the state is as it was.
  pub paging_map-Outcome :
      s.pmm.fail_allocations ≡ 0 → Outcome s d virt phys (paging_map s d virt phys flags)
  paging_map-Outcome reliable = elim (same_cases (paging_get_table s d (directory_index virt)) 0) [
    | inl missing ↦
        rw (map_missing s d virt phys flags missing)
          (new-Outcome (pmm_alloc_page-Allocated s.pmm owned.valid reliable) missing)
    | inr some ↦
        rw (map_present s d virt phys flags some)
          (mapped (set_entry-Mapped s d virt _ refl some alone phys flags odd low small))
  ]
