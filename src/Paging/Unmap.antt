-- ===== src/Paging/Unmap.antt =====
-- `paging_unmap` of kernel/mm/paging.c.
use neox.Base.{
  ℕ, zero, suc, ◌/◌, ◌<◌, ◌≡◌, ◌≢◌, inl, inr, ap, sym, ◌∙◌, refl, Bool, true, false, not, ==_true,
  ==_false, if◌then◌else◌, page_size, arith,
}
use neox.Base.Result.{done}
use neox.Pmm.{pmm_free_page}
use neox.Paging.{
  Paging, store, is_present, frame, directory_index, table_index, paging_get_table, any_present,
  clear_entry, paging_unmap, paging_translate,
}
use neox.Paging.Map.{
  same_cases, table_of, get_table_lem, address_of, translate_across, translate_no_table,
  translate_table, IsAlone, store_there, store_apart, store_index, written, written_tables,
  translate-written, translate-written_elsewhere,
}

any_present-none :
    (entries : ℕ → ℕ) (n i : ℕ)
    → any_present entries n ≡ false
    → i < n
    → is_present (entries i) ≡ false
unfolding any_present
any_present-none entries zero i h k = absurd (omega arith)
any_present-none entries (suc n) i h k = elim (same_cases i n) [
  | inl same ↦ ap (λ x. is_present (entries x)) same ∙ ground arith
  | inr other ↦ any_present-none entries n i (ground arith) (omega arith)
]

-- What the end of a page's mapping changes.
pub record Unmapped (s : Paging) (d virt : ℕ) (t : Paging) : Type 0 where
  pub here : paging_translate t d virt ≡ 0
  pub elsewhere :
      (v : ℕ)
      → v / page_size ≢ virt / page_size
      → paging_get_table s d (directory_index v) ≢ d
      → paging_translate t d v ≡ paging_translate s d v
  pub kept : paging_get_table t d (directory_index virt) ≢ 0 → t.pmm ≡ s.pmm
  pub reclaimed :
      paging_get_table s d (directory_index virt) ≢ 0
      → paging_get_table t d (directory_index virt) ≡ 0
      → t.pmm ≡ pmm_free_page s.pmm (frame (s.entries d (directory_index virt)))

if-Unmapped :
    (s : Paging) (d virt : ℕ) (b : Bool)
    → {t u : Paging} → (b ≡ true → Unmapped s d virt t)
    → (b ≡ false → Unmapped s d virt u)
    → Unmapped s d virt (if b then t else u)
if-Unmapped s d virt true h k = h refl
if-Unmapped s d virt false h k = k refl

-- A page without a table stays as it is.
unchanged-Unmapped :
    (s : Paging) (d virt : ℕ)
    → paging_get_table s d (directory_index virt) ≡ 0
    → Unmapped s d virt s
unchanged-Unmapped s d virt missing = record {
  here = translate_no_table s d virt missing;
  elsewhere = λ v other window. refl;
  kept = λ h. refl;
  reclaimed = λ some h. absurd (some missing);
}

module _ (s : Paging) (d virt table : ℕ)
    (here : paging_get_table s d (directory_index virt) ≡ table) (some : table ≢ 0)
    (alone : IsAlone s d (directory_index virt)) where
  abbrev cleared : Paging
  cleared = written s table virt 0

  cleared-Unmapped : Unmapped s d virt cleared
  unfolding address_of written
  cleared-Unmapped = record {
    here = translate-written s d virt table here some alone 0;
    elsewhere =
        λ v other window. translate-written_elsewhere s d virt table here some alone 0 v other;
    kept = λ h. refl;
    reclaimed = λ h gone. absurd (
        some (
          sym here
          ∙ sym (written_tables s d virt table here some alone 0 (directory_index virt))
          ∙ gone));
  }

  -- The table is given back, and the directory's entry is cleared.
  abbrev detached : Paging
  detached = record cleared {
    pmm = pmm_free_page s.pmm (frame (s.entries d (directory_index virt)));
    entries = store cleared.entries d (directory_index virt) 0;
  }

  detached_there : paging_get_table detached d (directory_index virt) ≡ 0
  unfolding table_of
  detached_there =
      get_table_lem detached d (directory_index virt)
      ∙ ap table_of (store_there cleared.entries d (directory_index virt) 0 d _ refl refl)

  detached_other :
      (i : ℕ)
      → i ≢ directory_index virt
      → paging_get_table detached d i ≡ paging_get_table cleared d i
  detached_other i other =
      get_table_lem detached d i
      ∙ ap table_of (store_index cleared.entries d (directory_index virt) 0 d i other)
      ∙ sym (get_table_lem cleared d i)

  tables : (i : ℕ) → paging_get_table cleared d i ≡ paging_get_table s d i
  tables = written_tables s d virt table here some alone 0

  -- An address whose page shares the table that is empty.
  cleared_empty :
      (v : ℕ)
      → any_present (cleared.entries table) 1024 ≡ false
      → directory_index v ≡ directory_index virt
      → paging_translate cleared d v ≡ 0
  unfolding address_of
  cleared_empty v empty same =
      translate_table cleared d v table (ap (paging_get_table cleared d) same ∙ tables _ ∙ here)
        some
      ∙ (rw (any_present-none (cleared.entries table) 1024 (table_index v) empty (omega arith))
          refl)

  detached_translates :
      (v : ℕ)
      → any_present (cleared.entries table) 1024 ≡ false
      → paging_get_table s d (directory_index v) ≢ d
      → paging_translate detached d v ≡ paging_translate cleared d v
  detached_translates v empty window =
      elim (same_cases (directory_index v) (directory_index virt)) [
        | inl same ↦
            translate_no_table detached d v (ap (paging_get_table detached d) same ∙ detached_there)
            ∙ sym (cleared_empty v empty same)
        | inr other ↦ translate_across cleared detached d d v (detached_other _ other) (λ h.
            store_apart cleared.entries d (directory_index virt) 0 _ (table_index v)
              (λ at_d. window (sym (tables _) ∙ at_d)))
      ]

  detached-Unmapped : any_present (cleared.entries table) 1024 ≡ false → Unmapped s d virt detached
  detached-Unmapped empty = record {
    here = translate_no_table detached d virt detached_there;
    elsewhere = λ v other window.
        detached_translates v empty window ∙ cleared-Unmapped.elsewhere v other window;
    kept = λ h. absurd (h detached_there);
    reclaimed = λ h gone. refl;
  }

module _ (s : Paging) (d virt : ℕ) (some_directory : d ≢ 0)
    (alone : IsAlone s d (directory_index virt)) where
  clear_entry_lem :
      (table : ℕ)
      → (here : paging_get_table s d (directory_index virt) ≡ table) → (some : table ≢ 0)
      → clear_entry s d virt ≡ (
          if any_present ((written s table virt 0).entries table) 1024
          then written s table virt 0
          else detached s d virt table here some alone)
  unfolding clear_entry written
  clear_entry_lem table here some = rw (here, ==_false table 0 some) refl

  clear_entry-Unmapped :
      paging_get_table s d (directory_index virt) ≢ 0 → Unmapped s d virt (clear_entry s d virt)
  clear_entry-Unmapped some = rw (clear_entry_lem _ refl some) (
      if-Unmapped s d virt _ (λ used. cleared-Unmapped s d virt _ refl some alone)
        (detached-Unmapped s d virt _ refl some alone))

  clear_entry_missing : paging_get_table s d (directory_index virt) ≡ 0 → clear_entry s d virt ≡ s
  unfolding clear_entry
  clear_entry_missing missing = rw (==_true _ 0 missing) refl

  absent :
      is_present (s.entries d (directory_index virt)) ≡ false
      → paging_get_table s d (directory_index virt) ≡ 0
  unfolding paging_get_table
  absent h = rw h refl

  present-Unmapped : Unmapped s d virt (clear_entry s d virt)
  present-Unmapped = elim (same_cases (paging_get_table s d (directory_index virt)) 0) [
    | inl missing ↦ rw (clear_entry_missing missing) (unchanged-Unmapped s d virt missing)
    | inr some ↦ clear_entry-Unmapped some
  ]

  unmap_lem :
      paging_unmap s d virt
      ≡ done (
          if not (is_present (s.entries d (directory_index virt))) then s else clear_entry s d virt)
  unfolding paging_unmap
  unmap_lem = rw (==_false d 0 some_directory) refl

  -- paging_unmap of an address in a directory that is not NULL, whose table at the index of the
  -- address is no other's, ends without a failed assertion: the address translates to 0, every
  -- address of another page outside the window on the directory translates as before, and the
  -- physical memory manager stays as it was where the table is kept and gets the frame of the table
  -- back where it is not.
  pub paging_unmap-Unmapped : (t : Paging) × (paging_unmap s d virt ≡ done t) × Unmapped s d virt t
  paging_unmap-Unmapped = (
    _,
    unmap_lem,
    if-Unmapped s d virt _ (λ h. unchanged-Unmapped s d virt (absent (ground arith)))
        (λ h. present-Unmapped),
  )
