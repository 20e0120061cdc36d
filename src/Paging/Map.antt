-- ===== src/Paging/Map.antt =====
-- `paging_map`, `paging_unmap` and `paging_translate` of kernel/mm/paging.c.
use neox.Base.{
  ℕ, zero, suc, ◌+◌, ◌*◌, ◌/◌, ◌%◌, ◌^◌, ◌<◌, ◌≡◌, ◌≢◌, ◌⊎◌, inl, inr, ap, sym, ◌∙◌, refl, true,
  not, ==_true, ==_false, if◌then◌else◌, u32, page_size, bit_or, arith,
}
use neox.Pmm.Init.{phys_to_virt, virt_to_phys}
use neox.Paging.{
  Paging, store, is_present, frame, directory_index, table_index, directory_entry, paging_get_table,
  set_entry, paging_translate,
}
use neox.Paging.Bits.{bit_or-frame, bit_or-zero_left}

pub same_cases : (a b : ℕ) → (a ≡ b) ⊎ (a ≢ b)
same_cases a b = ground arith

-- The entry that `paging_map` writes.
module _ (phys flags : ℕ) (odd : flags % 2 ≡ 1) (low : flags < page_size) where
  entry_sum : bit_or (frame phys) flags ≡ phys / page_size * page_size + flags
  entry_sum =
      let h = bit_or-frame (phys / page_size) 0 flags (omega arith) low in
      ground (arith, h, bit_or-zero_left flags)

  entry_present : is_present (bit_or (frame phys) flags) ≡ true
  entry_present = rw entry_sum (==_true _ _ (omega arith))

  entry_frame : frame (bit_or (frame phys) flags) ≡ frame phys
  entry_frame = rw entry_sum (omega arith)

-- The table of an entry of a directory.
unfoldable pub table_of : ℕ → ℕ
table_of pde = if not (is_present pde) then 0 else phys_to_virt (frame pde)

pub get_table_lem : (s : Paging) (d i : ℕ) → paging_get_table s d i ≡ table_of (s.entries d i)
unfolding paging_get_table table_of
get_table_lem s d i = refl

-- The address that an entry of a table gives.
unfoldable pub address_of : ℕ → ℕ → ℕ
address_of entry virt = if not (is_present entry) then 0 else u32 (frame entry + virt % page_size)

pub translate_no_table :
    (s : Paging) (d v : ℕ)
    → paging_get_table s d (directory_index v) ≡ 0
    → paging_translate s d v ≡ 0
unfolding paging_translate
translate_no_table s d v h = ground (arith, h)

pub translate_table :
    (s : Paging) (d v table : ℕ)
    → paging_get_table s d (directory_index v) ≡ table
    → table ≢ 0
    → paging_translate s d v ≡ address_of (s.entries table (table_index v)) v
unfolding paging_translate address_of
translate_table s d v table h nonzero = ground (arith, h)

-- Two directories in which a page has the same table, and the table the same entry.
pub translate_across :
    (s t : Paging) (d e v : ℕ)
    → paging_get_table t e (directory_index v) ≡ paging_get_table s d (directory_index v)
    → (paging_get_table s d (directory_index v) ≢ 0
        → t.entries (paging_get_table s d (directory_index v)) (table_index v)
          ≡ s.entries (paging_get_table s d (directory_index v)) (table_index v))
    → paging_translate t e v ≡ paging_translate s d v
translate_across s t d e v tables entries =
    elim (same_cases (paging_get_table s d (directory_index v)) 0) [
      | inl none ↦ translate_no_table t e v (tables ∙ none) ∙ sym (translate_no_table s d v none)
      | inr some ↦
          translate_table t e v _ tables some
          ∙ ap (λ x. address_of x v) (entries some)
          ∙ sym (translate_table s d v _ refl some)
    ]

-- The table at an index of a directory is no other's, and not the directory.
pub record IsAlone (s : Paging) (d i : ℕ) : Type 0 where
  pub apart : paging_get_table s d i ≢ d
  pub unshared :
      (j : ℕ) → paging_get_table s d i ≢ 0 → paging_get_table s d j ≡ paging_get_table s d i → j ≡ i

-- What a page's mapping changes; the recursive window, through which the directory itself is read,
-- is apart.
pub record Mapped (s : Paging) (d virt phys : ℕ) (t : Paging) : Type 0 where
  pub here : paging_translate t d virt ≡ frame phys + virt % page_size
  pub elsewhere :
      (v : ℕ)
      → v / page_size ≢ virt / page_size
      → paging_get_table s d (directory_index v) ≢ d
      → paging_translate t d v ≡ paging_translate s d v

module _ (m : ℕ → ℕ → ℕ) (table index entry t i : ℕ) where
  pub store_there : t ≡ table → i ≡ index → store m table index entry t i ≡ entry
  store_there h k = ground (arith, ==_true t table h, ==_true i index k)

  pub store_apart : t ≢ table → store m table index entry t i ≡ m t i
  store_apart h = ground (arith, ==_false t table h)

  pub store_index : i ≢ index → store m table index entry t i ≡ m t i
  store_index h = ground (arith, ==_false i index h)

-- A state in which an entry is written.
unfoldable pub written : Paging → ℕ → ℕ → ℕ → Paging
written s table virt entry = record s { entries = store s.entries table (table_index virt) entry }

-- The write of one entry of a table that is alone.
module _ (s : Paging) (d virt table : ℕ)
    (here : paging_get_table s d (directory_index virt) ≡ table) (some : table ≢ 0)
    (alone : IsAlone s d (directory_index virt)) (entry : ℕ) where
  pub written_tables :
      (i : ℕ) → paging_get_table (written s table virt entry) d i ≡ paging_get_table s d i
  unfolding written
  written_tables i =
      get_table_lem (written s table virt entry) d i
      ∙ ap table_of (
          store_apart s.entries table (table_index virt) entry d i
            (λ same. alone.apart (here ∙ sym same)))
      ∙ sym (get_table_lem s d i)

  pub translate-written :
      paging_translate (written s table virt entry) d virt ≡ address_of entry virt
  unfolding written
  translate-written =
      translate_table (written s table virt entry) d virt table
        (written_tables (directory_index virt) ∙ here) some
      ∙ ap (λ e. address_of e virt)
          (store_there s.entries table (table_index virt) entry table (table_index virt) refl refl)

  pub translate-written_elsewhere :
      (v : ℕ)
      → v / page_size ≢ virt / page_size
      → paging_translate (written s table virt entry) d v ≡ paging_translate s d v
  unfolding written
  translate-written_elsewhere v other =
      translate_across s (written s table virt entry) d d v (written_tables (directory_index v))
        (λ nonzero. elim (same_cases (paging_get_table s d (directory_index v)) table) [
          | inl same ↦
              let index =
                alone.unshared (directory_index v) (λ h. some (sym here ∙ h)) (same ∙ sym here) in
              let apart : table_index v ≢ table_index virt = λ h. absurd (omega arith) in
              store_index s.entries table (table_index virt) entry _ (table_index v) apart
          | inr differs ↦
              store_apart s.entries table (table_index virt) entry _ (table_index v) differs
        ])

-- `set_entry` with flags that say that the page is present.
module _ (s : Paging) (d virt table : ℕ)
    (here : paging_get_table s d (directory_index virt) ≡ table) (some : table ≢ 0)
    (alone : IsAlone s d (directory_index virt)) (phys flags : ℕ) (odd : flags % 2 ≡ 1)
    (low : flags < page_size) (small : phys < 2 ^ 32) where
  address_written : address_of (bit_or (frame phys) flags) virt ≡ frame phys + virt % page_size
  unfolding address_of
  address_written =
      let sum : u32 (frame phys + virt % page_size) ≡ frame phys + virt % page_size = omega arith in
      rw (entry_present phys flags odd low, entry_frame phys flags odd low) sum

  pub set_entry-Mapped : Mapped s d virt phys (set_entry s table virt phys flags)
  unfolding set_entry written
  set_entry-Mapped = record {
    here =
        translate-written s d virt table here some alone (bit_or (frame phys) flags)
        ∙ address_written;
    elsewhere = λ v other window.
        translate-written_elsewhere s d virt table here some alone (bit_or (frame phys) flags) v
          other;
  }

bits_or : (f : ℕ) → f < 4 → bit_or 1 (f * 2) ≡ 1 + f * 2
bits_or zero h = refl
bits_or (suc zero) h = refl
bits_or (suc (suc zero)) h = refl
bits_or (suc (suc (suc zero))) h = refl
bits_or (suc (suc (suc (suc f)))) h = absurd (omega arith)

-- The entry of a directory for a table in the frame `p`, which the higher half maps.
module _ (p flags : ℕ) (pos : 0 < p) (below : p < 2 ^ 18) where
  directory_entry_sum :
      directory_entry (phys_to_virt (p * page_size)) flags ≡ p * page_size + 1 + flags / 2 % 4 * 2
  directory_entry_sum =
      let phys : virt_to_phys (phys_to_virt (p * page_size)) ≡ p * page_size = omega arith in
      let one : bit_or (p * page_size) 1 ≡ p * page_size + 1 =
        ground (arith, bit_or-frame p 0 1 (omega arith) (omega arith), bit_or-zero_left 1) in
      let h = bit_or-frame p 1 (flags / 2 % 4 * 2) (omega arith) (omega arith) in
      rw (phys, one, h, bits_or (flags / 2 % 4) (omega arith)) (omega arith)

  pub table_of-directory_entry :
      table_of (directory_entry (phys_to_virt (p * page_size)) flags) ≡ phys_to_virt (p * page_size)
  unfolding table_of
  table_of-directory_entry =
      let odd : is_present (p * page_size + 1 + flags / 2 % 4 * 2) ≡ true =
        ==_true _ _ (omega arith) in
      let base : frame (p * page_size + 1 + flags / 2 % 4 * 2) ≡ p * page_size = omega arith in
      rw (directory_entry_sum, odd, base) refl
