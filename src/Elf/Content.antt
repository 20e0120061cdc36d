-- ===== src/Elf/Content.antt =====
-- The bytes that `elf_load` of kernel/kernel/elf_loader.c puts into the pages of a segment.
use neox.Base.{
  ℕ, zero, suc, ◌+◌, ◌-◌, ◌*◌, ◌/◌, ◌%◌, ◌^◌, ◌≤◌, ◌<◌, ◌≡◌, ◌≢◌, ◌⊎◌, inl, inr, refl, sym, ap, ◌∙◌,
  true, Bool-cases, ◌&&◌, leb, ltb, within, ==_cases, ==_true, ==_false, if◌then◌else◌, u32,
  page_size, arith,
}
use neox.Base.Memory.{Bytes, store}
use neox.Strings.{memcpy}
use neox.Strings.Copy.{memcpy_lem, within_iff, beyond}
use neox.Elf.{
  Segment, segment_fits, segment_start, page_offset, copy_offset, copy_size, clear_bytes, copy_page,
}

clear_bytes_lem :
    (m : Bytes) (dest n j : ℕ) → clear_bytes m dest n j ≡ (if within dest n j then 0 else m j)
unfolding clear_bytes store
clear_bytes_lem m dest zero j = rw (beyond dest 0 j (ground arith)) refl
clear_bytes_lem m dest (suc n) j = ground (arith, clear_bytes_lem m dest n j)

-- The page number `k` of a segment.
abbrev pub page_of : Segment → ℕ → ℕ
page_of ph k = segment_start ph + k * page_size

-- `copy_size` by what it reads.
abbrev size_of : ℕ → ℕ → ℕ → ℕ
size_of filesz offset first =
    if leb filesz offset
    then 0
    else if ltb (page_size - first) (filesz - offset)
    then page_size - first
    else filesz - offset

size_of_bounds :
    (filesz offset first start size : ℕ)
    → first ≤ page_size
    → start + filesz ≤ size
    → size_of filesz offset first ≢ 0
    → (first + size_of filesz offset first ≤ page_size)
      × (start + offset + size_of filesz offset first ≤ size)
size_of_bounds filesz offset first start size h k some = ground arith

size_of_inside :
    (filesz offset first : ℕ)
    → first ≤ page_size
    → size_of filesz offset first ≢ 0
    → (first + size_of filesz offset first ≤ page_size)
      × (offset + size_of filesz offset first ≤ filesz)
size_of_inside filesz offset first h some = ground arith

shifted :
    (first offset start o : ℕ)
    → offset ≡ start + first
    → first ≤ o
    → offset + (o - first) ≡ start + o
shifted first offset start o e h = omega arith

segment_fits-le :
    (ph : Segment) (size : ℕ) → segment_fits ph size ≡ true → ph.offset + ph.filesz ≤ size
unfolding segment_fits
segment_fits-le ph size fits = ground arith

size_of_iff :
    (filesz before first o : ℕ)
    → first < page_size
    → o < page_size
    → within first (size_of filesz (before + first) first) o
      ≡ (leb first o && ltb (before + o) filesz)
size_of_iff filesz before first o h k = ground arith

inside_first :
    (vaddr k o : ℕ)
    → k ≡ 0
    → leb (vaddr % page_size) o ≡ leb vaddr (vaddr / page_size * page_size + k * page_size + o)
inside_first vaddr k o h = ground arith

inside_later :
    (vaddr k o : ℕ)
    → k ≢ 0
    → leb 0 o ≡ leb vaddr (vaddr / page_size * page_size + k * page_size + o)
inside_later vaddr k o h = ground arith

within_shift :
    (dest first count o : ℕ) → within (dest + first) count (dest + o) ≡ within first count o
within_shift dest first count o = ground arith

within_part : (first count o : ℕ) → within first count o ≡ true → (first ≤ o) × (o < first + count)
within_part first count o h = ground arith

-- The part of a page that is copied over a cleared frame.
module _ (m : Bytes) (dest base filesz first offset count : ℕ)
    (apart : (base + filesz ≤ dest) ⊎ (dest + page_size ≤ base))
    (in_page : first + count ≤ page_size) (in_file : offset + count ≤ filesz) where
  copy_bytes :
      (o : ℕ)
      → o < page_size
      → memcpy (clear_bytes m dest page_size) (dest + first) (base + offset) count (dest + o)
        ≡ (if within first count o then m (base + (offset + (o - first))) else 0)
  copy_bytes o h =
      memcpy_lem (clear_bytes m dest page_size) (dest + first) (base + offset) count (dest + o)
        (ground arith)
      ∙ elim (Bool-cases (within first count o)) [
        | inl copied ↦
            let range = within_part first count o copied in
            let e : base + offset + (dest + o - (dest + first)) ≡ base + (offset + (o - first)) =
              omega arith in
            rw (within_shift dest first count o, copied, e)
              (clear_bytes_lem m dest page_size (base + (offset + (o - first)))
                ∙ rw (beyond dest page_size (base + (offset + (o - first))) (ground arith)) refl)
        | inr bare ↦
            rw (within_shift dest first count o, bare)
              (clear_bytes_lem m dest page_size (dest + o)
                ∙ rw (within_iff dest page_size (dest + o) (omega arith) (omega arith)) refl)
      ]

module _ (ph : Segment) (k : ℕ) (below : page_of ph k < 2 ^ 32) where
  offset_first : k ≡ 0 → page_offset ph (page_of ph k) ≡ ph.vaddr % page_size
  offset_first h = rw (==_true (page_of ph k) (segment_start ph) (omega arith)) (omega arith)

  offset_later : k ≢ 0 → page_offset ph (page_of ph k) ≡ 0
  offset_later h = rw (==_false (page_of ph k) (segment_start ph) (λ e. h (omega arith))) refl

  offset-lt : page_offset ph (page_of ph k) < page_size
  offset-lt = elim (==_cases k 0) [
    | inl first ↦ omega (arith, offset_first first)
    | inr later ↦ omega (arith, offset_later later)
  ]

  copy_offset_lem : copy_offset ph (page_of ph k) ≡ k * page_size + page_offset ph (page_of ph k)
  copy_offset_lem = u32_sum (page_offset ph (page_of ph k)) offset-lt
    where
      u32_sum :
          (o : ℕ) → o < page_size → u32 (page_of ph k - segment_start ph + o) ≡ k * page_size + o
      u32_sum o h = omega (arith, below)

  -- For a segment that elf_load accepts in an image of a size, what it copies into a page below 4
  -- GiB stays inside the page and inside the image.
  pub copy_in_bounds :
      (size : ℕ)
      → segment_fits ph size ≡ true
      → copy_size ph (page_of ph k) ≢ 0
      → (page_offset ph (page_of ph k) + copy_size ph (page_of ph k) ≤ page_size)
        × (ph.offset + copy_offset ph (page_of ph k) + copy_size ph (page_of ph k) ≤ size)
  copy_in_bounds size fits some =
      size_of_bounds ph.filesz (copy_offset ph (page_of ph k)) (page_offset ph (page_of ph k))
        ph.offset size (omega (arith, offset-lt)) (segment_fits-le ph size fits) some

  inside_iff :
      (o : ℕ)
      → o < page_size
      → leb (page_offset ph (page_of ph k)) o ≡ leb ph.vaddr (page_of ph k + o)
  inside_iff o h = elim (==_cases k 0) [
    | inl first ↦ rw (offset_first first) (inside_first ph.vaddr k o first)
    | inr later ↦ rw (offset_later later) (inside_later ph.vaddr k o (λ z. later z))
  ]

  -- A byte of the page is copied where it is not before the segment's start in the page, and its
  -- distance from the start of the first page is below the size in the file.
  copied_iff :
      (o : ℕ)
      → o < page_size
      → within (page_offset ph (page_of ph k)) (copy_size ph (page_of ph k)) o
        ≡ (leb ph.vaddr (page_of ph k + o) && ltb (k * page_size + o) ph.filesz)
  copied_iff o h =
      ap
        (λ c.
          within (page_offset ph (page_of ph k))
            (size_of ph.filesz c (page_offset ph (page_of ph k))) o)
        copy_offset_lem
      ∙ size_of_iff ph.filesz (k * page_size) (page_offset ph (page_of ph k)) o offset-lt h
      ∙ ap (λ b. b && ltb (k * page_size + o) ph.filesz) (inside_iff o h)

-- The page of a frame that was cleared and has its part of the file.
module _ (m : Bytes) (dest image : ℕ) (ph : Segment) (k : ℕ) (below : page_of ph k < 2 ^ 32)
    (apart : (image + ph.offset + ph.filesz ≤ dest) ⊎ (dest + page_size ≤ image + ph.offset)) where
  abbrev loaded : Bytes
  loaded = copy_page (clear_bytes m dest page_size) dest image ph (page_of ph k)

  copy_none : copy_size ph (page_of ph k) ≡ 0 → (j : ℕ) → loaded j ≡ clear_bytes m dest page_size j
  unfolding copy_page
  copy_none none j = rw (==_true (copy_size ph (page_of ph k)) 0 none) refl

  copy_some :
      copy_size ph (page_of ph k) ≢ 0
      → loaded
        ≡ memcpy
            (clear_bytes m dest page_size)
            (dest + page_offset ph (page_of ph k))
            (image + ph.offset + copy_offset ph (page_of ph k))
            (copy_size ph (page_of ph k))
  unfolding copy_page
  copy_some some = rw (==_false (copy_size ph (page_of ph k)) 0 some) refl

  same_byte :
      (o : ℕ)
      → o < page_size
      → (if within (page_offset ph (page_of ph k)) (copy_size ph (page_of ph k)) o
          then m (
              image
              + ph.offset
              + (copy_offset ph (page_of ph k) + (o - page_offset ph (page_of ph k))))
          else 0)
        ≡ (if leb ph.vaddr (page_of ph k + o) && ltb (k * page_size + o) ph.filesz
            then m (image + ph.offset + (k * page_size + o))
            else 0)
  same_byte o h =
      elim (Bool-cases (within (page_offset ph (page_of ph k)) (copy_size ph (page_of ph k)) o)) [
        | inl copied ↦
            let range =
              within_part (page_offset ph (page_of ph k)) (copy_size ph (page_of ph k)) o copied in
            let e : copy_offset ph (page_of ph k) + (o - page_offset ph (page_of ph k))
                ≡ k * page_size + o =
              shifted (page_offset ph (page_of ph k)) (copy_offset ph (page_of ph k))
                (k * page_size) o (copy_offset_lem ph k below) range.0 in
            rw (sym (copied_iff ph k below o h), copied, e) refl
        | inr bare ↦ rw (sym (copied_iff ph k below o h), bare) refl
      ]

  -- Each byte of a cleared page of a segment that elf_load has copied the file into: where its
  -- address is not below that of the segment and its distance from the start of the first page is
  -- below the size in the file, it is the byte of the file at that distance from the offset of the
  -- segment; any other byte is 0. The page is below 4 GiB and away from the bytes of the segment in
  -- the image.
  pub page_bytes :
      (o : ℕ)
      → o < page_size
      → loaded (dest + o) ≡ (
          if leb ph.vaddr (page_of ph k + o) && ltb (k * page_size + o) ph.filesz
          then m (image + ph.offset + (k * page_size + o))
          else 0)
  page_bytes o h = elim (==_cases (copy_size ph (page_of ph k)) 0) [
    | inl none ↦
        copy_none none (dest + o)
        ∙ clear_bytes_lem m dest page_size (dest + o)
        ∙ rw (within_iff dest page_size (dest + o) (omega arith) (omega arith)) (
            sym (
              rw (← copied_iff ph k below o h)
                (rw none (rw (beyond (page_offset ph (page_of ph k)) 0 o (ground arith)) refl))))
    | inr some ↦
        let sized : (page_offset ph (page_of ph k) + copy_size ph (page_of ph k) ≤ page_size)
            × (copy_offset ph (page_of ph k) + copy_size ph (page_of ph k) ≤ ph.filesz) =
          size_of_inside ph.filesz (copy_offset ph (page_of ph k)) (page_offset ph (page_of ph k))
            (omega (arith, offset-lt ph k below)) some in
        ap (λ (after : Bytes). after (dest + o)) (copy_some some)
        ∙ copy_bytes m dest (image + ph.offset) ph.filesz (page_offset ph (page_of ph k))
            (copy_offset ph (page_of ph k)) (copy_size ph (page_of ph k)) apart sized.0 sized.1 o h
        ∙ same_byte o h
  ]
