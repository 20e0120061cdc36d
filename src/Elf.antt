-- ===== src/Elf.antt =====
-- kernel/kernel/elf_loader.c: the checks of an image, and the pages of its segments. A pointer is its
-- address, and the image is read from memory, with the field offsets of kernel/include/elf.h. The
-- list of loaded pages has the newest page first.
pub mod Header
pub mod Content
mod Tests
use neox.Base.{
  ℕ, zero, suc, ◌+◌, ◌-◌, ◌*◌, ◌/◌, ◌%◌, ◌^◌, Bool, true, false, not, ◌&&◌, ◌||◌, List, [], ◌∷◌,
  leb, ltb, ◌==◌, if◌then◌else◌, u32, page_size,
}
use neox.Base.Memory.{Bytes, store}
use neox.Base.Result.{Result, done, ◌>>=◌}
use neox.Strings.{half, word, memcpy}
use neox.Pmm.{Pmm, pmm_alloc_page, pmm_free_page}
use neox.Pmm.Init.{phys_to_virt}
use neox.Paging.{Paging, paging_map, paging_unmap, paging_translate}
use neox.Machine.{Machine}

-- The fields of `struct elf32_header` that are read.
abbrev pub e_type : Bytes → ℕ → ℕ
e_type m header = half m (header + 16)

abbrev pub e_machine : Bytes → ℕ → ℕ
e_machine m header = half m (header + 18)

abbrev pub e_entry : Bytes → ℕ → ℕ
e_entry m header = word m (header + 24)

abbrev pub e_phoff : Bytes → ℕ → ℕ
e_phoff m header = word m (header + 28)

abbrev pub e_phentsize : Bytes → ℕ → ℕ
e_phentsize m header = half m (header + 42)

abbrev pub e_phnum : Bytes → ℕ → ℕ
e_phnum m header = half m (header + 44)

-- `sizeof(struct elf32_header)` and `sizeof(struct elf32_program_header)`
abbrev pub header_size : ℕ
header_size = 52

abbrev pub program_header_size : ℕ
program_header_size = 32

-- The comparison of `e_ident` with 0x7F, 'E', 'L' and 'F', the class and the byte order.
abbrev pub is_elf : Bytes → ℕ → Bool
is_elf m header =
    (m header == 0x7F)
    && (m (header + 1) == 0x45)
    && (m (header + 2) == 0x4C)
    && (m (header + 3) == 0x46)
    && (m (header + 4) == 1)
    && (m (header + 5) == 1)

-- 1 or 0.
unfoldable pub elf_validate : Bytes → ℕ → ℕ → ℕ
elf_validate m image size =
    if image == 0
    then 0
    else if ltb size header_size
    then 0
    else if not (is_elf m image)
    then 0
    else if not (e_type m image == 2)
    then 0
    else if not (e_machine m image == 3)
    then 0
    else if not (e_phentsize m image == program_header_size)
    then 0
    else if e_phnum m image == 0
    then 0
    else if ltb size (e_phoff m image)
    then 0
    else if ltb (size - e_phoff m image) (u32 (e_phnum m image * program_header_size))
    then 0
    else 1

-- `struct elf32_program_header`, as far as it is read.
pub record Segment : Type 0 where
  pub kind : ℕ
  pub offset : ℕ
  pub vaddr : ℕ
  pub filesz : ℕ
  pub memsz : ℕ
  pub flags : ℕ

unfoldable pub program_header : Bytes → ℕ → ℕ → Segment
program_header m image i =
    let ph = image + e_phoff m image + u32 (i * e_phentsize m image) in
    record {
      kind = word m ph;
      offset = word m (ph + 4);
      vaddr = word m (ph + 8);
      filesz = word m (ph + 16);
      memsz = word m (ph + 20);
      flags = word m (ph + 24);
    }

-- The checks of a segment that is loaded.
unfoldable pub segment_fits : Segment → ℕ → Bool
segment_fits ph size =
    if ltb ph.memsz ph.filesz
    then false
    else if ltb size ph.offset || ltb (size - ph.offset) ph.filesz
    then false
    else not (ltb (u32 (ph.vaddr + ph.memsz)) ph.vaddr)

-- `& ~(PAGE_SIZE - 1)` clears the low 12 bits.
abbrev pub segment_start : Segment → ℕ
segment_start ph = ph.vaddr / page_size * page_size

abbrev pub segment_end : Segment → ℕ
segment_end ph = u32 (ph.vaddr + ph.memsz + page_size - 1) / page_size * page_size

-- `PAGE_PRESENT | PAGE_USER`, with `PAGE_WRITABLE` where `PF_W` is set.
abbrev pub page_flags : Segment → ℕ
page_flags ph = if ph.flags / 2 % 2 == 1 then 7 else 5

abbrev pub page_offset : Segment → ℕ → ℕ
page_offset ph page = if page == segment_start ph then ph.vaddr - segment_start ph else 0

abbrev pub copy_offset : Segment → ℕ → ℕ
copy_offset ph page = u32 (page - segment_start ph + page_offset ph page)

abbrev pub copy_size : Segment → ℕ → ℕ
copy_size ph page =
    if leb ph.filesz (copy_offset ph page)
    then 0
    else if ltb (page_size - page_offset ph page) (ph.filesz - copy_offset ph page)
    then page_size - page_offset ph page
    else ph.filesz - copy_offset ph page

-- `memset(dest, 0, n)`: the state after `n` rounds.
unfoldable pub clear_bytes : Bytes → ℕ → ℕ → Bytes
clear_bytes m dest zero = m
clear_bytes m dest (suc n) = store (clear_bytes m dest n) (dest + n) 0

-- The copy of the file's part of a page, whose frame stands at `dest`.
unfoldable pub copy_page : Bytes → ℕ → ℕ → Segment → ℕ → Bytes
copy_page m dest image ph page =
    if not (copy_size ph page == 0)
    then memcpy m (dest + page_offset ph page) (image + ph.offset + copy_offset ph page)
        (copy_size ph page)
    else m

-- `sizeof(struct elf_loaded_page)`
abbrev pub loaded_page_size : ℕ
loaded_page_size = 12

module _ (machine : Machine) where
  open machine use {State, paging, set_paging, memory, set_memory, kmalloc, kfree}

  -- The list has the virtual address of each page and the address of its node.
  pub record Loader : Type 0 where
    pub state : State
    pub loaded : List (ℕ × ℕ)

  unfoldable pub unmap_free : State → ℕ → ℕ → ℕ → Result State
  unmap_free st directory page phys = paging_unmap (paging st) directory page >>= λ p.
      done (set_paging st (record p { pmm = pmm_free_page p.pmm phys }))

  -- A mapped page joins the list, unless its node is NULL, and gets its part of the file.
  unfoldable pub record_page : ℕ → ℕ → Segment → ℕ → ℕ → Loader → State × ℕ → Result (Loader × Bool)
  record_page directory image ph page phys l (st, node) =
      if node == 0
      then (unmap_free st directory page phys >>= λ t. done (record l { state = t }, false))
      else done (
        record {
          state = set_memory st (copy_page (memory st) (phys_to_virt phys) image ph page);
          loaded = (page, node) ∷ l.loaded;
        },
        true,
      )

  -- The page once its frame is mapped and cleared.
  unfoldable pub check_page : ℕ → ℕ → Segment → ℕ → ℕ → Loader → Result (Loader × Bool)
  check_page directory image ph page phys l =
      if not (paging_translate (paging l.state) directory page == phys)
      then (unmap_free l.state directory page phys >>= λ t. done (record l { state = t }, false))
      else kmalloc l.state loaded_page_size >>= record_page directory image ph page phys l

  -- The page with what `pmm_alloc_page` returns.
  unfoldable pub frame_page : ℕ → ℕ → Segment → ℕ → Loader → Pmm × ℕ → Result (Loader × Bool)
  frame_page directory image ph page l (pmm, phys) =
      let st = set_paging l.state (record (paging l.state) { pmm = pmm }) in
      if phys == 0
      then done (record l { state = st }, false)
      else let cleared = set_memory st (clear_bytes (memory st) (phys_to_virt phys) page_size) in
        check_page directory image ph page phys (record l {
          state =
              set_paging cleared (paging_map (paging cleared) directory page phys (page_flags ph));
        })

  unfoldable pub load_page : ℕ → ℕ → Segment → ℕ → Loader → Result (Loader × Bool)
  load_page directory image ph page l =
      frame_page directory image ph page l (pmm_alloc_page (paging l.state).pmm)

  -- What follows a page: the next, or the failure.
  unfoldable pub and_then :
      (Loader → Result (Loader × Bool)) → Loader × Bool → Result (Loader × Bool)
  and_then next (l, ok) = if ok then next l else done (l, false)

  -- The pages from `page` on, with `n` left.
  unfoldable pub load_pages : ℕ → ℕ → Segment → ℕ → ℕ → Loader → Result (Loader × Bool)
  load_pages directory image ph zero page l = done (l, true)
  load_pages directory image ph (suc n) page l =
      load_page directory image ph page l
      >>= and_then (load_pages directory image ph n (page + page_size))

  -- The loop runs while `page < segment_end`.
  unfoldable pub load_segment : ℕ → ℕ → ℕ → Segment → Loader → Result (Loader × Bool)
  load_segment directory image size ph l =
      if not (ph.kind == 1)
      then done (l, true)
      else if not (segment_fits ph size)
      then done (l, false)
      else load_pages directory image ph ((segment_end ph - segment_start ph) / page_size)
          (segment_start ph) l

  -- The segments from `i` on, with `n` left.
  unfoldable pub load_segments : ℕ → ℕ → ℕ → ℕ → ℕ → Loader → Result (Loader × Bool)
  load_segments directory image size zero i l = done (l, true)
  load_segments directory image size (suc n) i l =
      load_segment directory image size (program_header (memory l.state) image i) l
      >>= and_then (load_segments directory image size n (i + 1))

  -- The loop behind `fail`.
  unfoldable pub unload : ℕ → State → List (ℕ × ℕ) → Result State
  unload directory st [] = done st
  unload directory st ((virt, node) ∷ loaded) =
      let phys = paging_translate (paging st) directory virt in
      paging_unmap (paging st) directory virt >>= λ p.
      let q = if not (phys == 0) then record p { pmm = pmm_free_page p.pmm phys } else p in
      kfree (set_paging st q) node >>= λ t. unload directory t loaded

  -- The state, the entry point and the result.
  unfoldable pub finish : ℕ → ℕ → Loader × Bool → Result (State × ℕ × ℕ)
  finish directory image (l, ok) =
      if ok
      then done (l.state, e_entry (memory l.state) image, 1)
      else (unload directory l.state l.loaded >>= λ t. done (t, 0, 0))

  unfoldable pub elf_load : ℕ → ℕ → ℕ → ℕ → State → Result (State × ℕ × ℕ)
  elf_load directory image size entry st =
      if (directory == 0 || image == 0) || entry == 0
      then done (st, 0, 0)
      else if elf_validate (memory st) image size == 0
      then done (st, 0, 0)
      else load_segments directory image size (e_phnum (memory st) image) 0
          (record { state = st; loaded = [] })
        >>= finish directory image
