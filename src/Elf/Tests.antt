-- ===== src/Elf/Tests.antt =====
-- The theorems on images of programs, at a header and a segment.
use neox.Base.{
  ◌+◌, ◌*◌, ◌≤◌, ◌≡◌, ◌↔◌, inl, refl, true, ◌&&◌, leb, ltb, ◌==◌, if◌then◌else◌, page_size, arith,
}
use neox.Base.Memory.{Bytes, AreBytes}
use neox.Elf.{
  Segment, segment_fits, page_offset, copy_offset, copy_size, elf_validate, clear_bytes, copy_page,
}
use neox.Elf.Header.{IsHeader, elf_validate-IsHeader}
use neox.Elf.Content.{page_of, copy_in_bounds, page_bytes}

-- An image at 100 with one program header, behind the header of the file, for a segment that is the
-- image itself at 0x400000.
abbrev image : Bytes
image j =
    if j == 100
    then 0x7F
    else if j == 101
    then 0x45
    else if j == 102
    then 0x4C
    else if j == 103
    then 0x46
    else if j == 104
    then 1
    else if j == 105
    then 1
    else if j == 116
    then 2
    else if j == 118
    then 3
    else if j == 128
    then 52
    else if j == 142
    then 32
    else if j == 144
    then 1
    else if j == 152
    then 1
    else if j == 162
    then 0x40
    else if j == 168
    then 84
    else if j == 172
    then 84
    else 0

image-AreBytes : AreBytes image
image-AreBytes j = ground arith

accepted_image : elf_validate image 100 84 ≡ 1
unfolding elf_validate
accepted_image = refl

elf_validate-IsHeader_example : (elf_validate image 100 84 ≡ 1) ↔ IsHeader image 100 84
elf_validate-IsHeader_example = elf_validate-IsHeader image 100 84 image-AreBytes

-- A segment over two pages, with 5000 of its 6000 bytes in the file.
abbrev two_pages : Segment
two_pages = record {
  kind = 1;
  offset = 84;
  vaddr = 0x400000;
  filesz = 5000;
  memsz = 6000;
  flags = 5;
}

fits : segment_fits two_pages 5084 ≡ true
unfolding segment_fits
fits = refl

copy_in_bounds_example :
    (page_offset two_pages (page_of two_pages 1) + copy_size two_pages (page_of two_pages 1)
      ≤ page_size)
    × (84 + copy_offset two_pages (page_of two_pages 1) + copy_size two_pages (page_of two_pages 1)
        ≤ 5084)
copy_in_bounds_example =
    copy_in_bounds two_pages 1 (omega arith) 5084 fits (λ e. absurd (omega arith))

page_bytes_example :
    copy_page
      (clear_bytes image 0x10000 page_size)
      0x10000
      100
      two_pages
      (page_of two_pages 1)
      (0x10000 + 7)
    ≡ (if leb 0x400000 (page_of two_pages 1 + 7) && ltb (1 * page_size + 7) 5000
        then image (100 + 84 + (1 * page_size + 7))
        else 0)
page_bytes_example =
    page_bytes image 0x10000 100 two_pages 1 (omega arith) (inl (omega arith)) 7 (omega arith)
