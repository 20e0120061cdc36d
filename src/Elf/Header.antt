-- ===== src/Elf/Header.antt =====
-- The images that `elf_validate` of kernel/kernel/elf_loader.c accepts.
use neox.Base.{
  ℕ, ◌+◌, ◌-◌, ◌*◌, ◌≤◌, ◌<◌, ◌≡◌, ◌≢◌, ◌↔◌, refl, sym, ◌∙◌, Bool, true, not, ◌==◌, if◌then◌else◌,
  ltb, u32, arith,
}
use neox.Base.Memory.{Bytes, AreBytes}
use neox.Strings.{half, word}
use neox.Elf.{
  is_elf, e_type, e_machine, e_phoff, e_phentsize, e_phnum, header_size, program_header_size,
  elf_validate,
}

-- An executable for the 386 with at least one program header, all inside the image; the sum is that
-- of ℕ.
pub record IsHeader (m : Bytes) (image size : ℕ) : Type 0 where
  pub present : image ≢ 0
  pub sized : 52 ≤ size
  pub magic :
      (m image ≡ 0x7F) × (m (image + 1) ≡ 0x45) × (m (image + 2) ≡ 0x4C) × (m (image + 3) ≡ 0x46)
  pub class_32 : m (image + 4) ≡ 1
  pub little_endian : m (image + 5) ≡ 1
  pub executable : half m (image + 16) ≡ 2
  pub for_386 : half m (image + 18) ≡ 3
  pub entry_size : half m (image + 42) ≡ 32
  pub some : half m (image + 44) ≢ 0
  pub table : word m (image + 28) + half m (image + 44) * 32 ≤ size

half-lt : (m : Bytes) (a : ℕ) → AreBytes m → half m a < 65536
half-lt m a v = omega (arith, v a, v (a + 1))

-- The checks, by what they read.
checks : (image size : ℕ) (marked : Bool) (kind machine entry count start : ℕ) → ℕ
checks image size marked kind machine entry count start =
    if image == 0
    then 0
    else if ltb size header_size
    then 0
    else if not marked
    then 0
    else if not (kind == 2)
    then 0
    else if not (machine == 3)
    then 0
    else if not (entry == program_header_size)
    then 0
    else if count == 0
    then 0
    else if ltb size start
    then 0
    else if ltb (size - start) (u32 (count * program_header_size))
    then 0
    else 1

module _ (image size : ℕ) (marked : Bool) (kind machine entry count start : ℕ)
    (few : count < 65536) where
  whole : u32 (count * program_header_size) ≡ count * program_header_size
  whole = omega arith

  accepted :
      checks image size marked kind machine entry count start ≡ 1
      → (image ≢ 0)
        × (header_size ≤ size)
        × (marked ≡ true)
        × (kind ≡ 2)
        × (machine ≡ 3)
        × (entry ≡ program_header_size)
        × (count ≢ 0)
        × (start + count * program_header_size ≤ size)
  unfolding checks
  accepted h = ground (arith, whole)

  accepts :
      image ≢ 0
      → header_size ≤ size
      → marked ≡ true
      → kind ≡ 2
      → machine ≡ 3
      → entry ≡ program_header_size
      → count ≢ 0
      → start + count * program_header_size ≤ size
      → checks image size marked kind machine entry count start ≡ 1
  unfolding checks
  accepts h0 h1 h2 h3 h4 h5 h6 h7 = ground (arith, whole)

module _ (m : Bytes) (image size : ℕ) (v : AreBytes m) where
  check_lem :
      elf_validate m image size
      ≡ checks image size
          (is_elf m image)
          (e_type m image)
          (e_machine m image)
          (e_phentsize m image)
          (e_phnum m image)
          (e_phoff m image)
  unfolding elf_validate checks
  check_lem = refl

  is_elf-bytes :
      is_elf m image ≡ true
      → (m image ≡ 0x7F)
        × (m (image + 1) ≡ 0x45)
        × (m (image + 2) ≡ 0x4C)
        × (m (image + 3) ≡ 0x46)
        × (m (image + 4) ≡ 1)
        × (m (image + 5) ≡ 1)
  is_elf-bytes h = ground arith

  bytes-is_elf : IsHeader m image size → is_elf m image ≡ true
  bytes-is_elf w =
      ground (arith, w.magic.0, w.magic.1, w.magic.2, w.magic.3, w.class_32, w.little_endian)

  sound : elf_validate m image size ≡ 1 → IsHeader m image size
  sound h =
      let q =
        accepted image size (is_elf m image) (e_type m image) (e_machine m image)
          (e_phentsize m image) (e_phnum m image) (e_phoff m image) (half-lt m _ v)
          (sym check_lem ∙ h) in
      let marks = is_elf-bytes q.2 in
      record {
        present = q.0;
        sized = q.1;
        magic = (marks.0, marks.1, marks.2, marks.3);
        class_32 = marks.4;
        little_endian = marks.5;
        executable = q.3;
        for_386 = q.4;
        entry_size = q.5;
        some = q.6;
        table = q.7;
      }

  complete : IsHeader m image size → elf_validate m image size ≡ 1
  complete w =
      check_lem
      ∙ accepts image size (is_elf m image) (e_type m image) (e_machine m image)
          (e_phentsize m image) (e_phnum m image) (e_phoff m image) (half-lt m _ v) w.present
          w.sized (bytes-is_elf w) w.executable w.for_386 w.entry_size w.some w.table

  -- For an image of bytes, elf_validate returns 1 exactly when the image is not NULL, has room for
  -- its header, is a 32-bit little-endian executable for the 386, and has at least one program
  -- header of the right size with all of them inside the image.
  pub elf_validate-IsHeader : (elf_validate m image size ≡ 1) ↔ IsHeader m image size
  elf_validate-IsHeader = (sound, complete)
