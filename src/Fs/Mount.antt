-- ===== src/Fs/Mount.antt =====
-- The images that `fs_mount` of kernel/fs/fs.c accepts.
use neox.Base.{
  ℕ, ◌+◌, ◌-◌, ◌*◌, ◌/◌, ◌^◌, ◌≤◌, ◌<◌, ◌≡◌, ◌≢◌, ◌↔◌, refl, sym, ◌∙◌, not, ◌==◌, ==_false, ge→ltb,
  if◌then◌else◌, ltb, u32, arith,
}
use neox.Base.Memory.{Bytes, AreBytes}
use neox.Strings.{word}
use neox.Fs.{
  Fs, failure, fs_magic, fs_version, magic, version, file_count, files_offset, data_offset,
  superblock_size, entry_size, check_image, fs_mount,
}

-- The superblock, the table of files and the data follow one another in the image; the sums are
-- those of ℕ.
pub record IsImage (m : Bytes) (image size : ℕ) : Type 0 where
  pub present : image ≢ 0
  pub header : superblock_size ≤ size
  pub marked : magic m image ≡ fs_magic
  pub current : version m image ≡ fs_version
  pub table : files_offset m image + file_count m image * entry_size ≤ data_offset m image
  pub inside : data_offset m image ≤ size

pub word-lt : (m : Bytes) (a : ℕ) → AreBytes m → word m a < 2 ^ 32
word-lt m a v = omega (arith, v a, v (a + 1), v (a + 2), v (a + 2 + 1))

-- The checks, by the fields that they read.
checks : (kind release files offset start size : ℕ) → ℕ
checks kind release files offset start size =
    if not (kind == fs_magic)
    then failure
    else if not (release == fs_version)
    then failure
    else if ltb size offset
    then failure
    else if ltb ((size - offset) / entry_size) files
    then failure
    else if ltb start (u32 (offset + u32 (files * entry_size)))
    then failure
    else if ltb size start
    then failure
    else 0

module _ (kind release files offset start size : ℕ) (files_small : files < 2 ^ 32)
    (offset_small : offset < 2 ^ 32) (start_small : start < 2 ^ 32) (small : size < 2 ^ 32) where
  -- The table ends inside the image, and no sum of the code wraps.
  no_wrap :
      offset ≤ size
      → files ≤ (size - offset) / entry_size
      → u32 (offset + u32 (files * entry_size)) ≡ offset + files * entry_size
  no_wrap h k = omega arith

  accepted :
      checks kind release files offset start size ≡ 0
      → (kind ≡ fs_magic)
        × (release ≡ fs_version)
        × (offset + files * entry_size ≤ start)
        × (start ≤ size)
  unfolding checks
  accepted h = ground (arith, no_wrap)

  accepts :
      kind ≡ fs_magic
      → release ≡ fs_version
      → offset + files * entry_size ≤ start
      → start ≤ size
      → checks kind release files offset start size ≡ 0
  unfolding checks
  accepts marked current table inside =
      let whole : u32 (offset + u32 (files * entry_size)) ≡ offset + files * entry_size =
        omega arith in
      ground (arith, whole)

module _ (m : Bytes) (s : Fs) (image size : ℕ) (v : AreBytes m) (small : size < 2 ^ 32) where
  check_lem :
      check_image m image size
      ≡ checks
          (magic m image)
          (version m image)
          (file_count m image)
          (files_offset m image)
          (data_offset m image)
          size
  unfolding check_image checks
  check_lem = refl

  mount_lem :
      image ≢ 0 → superblock_size ≤ size → (fs_mount m s image size).1 ≡ check_image m image size
  unfolding fs_mount
  mount_lem h k = rw (==_false image 0 h, ge→ltb size superblock_size k) refl

  mount_present : (fs_mount m s image size).1 ≡ 0 → (image ≢ 0) × (superblock_size ≤ size)
  unfolding fs_mount
  mount_present h = ground arith

  -- For an image of bytes with a 32-bit size, fs_mount returns 0 exactly when the image is not
  -- NULL, has room for its superblock, has the magic number and the version, and has its table of
  -- files, as long as the superblock says, before its data, which start inside the image.
  pub fs_mount-IsImage : ((fs_mount m s image size).1 ≡ 0) ↔ IsImage m image size
  fs_mount-IsImage = (sound, complete)
    where
      sound : (fs_mount m s image size).1 ≡ 0 → IsImage m image size
      sound h =
          let p = mount_present h in
          let q =
            accepted (magic m image) (version m image) (file_count m image) (files_offset m image)
              (data_offset m image) size (word-lt m _ v) (word-lt m _ v) (word-lt m _ v) small
              (sym check_lem ∙ sym (mount_lem p.0 p.1) ∙ h) in
          record {
            present = p.0;
            header = p.1;
            marked = q.0;
            current = q.1;
            table = q.2;
            inside = q.3;
          }

      complete : IsImage m image size → (fs_mount m s image size).1 ≡ 0
      complete w =
          mount_lem w.present w.header
          ∙ check_lem
          ∙ accepts (magic m image) (version m image) (file_count m image) (files_offset m image)
              (data_offset m image) size (word-lt m _ v) (word-lt m _ v) (word-lt m _ v) small
              w.marked w.current w.table w.inside
