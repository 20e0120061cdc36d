-- ===== src/Files/Read.antt =====
-- `file_read` of kernel/file/file.c on an open file whose data lie in the image.
use neox.Base.{
  ℕ, ◌+◌, ◌-◌, ◌^◌, ◌≤◌, ◌<◌, ◌≡◌, ◌≢◌, ◌⊎◌, inl, inr, refl, ap, true, false, not, ◌&&◌, leb, ltb,
  within, ◌==◌, ==_false, ==_cases, if◌then◌else◌, u32, arith,
}
use neox.Base.Memory.{Bytes}
use neox.Strings.Copy.{Apart, memcpy_lem}
use neox.Fs.{Fs, entry_size}
use neox.Files.{File, access_read, access_read_write, file_data, file_size, read_bytes, file_read}

-- A file that is open for reading, with its data in the image.
pub record IsOpen (m : Bytes) (s : Fs) (file : File) : Type 0 where
  pub entry : file.fs_file ≢ 0
  pub readable : (file.access ≡ access_read) ⊎ (file.access ≡ access_read_write)
  pub has_data : file_data m s file ≢ 0
  pub small : file_size m file < 2 ^ 32
  pub position : file.position ≤ file_size m file

-- A buffer away from the data of the file and from its entry.
pub record IsBuffer (m : Bytes) (s : Fs) (file : File) (buffer count : ℕ) : Type 0 where
  pub present : buffer ≢ 0
  pub off_data :
      (buffer + count ≤ file_data m s file) ⊎ (file_data m s file + file_size m file ≤ buffer)
  pub off_entry : (buffer + count ≤ file.fs_file) ⊎ (file.fs_file + entry_size ≤ buffer)

abbrev pub min : ℕ → ℕ → ℕ
min a b = if ltb b a then b else a

pub min-le_left : (a b : ℕ) → min a b ≤ a
min-le_left a b = ground arith

pub min-le_right : (a b : ℕ) → min a b ≤ b
min-le_right a b = ground arith

-- A part of the data is away from the buffer, and the position does not wrap.
part-Apart :
    (buffer count data_start size position n : ℕ)
    → (buffer + count ≤ data_start) ⊎ (data_start + size ≤ buffer)
    → n ≤ count
    → n ≤ size - position
    → position ≤ size
    → Apart buffer (data_start + position) n
part-Apart buffer count data_start size position n off h k low = ground arith

no_wrap :
    (position n size : ℕ)
    → n ≤ size - position
    → position ≤ size
    → size < 2 ^ 32
    → u32 (position + n) ≡ position + n
no_wrap position n size h low small = omega arith

-- What a read of a file changes.
pub record ReadBytes (m : Bytes) (s : Fs) (file : File) (buffer count : ℕ) (r : Bytes × File × ℕ)
    : Type 0 where
  pub result : r.2 ≡ min count (file_size m file - file.position)
  pub file_after : r.1 ≡ record file { position = file.position + r.2 }
  pub memory :
      (j : ℕ)
      → r.0 j ≡ (
          if within buffer r.2 j
          then m (file_data m s file + file.position + (j - buffer))
          else m j)

module _ (m : Bytes) (s : Fs) (file : File) (buffer count : ℕ) (o : IsOpen m s file)
    (b : IsBuffer m s file buffer count) where
  permitted : (not (file.access == access_read) && not (file.access == access_read_write)) ≡ false
  permitted = ground (arith, o.readable)

  at_end : file.position ≡ file_size m file → file_read m s file buffer count ≡ (m, file, 0)
  unfolding file_read
  at_end h =
      let over : leb (file_size m file) file.position ≡ true = ground arith in
      rw (==_false buffer 0 b.present, ==_false file.fs_file 0 o.entry, permitted, over) refl

  reads :
      file.position < file_size m file
      → file_read m s file buffer count
        ≡ read_bytes m s file buffer (min count (file_size m file - file.position))
  unfolding file_read
  reads h =
      let inside : leb (file_size m file) file.position ≡ false = ground arith in
      rw (==_false buffer 0 b.present, ==_false file.fs_file 0 o.entry, permitted, inside) refl

  pub file_read-ReadBytes : ReadBytes m s file buffer count (file_read m s file buffer count)
  unfolding read_bytes
  file_read-ReadBytes = elim (==_cases file.position (file_size m file)) [
    | inl done ↦ rw (at_end done) (record {
      result = ground arith;
      file_after = ap (λ x. record file { position = x }) (omega arith);
      memory = λ j. ground arith;
    })
    | inr more ↦ rw (reads (omega (arith, o.position))) (record {
      result = refl;
      file_after =
          ap (λ x. record file { position = x })
            (no_wrap file.position _ (file_size m file) (min-le_right count _) o.position o.small);
      memory = λ j. memcpy_lem m buffer _ _ j (
          part-Apart buffer count (file_data m s file) (file_size m file) file.position _ b.off_data
            (min-le_left count _) (min-le_right count _) o.position);
    })
  ]
