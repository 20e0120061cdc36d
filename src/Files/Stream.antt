-- ===== src/Files/Stream.antt =====
-- Sequences of reads of an open file.
use neox.Base.{
  ℕ, zero, suc, ◌+◌, ◌-◌, ◌≤◌, ◌<◌, ◌≡◌, ◌⊎◌, refl, sym, ◌∙◌, ap, subst, List, [], ◌∷◌, ◌++◌, arith,
}
use neox.Base.Memory.{Bytes}
use neox.Strings.{word}
use neox.Fs.{Fs, entry_size, fs_file_data, fs_file_size}
use neox.Strings.Copy.{within_iff, beyond}
use neox.Files.{File, access_read, access_read_write, file_data, file_size, file_read}
use neox.Files.Read.{
  IsOpen, IsBuffer, min, min-le_left, min-le_right, ReadBytes, file_read-ReadBytes,
}

-- The `n` bytes from an address on.
unfoldable pub bytes_at : Bytes → ℕ → ℕ → List ℕ
bytes_at m a zero = []
bytes_at m a (suc n) = m a ∷ bytes_at m (a + 1) n

pub bytes_at-append :
    (m : Bytes) (a n k : ℕ) → bytes_at m a (n + k) ≡ bytes_at m a n ++ bytes_at m (a + n) k
unfolding bytes_at
bytes_at-append m a zero k = ground arith
bytes_at-append m a (suc n) k =
    let e : suc n + k ≡ suc (n + k) = omega arith in
    let f : a + suc n ≡ a + 1 + n = omega arith in
    rw (e, f) (ap (λ l. m a ∷ l) (bytes_at-append m (a + 1) n k))

pub bytes_at-same :
    (m t : Bytes) (a b n : ℕ)
    → ((k : ℕ) → k < n → t (a + k) ≡ m (b + k))
    → bytes_at t a n ≡ bytes_at m b n
unfolding bytes_at
bytes_at-same m t a b zero same = refl
bytes_at-same m t a b (suc n) same =
    let first : t a ≡ m b = ground (arith, same 0) in
    let rest = bytes_at-same m t (a + 1) (b + 1) n (λ k h. ground (arith, same (suc k))) in
    ground (arith, first, rest)

-- The bytes that a sequence of reads, each with its buffer and its count, leaves in the buffers.
unfoldable pub read_sequence : Bytes → Fs → File → List (ℕ × ℕ) → List ℕ
read_sequence m s file [] = []
read_sequence m s file ((buffer, count) ∷ requests) =
    let (t, after, result) = file_read m s file buffer count in
    bytes_at t buffer result ++ read_sequence t s after requests

-- How many bytes a sequence of reads asks for.
abbrev pub requested : List (ℕ × ℕ) → ℕ
requested [] = 0
requested ((buffer, count) ∷ requests) = count + requested requests

-- Each buffer is away from the file.
abbrev pub AreBuffers : Bytes → Fs → File → List (ℕ × ℕ) → Type 0
AreBuffers m s file [] = Unit {0}
AreBuffers m s file ((buffer, count) ∷ requests) =
    IsBuffer m s file buffer count × AreBuffers m s file requests

-- Two memories that agree on the entry of a file.
module _ (m t : Bytes) (s : Fs) (entry : ℕ)
    (same : (j : ℕ) → entry ≤ j → j < entry + entry_size → t j ≡ m j) where
  word_same : (k : ℕ) → k + 4 ≤ entry_size → word t (entry + k) ≡ word m (entry + k)
  word_same k h = ground (
    arith,
    same (entry + k) (omega arith) (omega arith),
    same (entry + k + 1) (omega arith) (omega arith),
    same (entry + k + 2) (omega arith) (omega arith),
    same (entry + k + 2 + 1) (omega arith) (omega arith),
  )

  data_same : fs_file_data t s entry ≡ fs_file_data m s entry
  unfolding fs_file_data
  data_same = rw (word_same 64 (omega arith), word_same 68 (omega arith)) refl

  size_same : fs_file_size t entry ≡ fs_file_size m entry
  unfolding fs_file_size
  size_same = rw (word_same 68 (omega arith)) refl

module _ (m : Bytes) (s : Fs) (file : File) (buffer count : ℕ) (o : IsOpen m s file)
    (b : IsBuffer m s file buffer count) (t : Bytes) (after : File) (result : ℕ)
    (r : ReadBytes m s file buffer count (t, after, result)) where
  count_bound : result ≤ count
  count_bound = omega (arith, r.result, min-le_left count (file_size m file - file.position))

  rest_bound : file.position + result ≤ file_size m file
  rest_bound =
      omega (arith, r.result, o.position, min-le_right count (file_size m file - file.position))

  untouched : (j : ℕ) → (j < buffer) ⊎ (buffer + result ≤ j) → t j ≡ m j
  untouched j h = r.memory j ∙ rw (beyond buffer result j h) refl

  entry_kept : (j : ℕ) → file.fs_file ≤ j → j < file.fs_file + entry_size → t j ≡ m j
  entry_kept j h k = untouched j (ground (arith, b.off_entry, count_bound))

  data_kept :
      (k : ℕ) → k < file_size m file → t (file_data m s file + k) ≡ m (file_data m s file + k)
  data_kept k h = untouched _ (ground (arith, b.off_data, count_bound))

  data_after : file_data t s after ≡ file_data m s file
  unfolding file_data
  data_after = rw r.file_after (data_same m t s file.fs_file entry_kept)

  size_after : file_size t after ≡ file_size m file
  unfolding file_size
  size_after = rw r.file_after (rw (size_same m t s file.fs_file entry_kept) refl)

  position_after : after.position ≡ file.position + result
  position_after = ap (λ (f : File). f.position) r.file_after

  IsOpen-after : IsOpen t s after
  IsOpen-after = record {
    entry = λ h. o.entry (sym (ap (λ (f : File). f.fs_file) r.file_after) ∙ h);
    readable =
        subst (λ (f : File). (f.access ≡ access_read) ⊎ (f.access ≡ access_read_write))
          (sym r.file_after) o.readable;
    has_data = λ h. o.has_data (sym data_after ∙ h);
    small = omega (arith, size_after, o.small);
    position = omega (arith, size_after, position_after, rest_bound);
  }

  delivered : bytes_at t buffer result ≡ bytes_at m (file_data m s file + file.position) result
  delivered = bytes_at-same m t buffer _ result (λ k h.
      let offset : file_data m s file + file.position + (buffer + k - buffer)
          ≡ file_data m s file + file.position + k =
        omega arith in
      r.memory (buffer + k)
      ∙ rw (within_iff buffer result (buffer + k) (omega arith) (omega arith), offset) refl)

  -- The content behind what was read is the same in the memory after the read.
  rest_delivered :
      (more : ℕ)
      → bytes_at t
          (file_data t s after + after.position)
          (min more (file_size t after - after.position))
        ≡ bytes_at m
            (file_data m s file + file.position + result)
            (min more (file_size m file - (file.position + result)))
  rest_delivered more =
      rw (data_after, size_after, position_after)
        (bytes_at-same m t _ _ _ (λ k h.
          let bound = min-le_right more (file_size m file - (file.position + result)) in
          let e : file_data m s file + (file.position + result) + k
              ≡ file_data m s file + (file.position + result + k) =
            omega arith in
          let f : file_data m s file + file.position + result + k
              ≡ file_data m s file + (file.position + result + k) =
            omega arith in
          rw (e, f) (data_kept (file.position + result + k) (omega arith))))

  AreBuffers-after :
      (requests : List (ℕ × ℕ)) → AreBuffers m s file requests → AreBuffers t s after requests
  AreBuffers-after [] bs = tt
  AreBuffers-after ((next, more) ∷ requests) bs = (
    record {
      present = bs.0.present;
      off_data = rw (data_after, size_after) bs.0.off_data;
      off_entry = rw r.file_after bs.0.off_entry;
    },
    AreBuffers-after requests bs.1,
  )

min_step :
    (count more size position n : ℕ)
    → n ≡ min count (size - position)
    → min (count + more) (size - position) ≡ n + min more (size - (position + n))
min_step count more size position n h = ground arith

-- For any sequence of reads of a file that is open for reading, each with its buffer and its count,
-- where the data of the file are in the image and the buffers are away from them and from the entry
-- of the file, the bytes that file_read leaves in the buffers are, one after another, the content
-- of the file from its position on, as much as is asked for and there is.
pub read_sequence_lem :
    (requests : List (ℕ × ℕ)) (m : Bytes) (s : Fs) (file : File)
    → IsOpen m s file
    → AreBuffers m s file requests
    → read_sequence m s file requests
      ≡ bytes_at m
          (file_data m s file + file.position)
          (min (requested requests) (file_size m file - file.position))
unfolding read_sequence
read_sequence_lem [] m s file o bs =
    let none : min 0 (file_size m file - file.position) ≡ 0 = ground arith in
    rw none (unfold bytes_at in refl)
read_sequence_lem ((buffer, count) ∷ requests) m s file o bs =
    let r = file_read-ReadBytes m s file buffer count o bs.0 in
    let q = file_read m s file buffer count in
    let open_after = IsOpen-after m s file buffer count o bs.0 q.0 q.1 q.2 r in
    let ih =
      read_sequence_lem requests q.0 s q.1 open_after
        (AreBuffers-after m s file buffer count o bs.0 q.0 q.1 q.2 r requests bs.1) in
    ap (λ l. l ++ read_sequence q.0 s q.1 requests)
      (delivered m s file buffer count o bs.0 q.0 q.1 q.2 r)
    ∙ ap (λ l. bytes_at m (file_data m s file + file.position) q.2 ++ l)
        (ih ∙ rest_delivered m s file buffer count o bs.0 q.0 q.1 q.2 r (requested requests))
    ∙ sym (
        rw (min_step count (requested requests) (file_size m file) file.position q.2 r.result) (
          bytes_at-append m (file_data m s file + file.position) q.2
            (min (requested requests) (file_size m file - (file.position + q.2)))))
