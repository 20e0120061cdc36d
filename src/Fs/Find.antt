-- ===== src/Fs/Find.antt =====
-- The lookup of a name by `fs_find` of kernel/fs/fs.c.
use neox.Base.{
  ℕ, zero, suc, ◌+◌, ◌*◌, ◌≤◌, ◌<◌, ◌≡◌, ◌≢◌, inl, inr, refl, sym, ◌∙◌, ap, subst, ◌==◌, ==_cases,
  ==_true, ==_false, if◌then◌else◌, arith,
}
use neox.Base.Memory.{Bytes, AreBytes}
use neox.Base.Result.{Result, done}
use neox.Strings.{IsString, strcmp}
use neox.Strings.Compare.{SameString, strcmp-SameString}
use neox.Fs.{Fs, file_count, files_offset, data_offset, entry_size, find_from, fs_find}
use neox.Fs.Mount.{IsImage}

-- The address of an entry of the table.
abbrev pub entry_at : Bytes → Fs → ℕ → ℕ
entry_at m s i = s.image + files_offset m s.superblock + i * entry_size

-- How `fs_find` ends, for a path of `n` bytes.
pub data Found (m : Bytes) (s : Fs) (path n : ℕ) : Result ℕ → Type 0 where
  entry :
      (i : ℕ)
      → i < file_count m s.superblock
      → entry_at m s i + entry_size ≤ s.image + s.image_size
      → SameString m (entry_at m s i) path n
      → ((j : ℕ) → j < i → ¬ SameString m (entry_at m s j) path n)
      → Found m s path n (done (entry_at m s i))
  missing :
      ((j : ℕ) → j < file_count m s.superblock → ¬ SameString m (entry_at m s j) path n)
      → Found m s path n (done 0)

inside_image :
    (base offset count start size i : ℕ)
    → i < count
    → offset + count * entry_size ≤ start
    → start ≤ size
    → base + offset + i * entry_size + entry_size ≤ base + size
inside_image base offset count start size i h table inside = omega arith

module _ (m : Bytes) (s : Fs) (path n fuel : ℕ) (v : AreBytes m)
    (mounted : IsImage m s.image s.image_size) (cast : s.superblock ≡ s.image)
    (is : IsString m path n) (enough : n < fuel) where
  entry_inside :
      (i : ℕ) → i < file_count m s.superblock → entry_at m s i + entry_size ≤ s.image + s.image_size
  entry_inside i h =
      let count = ap (file_count m) cast in
      let offset = ap (files_offset m) cast in
      let bound =
        inside_image s.image (files_offset m s.image) (file_count m s.image) (data_offset m s.image)
          s.image_size i (subst (λ x. i < x) count h) mounted.table mounted.inside in
      subst (λ x. s.image + x + i * entry_size + entry_size ≤ s.image + s.image_size) (sym offset)
        bound

  find_step :
      (i k r : ℕ)
      → strcmp fuel m (entry_at m s i) path ≡ done r
      → find_from fuel m (s.image + files_offset m s.superblock) path (suc k) i ≡ (
          if r == 0
          then done (entry_at m s i)
          else find_from fuel m (s.image + files_offset m s.superblock) path k (i + 1))
  unfolding find_from
  find_step i k r h = rw h refl

  find_from-Found :
      (k i : ℕ)
      → i + k ≡ file_count m s.superblock
      → ((j : ℕ) → j < i → ¬ SameString m (entry_at m s j) path n)
      → Found m s path n (find_from fuel m (s.image + files_offset m s.superblock) path k i)
  unfolding find_from
  find_from-Found zero i e before = missing (λ j h. before j (omega arith))
  find_from-Found (suc k) i e before =
      let c = strcmp-SameString m v (entry_at m s i) path n fuel is enough in
      elim (==_cases c.0 0) [
        | inl same ↦
            rw (find_step i k c.0 c.1, ==_true c.0 0 same)
              (entry i (omega arith) (entry_inside i (omega arith)) (c.2.0 same) before)
        | inr other ↦
            rw (find_step i k c.0 c.1, ==_false c.0 0 other)
              (find_from-Found k (i + 1) (omega arith) (λ j h. elim (==_cases j i) [
                | inl here ↦ λ same.
                    other (c.2.1 (subst (λ x. SameString m (entry_at m s x) path n) here same))
                | inr before_i ↦ before j (omega arith)
              ]))
      ]

  -- fs_find on a mounted image, with a path of n bytes and fuel above n, returns: the address of
  -- the first entry with that name, which lies inside the image; or NULL, since no entry has the
  -- name.
  pub fs_find-Found : Found m s path n (fs_find fuel m s path)
  unfolding fs_find
  fs_find-Found =
      let some : s.superblock ≢ 0 = λ h. mounted.present (sym cast ∙ h) in
      rw (==_false s.superblock 0 some)
        (find_from-Found (file_count m s.superblock) 0 (omega arith) (λ j h. absurd (omega arith)))
