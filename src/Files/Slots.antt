-- ===== src/Files/Slots.antt =====
-- The open files of a process, in kernel/task/process.c.
use neox.Base.{
  ℕ, zero, suc, ◌+◌, ◌<◌, ◌≡◌, ◌≢◌, ◌⊎◌, inl, inr, refl, sym, ◌∙◌, ap, subst, fun_ext, true, false,
  not, ◌&&◌, Bool-cases, none, some, ◌==◌, ==_cases, ==_true, ==_false, if◌then◌else◌, arith,
}
use neox.Base.Memory.{Bytes, AreBytes}
use neox.Base.Result.{done-inj, Result, done, ◌>>=◌}
use neox.Strings.{IsString}
use neox.Strings.Compare.{SameString}
use neox.Fs.{Fs, failure, file_count, fs_find}
use neox.Fs.Mount.{IsImage}
use neox.Fs.Find.{entry_at, Found, fs_find-Found}
use neox.Files.{
  File, access_read, access_write, access_read_write, open_entry, file_open, OpenFiles, update,
  process_max_files, use_slot, open_from, process_open, process_get_file, close_slot, process_close,
}

-- One of the three ways to open a file.
abbrev pub IsAccess : ℕ → Type 0
IsAccess access = (access ≡ access_read) ⊎ ((access ≡ access_write) ⊎ (access ≡ access_read_write))

-- How `process_open` ends, for a path of `n` bytes.
pub data Opened (m : Bytes) (s : Fs) (p : OpenFiles) (path n access : ℕ)
    : Result (OpenFiles × ℕ) → Type 0 where
  opened :
      (fd i : ℕ)
      → fd < process_max_files
      → p.used fd ≡ false
      → ((j : ℕ) → j < fd → p.used j ≡ true)
      → i < file_count m s.superblock
      → SameString m (entry_at m s i) path n
      → ((j : ℕ) → j < i → ¬ SameString m (entry_at m s j) path n)
      → Opened m s p path n access (
          done (
            record {
              file =
                  update p.file fd
                    (record { fs_file = entry_at m s i; position = 0; access = access });
              used = update p.used fd true;
            },
            fd,
          ))
  no_file :
      ((j : ℕ) → j < file_count m s.superblock → ¬ SameString m (entry_at m s j) path n)
      → Opened m s p path n access (done (p, failure))
  no_slot :
      ((j : ℕ) → j < process_max_files → p.used j ≡ true)
      → Opened m s p path n access (done (p, failure))

update_at {ℓ} : {A : Type ℓ} (f : ℕ → A) (i j : ℕ) → update f i (f i) j ≡ f j
update_at f i j = elim (==_cases j i) [
  | inl here ↦ rw (==_true j i here) (ap f (sym here))
  | inr other ↦ rw (==_false j i other) refl
]

update_same {ℓ} : {A : Type ℓ} (f : ℕ → A) (i : ℕ) → update f i (f i) ≡ f
update_same f i = fun_ext (update_at f i)

module _ (m : Bytes) (s : Fs) (p : OpenFiles) (path n access fuel : ℕ) (v : AreBytes m)
    (mounted : IsImage m s.image s.image_size) (cast : s.superblock ≡ s.image)
    (is : IsString m path n) (enough : n < fuel) (some_path : path ≢ 0)
    (how : IsAccess access) where
  permitted :
      (not (access == access_read)
        && not (access == access_write)
        && not (access == access_read_write))
      ≡ false
  permitted = ground (arith, how)

  file_open_lem :
      (file : File)
      → file_open fuel m s path access file
        ≡ (fs_find fuel m s path >>= λ fs_file. done (open_entry file access fs_file))
  unfolding file_open
  file_open_lem file = rw (permitted, ==_false path 0 some_path) refl

  slot_outcome :
      (fd : ℕ)
      → fd < process_max_files
      → p.used fd ≡ false
      → ((j : ℕ) → j < fd → p.used j ≡ true)
      → {r : Result ℕ} → Found m s path n r
      → Opened m s p path n access (
          (r >>= λ fs_file. done (open_entry (p.file fd) access fs_file)) >>= λ q.
          done (use_slot p fd q))
  unfolding use_slot open_entry
  slot_outcome fd h free before (Found.entry i below inside same first) =
      let some_entry : entry_at m s i ≢ 0 = λ z. mounted.present (omega arith) in
      rw (==_false (entry_at m s i) 0 some_entry) (opened fd i h free before below same first)
  slot_outcome fd h free before (Found.missing absent) = rw (update_same p.file fd) (no_file absent)

  fs_find-Found_path : Found m s path n (fs_find fuel m s path)
  fs_find-Found_path = fs_find-Found m s path n fuel v mounted cast is enough

  scan :
      (k fd : ℕ)
      → fd + k ≡ process_max_files
      → ((j : ℕ) → j < fd → p.used j ≡ true)
      → Opened m s p path n access (open_from fuel m s p path access k fd)
  unfolding open_from
  scan zero fd e before = no_slot (λ j h. before j (omega arith))
  scan (suc k) fd e before = elim (Bool-cases (p.used fd)) [
    | inl taken ↦ rw taken (
        scan k (fd + 1) (omega arith) (λ j h. elim (==_cases j fd) [
          | inl here ↦ ap p.used here ∙ taken
          | inr lower ↦ before j (omega arith)
        ]))
    | inr free ↦
        rw (free, file_open_lem (p.file fd))
          (slot_outcome fd (omega arith) free before fs_find-Found_path)
  ]

  -- process_open with one of the three ways to open a file, a path that is not NULL, a mounted
  -- image and fuel above the length of the path returns: the first free descriptor, which is taken
  -- and stands for the first file of that name at its start; or -1 with the same open files, since
  -- no file has the name or no descriptor is free.
  pub process_open-Opened : Opened m s p path n access (process_open fuel m s p path access)
  unfolding process_open
  process_open-Opened =
      rw (==_false path 0 some_path) (scan process_max_files 0 refl (λ j h. absurd (omega arith)))

-- What `process_close` leaves of the slots.
pub record Closed (p : OpenFiles) (fd : ℕ) (r : OpenFiles × ℕ) : Type 0 where
  pub result : r.1 ≡ 0
  pub used : (j : ℕ) → r.0.used j ≡ (if j == fd then false else p.used j)
  pub file : (j : ℕ) → j ≢ fd → r.0.file j ≡ p.file j

module _ (p : OpenFiles) (fd : ℕ) (low : fd < process_max_files) where
  get_used : p.used fd ≡ true → process_get_file p fd ≡ some fd
  unfolding process_get_file
  get_used h = ground arith

  get_free : p.used fd ≡ false → process_get_file p fd ≡ none
  unfolding process_get_file
  get_free h = ground arith

  process_close-Closed : p.used fd ≡ true → Closed p fd (process_close p fd)
  unfolding process_close close_slot
  process_close-Closed h =
      rw (get_used h) (record {
        result = refl;
        used = λ j. refl;
        file = λ j other. rw (==_false j fd other) refl;
      })

-- The slots are those before the file was opened, and the descriptor is free again.
pub record Restored (p : OpenFiles) (fd : ℕ) (r : OpenFiles × ℕ) : Type 0 where
  pub result : r.1 ≡ 0
  pub used : (j : ℕ) → r.0.used j ≡ p.used j
  pub file : (j : ℕ) → j ≢ fd → r.0.file j ≡ p.file j
  pub free : process_get_file r.0 fd ≡ none

Closed-Restored :
    (p t : OpenFiles) (fd : ℕ) (r : OpenFiles × ℕ)
    → fd < process_max_files
    → p.used fd ≡ false
    → ((j : ℕ) → j ≢ fd → (t.used j ≡ p.used j) × (t.file j ≡ p.file j))
    → Closed t fd r
    → Restored p fd r
Closed-Restored p t fd r low free others c = record {
  result = c.result;
  used = λ j. c.used j ∙ used_before j;
  file = λ j other. c.file j other ∙ (others j other).1;
  free = get_free r.0 fd low (c.used fd ∙ rw (==_true fd fd refl) refl);
}
  where
    used_before : (j : ℕ) → (if j == fd then false else t.used j) ≡ p.used j
    used_before j = elim (==_cases j fd) [
      | inl here ↦ rw (==_true j fd here) (sym (ap p.used here ∙ free))
      | inr other ↦ rw (==_false j fd other) (others j other).0
    ]

Opened-Restored :
    {m : Bytes} {s : Fs} {p : OpenFiles} {path n access : ℕ} {r : Result (OpenFiles × ℕ)}
    → Opened m s p path n access r
    → (t : OpenFiles) (fd : ℕ) → r ≡ done (t, fd)
    → fd ≢ failure
    → Restored p fd (process_close t fd)
Opened-Restored {p} (Opened.opened slot i low free before below same first) t fd e ok =
    subst (λ (x : OpenFiles × ℕ). Restored p x.1 (process_close x.0 x.1)) (done-inj e)
      (Closed-Restored p _ slot _ low free
        (λ j other. (rw (==_false j slot other) refl, rw (==_false j slot other) refl))
        (process_close-Closed _ slot low (rw (==_true slot slot refl) refl)))
Opened-Restored (Opened.no_file absent) t fd e ok = absurd (ok (cc))
Opened-Restored (Opened.no_slot full) t fd e ok = absurd (ok (cc))

module _ (m : Bytes) (s : Fs) (p : OpenFiles) (path n access fuel : ℕ) (v : AreBytes m)
    (mounted : IsImage m s.image s.image_size) (cast : s.superblock ≡ s.image)
    (is : IsString m path n) (enough : n < fuel) (some_path : path ≢ 0) (how : IsAccess access)
    (t : OpenFiles) (fd : ℕ) (success : process_open fuel m s p path access ≡ done (t, fd))
    (ok : fd ≢ failure) where
  -- Where process_open, in the setting above, returns a descriptor other than -1, process_close of
  -- it returns 0, the descriptor is free again, and all descriptors are taken or free and all other
  -- open files are as before process_open.
  pub process_close-process_open : Restored p fd (process_close t fd)
  process_close-process_open =
      Opened-Restored
        (process_open-Opened m s p path n access fuel v mounted cast is enough some_path how) t fd
        success ok
