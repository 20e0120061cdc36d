-- ===== src/Multiboot/Walk.antt =====
-- What the walks over the tags of the boot information find.
use neox.Base.{
  ℕ, zero, suc, ◌+◌, ◌*◌, ◌^◌, ◌≤◌, ◌<◌, ◌≡◌, ◌≢◌, inl, inr, refl, sym, ap, subst, List, [], ◌∷◌,
  ◌++◌, length, ==_cases, ==_true, ==_false, arith,
}
use neox.Base.Memory.{Bytes, AreBytes}
use neox.Base.Result.{Result, done}
use neox.Strings.{IsString}
use neox.Strings.Compare.{SameString, strcmp-SameString}
use neox.Multiboot.{
  tag_type, tag_size, tag_type_end, tag_type_module, cmdline, multiboot2_first_tag,
  multiboot2_next_tag, find_tag_from, multiboot2_find_tag, find_module_from, multiboot2_find_module,
}

-- A tag is followed by the next one after its size, rounded up to a multiple of 8; the rounding
-- stays below 4 GiB.
pub record IsNext (m : Bytes) (tag next : ℕ) : Type 0 where
  pub rounds : ℕ
  pub multiple : next ≡ tag + 8 * rounds
  pub covers : tag_size m tag ≤ 8 * rounds
  pub close : 8 * rounds < tag_size m tag + 8
  pub small : 8 * rounds < 2 ^ 32

-- The tags from an address on, up to the one that ends them.
abbrev pub AreTags : Bytes → ℕ → List ℕ → Type 0
AreTags m address [] = tag_type m address ≡ tag_type_end
AreTags m address (tag ∷ tags) =
    (tag ≡ address)
    × (tag_type m tag ≢ tag_type_end)
    × (next : ℕ) × IsNext m tag next
    × AreTags m next tags

next_lem : (m : Bytes) (tag next : ℕ) → IsNext m tag next → multiboot2_next_tag m tag ≡ next
unfolding multiboot2_next_tag
next_lem m tag next n = omega (arith, n.multiple, n.covers, n.close, n.small)

AreTags-next :
    (m : Bytes) (tag : ℕ) (tags : List ℕ) (next : ℕ)
    → IsNext m tag next
    → AreTags m next tags
    → AreTags m (multiboot2_next_tag m tag) tags
AreTags-next m tag tags next n are = subst (λ a. AreTags m a tags) (sym (next_lem m tag next n)) are

-- No tag of the list has the property.
abbrev pub None : (ℕ → Type 0) → List ℕ → Type 0
None P [] = Unit {0}
None P (tag ∷ tags) = (¬ P tag) × None P tags

-- The first tag of the list with the property, or NULL.
pub data First (P : ℕ → Type 0) (tags : List ℕ) : Result ℕ → Type 0 where
  found :
      (before : List ℕ) (tag : ℕ) (after : List ℕ)
      → tags ≡ before ++ tag ∷ after
      → P tag
      → None P before
      → First P tags (done tag)
  missing : None P tags → First P tags (done 0)

skip :
    (P : ℕ → Type 0) (tag : ℕ) (tags : List ℕ) {r : Result ℕ}
    → ¬ P tag
    → First P tags r
    → First P (tag ∷ tags) r
skip P tag tags other (First.found before t after e holds none) =
    found (tag ∷ before) t after (ap (λ l. tag ∷ l) e) holds (other, none)
skip P tag tags other (First.missing none) = missing (other, none)

-- A module with the name.
abbrev pub IsModule : Bytes → ℕ → ℕ → ℕ → Type 0
IsModule m name n tag = (tag_type m tag ≡ tag_type_module) × SameString m (cmdline tag) name n

module _ (m : Bytes) where
  find_tag_from-First :
      (type : ℕ) (tags : List ℕ) (fuel address : ℕ)
      → AreTags m address tags
      → length tags < fuel
      → First (λ tag. tag_type m tag ≡ type) tags (find_tag_from fuel m type address)
  unfolding find_tag_from
  find_tag_from-First type tags zero address are enough = absurd (omega arith)
  find_tag_from-First type [] (suc fuel) address are enough =
      rw (==_true (tag_type m address) tag_type_end are) (missing tt)
  find_tag_from-First type (tag ∷ tags) (suc fuel) address are enough =
      subst (λ a. First (λ t. tag_type m t ≡ type) (tag ∷ tags) (find_tag_from (suc fuel) m type a))
        are.0
        (elim (==_cases (tag_type m tag) type) [
          | inl here ↦
              rw (==_false (tag_type m tag) tag_type_end are.1, ==_true (tag_type m tag) type here)
                (found [] tag tags refl here tt)
          | inr other ↦
              rw
                (==_false (tag_type m tag) tag_type_end are.1, ==_false (tag_type m tag) type other)
                (skip _ tag tags other (
                  find_tag_from-First type tags fuel (multiboot2_next_tag m tag)
                    (AreTags-next m tag tags are.2 are.3 are.4) (omega arith)))
        ])

  pub multiboot2_find_tag-First :
      (boot_info type fuel : ℕ) (tags : List ℕ)
      → AreTags m (boot_info + 8) tags
      → length tags < fuel
      → First (λ tag. tag_type m tag ≡ type) tags (multiboot2_find_tag fuel m boot_info type)
  unfolding multiboot2_find_tag
  multiboot2_find_tag-First boot_info type fuel tags are enough =
      find_tag_from-First type tags fuel (multiboot2_first_tag boot_info) are enough

  module _ (v : AreBytes m) (name n chars : ℕ) (is : IsString m name n) (low : n < chars) where
    find_module_from-First :
        (tags : List ℕ) (fuel address : ℕ)
        → AreTags m address tags
        → length tags < fuel
        → First (IsModule m name n) tags (find_module_from fuel chars m name address)
    unfolding find_module_from
    find_module_from-First tags zero address are enough = absurd (omega arith)
    find_module_from-First [] (suc fuel) address are enough =
        rw (==_true (tag_type m address) tag_type_end are) (missing tt)
    find_module_from-First (tag ∷ tags) (suc fuel) address are enough =
        let c = strcmp-SameString m v (cmdline tag) name n chars is low in
        let rest =
          find_module_from-First tags fuel (multiboot2_next_tag m tag)
            (AreTags-next m tag tags are.2 are.3 are.4) (omega arith) in
        subst
          (λ a. First (IsModule m name n) (tag ∷ tags) (find_module_from (suc fuel) chars m name a))
          are.0
          (elim (==_cases (tag_type m tag) tag_type_module) [
            | inr other ↦
                rw
                  (
                    ==_false (tag_type m tag) tag_type_end are.1,
                    ==_false (tag_type m tag) tag_type_module other,
                  )
                  (skip _ tag tags (λ p. other p.0) rest)
            | inl module_tag ↦ elim (==_cases c.0 0) [
              | inl same ↦
                  rw
                    (
                      ==_false (tag_type m tag) tag_type_end are.1,
                      ==_true (tag_type m tag) tag_type_module module_tag,
                      c.1,
                      ==_true c.0 0 same,
                    )
                    (found [] tag tags refl (module_tag, c.2.0 same) tt)
              | inr differs ↦
                  rw
                    (
                      ==_false (tag_type m tag) tag_type_end are.1,
                      ==_true (tag_type m tag) tag_type_module module_tag,
                      c.1,
                      ==_false c.0 0 differs,
                    )
                    (skip _ tag tags (λ p. differs (c.2.1 p.1)) rest)
            ]
          ])

    -- multiboot2_find_module in a memory of bytes with a list of tags behind the 8 bytes of the
    -- header of the boot information, each after the size of the one before, rounded up to a
    -- multiple of 8 below 4 GiB, up to the tag that ends them, with a name of n bytes, fuel above n
    -- for strcmp and above the number of tags for the walk, returns the first tag of the list that
    -- is a module of that name, or NULL where none is.
    pub multiboot2_find_module-First :
        (boot_info fuel : ℕ) (tags : List ℕ)
        → AreTags m (boot_info + 8) tags
        → length tags < fuel
        → First (IsModule m name n) tags (multiboot2_find_module fuel chars m boot_info name)
    unfolding multiboot2_find_module
    multiboot2_find_module-First boot_info fuel tags are enough =
        find_module_from-First tags fuel (multiboot2_first_tag boot_info) are enough
