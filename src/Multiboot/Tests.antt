-- ===== src/Multiboot/Tests.antt =====
-- The theorems on the boot information at two tags, of which the second is a module.
use neox.Base.{ℕ, ◌≡◌, refl, List, [], ◌∷◌, ◌==◌, if◌then◌else◌, arith}
use neox.Base.Memory.{Bytes, AreBytes}
use neox.Base.Result.{done}
use neox.Strings.{strcmp}
use neox.Multiboot.{
  tag_type, multiboot2_next_tag, find_module_from, multiboot2_find_tag, multiboot2_find_module,
}
use neox.Multiboot.Walk.{
  AreTags, First, IsModule, multiboot2_find_tag-First, multiboot2_find_module-First,
}

-- The tag at 1008 has 9 bytes, so that the next, named "r", is at 1024; the string "r" is at 500.
abbrev boot_memory : Bytes
boot_memory j =
    if j == 1008
    then 1
    else if j == 1012
    then 9
    else if j == 1024
    then 3
    else if j == 1028
    then 18
    else if j == 1040
    then 114
    else if j == 500
    then 114
    else 0

boot_memory-AreBytes : AreBytes boot_memory
boot_memory-AreBytes j = ground arith

abbrev two_tags : List ℕ
two_tags = 1008 ∷ 1024 ∷ []

two_tags-AreTags : AreTags boot_memory 1008 two_tags
unfolding multiboot2_next_tag
two_tags-AreTags = (
  refl,
  (λ e. absurd (omega arith)),
  1024,
  record {
    rounds = 2;
    multiple = refl;
    covers = omega arith;
    close = omega arith;
    small = omega arith;
  },
  (
    refl,
    (λ e. absurd (omega arith)),
    1048,
    record {
      rounds = 3;
      multiple = refl;
      covers = omega arith;
      close = omega arith;
      small = omega arith;
    },
    refl,
  ),
)

finds_module : multiboot2_find_module 5 5 boot_memory 1000 500 ≡ done 1024
unfolding multiboot2_find_module find_module_from multiboot2_next_tag strcmp
finds_module = refl

multiboot2_find_tag-First_example :
    First (λ tag. tag_type boot_memory tag ≡ 6) two_tags (multiboot2_find_tag 5 boot_memory 1000 6)
multiboot2_find_tag-First_example =
    multiboot2_find_tag-First boot_memory 1000 6 5 two_tags two_tags-AreTags (omega arith)

multiboot2_find_module-First_example :
    First (IsModule boot_memory 500 1) two_tags (multiboot2_find_module 5 5 boot_memory 1000 500)
multiboot2_find_module-First_example =
    multiboot2_find_module-First boot_memory boot_memory-AreBytes 500 1 5
      (record { inside = λ k h. ground arith; end = refl }) (omega arith) 1000 5 two_tags
      two_tags-AreTags (omega arith)
