-- ===== src/Multiboot.antt =====
-- kernel/boot/multiboot2.c: the tags of the boot information in memory, with the format of
-- kernel/include/multiboot2.h. A walk has fuel; a round for each tag, with one for the end, is
-- enough.
pub mod Walk
mod Tests
use neox.Base.{ℕ, zero, suc, ◌+◌, ◌*◌, ◌/◌, ◌^◌, not, ◌==◌, if◌then◌else◌, u32}
use neox.Base.Memory.{Bytes}
use neox.Base.Result.{Result, done, out_of_fuel, assertion_failed, ◌>>=◌}
use neox.Strings.{word, strcmp}
use neox.Pmm.Init.{phys_to_virt}

-- `MULTIBOOT2_BOOTLOADER_MAGIC`, and the types of tags that are looked for.
abbrev pub bootloader_magic : ℕ
bootloader_magic = 0x36D76289

abbrev pub tag_type_end : ℕ
tag_type_end = 0

abbrev pub tag_type_module : ℕ
tag_type_module = 3

abbrev pub tag_type_mmap : ℕ
tag_type_mmap = 6

-- The fields of `struct multiboot_tag`, and the name of a `struct multiboot_tag_module`.
abbrev pub tag_type : Bytes → ℕ → ℕ
tag_type m tag = word m tag

abbrev pub tag_size : Bytes → ℕ → ℕ
tag_size m tag = word m (tag + 4)

abbrev pub cmdline : ℕ → ℕ
cmdline tag = tag + 16

-- The address that becomes `boot_info`; a panic stops the kernel as an assertion does.
unfoldable pub multiboot2_init : ℕ → ℕ → Result ℕ
multiboot2_init magic mb_info =
    if not (magic == bootloader_magic) then assertion_failed else done (phys_to_virt mb_info)

abbrev pub multiboot2_first_tag : ℕ → ℕ
multiboot2_first_tag boot_info = boot_info + 8

-- `& ~7u` clears the low 3 bits.
unfoldable pub multiboot2_next_tag : Bytes → ℕ → ℕ
multiboot2_next_tag m tag = tag + u32 (tag_size m tag + 7) / 8 * 8

-- The loop of `multiboot2_find_tag` from a tag on.
unfoldable pub find_tag_from : ℕ → Bytes → ℕ → ℕ → Result ℕ
find_tag_from zero m type tag = out_of_fuel
find_tag_from (suc fuel) m type tag =
    let rest = find_tag_from fuel m type (multiboot2_next_tag m tag) in
    if tag_type m tag == tag_type_end
    then done 0
    else if tag_type m tag == type
    then done tag
    else rest

unfoldable pub multiboot2_find_tag : ℕ → Bytes → ℕ → ℕ → Result ℕ
multiboot2_find_tag fuel m boot_info type =
    find_tag_from fuel m type (multiboot2_first_tag boot_info)

unfoldable pub multiboot2_memory_map : ℕ → Bytes → ℕ → Result ℕ
multiboot2_memory_map fuel m boot_info = multiboot2_find_tag fuel m boot_info tag_type_mmap

-- The loop of `multiboot2_find_module` from a tag on; `chars` is the fuel of `strcmp`.
unfoldable pub find_module_from : ℕ → ℕ → Bytes → ℕ → ℕ → Result ℕ
find_module_from zero chars m name tag = out_of_fuel
find_module_from (suc fuel) chars m name tag =
    let rest = find_module_from fuel chars m name (multiboot2_next_tag m tag) in
    if tag_type m tag == tag_type_end
    then done 0
    else if tag_type m tag == tag_type_module
    then (strcmp chars m (cmdline tag) name >>= λ r. if r == 0 then done tag else rest)
    else rest

unfoldable pub multiboot2_find_module : ℕ → ℕ → Bytes → ℕ → ℕ → Result ℕ
multiboot2_find_module fuel chars m boot_info name =
    find_module_from fuel chars m name (multiboot2_first_tag boot_info)
