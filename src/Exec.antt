-- ===== src/Exec.antt =====
-- `exec_build_user_stack` of kernel/arch/x86/syscall.c: the arguments of a new program, written into
-- the page of its stack through the higher half. The memory is that of the active address space; the
-- arguments are the addresses of their strings, of which `argc` counts.
pub mod Words
pub mod Args
pub mod Copies
pub mod Copied
pub mod Quiet
pub mod Sizes
pub mod Writes
pub mod Layout
mod Tests
use neox.Base.{
  ℕ, ◌+◌, ◌-◌, ◌*◌, ◌/◌, ◌%◌, ◌^◌, Option, none, some, List, [], ◌∷◌, length, ltb, if◌then◌else◌,
  u32, page_size,
}
use neox.Base.Memory.{Bytes, store}
use neox.Base.Result.{Result, done, ◌>>=◌}
use neox.Strings.{strlen, memcpy}
use neox.Pmm.Init.{phys_to_virt}

-- `USER_STACK_SIZE`
abbrev pub user_stack_size : ℕ
user_stack_size = page_size

-- The write of a `uint32_t`, lowest byte first.
unfoldable pub store_word : Bytes → ℕ → ℕ → Bytes
store_word m a w =
    store (store (store (store m a (w % 256)) (a + 1) (w / 256 % 256)) (a + 2) (w / 65536 % 256))
      (a + 3) (w / 16777216 % 256)

-- The loop over the lengths; `none` is the early return.
unfoldable pub strings_size : ℕ → Bytes → List ℕ → ℕ → Result (Option ℕ)
strings_size fuel m [] size = done (some size)
strings_size fuel m (arg ∷ args) size = strlen fuel m arg >>= λ n.
    let rest = strings_size fuel m args (size + u32 (n + 1)) in
    if ltb (2 ^ 32 - 1 - u32 (n + 1)) size then done none else rest

-- The loop that copies the strings to `dest`, from `offset` on.
unfoldable pub copy_strings : ℕ → Bytes → ℕ → List ℕ → ℕ → Result Bytes
copy_strings fuel m dest [] offset = done m
copy_strings fuel m dest (arg ∷ args) offset = strlen fuel m arg >>= λ n.
    copy_strings fuel (memcpy m (dest + offset) arg (u32 (n + 1))) dest args (offset + u32 (n + 1))

-- The loop that stores the pointers from `entry` on; the strings stand from `base` on.
unfoldable pub store_pointers : ℕ → Bytes → ℕ → ℕ → List ℕ → ℕ → Result Bytes
store_pointers fuel m entry base [] offset = done m
store_pointers fuel m entry base (arg ∷ args) offset = strlen fuel m arg >>= λ n.
    store_pointers fuel (store_word m entry (u32 (base + offset))) (entry + 4) base args
      (offset + u32 (n + 1))

-- `sizeof(uint32_t) + (argc + 1) * sizeof(uint32_t)`
abbrev pub pointers_size : List ℕ → ℕ
pointers_size args = u32 (4 + (length args + 1) * 4)

-- The address of `argv`, below the strings.
abbrev pub argv_at : ℕ → List ℕ → ℕ → ℕ
argv_at stack_virt args size =
    u32 (stack_virt + user_stack_size + 2 ^ 32 - size + 2 ^ 32 - (length args + 1) * 4)

-- `esp`, below `argc` and aligned: `& ~0xFu` clears the low 4 bits.
abbrev pub esp_at : ℕ → List ℕ → ℕ → ℕ
esp_at stack_virt args size = u32 (argv_at stack_virt args size + 2 ^ 32 - 4) / 16 * 16

-- The writes into the page at `stack`, once the size of the strings is known.
unfoldable pub fill_stack : ℕ → Bytes → List ℕ → ℕ → ℕ → ℕ → Result (Bytes × Option ℕ)
fill_stack fuel m args stack_virt stack size =
    let strings_virt = u32 (stack_virt + user_stack_size + 2 ^ 32 - size) in
    let argv = stack + (argv_at stack_virt args size - stack_virt) in
    copy_strings fuel m (stack + (strings_virt - stack_virt)) args 0 >>= λ t.
    store_pointers fuel t argv strings_virt args 0 >>= λ u.
    let v = store_word u (argv + length args * 4) 0 in
    if ltb (esp_at stack_virt args size) stack_virt
    then done (v, none)
    else done (
      store_word v (stack + (esp_at stack_virt args size - stack_virt)) (length args),
      some (esp_at stack_virt args size),
    )

-- The memory, and the stack pointer unless the function returns false.
unfoldable pub build_sized : ℕ → Bytes → List ℕ → ℕ → ℕ → Option ℕ → Result (Bytes × Option ℕ)
build_sized fuel m args stack_virt stack none = done (m, none)
build_sized fuel m args stack_virt stack (some size) =
    if ltb user_stack_size (u32 (pointers_size args + size))
    then done (m, none)
    else fill_stack fuel m args stack_virt stack size

unfoldable pub exec_build_user_stack : ℕ → Bytes → List ℕ → ℕ → ℕ → Result (Bytes × Option ℕ)
exec_build_user_stack fuel m args stack_virt stack_phys = strings_size fuel m args 0 >>= λ size.
    build_sized fuel m args stack_virt (phys_to_virt stack_phys) size
