-- ===== src/Heap.antt =====
-- kernel/mm/heap.c, the kernel heap: a chain of blocks, first fit, split and merge. The chain that
-- `heap_head` and the `next` pointers make is the list of its blocks, each with its address;
-- `heap_head` is NULL where the list is empty. A `struct heap_block *` into the chain is a `Place`.
-- The calls of kernel/mm/vmm.c are those of the interface `Pages`.
pub mod Chain
pub mod Merge
pub mod Expand
pub mod Fit
pub mod Loop
pub mod Alloc
pub mod Live
pub mod Free
pub mod Cycle
pub mod Kept
mod Tests
use neox.Base.{
  ℕ, zero, suc, ◌+◌, ◌-◌, ◌*◌, ◌/◌, ◌%◌, ◌^◌, ◌≤◌, ◌<◌, ◌≡◌, ◌≢◌, ◌⊎◌, inl, inr, ◌∙◌, refl, sym, ap,
  subst, ◌↔◌, Bool, true, false, not, ◌&&◌, ◌||◌, Option, none, some, List, [], ◌∷◌, ◌++◌, ltb, leb,
  ◌==◌, if◌then◌else◌, u32, u64, page_size, Bool-cases, Option-cases, arith, within,
}
use mathlib.Core.Option
pub use neox.Base.Result.{Result, done, assertion_failed, out_of_fuel, ◌>>=◌, ◌>>◌, assert}
use neox.Layout.{kernel_heap_start}

-- What the heap uses of the virtual memory manager: each call returns the new state and a pointer,
-- NULL where no page was mapped.
pub record Pages : Type 1 where
  pub State : Type 0
  pub vmm_alloc_pages : State → ℕ → ℕ → State × ℕ
  -- The first page of the recursive paging window is mapped for good: the kernel's directory keeps
  -- the entry 0 of the bootstrap directory.
  pub window_taken : (s : State) → (vmm_alloc_pages s 0xFFC00000 1).1 ≡ 0

-- `struct heap_block` at the address `addr`; `next` is the address of the following block.
pub record Block : Type 0 where
  pub addr : ℕ
  pub size : ℕ
  pub free : Bool

-- `sizeof(struct heap_block)`: two words and a `bool`, aligned to 8.
abbrev pub header_size : ℕ
header_size = 16

-- `HEAP_ALIGNMENT`
abbrev pub heap_alignment : ℕ
heap_alignment = 8

-- `block + 1`
abbrev pub payload : Block → ℕ
payload b = u32 (b.addr + header_size)

-- A block of the chain, with those before it and behind it.
pub record Place : Type 0 where
  pub before : List Block
  pub block : Block
  pub after : List Block

abbrev pub past : Block → Place → Place
past b p = record p { before = b ∷ p.before }

-- `& ~(HEAP_ALIGNMENT - 1)` clears the low 3 bits.
unfoldable pub heap_align : ℕ → ℕ
heap_align size =
    if ltb (2 ^ 32 - 1 - (heap_alignment - 1)) size
    then 0
    else u32 (size + heap_alignment - 1) / heap_alignment * heap_alignment

unfoldable pub heap_find_block : List Block → ℕ → Option Place
heap_find_block [] ptr = none
heap_find_block (b ∷ bs) ptr =
    if payload b == ptr
    then some (record { before = []; block = b; after = bs })
    else Option.map (past b) (heap_find_block bs ptr)

unfoldable pub heap_find_free : List Block → ℕ → Option Place
heap_find_free [] size = none
heap_find_free (b ∷ bs) size =
    if b.free && leb size b.size
    then some (record { before = []; block = b; after = bs })
    else Option.map (past b) (heap_find_free bs size)

-- `block` takes in its successor.
unfoldable pub absorb : Block → Block → Block
absorb b next = record b { size = u32 (b.size + u32 (header_size + next.size)) }

-- The loop of `heap_merge` at `block`, with the blocks behind it.
unfoldable pub merge_from : Block → List Block → List Block
merge_from b [] = b ∷ []
merge_from b (next ∷ bs) = elim (b.free && next.free) [
  | true ↦ merge_from (absorb b next) bs
  | false ↦ b ∷ merge_from next bs
]

unfoldable pub heap_merge : List Block → List Block
unfolding merge_from
heap_merge [] = []
heap_merge (b ∷ bs) = merge_from b bs

-- The chain where `block` stood.
unfoldable pub split_block : Block → ℕ → List Block
split_block b size =
    let remaining = u32 (b.size + 2 ^ 32 - size) in
    if leb remaining header_size
    then b ∷ []
    else record b { size = size }
      ∷ record { addr = u32 (payload b + size); size = remaining - header_size; free = true }
      ∷ []

-- `block->free = false` on the first of these blocks, which is `block`.
unfoldable pub mark_used : List Block → List Block
mark_used [] = []
mark_used (b ∷ bs) = record b { free = false } ∷ bs

-- The assertions of `heap_validate` at one block; `next` is NULL behind the last.
abbrev pub next_is : List Block → ℕ → ℕ → Bool
next_is [] addr end = true
next_is (b ∷ bs) addr end = (b.addr == end) && ltb addr b.addr

unfoldable pub heap_validate : List Block → ℕ → Bool
heap_validate [] heap_end = true
heap_validate (b ∷ bs) heap_end =
    let end = u32 (u32 (b.addr + header_size) + b.size) in
    leb kernel_heap_start b.addr
    && ltb b.addr heap_end
    && (b.addr % heap_alignment == 0)
    && (b.size % heap_alignment == 0)
    && leb end heap_end
    && next_is bs b.addr end
    && heap_validate bs heap_end

abbrev pub is_empty : List Block → Bool
is_empty [] = true
is_empty (b ∷ bs) = false

module _ (vmm : Pages) where
  open vmm use {State, vmm_alloc_pages}

  -- The static variables, and the state of the virtual memory manager.
  pub record Heap : Type 0 where
    pub blocks : List Block
    pub heap_end : ℕ
    pub heap_expansions : ℕ
    pub pages : State

  -- The new state, and whether a page was added. The first assertion makes the check of
  -- `heap_last_block` for NULL superfluous.
  unfoldable pub heap_expand : Heap → Result (Heap × Bool)
  heap_expand h = do
    assert (not (is_empty h.blocks))
    assert (leb kernel_heap_start h.heap_end)
    let asked = vmm_alloc_pages h.pages h.heap_end 1
    if asked.1 == 0 then done (record h { pages = asked.0 }, false) else do
      let new : Block = record { addr = h.heap_end; size = page_size - header_size; free = true }
      let merged = heap_merge (h.blocks ++ new ∷ [])
      let end = u32 (h.heap_end + page_size)
      assert (heap_validate merged end)
      done (
        record {
          blocks = merged;
          heap_end = end;
          heap_expansions = u32 (h.heap_expansions + 1);
          pages = asked.0;
        },
        true,
      )

  -- The loop of `kmalloc` behind a call of `heap_expand`: `again` is what is left of the loop.
  unfoldable pub after_expand :
      (Heap → Result (Heap × Option Place)) → Result (Heap × Bool) → Result (Heap × Option Place)
  after_expand again (done (h, true)) = again h
  after_expand again (done (h, false)) = done (h, none)
  after_expand again assertion_failed = assertion_failed
  after_expand again out_of_fuel = out_of_fuel

  -- One round of the loop, with what `heap_find_free` has found.
  unfoldable pub round :
      (Heap → Result (Heap × Option Place)) → Heap → Option Place → Result (Heap × Option Place)
  unfolding after_expand
  round again h (some place) = done (h, some place)
  round again h none = after_expand again (heap_expand h)

  -- The loop of `kmalloc`: a block of at least `size` bytes, or none if no page was granted.
  unfoldable pub find_or_expand : ℕ → Heap → ℕ → Result (Heap × Option Place)
  unfolding round
  find_or_expand zero h size = out_of_fuel
  find_or_expand (suc fuel) h size =
      round (λ g. find_or_expand fuel g size) h (heap_find_free h.blocks size)

  -- What `kmalloc` does with the block that it found. The two assertions of `heap_split_block`
  -- stand first.
  unfoldable pub take_block : Heap → ℕ → Option Place → Result (Heap × ℕ)
  take_block h size none = done (h, 0)
  take_block h size (some place) = do
    let b = place.block
    assert b.free
    assert (leb size b.size)
    let blocks = place.before ++ (mark_used (split_block b size) ++ place.after)
    assert (heap_validate blocks h.heap_end)
    done (record h { blocks = blocks }, payload b)

  -- The rounds of the loop of `kmalloc` for a size.
  abbrev pub rounds : ℕ → ℕ
  rounds size = size / page_size + 3

  -- The new state and the pointer.
  unfoldable pub kmalloc : Heap → ℕ → Result (Heap × ℕ)
  unfolding find_or_expand take_block
  kmalloc h size =
      if size == 0
      then done (h, 0)
      else let aligned = heap_align size in
        if aligned == 0
        then done (h, 0)
        else find_or_expand (rounds aligned) h aligned >>= λ (found, place).
            take_block found aligned place

  -- What `kfree` does with the block that it found.
  unfoldable pub release_block : Heap → Option Place → Result Heap
  release_block h none = assertion_failed
  release_block h (some place) = do
    let b = place.block
    assert (not b.free)
    let merged = heap_merge (place.before ++ record b { free = true } ∷ place.after)
    assert (heap_validate merged h.heap_end)
    done (record h { blocks = merged })

  unfoldable pub kfree : Heap → ℕ → Result Heap
  unfolding release_block
  kfree h ptr = if ptr == 0 then done h else release_block h (heap_find_block h.blocks ptr)

  -- Where the first page is not granted, the state is as it was before.
  unfoldable pub heap_init : Heap → Result Heap
  heap_init h =
      let asked = vmm_alloc_pages h.pages kernel_heap_start 1 in
      if asked.1 == 0 then done (record h { pages = asked.0 }) else do
        let first : Block = record {
          addr = kernel_heap_start;
          size = page_size - header_size;
          free = true;
        }
        assert (heap_validate (first ∷ []) (kernel_heap_start + page_size))
        done (record {
          blocks = first ∷ [];
          heap_end = kernel_heap_start + page_size;
          heap_expansions = 0;
          pages = asked.0;
        })
