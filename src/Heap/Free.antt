-- ===== src/Heap/Free.antt =====
-- `kfree`: which pointers it accepts, and what it does to the blocks in use.
use neox.Base.{
  ℕ, ◌+◌, ◌-◌, ◌^◌, ◌<◌, ◌≡◌, ◌≢◌, inl, inr, ◌∙◌, refl, sym, ap, subst, true, false, Option, none,
  some, List, [], ◌∷◌, ◌++◌, ◌==◌, Bool-cases, arith,
}
use neox.Heap.{
  Pages, Block, Place, Heap, Result, done, assertion_failed, header_size, payload, past,
  heap_find_block, heap_merge, heap_validate, release_block, kfree,
}
use neox.Layout.{kernel_heap_start}
use mathlib.Core.Option
use neox.Heap.Chain.{
  Chain, Chain-le, Chain-append, Chain-cut, Chain-heap_validate, used, used-append,
}
use neox.Heap.Merge.{heap_merge-Chain, used-heap_merge, heap_merge-IsMerged}
use neox.Heap.Expand.{IsValid}
use neox.Heap.Live.{NotLive, used-Ascending, NotLive-below, NotLive-above, NotLive-append}

-- The block whose payload is at `ptr`, or none.
pub data AtPointer (bs : List Block) (ptr : ℕ) : Option Place → Type 0 where
  hit :
      {p : Place}
      → bs ≡ p.before ++ p.block ∷ p.after
      → payload p.block ≡ ptr
      → AtPointer bs ptr (some p)
  miss : NotLive ptr (used bs) → AtPointer bs ptr none

heap_find_block-AtPointer :
    (a : ℕ) (bs : List Block) (e ptr : ℕ)
    → e < 2 ^ 32
    → Chain a bs e
    → AtPointer bs ptr (heap_find_block bs ptr)
unfolding heap_find_block used
heap_find_block-AtPointer a [] e ptr small c = miss tt
heap_find_block-AtPointer a (b ∷ bs) e ptr small c = elim (Bool-cases (payload b == ptr)) [
  | inl here ↦ rw here (hit refl (ground arith))
  | inr elsewhere ↦ rw elsewhere (
      further (heap_find_block-AtPointer (a + header_size + b.size) bs e ptr small c.2)
        (ground (arith, Chain-le (a + header_size + b.size) bs e c.2)))
]
  where
    further :
        {o : Option Place}
        → AtPointer bs ptr o
        → b.addr + header_size ≢ ptr
        → AtPointer (b ∷ bs) ptr (Option.map (past b) o)
    further (hit at here) other = hit (ap (λ t. b ∷ t) at) here
    further (miss all) other = elim (Bool-cases b.free) [
      | inl is_free ↦ miss (rw is_free all)
      | inr in_use ↦ miss (rw in_use (other, all))
    ]

used_cons :
    (b : Block) (bs : List Block) → b.free ≡ false → used (b ∷ bs) ≡ (b.addr, b.size) ∷ used bs
unfolding used
used_cons b bs in_use = rw in_use

module _ (vmm : Pages) (h : Heap vmm) where
  kfree_null : (ptr : ℕ) → (ptr == 0) ≡ true → kfree vmm h ptr ≡ done h
  unfolding kfree
  kfree_null ptr zero_ptr = rw zero_ptr

  kfree_some :
      (ptr : ℕ)
      → (ptr == 0) ≡ false
      → kfree vmm h ptr ≡ release_block vmm h (heap_find_block h.blocks ptr)
  unfolding kfree
  kfree_some ptr some_ptr = rw some_ptr

  release_block-none : release_block vmm h none ≡ assertion_failed
  unfolding release_block
  release_block-none = refl

  release_block-is_empty :
      (p : Place) → p.block.free ≡ true → release_block vmm h (some p) ≡ assertion_failed
  unfolding release_block
  release_block-is_empty p is_free = rw is_free

  release_block-in_use :
      (p : Place)
      → p.block.free ≡ false
      → heap_validate (heap_merge (p.before ++ record p.block { free = true } ∷ p.after)) h.heap_end
        ≡ true
      → release_block vmm h (some p)
        ≡ done (record h {
          blocks = heap_merge (p.before ++ record p.block { free = true } ∷ p.after);
        })
  unfolding release_block
  release_block-in_use p in_use passed = rw (in_use, passed)

module _ (vmm : Pages) where
  -- The outcomes of `kfree`.
  pub data Freed (h : Heap vmm) (ptr : ℕ) : Result (Heap vmm) → Type 0 where
    freed :
        {g : Heap vmm} (n : ℕ) (before after : List (ℕ × ℕ))
        → IsValid vmm g
        → used h.blocks ≡ before ++ (ptr - header_size, n) ∷ after
        → used g.blocks ≡ before ++ after
        → Freed h ptr (done g)
    null_pointer : {g : Heap vmm} → ptr ≡ 0 → g ≡ h → Freed h ptr (done g)
    rejected : ptr ≢ 0 → NotLive ptr (used h.blocks) → Freed h ptr assertion_failed

  module _ (h : Heap vmm) (p : Place) (ptr : ℕ) (v : IsValid vmm h)
      (e : h.blocks ≡ p.before ++ p.block ∷ p.after) (here : payload p.block ≡ ptr) where
    parts : (m : ℕ) × Chain kernel_heap_start p.before m × Chain m (p.block ∷ p.after) h.heap_end
    parts =
        Chain-cut kernel_heap_start p.before (p.block ∷ p.after) h.heap_end
          (subst (λ bs. Chain kernel_heap_start bs h.heap_end) e v.chain)

    released : List Block
    released = heap_merge (p.before ++ record p.block { free = true } ∷ p.after)

    released-Chain : Chain kernel_heap_start released h.heap_end
    unfolding released
    released-Chain = heap_merge-Chain _ kernel_heap_start h.heap_end (omega (arith, v.bounded)) (
        Chain-append kernel_heap_start p.before parts.0 (record p.block { free = true } ∷ p.after)
          h.heap_end parts.1 parts.2)

    released-IsValid : IsValid vmm (record h { blocks = released })
    unfolding released
    released-IsValid = record {
      chain = released-Chain;
      merged = heap_merge-IsMerged _;
      started = v.started;
      bounded = v.bounded;
      paged = v.paged;
    }

    used-released : used released ≡ used p.before ++ used p.after
    unfolding released used
    used-released =
        used-heap_merge (p.before ++ record p.block { free = true } ∷ p.after)
        ∙ used-append p.before (record p.block { free = true } ∷ p.after)

    used_parts : used h.blocks ≡ used p.before ++ used (p.block ∷ p.after)
    used_parts = ap used e ∙ used-append p.before (p.block ∷ p.after)

    pointer : ptr ≡ p.block.addr + header_size
    pointer = ground (arith, parts.2.0, Chain-le _ p.after h.heap_end parts.2.2, v.bounded)

    -- A block that is free already is no live block, nor is any other at its address.
    not_live : p.block.free ≡ true → NotLive ptr (used h.blocks)
    unfolding used
    not_live is_free = subst (NotLive ptr) (sym used_parts) (
        NotLive-append ptr (used p.before) (used (p.block ∷ p.after))
          (NotLive-above kernel_heap_start (used p.before) parts.0 ptr
            (omega (arith, pointer, parts.2.0))
            (used-Ascending kernel_heap_start p.before parts.0 parts.1))
          (rw is_free (
            NotLive-below _ (used p.after) h.heap_end ptr (omega (arith, pointer, parts.2.0))
              (used-Ascending _ p.after h.heap_end parts.2.2))))

    validated : heap_validate released h.heap_end ≡ true
    validated =
        Chain-heap_validate kernel_heap_start released h.heap_end (omega arith) (omega arith)
          (omega (arith, v.bounded)) released-Chain

    used_block :
        p.block.free ≡ false
        → used h.blocks ≡ used p.before ++ (ptr - header_size, p.block.size) ∷ used p.after
    used_block in_use =
        used_parts
        ∙ ap (λ us. used p.before ++ us)
            (entry ∙ ap (λ (a : ℕ). (a, p.block.size) ∷ used p.after) (omega (arith, pointer)))
      where
        entry : used (p.block ∷ p.after) ≡ (p.block.addr, p.block.size) ∷ used p.after
        entry = used_cons p.block p.after in_use

    release_block-Freed : ptr ≢ 0 → Freed h ptr (release_block vmm h (some p))
    unfolding heap_merge released
    release_block-Freed nonzero = elim (Bool-cases p.block.free) [
      | inl is_free ↦ rw (release_free is_free) (rejected nonzero (not_live is_free))
      | inr in_use ↦ rw (release_used in_use) (
          freed p.block.size (used p.before) (used p.after) released-IsValid (used_block in_use)
            used-released)
    ]
      where
        release_free : p.block.free ≡ true → release_block vmm h (some p) ≡ assertion_failed
        release_free is_free = release_block-is_empty vmm h p is_free

        release_used :
            p.block.free ≡ false
            → release_block vmm h (some p) ≡ done (record h { blocks = released })
        release_used in_use = release_block-in_use vmm h p in_use validated

  -- kfree in a valid heap: NULL changes nothing; the pointer of a block in use takes exactly that
  -- block from those in use and keeps the heap valid; any other pointer, freed before or never
  -- allocated, fails an assertion.
  pub kfree-Freed : (h : Heap vmm) (ptr : ℕ) → IsValid vmm h → Freed h ptr (kfree vmm h ptr)
  kfree-Freed h ptr v = elim (Bool-cases (ptr == 0)) [
    | inl zero_ptr ↦ rw (kfree_null vmm h ptr zero_ptr) (null_pointer (ground arith) refl)
    | inr some_ptr ↦ rw (kfree_some vmm h ptr some_ptr) (
        of_place
          (heap_find_block-AtPointer kernel_heap_start h.blocks h.heap_end ptr
            (omega (arith, v.bounded)) v.chain)
          (ground arith))
  ]
    where
      of_place :
          {o : Option Place}
          → AtPointer h.blocks ptr o
          → ptr ≢ 0
          → Freed h ptr (release_block vmm h o)
      of_place (hit {p} e here) nonzero = release_block-Freed h p ptr v e here nonzero
      of_place (miss all) nonzero = rw (release_block-none vmm h) (rejected nonzero all)
