-- ===== src/Heap/Fit.antt =====
-- First fit, and what splitting a block does to the chain.
use neox.Base.{
  ℕ, ◌+◌, ◌-◌, ◌%◌, ◌^◌, ◌≤◌, ◌<◌, ◌≡◌, inl, inr, refl, ap, subst, true, false, ◌&&◌, Option, none,
  some, List, [], ◌∷◌, ◌++◌, leb, if◌then◌else◌, Bool-cases, arith,
}
use neox.Heap.{
  Block, Place, header_size, heap_alignment, past, heap_find_free, split_block, mark_used,
}
use mathlib.Core.Option
use neox.Heap.Chain.{Chain, Chain-le, used, Apart, IsMerged}
use neox.Heap.Merge.{free_at_end}

-- No block of the list is free and large enough.
abbrev pub NoFit : ℕ → List Block → Type 0
NoFit size [] = Unit {0}
NoFit size (b ∷ bs) = ((b.free && leb size b.size) ≡ false) × NoFit size bs

-- What `heap_find_free` finds: the first block that fits, or none.
pub data FirstFit (bs : List Block) (size : ℕ) : Option Place → Type 0 where
  hit :
      {p : Place}
      → bs ≡ p.before ++ p.block ∷ p.after
      → p.block.free ≡ true
      → size ≤ p.block.size
      → NoFit size p.before
      → FirstFit bs size (some p)
  miss : NoFit size bs → FirstFit bs size none

-- heap_find_free returns the first free block of the chain that is large enough, and none only if
-- no free block is large enough.
pub heap_find_free-FirstFit :
    (bs : List Block) (size : ℕ) → FirstFit bs size (heap_find_free bs size)
unfolding heap_find_free
heap_find_free-FirstFit [] size = miss tt
heap_find_free-FirstFit (b ∷ bs) size = elim (Bool-cases (b.free && leb size b.size)) [
  | inl fits ↦ rw fits (hit refl (ground arith) (ground arith) tt)
  | inr no_fit ↦ rw no_fit (further (heap_find_free-FirstFit bs size) no_fit)
]
  where
    further :
        {o : Option Place}
        → FirstFit bs size o
        → (b.free && leb size b.size) ≡ false
        → FirstFit (b ∷ bs) size (Option.map (past b) o)
    further (hit e is_free large before) no_fit =
        hit (ap (λ t. b ∷ t) e) is_free large (no_fit, before)
    further (miss all) no_fit = miss (no_fit, all)

pub NoFit-free_at_end :
    (bs : List Block) (size : ℕ) → 0 < size → NoFit size bs → free_at_end bs < size + header_size
unfolding free_at_end
NoFit-free_at_end [] size pos no_fit = omega arith
NoFit-free_at_end (b ∷ []) size pos no_fit = ground arith
NoFit-free_at_end (b ∷ n ∷ bs) size pos no_fit = NoFit-free_at_end (n ∷ bs) size pos no_fit.1

abbrev StartsUsed : List Block → Type 0
StartsUsed [] = Unit {0}
StartsUsed (b ∷ bs) = b.free ≡ false

pub IsMerged-suffix : (xs ys : List Block) → IsMerged (xs ++ ys) → IsMerged ys
IsMerged-suffix [] ys m = m
IsMerged-suffix (x ∷ xs) ys m = IsMerged-suffix xs ys m.1

Apart-StartsUsed : (b : Block) (bs : List Block) → StartsUsed bs → Apart b bs
Apart-StartsUsed b [] u = tt
Apart-StartsUsed b (n ∷ bs) u = ground arith

-- What starts with a block in use may stand behind any merged blocks.
IsMerged-replace :
    (xs ys zs : List Block)
    → IsMerged (xs ++ ys)
    → StartsUsed zs
    → IsMerged zs
    → IsMerged (xs ++ zs)
IsMerged-replace [] ys zs m u mz = mz
IsMerged-replace (x ∷ []) ys zs m u mz = (Apart-StartsUsed x zs u, mz)
IsMerged-replace (x ∷ y ∷ xs) ys zs m u mz = (m.0, IsMerged-replace (y ∷ xs) ys zs m.1 u mz)

-- Behind a free block of a merged list stands one in use.
used_behind : (b : Block) (bs : List Block) → b.free ≡ true → Apart b bs → StartsUsed bs
used_behind b [] is_free apart = tt
used_behind b (n ∷ bs) is_free apart = ground arith

not_free_Apart : (b : Block) (bs : List Block) → b.free ≡ false → Apart b bs
not_free_Apart b [] in_use = tt
not_free_Apart b (n ∷ bs) in_use = ground arith

-- The size that a block keeps when `size` bytes of it are taken.
pub kept : Block → ℕ → ℕ
kept b size = if leb (b.size - size) header_size then b.size else size

pub kept_bounds :
    (b : Block) (size : ℕ) → size ≤ b.size → (size ≤ kept b size) × (kept b size ≤ b.size)
unfolding kept
kept_bounds b size h = ground arith

-- The blocks that stand where a free block stood from which `size` bytes are taken.
abbrev pub taken : Block → ℕ → List Block
taken b size = mark_used (split_block b size)

module _ (b : Block) (size a e : ℕ) (after : List Block) (c : Chain a (b ∷ after) e)
    (small : e < 2 ^ 32) (aligned : size % heap_alignment ≡ 0) (fits : size ≤ b.size) where
  -- The block behind the taken bytes, where there is room for one.
  abbrev rest_block : Block
  rest_block = record {
    addr = a + header_size + size;
    size = b.size - size - header_size;
    free = true;
  }

  taken_whole :
      leb (b.size - size) header_size ≡ true → taken b size ≡ record b { free = false } ∷ []
  unfolding split_block mark_used
  taken_whole whole = ground (arith, Chain-le (a + header_size + b.size) after e c.2)

  taken_part :
      leb (b.size - size) header_size ≡ false
      → taken b size ≡ record b { size = size; free = false } ∷ rest_block ∷ []
  unfolding split_block mark_used
  taken_part part = ground (arith, Chain-le (a + header_size + b.size) after e c.2)

  pub taken-Chain : Chain a (taken b size ++ after) e
  taken-Chain = elim (Bool-cases (leb (b.size - size) header_size)) [
    | inl whole ↦ rw (taken_whole whole) c
    | inr part ↦
        rw (taken_part part) (
          c.0,
          aligned,
          (refl, omega (arith, c.1), subst (λ k. Chain k after e) (ground arith) c.2),
        )
  ]

  pub used-taken : used (taken b size ++ after) ≡ (b.addr, kept b size) ∷ used after
  unfolding used kept
  used-taken = elim (Bool-cases (leb (b.size - size) header_size)) [
    | inl whole ↦ rw (taken_whole whole, whole)
    | inr part ↦ rw (taken_part part, part)
  ]

  -- The first of the blocks is in use, so that those before it keep apart from it.
  pub taken-IsMerged :
      (before : List Block)
      → b.free ≡ true
      → IsMerged (before ++ b ∷ after)
      → IsMerged (before ++ (taken b size ++ after))
  taken-IsMerged before is_free m =
      let behind = IsMerged-suffix before (b ∷ after) m in
      elim (Bool-cases (leb (b.size - size) header_size)) [
        | inl whole ↦ rw (taken_whole whole) (
            IsMerged-replace before (b ∷ after) (record b { free = false } ∷ after) m refl
              (not_free_Apart (record b { free = false }) after refl, behind.1))
        | inr part ↦ rw (taken_part part) (
            IsMerged-replace before (b ∷ after)
              (record b { size = size; free = false } ∷ rest_block ∷ after) m refl
              (
                refl,
                (
                  Apart-StartsUsed rest_block after (used_behind b after is_free behind.0),
                  behind.1,
                ),
              ))
      ]
