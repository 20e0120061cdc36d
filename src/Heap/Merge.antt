-- ===== src/Heap/Merge.antt =====
-- `heap_merge` keeps the chain and the blocks in use, and leaves no two free neighbours.
use neox.Base.{
  ℕ, ◌+◌, ◌^◌, ◌≤◌, ◌<◌, ◌≡◌, inl, inr, refl, subst, true, false, ◌&&◌, List, [], ◌∷◌, ◌++◌,
  if◌then◌else◌, Bool-cases, arith,
}
use neox.Heap.{Block, is_empty, header_size, absorb, merge_from, heap_merge}
use neox.Heap.Chain.{Chain, Chain-le, used, Apart, IsMerged}

-- Below 4 GiB the size of a block and its successor does not wrap.
absorb_size :
    (a : ℕ) (b n : Block) (bs : List Block) (e : ℕ)
    → Chain a (b ∷ n ∷ bs) e
    → e < 2 ^ 32
    → absorb b n ≡ record b { size = b.size + header_size + n.size }
unfolding absorb
absorb_size a b n bs e c hi =
    ground (arith, Chain-le (a + header_size + b.size + header_size + n.size) bs e c.2.2)

merge_end : (b : Block) → merge_from b [] ≡ b ∷ []
unfolding merge_from
merge_end b = refl

module _ (b n : Block) (bs : List Block) where
  merge_join : (b.free && n.free) ≡ true → merge_from b (n ∷ bs) ≡ merge_from (absorb b n) bs
  unfolding merge_from
  merge_join both = ground arith

  merge_skip : (b.free && n.free) ≡ false → merge_from b (n ∷ bs) ≡ b ∷ merge_from n bs
  unfolding merge_from
  merge_skip apart = ground arith

absorbed-Chain :
    (a : ℕ) (b n : Block) (bs : List Block) (e : ℕ)
    → Chain a (b ∷ n ∷ bs) e
    → e < 2 ^ 32
    → Chain a (absorb b n ∷ bs) e
absorbed-Chain a b n bs e c hi =
    rw (absorb_size a b n bs e c hi)
      (c.0, omega arith, subst (λ k. Chain k bs e) (omega arith) c.2.2)

merge_from-Chain :
    (bs : List Block) (b : Block) (a e : ℕ)
    → e < 2 ^ 32
    → Chain a (b ∷ bs) e
    → Chain a (merge_from b bs) e
merge_from-Chain [] b a e hi c = rw (merge_end b) c
merge_from-Chain (n ∷ bs) b a e hi c = elim (Bool-cases (b.free && n.free)) [
  | inl both ↦
      rw (merge_join b n bs both)
        (merge_from-Chain bs (absorb b n) a e hi (absorbed-Chain a b n bs e c hi))
  | inr apart ↦
      rw (merge_skip b n bs apart)
        (c.0, c.1, merge_from-Chain bs n (a + header_size + b.size) e hi c.2)
]

used-merge_from : (bs : List Block) (b : Block) → used (merge_from b bs) ≡ used (b ∷ bs)
unfolding merge_from used absorb
used-merge_from [] b = refl
used-merge_from (n ∷ bs) b = ground (arith, used-merge_from bs (absorb b n), used-merge_from bs n)

-- The first block of the result is as free as the block that the loop starts at.
merge_from_head :
    (bs : List Block) (b c : Block) → c.free && b.free ≡ false → Apart c (merge_from b bs)
unfolding absorb
merge_from_head [] b c h = rw (merge_end b) h
merge_from_head (n ∷ bs) b c h = elim (Bool-cases (b.free && n.free)) [
  | inl both ↦ rw (merge_join b n bs both) (merge_from_head bs (absorb b n) c h)
  | inr apart ↦ rw (merge_skip b n bs apart) h
]

merge_from-IsMerged : (bs : List Block) (b : Block) → IsMerged (merge_from b bs)
merge_from-IsMerged [] b = rw (merge_end b) (tt, tt)
merge_from-IsMerged (n ∷ bs) b = elim (Bool-cases (b.free && n.free)) [
  | inl both ↦ rw (merge_join b n bs both) (merge_from-IsMerged bs (absorb b n))
  | inr apart ↦
      rw (merge_skip b n bs apart) (merge_from_head bs n b apart, merge_from-IsMerged bs n)
]

-- `heap_merge` of a chain is a chain over the same addresses.
pub heap_merge-Chain :
    (bs : List Block) (a e : ℕ) → e < 2 ^ 32 → Chain a bs e → Chain a (heap_merge bs) e
unfolding heap_merge
heap_merge-Chain [] a e hi c = c
heap_merge-Chain (b ∷ bs) a e hi c = merge_from-Chain bs b a e hi c

pub used-heap_merge : (bs : List Block) → used (heap_merge bs) ≡ used bs
unfolding heap_merge
used-heap_merge [] = refl
used-heap_merge (b ∷ bs) = used-merge_from bs b

pub heap_merge-IsMerged : (bs : List Block) → IsMerged (heap_merge bs)
unfolding heap_merge
heap_merge-IsMerged [] = tt
heap_merge-IsMerged (b ∷ bs) = merge_from-IsMerged bs b

-- The bytes, header included, of the last block, if it is free.
unfoldable pub free_at_end : List Block → ℕ
free_at_end [] = 0
free_at_end (b ∷ []) = if b.free then b.size + header_size else 0
free_at_end (b ∷ n ∷ bs) = free_at_end (n ∷ bs)

free_at_end_skip :
    (bs : List Block) (b c : Block)
    → free_at_end (c ∷ merge_from b bs) ≡ free_at_end (merge_from b bs)
unfolding free_at_end
free_at_end_skip [] b c = rw (merge_end b)
free_at_end_skip (n ∷ bs) b c = elim (Bool-cases (b.free && n.free)) [
  | inl both ↦ rw (merge_join b n bs both) (free_at_end_skip bs (absorb b n) c)
  | inr apart ↦ rw (merge_skip b n bs apart)
]

absorbed_end :
    (a : ℕ) (b n : Block) (bs cs : List Block) (e : ℕ)
    → Chain a (b ∷ n ∷ cs) e
    → e < 2 ^ 32
    → (b.free && n.free) ≡ true
    → free_at_end (n ∷ bs) ≤ free_at_end (absorb b n ∷ bs)
unfolding free_at_end
absorbed_end a b n [] cs e c hi both = ground (arith, absorb_size a b n cs e c hi)
absorbed_end a b n (x ∷ bs) cs e c hi both = omega arith

-- A free block put at the end of a chain adds its bytes to the free bytes at the end.
merge_from_grows :
    (bs : List Block) (b new : Block) (a e : ℕ)
    → new.free ≡ true
    → e < 2 ^ 32
    → Chain a (b ∷ bs ++ new ∷ []) e
    → free_at_end (b ∷ bs) + new.size + header_size ≤ free_at_end (merge_from b (bs ++ new ∷ []))
unfolding merge_from free_at_end
merge_from_grows [] b new a e is_free hi c = ground (arith, absorb_size a b new [] e c hi)
merge_from_grows (n ∷ bs) b new a e is_free hi c = elim (Bool-cases (b.free && n.free)) [
  | inl both ↦ rw (merge_join b n (bs ++ new ∷ []) both) (
      omega (
        arith,
        merge_from_grows bs (absorb b n) new a e is_free hi
            (absorbed-Chain a b n (bs ++ new ∷ []) e c hi),
        absorbed_end a b n bs (bs ++ new ∷ []) e c hi both,
      ))
  | inr apart ↦ rw (merge_skip b n (bs ++ new ∷ []) apart) (
      rw (free_at_end_skip (bs ++ new ∷ []) n b)
        (merge_from_grows bs n new (a + header_size + b.size) e is_free hi c.2))
]

-- `heap_merge` of a chain with a free block put at its end has at least that block's bytes more
-- free at its end.
pub heap_merge_grows :
    (bs : List Block) (new : Block) (a e : ℕ)
    → new.free ≡ true
    → e < 2 ^ 32
    → is_empty bs ≡ false
    → Chain a (bs ++ new ∷ []) e
    → free_at_end bs + new.size + header_size ≤ free_at_end (heap_merge (bs ++ new ∷ []))
unfolding heap_merge
heap_merge_grows [] new a e is_free hi full c = cc
heap_merge_grows (b ∷ bs) new a e is_free hi full c = merge_from_grows bs b new a e is_free hi c
