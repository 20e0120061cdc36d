-- ===== src/Heap/Loop.antt =====
-- The loop of `kmalloc`: enough rounds, and what it ends with.
use neox.Base.{
  ℕ, zero, suc, ◌+◌, ◌*◌, ◌≤◌, ◌<◌, ◌≡◌, ◌∙◌, refl, Bool, true, Option, none, some, ◌∷◌, ◌++◌,
  page_size, arith,
}
use neox.Heap.{Pages, Place, Heap, Result, done, header_size, find_or_expand, after_expand, round}
use neox.Heap.Chain.{used}
use neox.Heap.Merge.{free_at_end}
use neox.Heap.Expand.{IsValid, Expanded, refused, grew, heap_expand-Expanded}
use neox.Heap.Fit.{FirstFit, hit, miss, heap_find_free-FirstFit, NoFit, NoFit-free_at_end}

module _ (vmm : Pages) where
  open vmm use {State, vmm_alloc_pages}

  -- What the loop of `kmalloc` ends with: a block that fits, or a refusal of the next page.
  pub data Ended (h : Heap vmm) (size : ℕ) : Result (Heap vmm × Option Place) → Type 0 where
    found :
        {g : Heap vmm} {p : Place}
        → IsValid vmm g
        → used g.blocks ≡ used h.blocks
        → g.blocks ≡ p.before ++ p.block ∷ p.after
        → p.block.free ≡ true
        → size ≤ p.block.size
        → Ended h size (done (g, some p))
    gave_up :
        {g : Heap vmm} (s : State)
        → IsValid vmm g
        → used g.blocks ≡ used h.blocks
        → (vmm_alloc_pages s g.heap_end 1).1 ≡ 0
        → Ended h size (done (g, none))

  onward :
      (h g : Heap vmm) (size : ℕ) {r : Result (Heap vmm × Option Place)}
      → used g.blocks ≡ used h.blocks
      → Ended g size r
      → Ended h size r
  onward h g size same (found v u e is_free large) = found v (u ∙ same) e is_free large
  onward h g size same (gave_up s v u no_page) = gave_up s v (u ∙ same) no_page

  module _ (again : Heap vmm → Result (Heap vmm × Option Place)) (h : Heap vmm) (size : ℕ) where
    -- What is left of the loop serves each heap that has a page more at its end.
    Serves : Type 0
    Serves =
        (g : Heap vmm)
        → IsValid vmm g
        → free_at_end h.blocks + page_size ≤ free_at_end g.blocks
        → Ended g size (again g)

    after_expand-Ended :
        {r : Result (Heap vmm × Bool)}
        → Serves
        → Expanded vmm h r
        → Ended h size (after_expand vmm again r)
    unfolding Serves after_expand
    after_expand-Ended serves (refused v u no_page) = gave_up h.pages v u no_page
    after_expand-Ended serves (grew {g} v u e longer) = onward h g size u (serves g v longer)

    round-Ended :
        {o : Option Place}
        → IsValid vmm h
        → FirstFit h.blocks size o
        → (NoFit size h.blocks → Serves)
        → Ended h size (round vmm again h o)
    unfolding round
    round-Ended v (hit e is_free large before) serves = found v refl e is_free large
    round-Ended v (miss all) serves = after_expand-Ended (serves all) (heap_expand-Expanded vmm h v)

  -- One more round than the pages that are missing at the end of the heap suffices.
  pub find_or_expand-Ended :
      (k : ℕ) (h : Heap vmm) (size : ℕ)
      → IsValid vmm h
      → 0 < size
      → size + header_size ≤ free_at_end h.blocks + k * page_size
      → Ended h size (find_or_expand vmm (suc k) h size)
  unfolding find_or_expand Serves
  find_or_expand-Ended zero h size v pos enough =
      round-Ended (λ g. find_or_expand vmm zero g size) h size v
        (heap_find_free-FirstFit h.blocks size)
        (λ missed. absurd (omega (arith, NoFit-free_at_end h.blocks size pos missed)))
  find_or_expand-Ended (suc k) h size v pos enough =
      round-Ended (λ g. find_or_expand vmm (suc k) g size) h size v
        (heap_find_free-FirstFit h.blocks size)
        (λ missed g vg longer. find_or_expand-Ended k g size vg pos (omega arith))
