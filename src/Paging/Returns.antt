-- ===== src/Paging/Returns.antt =====
-- Calls of kernel/mm/paging.c with a directory that is not NULL.
use neox.Base.{ℕ, ◌≡◌, ◌≢◌, refl, Bool, true, not, ◌==◌, ==_false}
use neox.Base.Result.{done, assert, ◌>>◌}
use neox.Paging.{Paging, paging_unmap, paging_validate_mapping}

asserted {ℓ} :
    {A : Type ℓ} (b : Bool) (x : A) → b ≡ true → (y : A) × ((assert b >> done x) ≡ done y)
asserted b x h = (x, rw h refl)

module _ (s : Paging) (directory virt : ℕ) (some : directory ≢ 0) where
  pub validate_returns : (b : Bool) × (paging_validate_mapping s directory virt ≡ done b)
  unfolding paging_validate_mapping
  validate_returns = asserted (not (directory == 0)) _ (rw (==_false directory 0 some) refl)

  pub unmap_returns : (t : Paging) × (paging_unmap s directory virt ≡ done t)
  unfolding paging_unmap
  unmap_returns = asserted (not (directory == 0)) _ (rw (==_false directory 0 some) refl)
