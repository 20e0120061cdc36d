-- ===== src/Usermode/Slots.antt =====
-- `user_stack_alloc` of kernel/arch/x86/usermode.c, and the list of the reserved stacks.
use neox.Base.{
  ℕ, zero, suc, ◌+◌, ◌-◌, ◌*◌, ◌<◌, ◌≡◌, ◌≢◌, inl, inr, refl, sym, subst, ◌∙◌, Bool, true, false,
  not, ◌&&◌, Bool-cases, some, List, [], ◌∷◌, ◌++◌, ltb, ◌==◌, ==_cases, ==_true, ==_false, arith,
}
use neox.Paging.{Paging, paging_translate}
use neox.Exec.{user_stack_size}
use neox.Usermode.{
  user_stack_region_end, user_stack_count, Process, is_occupied, alloc_from, user_stack_alloc,
  keep_stack, take_stack,
}

-- No reserved stack has the address.
abbrev pub Unreserved : List (ℕ × ℕ) → ℕ → Type 0
Unreserved [] virt = Unit {0}
Unreserved ((stack, node) ∷ stacks) virt = (stack ≢ virt) × Unreserved stacks virt

-- No two reserved stacks have the same address.
abbrev pub AreDistinct : List (ℕ × ℕ) → Type 0
AreDistinct [] = Unit {0}
AreDistinct ((stack, node) ∷ stacks) = Unreserved stacks stack × AreDistinct stacks

occupied :
    (stacks : List (ℕ × ℕ)) (virt : ℕ) → is_occupied stacks virt ≡ true → ¬ Unreserved stacks virt
unfolding is_occupied
occupied [] virt h u = ground arith
occupied ((stack, node) ∷ stacks) virt h u =
    occupied stacks virt (sym (rw (==_false stack virt u.0) refl) ∙ h) u.1

unoccupied :
    (stacks : List (ℕ × ℕ)) (virt : ℕ) → is_occupied stacks virt ≡ false → Unreserved stacks virt
unfolding is_occupied
unoccupied [] virt h = tt
unoccupied ((stack, node) ∷ stacks) virt h = elim (==_cases stack virt) [
  | inl same ↦ ground (arith, same)
  | inr other ↦ (other, unoccupied stacks virt (sym (rw (==_false stack virt other) refl) ∙ h))
]

-- The address of a slot of the region, the highest first.
abbrev pub slot_at : ℕ → ℕ
slot_at k = user_stack_region_end - (k + 1) * user_stack_size

-- Neither reserved nor mapped.
abbrev pub IsFree : Paging → Process → ℕ → Type 0
IsFree s process virt =
    Unreserved process.user_stacks virt × (paging_translate s process.page_directory virt ≡ 0)

-- What `user_stack_alloc` chooses.
pub data Choice (s : Paging) (process : Process) : ℕ → Type 0 where
  slot :
      (k : ℕ)
      → k < user_stack_count
      → IsFree s process (slot_at k)
      → ((j : ℕ) → j < k → ¬ IsFree s process (slot_at j))
      → Choice s process (slot_at k)
  full : ((j : ℕ) → j < user_stack_count → ¬ IsFree s process (slot_at j)) → Choice s process 0

module _ (s : Paging) (process : Process) where
  abbrev test : ℕ → Bool
  test virt =
      not (is_occupied process.user_stacks virt)
      && (paging_translate s process.page_directory virt == 0)

  passes : (virt : ℕ) → test virt ≡ true → IsFree s process virt
  passes virt h = (unoccupied process.user_stacks virt (ground arith), ground arith)

  refuses : (virt : ℕ) → test virt ≡ false → ¬ IsFree s process virt
  refuses virt h free = elim (Bool-cases (is_occupied process.user_stacks virt)) [
    | inl taken ↦ occupied process.user_stacks virt taken free.0
    | inr other ↦ ground (arith, free.1)
  ]

  alloc_from-Choice :
      (n k : ℕ)
      → k + n ≡ user_stack_count
      → ((j : ℕ) → j < k → ¬ IsFree s process (slot_at j))
      → Choice s process (alloc_from s process n (slot_at k))
  unfolding alloc_from
  alloc_from-Choice zero k e before = full (λ j h. before j (omega arith))
  alloc_from-Choice (suc n) k e before = elim (Bool-cases (test (slot_at k))) [
    | inl free ↦ rw free (slot k (omega arith) (passes (slot_at k) free) before)
    | inr taken ↦
        let next : slot_at k - user_stack_size ≡ slot_at (k + 1) = omega arith in
        let inside : ltb (slot_at k) user_stack_size ≡ false = ground arith in
        rw (taken, inside, next)
          (alloc_from-Choice n (k + 1) (omega arith) (λ j h. elim (==_cases j k) [
            | inl here ↦
                λ f. refuses (slot_at k) taken (subst (λ x. IsFree s process (slot_at x)) here f)
            | inr lower ↦ before j (omega arith)
          ]))
  ]

  pub user_stack_alloc-Choice : Choice s process (user_stack_alloc s process)
  unfolding user_stack_alloc
  user_stack_alloc-Choice = alloc_from-Choice user_stack_count 0 refl (λ j h. absurd (omega arith))

-- The stack that was reserved last is found behind the others.
pub take_stack-append :
    (stacks : List (ℕ × ℕ)) (virt node : ℕ)
    → Unreserved stacks virt
    → take_stack (stacks ++ (virt, node) ∷ []) virt ≡ some (node, stacks)
unfolding take_stack keep_stack
take_stack-append [] virt node u = rw (==_true virt virt refl) refl
take_stack-append ((stack, other) ∷ stacks) virt node u =
    rw (==_false stack virt u.0, take_stack-append stacks virt node u.1) refl

pub AreDistinct-append :
    (stacks : List (ℕ × ℕ)) (virt node : ℕ)
    → AreDistinct stacks
    → Unreserved stacks virt
    → AreDistinct (stacks ++ (virt, node) ∷ [])
AreDistinct-append [] virt node d u = (tt, tt)
AreDistinct-append ((stack, other) ∷ stacks) virt node d u =
    (added stacks d.0, AreDistinct-append stacks virt node d.1 u.1)
  where
    added : (xs : List (ℕ × ℕ)) → Unreserved xs stack → Unreserved (xs ++ (virt, node) ∷ []) stack
    added [] v = (λ e. u.0 (sym e), tt)
    added ((x, y) ∷ xs) v = (v.0, added xs v.1)
