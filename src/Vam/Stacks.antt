-- ===== src/Vam/Stacks.antt =====
-- `vam_alloc_stack` and `vam_free_stack`.
use neox.Base.{
  ℕ, zero, suc, ◌+◌, ◌-◌, ◌*◌, ◌/◌, ◌%◌, ◌≤◌, ◌<◌, ◌≡◌, inl, inr, refl, sym, subst, Bool, true,
  false, not, ◌&&◌, Option, none, some, leb, ◌==◌, if◌then◌else◌, Bool-cases, arith,
}
use neox.Base.Memory.{
  Bytes, AreBytes, is_set, is_set-set_index, is_set-clear_index, set_index, set_index-AreBytes,
}
use neox.Vam.{
  Vam, kernel_stack_slot_test, kernel_stack_slot_set, kernel_stack_slot_clear, find_slot, take_slot,
  vam_alloc_stack, vam_free_stack,
}
use neox.Layout.{kernel_stacks_start, kernel_stacks_end, kernel_stack_size, kernel_stack_count}

slot_test-is_set : (m : Bytes) (i : ℕ) → kernel_stack_slot_test m i ≡ is_set m i
unfolding kernel_stack_slot_test is_set
slot_test-is_set m i = refl

-- What the scan finds among the `n` slots from `slot` on.
pub data Found (m : Bytes) (slot n : ℕ) : Option ℕ → Type 0 where
  first :
      {p : ℕ}
      → slot ≤ p
      → p < slot + n
      → is_set m p ≡ false
      → ((q : ℕ) → slot ≤ q → q < p → is_set m q ≡ true)
      → Found m slot n (some p)
  full : ((q : ℕ) → slot ≤ q → q < slot + n → is_set m q ≡ true) → Found m slot n none

find_slot-Found : (m : Bytes) (n slot : ℕ) → Found m slot n (find_slot m n slot)
unfolding find_slot
find_slot-Found m zero slot = full (λ q h k. absurd (omega arith))
find_slot-Found m (suc n) slot = elim (Bool-cases (is_set m slot)) [
  | inl taken ↦ rw (slot_test-is_set m slot, taken) (later (find_slot-Found m n (slot + 1)) taken)
  | inr clear ↦
      rw (slot_test-is_set m slot, clear)
        (first (omega arith) (omega arith) clear (λ q h k. absurd (omega arith)))
]
  where
    later : {o : Option ℕ} → Found m (slot + 1) n o → is_set m slot ≡ true → Found m slot (suc n) o
    later (first lo hi clear before) taken =
        first (omega arith) (omega arith) clear (λ q h k. ground (arith, before q))
    later (full all) taken = full (λ q h k. ground (arith, all q))

-- The base address of a slot.
abbrev pub slot_base : ℕ → ℕ
slot_base p = kernel_stacks_start + p * kernel_stack_size

-- The outcomes of an allocation.
pub data Allocated (s : Vam) : Vam × ℕ → Type 0 where
  slot :
      (p : ℕ)
      → p < kernel_stack_count
      → is_set s.kernel_stack_bitmap p ≡ false
      → ((q : ℕ) → q < p → is_set s.kernel_stack_bitmap q ≡ true)
      → {t : Vam} {addr : ℕ}
      → t ≡ record s { kernel_stack_bitmap = kernel_stack_slot_set s.kernel_stack_bitmap p }
      → addr ≡ slot_base p
      → Allocated s (t, addr)
  none_left :
      ((q : ℕ) → q < kernel_stack_count → is_set s.kernel_stack_bitmap q ≡ true)
      → {t : Vam} {addr : ℕ} → t ≡ s
      → addr ≡ 0
      → Allocated s (t, addr)

take_slot-Allocated :
    (s : Vam) {o : Option ℕ}
    → Found s.kernel_stack_bitmap 0 kernel_stack_count o
    → Allocated s (take_slot s o)
unfolding take_slot
take_slot-Allocated s (first {p} lo hi clear before) =
    slot p (omega arith) clear (λ q k. before q (omega arith) k) refl (omega arith)
take_slot-Allocated s (full all) = none_left (λ q k. all q (omega arith) (omega arith)) refl refl

-- vam_alloc_stack takes the lowest free slot, marks it and returns its base; if all slots are taken
-- it returns NULL and changes nothing.
pub vam_alloc_stack-Allocated : (s : Vam) → Allocated s (vam_alloc_stack s)
unfolding vam_alloc_stack
vam_alloc_stack-Allocated s =
    take_slot-Allocated s (find_slot-Found s.kernel_stack_bitmap kernel_stack_count 0)

-- The addresses that `vam_free_stack` accepts: the base of a slot.
abbrev pub is_base : ℕ → Bool
is_base a =
    leb kernel_stacks_start a
    && leb a kernel_stacks_end
    && ((a - kernel_stacks_start) % kernel_stack_size == 0)

-- vam_free_stack of any address clears the slot whose base it is and no other; of an address that
-- is no base of a slot, NULL among them, it changes nothing.
pub vam_free_stack_lem :
    (s : Vam) (a q : ℕ)
    → AreBytes s.kernel_stack_bitmap
    → (vam_free_stack s a ≡ (
        if is_base a
        then record s {
          kernel_stack_bitmap =
              kernel_stack_slot_clear s.kernel_stack_bitmap
                ((a - kernel_stacks_start) / kernel_stack_size);
        }
        else s))
      × (is_set (vam_free_stack s a).kernel_stack_bitmap q
          ≡ (is_set s.kernel_stack_bitmap q && not (is_base a && (slot_base q == a))))
unfolding vam_free_stack kernel_stack_slot_clear
vam_free_stack_lem s a q v = (
  ground arith,
  ground (
    arith,
    is_set-clear_index s.kernel_stack_bitmap ((a - kernel_stacks_start) / kernel_stack_size) q v,
  ),
)

-- The state after an allocation: the slot at the returned address was free, and freed again it
-- leaves each slot as it was before.
abbrev pub StackRestored : Vam → Vam × ℕ → Type 0
StackRestored s (t, addr) =
    (is_base addr ≡ true)
    × ((q : ℕ)
        → is_set (vam_free_stack t addr).kernel_stack_bitmap q ≡ is_set s.kernel_stack_bitmap q)

restored_slot :
    (s : Vam) (p addr : ℕ)
    → AreBytes s.kernel_stack_bitmap
    → p < kernel_stack_count
    → is_set s.kernel_stack_bitmap p ≡ false
    → addr ≡ slot_base p
    → StackRestored s
        (record s { kernel_stack_bitmap = kernel_stack_slot_set s.kernel_stack_bitmap p }, addr)
unfolding kernel_stack_slot_set
restored_slot s p addr v lt clear ea = (
  ground arith,
  λ q. ground (
    arith,
    (vam_free_stack_lem t addr q (set_index-AreBytes s.kernel_stack_bitmap p v)).1,
    is_set-set_index s.kernel_stack_bitmap p q v,
  ),
)
  where
    t : Vam
    t = record s { kernel_stack_bitmap = set_index s.kernel_stack_bitmap p }

-- If a slot is free, vam_alloc_stack returns the base of a slot, and vam_free_stack of that address
-- leaves each slot as it was before.
pub free_stack-alloc_stack :
    (s : Vam) (p : ℕ)
    → AreBytes s.kernel_stack_bitmap
    → p < kernel_stack_count
    → is_set s.kernel_stack_bitmap p ≡ false
    → StackRestored s (vam_alloc_stack s)
free_stack-alloc_stack s p v lt clear = of_outcome (vam_alloc_stack-Allocated s)
  where
    of_outcome : {t : Vam} {addr : ℕ} → Allocated s (t, addr) → StackRestored s (t, addr)
    of_outcome {t} {addr} (slot r lt' clear' before e ea) =
        subst (λ u. StackRestored s (u, addr)) (sym e) (restored_slot s r addr v lt' clear' ea)
    of_outcome (none_left all e ea) = absurd (cc (all p lt, clear))
