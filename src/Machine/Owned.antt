-- ===== src/Machine/Owned.antt =====
-- The blocks of the heap that a client has taken and not given back. A block has a label of the
-- client's, such as the page that it stands for, and the address that `kmalloc` returned.
use neox.Base.{ℕ, ◌≡◌, ◌≢◌, ◌↔◌, ◌⊎◌, inl, inr, refl, subst, List, [], ◌∷◌}
use neox.Strings.{memcpy}
use neox.Machine.{Machine}
use neox.Machine.Laws.{Laws}

-- A block of the list.
abbrev pub IsBlock : ℕ → List (ℕ × ℕ) → Type 0
IsBlock q [] = ⊥
IsBlock q ((label, block) ∷ blocks) = (q ≡ block) ⊎ IsBlock q blocks

module _ (machine : Machine) (laws : Laws machine) where
  open machine use {State, memory, set_memory}
  open laws use {IsSound, InUse, Room, copy-IsSound, copy-InUse}

  -- The blocks differ, and none was in use before.
  abbrev pub AreNew : State → List (ℕ × ℕ) → Type 0
  AreNew before [] = Unit {0}
  AreNew before ((label, block) ∷ blocks) =
      (¬ InUse before block) × (¬ IsBlock block blocks) × AreNew before blocks

  -- The pointers in use are those from before and the blocks of the list.
  pub record Owns (before st : State) (blocks : List (ℕ × ℕ)) : Type 0 where
    pub sound : IsSound st
    pub in_use : (q : ℕ) → InUse st q ↔ (InUse before q ⊎ IsBlock q blocks)
    pub new : AreNew before blocks

  -- A copy into a block in use.
  pub copy-Owns :
      (before st : State) (blocks : List (ℕ × ℕ)) (ptr source n : ℕ)
      → Room st ptr n
      → Owns before st blocks
      → Owns before (set_memory st (memcpy (memory st) ptr source n)) blocks
  copy-Owns before st blocks ptr source n room l = record {
    sound = copy-IsSound st ptr source n room l.sound;
    in_use = λ q. (
      (λ i. (l.in_use q).0 ((copy-InUse st ptr source n q room).0 i)),
      (λ i. (copy-InUse st ptr source n q room).1 ((l.in_use q).1 i)),
    );
    new = l.new;
  }

  -- One block more.
  pub adds :
      (before st t : State) (blocks : List (ℕ × ℕ)) (label block : ℕ)
      → Owns before st blocks
      → IsSound t
      → block ≢ 0
      → ¬ InUse st block
      → ((q : ℕ) → InUse t q ↔ (InUse st q ⊎ ((block ≢ 0) × (q ≡ block))))
      → Owns before t ((label, block) ∷ blocks)
  adds before st t blocks label block k sound present fresh held = record {
    sound = sound;
    in_use = λ q. (
      (λ i. elim ((held q).0 i) [
        | inl old ↦ elim ((k.in_use q).0 old) [
          | inl first ↦ inl first
          | inr later ↦ inr (inr later)
        ]
        | inr here ↦ inr (inl here.1)
      ]),
      (λ i. elim i [
        | inl first ↦ (held q).1 (inl ((k.in_use q).1 (inl first)))
        | inr (inl here) ↦ (held q).1 (inr (present, here))
        | inr (inr later) ↦ (held q).1 (inl ((k.in_use q).1 (inr later)))
      ]),
    );
    new = (
      (λ i. fresh ((k.in_use block).1 (inl i))),
      (λ i. fresh ((k.in_use block).1 (inr i))),
      k.new,
    );
  }

  -- A request that was refused.
  pub not_added :
      (before st t : State) (ptr : ℕ) (blocks : List (ℕ × ℕ))
      → Owns before st blocks
      → IsSound t
      → ptr ≡ 0
      → ((q : ℕ) → InUse t q ↔ (InUse st q ⊎ ((ptr ≢ 0) × (q ≡ ptr))))
      → Owns before t blocks
  not_added before st t ptr blocks k sound null held = record {
    sound = sound;
    in_use = λ q. (
      (λ i. elim ((held q).0 i) [ inl old ↦ (k.in_use q).0 old | inr here ↦ absurd (here.0 null) ]),
      (λ i. (held q).1 (inl ((k.in_use q).1 i))),
    );
    new = k.new;
  }

  -- The blocks are in use and differ.
  abbrev pub AreHeld : State → List (ℕ × ℕ) → Type 0
  AreHeld st [] = Unit {0}
  AreHeld st ((label, block) ∷ blocks) =
      InUse st block × (¬ IsBlock block blocks) × AreHeld st blocks

  pub AreHeld-of :
      (before st : State) (blocks : List (ℕ × ℕ))
      → AreNew before blocks
      → ((q : ℕ) → IsBlock q blocks → InUse st q)
      → AreHeld st blocks
  AreHeld-of before st [] new held = tt
  AreHeld-of before st ((label, block) ∷ blocks) new held =
      (held block (inl refl), new.1, AreHeld-of before st blocks new.2 (λ q i. held q (inr i)))

  pub new-IsBlock :
      (before : State) (q : ℕ) (blocks : List (ℕ × ℕ))
      → AreNew before blocks
      → InUse before q
      → ¬ IsBlock q blocks
  new-IsBlock before q [] new old i = i
  new-IsBlock before q ((label, block) ∷ blocks) new old (inl here) =
      new.0 (subst (InUse before) here old)
  new-IsBlock before q ((label, block) ∷ blocks) new old (inr there) =
      new-IsBlock before q blocks new.2 old there

  -- Nothing is taken yet.
  pub start-Owns : (before : State) → IsSound before → Owns before before []
  start-Owns before sound = record {
    sound = sound;
    in_use = λ q. ((λ i. inl i), (λ i. elim i [ inl first ↦ first | inr none ↦ absurd none ]));
    new = tt;
  }
