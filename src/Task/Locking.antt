-- ===== src/Task/Locking.antt =====
-- The mutexes: what their calls do on every branch, and what they keep.
use neox.Base.{
  ℕ, ◌≡◌, ◌≢◌, ◌⊎◌, inl, inr, refl, sym, ap, ◌∙◌, subst, false, List, [], ◌∷◌, ◌++◌, ◌==◌,
  Bool-cases, ==_false, ==_true, ==_iff, arith,
}
use neox.Base.Result.{Result, done, assertion_failed}
use neox.Task.{Kernel, idle_thread, disable}
use neox.Task.Lists.{mem, mem-append_one}
use neox.Task.Sync.{Mutex, mutex_lock, mutex_unlock}
use neox.Task.Valid.{IsValid, disable-IsValid}
use neox.Task.Wake.{first_real, wait_queue_remove_lem, unblock_first}
use neox.Task.WakeAll.{wait_queue_remove_none}
use neox.Task.Sleep.{Slept, wait_queue_sleep-Slept}
use neox.Task.Handover.{empty_or, Handed, first-Handed}
use neox.Task.Lists.{Distinct}
use neox.Task.Sleep.{current_unqueued}

-- The outcomes of `mutex_lock`: the thread owns the mutex at once, or it sleeps.
pub data Locked (s : Kernel) (m : Mutex) : Result (Kernel × Mutex) → Type 0 where
  owned :
      {after : Mutex}
      → m.owner ≡ 0
      → after.owner ≡ s.current
      → after.wait_queue ≡ m.wait_queue
      → Locked s m (done (s, after))
  waiting : {t : Kernel} → m.owner ≢ 0 → Slept s t m.wait_queue → Locked s m (done (t, m))

-- The outcomes of `mutex_unlock` by the owner: the first waiter is the owner, or there is none.
pub data Unlocked (s : Kernel) (m : Mutex) : Result (Kernel × Mutex) → Type 0 where
  passed :
      {t : Kernel} {after : Mutex} (u : ℕ) (rest : List ℕ)
      → Handed s t m.wait_queue u rest
      → t.interrupts ≡ s.interrupts
      → after.owner ≡ u
      → after.wait_queue ≡ m.wait_queue
      → Unlocked s m (done (t, after))
  freed :
      {after : Mutex}
      → s.queues m.wait_queue ≡ []
      → after.owner ≡ 0
      → after.wait_queue ≡ m.wait_queue
      → Unlocked s m (done (s, after))

module _ (s : Kernel) (m : Mutex) (v : IsValid s) where
  -- mutex_lock by a thread other than the idle thread in a valid state: a free mutex is owned by
  -- the thread and nothing else changes; otherwise the thread is blocked at the end of the queue,
  -- another thread runs, and the owner stays.
  pub mutex_lock-Locked : s.current ≢ idle_thread → Locked s m (mutex_lock s m)
  unfolding mutex_lock
  mutex_lock-Locked real = elim (Bool-cases (m.owner == 0)) [
    | inl nobody ↦ rw nobody (owned ((==_iff m.owner 0).0 nobody) refl refl)
    | inr somebody ↦
        let (t, e, slept_there) = wait_queue_sleep-Slept s m.wait_queue v real in
        rw (somebody, e) (waiting (ground arith) slept_there)
  ]

  pub mutex_unlock_other : m.owner ≢ s.current → mutex_unlock s m ≡ assertion_failed
  unfolding mutex_unlock
  mutex_unlock_other other = rw (==_false m.owner s.current other)

  -- mutex_unlock by the owner in a valid state: the first waiter becomes the owner and is ready
  -- behind the other threads, and the interrupt flag is as before; without waiters the mutex has no
  -- owner and nothing else changes.
  pub mutex_unlock-Unlocked : m.owner ≡ s.current → Unlocked s m (mutex_unlock s m)
  unfolding mutex_unlock
  mutex_unlock-Unlocked mine = of_queue (empty_or (s.queues m.wait_queue))
    where
      of_queue :
          (s.queues m.wait_queue ≡ [])
            ⊎ ((t : ℕ) × (rest : List ℕ) × (s.queues m.wait_queue ≡ t ∷ rest))
          → Unlocked s m (mutex_unlock s m)
      of_queue (inl e) =
          rw (==_true m.owner s.current mine, wait_queue_remove_none (disable s) m.wait_queue e)
            (freed e refl refl)
      of_queue (inr (t, rest, e)) =
          rw
            (
              ==_true m.owner s.current mine,
              wait_queue_remove_lem (disable s) (disable-IsValid s v).core m.wait_queue t rest e,
              ==_false t 0 (first_real s v.core m.wait_queue t rest e),
              unblock_first s v.core m.wait_queue t rest e,
            )
            (passed t rest (first-Handed s v m.wait_queue t rest e s.interrupts) refl refl refl)

-- A mutex without owner has no waiters, and its owner is none of them.
abbrev pub Owned : Kernel → Mutex → Type 0
Owned s m =
    (m.owner ≡ 0 → s.queues m.wait_queue ≡ []) × (mem m.owner (s.queues m.wait_queue) ≡ false)

-- The calls on a mutex, and when a thread may make them: it unlocks what it owns and locks what it
-- does not.
pub data MutexCall : Type 0 where
  lock unlock : MutexCall

abbrev pub Allowed : Kernel → Mutex → MutexCall → Type 0
Allowed s m lock = m.owner ≢ s.current
Allowed s m unlock = m.owner ≡ s.current

abbrev pub mutex_call : MutexCall → Kernel → Mutex → Result (Kernel × Mutex)
mutex_call lock s m = mutex_lock s m
mutex_call unlock s m = mutex_unlock s m

-- Who owns the mutex behind a call. Lock: a free mutex goes to the caller, which goes on; a mutex with
-- an owner keeps it, and the caller is the last of the queue while another thread runs. Unlock: the
-- first of the queue, or none.
abbrev pub Passes : MutexCall → Kernel → Mutex → Kernel → Mutex → Type 0
Passes lock s m t after =
    (m.owner ≡ 0 → (after.owner ≡ s.current) × (t.current ≡ s.current))
    × (m.owner ≢ 0
        → (after.owner ≡ m.owner)
          × (t.current ≢ s.current)
          × (t.queues m.wait_queue ≡ s.queues m.wait_queue ++ s.current ∷ []))
Passes unlock s m t after =
    (s.queues m.wait_queue ≡ [] → after.owner ≡ 0)
    × ((u : ℕ) (rest : List ℕ)
        → s.queues m.wait_queue ≡ u ∷ rest
        → (after.owner ≡ u) × (t.queues m.wait_queue ≡ rest))

abbrev pub BothOwned : MutexCall → Kernel → Mutex → Result (Kernel × Mutex) → Type 0
BothOwned c s m (done (t, after)) = IsValid t × Owned t after × Passes c s m t after
BothOwned c s m _ = ⊥

cons_nil : {u : ℕ} {rest : List ℕ} → ¬ (u ∷ rest ≡ [])
cons_nil e = ground (arith, e)

∷-inj : {u x : ℕ} {rest xs : List ℕ} → u ∷ rest ≡ x ∷ xs → (u ≡ x) × (rest ≡ xs)
∷-inj e = ground (arith, e)

module _ (s : Kernel) (m : Mutex) (v : IsValid s) (real : s.current ≢ idle_thread)
    (o : Owned s m) where
  Locked-Owned :
      m.owner ≢ s.current → {r : Result (Kernel × Mutex)} → Locked s m r → BothOwned lock s m r
  Locked-Owned other (owned {after = a} z e q) = (
    v,
    (
      (λ n. absurd (v.core.started (sym e ∙ n))),
      ap (mem a.owner) (ap s.queues q)
          ∙ (ap (λ t. mem t (s.queues m.wait_queue)) e ∙ current_unqueued s v real m.wait_queue),
    ),
    ((λ _. (e, refl)), (λ some. absurd (some z))),
  )
  Locked-Owned other (waiting {t} nz w) = (
    w.valid,
    (
      (λ n. absurd (nz n)),
      ap (mem m.owner) w.waits
          ∙ ground (arith, mem-append_one m.owner s.current (s.queues m.wait_queue)),
    ),
    ((λ z. absurd (nz z)), (λ _. (refl, w.another, w.waits))),
  )

  Unlocked-Owned : {r : Result (Kernel × Mutex)} → Unlocked s m r → BothOwned unlock s m r
  unfolding mem
  Unlocked-Owned (passed {t} {after = a} u rest h f e q) = (
    h.valid,
    (
      (λ n. absurd (first_real s v.core m.wait_queue u rest h.was_first (sym e ∙ n))),
      ap (mem a.owner) (ap t.queues q ∙ h.left)
          ∙ (ap (λ x. mem x rest) e ∙ (subst Distinct h.was_first (v.core.queued m.wait_queue)).0),
    ),
    (
      (λ empty. absurd (cons_nil (sym h.was_first ∙ empty))),
      (λ x xs there. let same = ∷-inj (sym h.was_first ∙ there) in (e ∙ same.0, h.left ∙ same.1)),
    ),
  )
  Unlocked-Owned (freed {after = a} none_waits e q) = (
    v,
    ((λ n. ap s.queues q ∙ none_waits), ap (mem a.owner) (ap s.queues q ∙ none_waits)),
    ((λ _. e), (λ x xs there. absurd (cons_nil (sym there ∙ none_waits)))),
  )

-- mutex_lock by a thread that does not own the mutex and mutex_unlock by its owner, not the idle
-- thread, return in a valid state and keep it valid, and keep that a mutex without owner has no
-- waiters and its owner is none of them. Lock gives a free mutex to the caller; where the mutex has
-- an owner the owner stays, and the caller is the last of the queue while another thread runs.
-- Unlock gives the mutex to the first of the queue, which leaves it, or to no one where nobody
-- waits.
pub mutex-Owned :
    (s : Kernel) (m : Mutex) (c : MutexCall)
    → IsValid s
    → s.current ≢ idle_thread
    → Owned s m
    → Allowed s m c
    → BothOwned c s m (mutex_call c s m)
mutex-Owned s m lock v real o other = Locked-Owned s m v real o other (mutex_lock-Locked s m v real)
mutex-Owned s m unlock v real o mine =
    Unlocked-Owned s m v real o (mutex_unlock-Unlocked s m v mine)
