-- ===== src/Task/Handover.antt =====
-- The semaphores: what their calls do on every branch, and what they keep.
use neox.Base.{
  ℕ, ◌+◌, ◌≡◌, ◌≢◌, ◌⊎◌, inl, inr, refl, ap, ◌∙◌, Bool, false, List, [], ◌∷◌, ◌++◌, ltb, u32,
  Bool-cases, ==_false, ==_true, arith,
}
use neox.Base.Result.{Result, done}
use neox.Task.{Kernel, thread_ready, WaitQueue, same_queue, idle_thread, disable}
use neox.Task.Sync.{Semaphore, semaphore_acquire, semaphore_release}
use neox.Task.Valid.{IsValid, IsValid-flags, disable-IsValid}
use neox.Task.Wake.{
  unblocked, dequeued, first_real, wait_queue_remove_lem, unblock_first, woken-IsValid,
  same_queue_refl,
}
use neox.Task.WakeAll.{wait_queue_remove_none}
use neox.Task.Sleep.{Slept, wait_queue_sleep-Slept}

pub empty_or : (ts : List ℕ) → (ts ≡ []) ⊎ ((t : ℕ) × (rest : List ℕ) × (ts ≡ t ∷ rest))
empty_or [] = inl refl
empty_or (t ∷ rest) = inr (t, rest, refl)

-- While a thread waits the count is 0.
abbrev pub Balanced : Kernel → Semaphore → Type 0
Balanced s sem = (sem.count ≡ 0) ⊎ (s.queues sem.wait_queue ≡ [])

-- The outcomes of `semaphore_acquire`: a unit is taken at once, or the thread sleeps.
pub data Acquired (s : Kernel) (sem : Semaphore) : Result (Kernel × Semaphore) → Type 0 where
  taken :
      {after : Semaphore}
      → sem.count ≡ after.count + 1
      → after.wait_queue ≡ sem.wait_queue
      → Acquired s sem (done (s, after))
  slept : {t : Kernel} → sem.count ≡ 0 → Slept s t sem.wait_queue → Acquired s sem (done (t, sem))

-- The first waiter `u` of the queue runs again, behind the other threads.
pub record Handed (s t : Kernel) (q : WaitQueue) (u : ℕ) (rest : List ℕ) : Type 0 where
  pub was_first : s.queues q ≡ u ∷ rest
  pub valid : IsValid t
  pub left : t.queues q ≡ rest
  pub others : (r : WaitQueue) → same_queue q r ≡ false → t.queues r ≡ s.queues r
  pub behind : t.ready_list ≡ s.ready_list ++ u ∷ []
  pub woken : t.state u ≡ thread_ready
  pub same_current : t.current ≡ s.current

-- The outcomes of `semaphore_release`: the first waiter gets the unit, and interrupts stay off; or
-- the unit is counted, and the flag is restored.
pub data Released (s : Kernel) (sem : Semaphore) : Result (Kernel × Semaphore) → Type 0 where
  handed :
      {t : Kernel} (u : ℕ) (rest : List ℕ)
      → Handed s t sem.wait_queue u rest
      → t.interrupts ≡ false
      → Released s sem (done (t, sem))
  counted :
      {after : Semaphore}
      → s.queues sem.wait_queue ≡ []
      → after.count ≡ u32 (sem.count + 1)
      → after.wait_queue ≡ sem.wait_queue
      → Released s sem (done (s, after))

pub first-Handed :
    (s : Kernel) (v : IsValid s) (q : WaitQueue) (u : ℕ) (rest : List ℕ)
    → s.queues q ≡ u ∷ rest
    → (flag : Bool)
    → Handed s (record (unblocked (dequeued s q u rest) u) { interrupts = flag }) q u rest
first-Handed s v q u rest e flag = record {
  was_first = e;
  valid =
      IsValid-flags (unblocked (dequeued s q u rest) u) s.saved flag (woken-IsValid s v q u rest e);
  left = rw (same_queue_refl q);
  others = λ r h. rw h;
  behind = refl;
  woken = rw (==_true u u refl);
  same_current = refl;
}

module _ (s : Kernel) (sem : Semaphore) (v : IsValid s) where
  -- semaphore_acquire by a thread other than the idle thread in a valid state: with a count above 0
  -- it takes one and changes nothing else; otherwise the thread is blocked at the end of the queue
  -- and another thread runs.
  pub semaphore_acquire-Acquired :
      s.current ≢ idle_thread → Acquired s sem (semaphore_acquire s sem)
  unfolding semaphore_acquire
  semaphore_acquire-Acquired real = elim (Bool-cases (ltb 0 sem.count)) [
    | inl some_left ↦ rw some_left (taken (ground arith) refl)
    | inr none_left ↦
        let (t, e, slept_there) = wait_queue_sleep-Slept s sem.wait_queue v real in
        rw (none_left, e) (slept (ground arith) slept_there)
  ]

  -- semaphore_release in a valid state: if threads wait, the first leaves the queue and is ready
  -- behind the others, the count stays and interrupts stay off whatever they were before; if none
  -- waits, the 32-bit count grows by one and nothing else changes.
  pub semaphore_release-Released : Released s sem (semaphore_release s sem)
  unfolding semaphore_release
  semaphore_release-Released = of_queue (empty_or (s.queues sem.wait_queue))
    where
      of_queue :
          (s.queues sem.wait_queue ≡ [])
            ⊎ ((t : ℕ) × (rest : List ℕ) × (s.queues sem.wait_queue ≡ t ∷ rest))
          → Released s sem (semaphore_release s sem)
      of_queue (inl e) =
          rw (wait_queue_remove_none (disable s) sem.wait_queue e) (counted e refl refl)
      of_queue (inr (t, rest, e)) =
          rw
            (
              wait_queue_remove_lem (disable s) (disable-IsValid s v).core sem.wait_queue t rest e,
              ==_false t 0
                  (first_real (disable s) (disable-IsValid s v).core sem.wait_queue t rest e),
              unblock_first (disable s) (disable-IsValid s v).core sem.wait_queue t rest e,
            )
            (handed t rest (first-Handed s v sem.wait_queue t rest e false) refl)

-- A call that returns leaves valid threads and a balanced semaphore, and every call returns.
abbrev pub BothBalanced : Result (Kernel × Semaphore) → Type 0
BothBalanced (done (t, after)) = IsValid t × Balanced t after
BothBalanced _ = ⊥

module _ (s : Kernel) (sem : Semaphore) (v : IsValid s) (b : Balanced s sem) where
  acquired_balanced : {r : Result (Kernel × Semaphore)} → Acquired s sem r → BothBalanced r
  acquired_balanced (taken {after = a} n q) = (v, ground (arith, ap s.queues q))
  acquired_balanced (slept z w) = (w.valid, inl z)

  Released-Balanced : {r : Result (Kernel × Semaphore)} → Released s sem r → BothBalanced r
  Released-Balanced (handed u rest h off) = (h.valid, ground (arith, h.was_first))
  Released-Balanced (counted {after = a} e n q) = (v, inr (ap s.queues q ∙ e))

  -- semaphore_acquire and semaphore_release by a thread other than the idle thread return in a
  -- valid state and keep it valid, and keep that the count is 0 or no thread waits.
  pub semaphore-Balanced :
      s.current ≢ idle_thread
      → BothBalanced (semaphore_acquire s sem) × BothBalanced (semaphore_release s sem)
  semaphore-Balanced real = (
    acquired_balanced (semaphore_acquire-Acquired s sem v real),
    Released-Balanced (semaphore_release-Released s sem v),
  )
