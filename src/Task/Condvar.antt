-- ===== src/Task/Condvar.antt =====
-- The condition variables: what their calls do on every branch.
use neox.Base.{
  ℕ, ◌≡◌, ◌≢◌, ◌⊎◌, inl, inr, refl, sym, ap, ◌∙◌, Bool, false, List, [], ◌∷◌, ◌++◌, arith,
}
use neox.Base.Result.{Result, done, ◌>>=◌}
use neox.Task.{
  Kernel, thread_blocked, WaitQueue, same_queue, idle_thread, disable, restore, keep, resume,
}
use neox.Task.Wait.{wait_queue_sleep}
use neox.Task.Sync.{Mutex, mutex_unlock}
use neox.Task.Valid.{IsValid, IsValid-flags, disable-IsValid}
use neox.Task.Wake.{first_blocked}
use neox.Task.Sleep.{Slept, wait_queue_sleep-Slept}
use neox.Task.Handover.{empty_or, Handed, first-Handed}
use neox.Task.Sync.{sleep_released, condvar_wait, condvar_signal, condvar_broadcast}
use neox.Task.WakeAll.{
  wake_first, wake_of_queue, wake_each-IsValid, wake_each, wake_all_off, Woken, wake_each-Woken,
}
use neox.Task.Locking.{passed, freed, Owned, mutex_unlock-Unlocked, Unlocked}

-- The outcome of `condvar_wait`, at the switch: the mutex is passed on, and the thread is the last
-- of the queue, where a signal finds it.
pub record Waits (s t : Kernel) (cv : WaitQueue) (m after : Mutex) : Type 0 where
  pub valid : IsValid t
  pub waits : t.queues cv ≡ s.queues cv ++ s.current ∷ []
  pub asleep : t.state s.current ≡ thread_blocked
  pub another : t.current ≢ s.current
  pub to_restore : t.saved s.current ≡ s.interrupts
  pub passed_on : after.owner ≢ s.current

-- The thread that holds a lock waits behind a switch with the flag of its call.
Slept-with_flag :
    (s t u : Kernel) (cv : WaitQueue) (m after : Mutex) (flag : Bool)
    → Slept (record t { interrupts = flag }) u cv
    → t.current ≡ s.current
    → t.queues cv ≡ s.queues cv
    → flag ≡ s.interrupts
    → after.owner ≢ s.current
    → Waits s u cv m after
Slept-with_flag s t u cv m after flag w same q f p = record {
  valid = w.valid;
  waits = w.waits ∙ (ap (λ ys. ys ++ t.current ∷ []) q ∙ ap (λ x. s.queues cv ++ x ∷ []) same);
  asleep = ap u.state (sym same) ∙ w.asleep;
  another = λ e. w.another (e ∙ sym same);
  to_restore = ap u.saved (sym same) ∙ (w.to_restore ∙ f);
  passed_on = p;
}

-- Condvar
module _ (s : Kernel) (cv : WaitQueue) (m : Mutex) (v : IsValid s) (real : s.current ≢ idle_thread)
    (mine : m.owner ≡ s.current) (o : Owned s m) (apart : same_queue m.wait_queue cv ≡ false) where
  passed_on : (u : ℕ) (rest : List ℕ) → s.queues m.wait_queue ≡ u ∷ rest → u ≢ s.current
  passed_on u rest e k =
      ground (arith, first_blocked s v.core m.wait_queue u rest e, v.running, ap s.state k)

  after_unlock :
      (r : Result (Kernel × Mutex))
      → Unlocked (disable s) m r
      → (t : Kernel) × (after : Mutex) × ((r >>= sleep_released s.interrupts cv) ≡ done (t, after))
        × Waits s t cv m after
  unfolding sleep_released
  after_unlock r (passed {t} {after = a} u rest h f e q) =
      let on : IsValid (record t { interrupts = s.interrupts }) =
        IsValid-flags t t.saved s.interrupts h.valid in
      let awake : t.current ≢ idle_thread = λ k. real (sym h.same_current ∙ k) in
      let (x, sleeps, w) =
        wait_queue_sleep-Slept (record t { interrupts = s.interrupts }) cv on awake in
      (
        resume x,
        a,
        ap
              (λ b. wait_queue_sleep (record (keep t s.interrupts) { interrupts = b }) cv >>= λ u.
                done (resume u, a))
              f
            ∙ rw sleeps,
        Slept-with_flag s t (resume x) cv m a s.interrupts w h.same_current (h.others cv apart) refl
            (λ k. passed_on u rest h.was_first (sym e ∙ k)),
      )
  after_unlock r (freed {after = a} none_waits e q) =
      let (x, sleeps, w) = wait_queue_sleep-Slept s cv v real in
      (
        resume x,
        a,
        rw sleeps,
        Slept-with_flag s s (resume x) cv m a s.interrupts w refl refl refl
            (λ k. v.core.started (sym k ∙ e)),
      )

  -- condvar_wait by the owner of the mutex, not the idle thread, in a valid state where the owner
  -- does not wait for its mutex and the two queues differ: when the next thread runs, the mutex has
  -- been given up and the caller is blocked at the end of the queue of the condition variable, so
  -- that no signal is lost.
  pub condvar_wait-Waits :
      (t : Kernel) × (after : Mutex) × (condvar_wait s cv m ≡ done (t, after))
      × Waits s t cv m after
  unfolding condvar_wait
  condvar_wait-Waits =
      after_unlock (mutex_unlock (disable s) m)
        (mutex_unlock-Unlocked (disable s) m (disable-IsValid s v) mine)

-- The outcomes of `condvar_signal`.
pub data Signalled (s : Kernel) (cv : WaitQueue) : Result Kernel → Type 0 where
  nobody : s.queues cv ≡ [] → Signalled s cv (done s)
  somebody :
      {t : Kernel} (u : ℕ) (rest : List ℕ)
      → Handed s t cv u rest
      → t.interrupts ≡ s.interrupts
      → Signalled s cv (done t)

-- condvar_signal in a valid state does nothing where nobody waits, and otherwise wakes the first waiter.
pub condvar_signal-Signalled :
    (s : Kernel) (cv : WaitQueue) → IsValid s → Signalled s cv (condvar_signal s cv)
unfolding condvar_signal wake_first
condvar_signal-Signalled s cv v = of_queue (empty_or (s.queues cv))
  where
    of_queue :
        (s.queues cv ≡ []) ⊎ ((t : ℕ) × (rest : List ℕ) × (s.queues cv ≡ t ∷ rest))
        → Signalled s cv (condvar_signal s cv)
    of_queue (inl e) =
        rw (wake_of_queue (disable s) cv [] (disable-IsValid s v).core e refl) (nobody e)
    of_queue (inr (u, rest, e)) =
        rw (wake_of_queue (disable s) cv (u ∷ rest) (disable-IsValid s v).core e refl)
          (somebody u rest (first-Handed s v cv u rest e s.interrupts) refl)

-- condvar_broadcast in a valid state returns a valid state: the queue is empty, its threads stand
-- behind the others in the ready list in their order, and all other queues, the zombies, the
-- current thread and the interrupt flag are as before.
pub condvar_broadcast-Woken :
    (s : Kernel) (cv : WaitQueue)
    → IsValid s
    → (t : Kernel) × (condvar_broadcast s cv ≡ done t) × IsValid t × Woken s t cv (s.queues cv)
unfolding condvar_broadcast
condvar_broadcast-Woken s cv v =
    let off = disable-IsValid s v in
    let t = wake_each (disable s) cv (s.queues cv) in
    let w = wake_each-Woken (disable s) cv (s.queues cv) off.core refl in
    let valid = IsValid-flags t t.saved s.interrupts (wake_each-IsValid (disable s) cv off) in
    (
      restore t s.interrupts,
      rw (wake_all_off (disable s) cv off.core refl),
      valid,
      record {
        core = valid.core;
        queue_empty = w.queue_empty;
        ready_behind = w.ready_behind;
        current_kept = w.current_kept;
        interrupts_kept = refl;
        saved_kept = w.saved_kept;
        zombies_kept = w.zombies_kept;
        detached_kept = w.detached_kept;
        reaper_kept = w.reaper_kept;
        running_kept = w.running_kept;
        others_kept = w.others_kept;
      },
    )
