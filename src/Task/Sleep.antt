-- ===== src/Task/Sleep.antt =====
-- What puts the current thread to sleep: `wait_queue_sleep` and `thread_block`; and the switches
-- that leave it runnable, `thread_yield` and `scheduler_tick`.
use neox.Base.{
  ℕ, ◌≡◌, ◌≢◌, ◌⊎◌, inl, inr, refl, sym, ap, ◌∙◌, Bool, true, false, ◌&&◌, ◌||◌, none, some, List,
  [], ◌∷◌, ◌++◌, ◌==◌, Bool-cases, Option-cases, ==_true, arith,
}
use neox.Base.Result.{done}
use neox.Task.{
  Kernel, thread_blocked, thread_terminated, WaitQueue, same_queue, idle_thread, update, set_queue,
  disable, keep, resume,
}
use neox.Task.Lists.{
  mem, remove, Distinct, mem-append_one, mem-remove, Distinct-append_one, Distinct-remove,
}
use neox.Task.Scheduler.{scheduler_remove, switched}
use neox.Task.Wait.{wait_queue_add, wait_queue_sleep}
use neox.Task.Valid.{Core, IsValid, Kept, switched-IsValid, switched-Kept, yield_off, IsValid-flags}
use neox.Task.Wake.{same_queue-eq, eq-same_queue, same_queue_refl}

-- The current thread blocked and off the ready list, and before that in a queue.
abbrev pub blocked : Kernel → Kernel
blocked s = record s {
  state = update s.state s.current thread_blocked;
  ready_list = remove s.current s.ready_list;
}

abbrev pub enqueued : Kernel → WaitQueue → Kernel
enqueued s q =
    set_queue (record s { wait_queue = update s.wait_queue s.current (some q) }) q
      (s.queues q ++ s.current ∷ [])

abbrev pub parked : Kernel → WaitQueue → Kernel
parked s q = blocked (enqueued s q)

module _ (s : Kernel) (v : IsValid s) (real : s.current ≢ idle_thread) where
  private-Core : Core s
  private-Core = v.core

  pub current_listed : mem s.current s.ready_list ≡ true
  current_listed = ground (arith, v.core.listed v.running)

  pub current_unqueued : (q : WaitQueue) → mem s.current (s.queues q) ≡ false
  current_unqueued q = ground (arith, v.core.waiting q s.current, v.running)

  pub current_free : s.wait_queue s.current ≡ none
  current_free = of_queue (Option-cases (s.wait_queue s.current))
    where
      of_queue :
          (s.wait_queue s.current ≡ none) ⊎ ((q : WaitQueue) × (s.wait_queue s.current ≡ some q))
          → s.wait_queue s.current ≡ none
      of_queue (inl e) = e
      of_queue (inr (q, e)) = ground (arith, v.core.awaited q s.current e, current_unqueued q)

  pub blocked-Core : Core (blocked s)
  blocked-Core = record {
    distinct = Distinct-remove s.current s.ready_list v.core.distinct;
    runnable = λ u h.
        ground (arith, mem-remove u s.current s.ready_list v.core.distinct, v.core.runnable u);
    waiting = λ q u h. ground (arith, v.core.waiting q u);
    awaited = v.core.awaited;
    queued = v.core.queued;
    ended = λ u h. ground (arith, v.core.ended u, v.running);
    single = λ u h. ground (arith, v.core.single u);
    listed = λ h. ground arith;
    idle_apart =
        ground
          (arith, v.core.idle_apart, mem-remove idle_thread s.current s.ready_list v.core.distinct);
    null_apart = (
      ground (arith, v.core.null_apart.0, mem-remove 0 s.current s.ready_list v.core.distinct),
      v.core.null_apart.1,
    );
    started = v.core.started;
  }

  module _ (q : WaitQueue) where
    mem-parked :
        (r : WaitQueue) (u : ℕ)
        → mem u ((parked s q).queues r)
          ≡ (mem u (s.queues r) || (same_queue q r && (s.current == u)))
    mem-parked r u = elim (Bool-cases (same_queue q r)) [
      | inl same ↦
          let here : s.queues r ≡ s.queues q = ap s.queues (sym (same_queue-eq q r same)) in
          rw (same, here) (mem-append_one u s.current (s.queues q))
      | inr other ↦ rw other (ground arith)
    ]

    parked_waiting :
        (r : WaitQueue) (u : ℕ)
        → mem u ((parked s q).queues r) ≡ true
        → ((parked s q).state u ≡ thread_blocked) × ((parked s q).wait_queue u ≡ some r)
    parked_waiting r u h = elim (Bool-cases (same_queue q r)) [
      | inl same ↦
          let here : q ≡ r = same_queue-eq q r same in
          ground (arith, mem-parked r u, v.core.waiting r u, current_unqueued r)
      | inr other ↦ ground (arith, mem-parked r u, v.core.waiting r u, current_unqueued r)
    ]

    parked_queued : (r : WaitQueue) → Distinct ((parked s q).queues r)
    parked_queued r = elim (Bool-cases (same_queue q r)) [
      | inl same ↦
          rw same
            (Distinct-append_one s.current (s.queues q) (v.core.queued q) (current_unqueued q))
      | inr other ↦ rw other (v.core.queued r)
    ]

    pub parked-Core : Core (parked s q)
    parked-Core = record {
      distinct = blocked-Core.distinct;
      runnable = blocked-Core.runnable;
      waiting = parked_waiting;
      awaited = λ r u h. ground (arith, mem-parked r u, v.core.awaited r u, eq-same_queue q r);
      queued = λ r. parked_queued r;
      ended = blocked-Core.ended;
      single = blocked-Core.single;
      listed = blocked-Core.listed;
      idle_apart = blocked-Core.idle_apart;
      null_apart = (
        blocked-Core.null_apart.0,
        λ r. ground (arith, mem-parked r 0, v.core.null_apart.1 r, v.core.started),
      );
      started = v.core.started;
    }

    pub wait_queue_sleep_lem :
        s.interrupts ≡ false → wait_queue_sleep s q ≡ done (switched (parked s q))
    unfolding wait_queue_sleep wait_queue_add scheduler_remove
    wait_queue_sleep_lem off = ground (
      arith,
      v.core.started,
      current_free,
      current_listed,
      yield_off (parked s q) off v.core.started,
    )

-- The thread waits at the end of the queue, blocked, while another runs, with its own flag. When
-- the thread goes on it restores the flag of its call.
pub record Slept (s t : Kernel) (q : WaitQueue) : Type 0 where
  pub valid : IsValid t
  pub waits : t.queues q ≡ s.queues q ++ s.current ∷ []
  pub asleep : t.state s.current ≡ thread_blocked
  pub unlisted : t.ready_list ≡ remove s.current s.ready_list
  pub another : t.current ≢ s.current
  pub others : (r : WaitQueue) → same_queue q r ≡ false → t.queues r ≡ s.queues r
  pub to_restore : t.saved s.current ≡ s.interrupts
  pub zombies : t.zombie_list ≡ s.zombie_list
  pub restored : t.interrupts ≡ t.saved t.current
  pub ended : (u : ℕ) → s.state u ≡ thread_terminated → t.state u ≡ thread_terminated

-- Interrupts are off, and the flag is kept.
abbrev pub entering : Kernel → Kernel
entering s = keep (disable s) s.interrupts

pub entering-IsValid : (s : Kernel) → IsValid s → IsValid (entering s)
entering-IsValid s v = IsValid-flags s (update s.saved s.current s.interrupts) false v

module _ (s : Kernel) (q : WaitQueue) (v : IsValid s) (real : s.current ≢ idle_thread) where
  asleep : Kernel
  asleep = switched (parked (entering s) q)

  asleep-Kept : Kept (parked (entering s) q) asleep
  unfolding asleep
  asleep-Kept = switched-Kept (parked (entering s) q) v.core.started

  asleep-IsValid : IsValid asleep
  unfolding asleep
  asleep-IsValid =
      switched-IsValid (parked (entering s) q)
        (parked-Core (entering s) (entering-IsValid s v) real q)

  asleep_blocked : asleep.state s.current ≡ thread_blocked
  asleep_blocked = ground (
    arith,
    asleep-Kept.unlisted s.current,
    mem-remove s.current s.current s.ready_list v.core.distinct,
  )

  asleep_ended : (u : ℕ) → s.state u ≡ thread_terminated → asleep.state u ≡ thread_terminated
  asleep_ended u h = ground (
    arith,
    asleep-Kept.unlisted u,
    mem-remove u s.current s.ready_list v.core.distinct,
    v.core.runnable u,
    v.core.idle_apart,
    v.running,
  )

  -- wait_queue_sleep by a thread other than the idle thread, once interrupts are off in a valid
  -- state: the thread is blocked at the end of the queue and off the ready list, another thread
  -- runs in a valid state with its own interrupt flag, and the flag of the call is kept for when
  -- the thread goes on.
  pub wait_queue_sleep-Slept :
      (t : Kernel) × (wait_queue_sleep (entering s) q ≡ done t) × Slept s (resume t) q
  unfolding asleep
  wait_queue_sleep-Slept = (
    asleep,
    wait_queue_sleep_lem (entering s) (entering-IsValid s v) real q refl,
    record {
      valid = IsValid-flags asleep asleep.saved (asleep.saved asleep.current) asleep-IsValid;
      waits = ap (λ (f : WaitQueue → List ℕ). f q) asleep-Kept.queues ∙ rw (same_queue_refl q);
      asleep = asleep_blocked;
      unlisted = asleep-Kept.ready_list;
      another = λ e. ground (arith, asleep-IsValid.running, asleep_blocked, ap asleep.state e);
      others = λ r h. ap (λ (f : WaitQueue → List ℕ). f r) asleep-Kept.queues ∙ rw h;
      to_restore =
          ap (λ (f : ℕ → Bool). f s.current) asleep-Kept.saved
          ∙ rw (==_true s.current s.current refl);
      zombies = asleep-Kept.zombie_list;
      restored = refl;
      ended = asleep_ended;
    },
  )
