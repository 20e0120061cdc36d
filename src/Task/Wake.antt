-- ===== src/Task/Wake.antt =====
-- What wakes one thread: `thread_unblock` and `wait_queue_remove`.
use neox.Base.{
  ℕ, ◌≡◌, ◌≢◌, inl, inr, refl, sym, ap, subst, true, false, not, ◌&&◌, ◌||◌, none, some, List, [],
  ◌∷◌, ◌++◌, ◌==◌, Bool-cases, ==_true, ==_iff, arith,
}
use neox.Base.Result.{done}
use neox.Task.{
  Kernel, thread_ready, thread_blocked, WaitQueue, reaper_wq, termination_queue, queue_at,
  same_queue, idle_thread, update, set_queue,
}
use neox.Task.Lists.{mem, Distinct, mem-append_one, Distinct-append_one}
use neox.Task.Scheduler.{scheduler_add}
use neox.Task.Wait.{thread_unblock, remove_front, wait_queue_remove}
use neox.Task.Valid.{Core, IsValid}

pub same_queue-eq : (q r : WaitQueue) → same_queue q r ≡ true → q ≡ r
same_queue-eq reaper_wq reaper_wq h = refl
same_queue-eq reaper_wq (termination_queue t) h = cc
same_queue-eq reaper_wq (queue_at a) h = cc
same_queue-eq (termination_queue t) reaper_wq h = cc
same_queue-eq (termination_queue t) (termination_queue u) h =
    ap termination_queue ((==_iff t u).0 h)
same_queue-eq (termination_queue t) (queue_at a) h = cc
same_queue-eq (queue_at a) reaper_wq h = cc
same_queue-eq (queue_at a) (termination_queue t) h = cc
same_queue-eq (queue_at a) (queue_at b) h = ap queue_at ((==_iff a b).0 h)

pub same_queue_refl : (q : WaitQueue) → same_queue q q ≡ true
same_queue_refl reaper_wq = refl
same_queue_refl (termination_queue t) = ==_true t t refl
same_queue_refl (queue_at a) = ==_true a a refl

pub eq-same_queue : (q r : WaitQueue) → q ≡ r → same_queue q r ≡ true
eq-same_queue q r e = subst (λ x. same_queue q x ≡ true) e (same_queue_refl q)

-- A blocked thread that can run again.
abbrev pub unblocked : Kernel → ℕ → Kernel
unblocked s t = record s {
  state = update s.state t thread_ready;
  ready_list = s.ready_list ++ t ∷ [];
}

module _ (s : Kernel) (c : Core s) (t : ℕ) (blocked : s.state t ≡ thread_blocked) where
  pub blocked_unlisted : mem t s.ready_list ≡ false
  blocked_unlisted = ground (arith, c.runnable t)

  pub thread_unblock_lem : t ≢ 0 → thread_unblock s t ≡ done (unblocked s t)
  unfolding thread_unblock scheduler_add
  thread_unblock_lem nz = ground (arith, blocked_unlisted)

  pub unblocked-Core : t ≢ 0 → s.wait_queue t ≡ none → Core (unblocked s t)
  unblocked-Core nz out = record {
    distinct = Distinct-append_one t s.ready_list c.distinct blocked_unlisted;
    runnable = λ u h. ground (arith, mem-append_one u t s.ready_list, c.runnable u);
    waiting = λ q u h. ground (arith, c.waiting q u);
    awaited = c.awaited;
    queued = c.queued;
    ended = λ u h. ground (arith, c.ended u);
    single = λ u h. ground (arith, c.single u);
    listed = λ h. ground (arith, c.listed, mem-append_one s.current t s.ready_list);
    idle_apart = ground (arith, c.idle_apart, mem-append_one idle_thread t s.ready_list);
    null_apart = (ground (arith, c.null_apart.0, mem-append_one 0 t s.ready_list), c.null_apart.1);
    started = c.started;
  }

-- The first thread `t` of the queue leaves it; `rest` stays.
abbrev pub dequeued : Kernel → WaitQueue → ℕ → List ℕ → Kernel
dequeued s q t rest = set_queue (record s { wait_queue = update s.wait_queue t none }) q rest

module _ (s : Kernel) (c : Core s) (q : WaitQueue) (t : ℕ) (rest : List ℕ)
    (e : s.queues q ≡ t ∷ rest) where
  first_waits : mem t (s.queues q) ≡ true
  unfolding mem
  first_waits = rw e (ground arith)

  pub first_blocked : (s.state t ≡ thread_blocked) × (s.wait_queue t ≡ some q)
  first_blocked = c.waiting q t first_waits

  pub first_real : t ≢ 0
  first_real z = ground (arith, c.null_apart.1 q, first_waits)

  pub wait_queue_remove_lem : wait_queue_remove s q ≡ (dequeued s q t rest, t)
  unfolding wait_queue_remove remove_front
  wait_queue_remove_lem = ap (remove_front s q) e

  rest-Distinct : (mem t rest ≡ false) × Distinct rest
  rest-Distinct = subst Distinct e (c.queued q)

  rest_mem : (u : ℕ) → mem u (s.queues q) ≡ ((t == u) || mem u rest)
  unfolding mem
  rest_mem u = ap (mem u) e

  -- The first thread waits nowhere else.
  only_here : (r : WaitQueue) → mem t (s.queues r) ≡ true → same_queue q r ≡ true
  only_here r h =
      let waits : s.wait_queue t ≡ some r = (c.waiting r t h).1 in
      let one : q ≡ r = cc (waits, first_blocked.1) in eq-same_queue q r one

  mem-dequeued :
      (r : WaitQueue) (u : ℕ)
      → mem u ((dequeued s q t rest).queues r)
        ≡ (mem u (s.queues r) && not (same_queue q r && (t == u)))
  mem-dequeued r u = elim (Bool-cases (same_queue q r)) [
    | inl same ↦
        let here : s.queues r ≡ s.queues q = ap s.queues (sym (same_queue-eq q r same)) in
        rw (same, here) (ground (arith, rest_mem u, rest-Distinct.0))
    | inr other ↦ rw other (ground arith)
  ]

  pub dequeued-Core : Core (dequeued s q t rest)
  dequeued-Core = record {
    distinct = c.distinct;
    runnable = c.runnable;
    waiting = λ r u h. ground (arith, mem-dequeued r u, c.waiting r u, only_here r);
    awaited = λ r u h. ground (arith, mem-dequeued r u, c.awaited r u);
    queued = λ r. ground (arith, rest-Distinct.1, c.queued r);
    ended = c.ended;
    single = c.single;
    listed = c.listed;
    idle_apart = c.idle_apart;
    null_apart = (c.null_apart.0, λ r. ground (arith, mem-dequeued r 0, c.null_apart.1 r));
    started = c.started;
  }

  -- The first thread is woken.
  pub woken-Core : Core (unblocked (dequeued s q t rest) t)
  woken-Core =
      unblocked-Core (dequeued s q t rest) dequeued-Core t first_blocked.0 first_real (ground arith)

  pub unblock_first :
      thread_unblock (dequeued s q t rest) t ≡ done (unblocked (dequeued s q t rest) t)
  unblock_first =
      thread_unblock_lem (dequeued s q t rest) dequeued-Core t first_blocked.0 first_real

-- A running thread goes on running when another is woken.
pub woken-IsValid :
    (s : Kernel) (v : IsValid s) (q : WaitQueue) (t : ℕ) (rest : List ℕ)
    → s.queues q ≡ t ∷ rest
    → IsValid (unblocked (dequeued s q t rest) t)
woken-IsValid s v q t rest e = record {
  core = woken-Core s v.core q t rest e;
  running = ground (arith, first_blocked s v.core q t rest e, v.running);
}
