-- ===== src/Task/Ending.antt =====
-- The end of a thread: `thread_kill_current`, with the threads that wait for it and the reaper.
use neox.Base.{ℕ, ◌≡◌, ◌≢◌, refl, true, false, ◌&&◌, List, [], ◌∷◌, ◌++◌, if◌then◌else◌, arith}
use neox.Base.Result.{done}
use neox.Task.{
  Kernel, thread_terminated, WaitQueue, reaper_wq, termination_queue, same_queue, idle_thread,
  update,
}
use neox.Task.Lists.{mem, remove, mem-append_one, mem-remove}
use neox.Task.Thread.{reaper_wait_queue, push_zombie, scheduler_push_zombie}
use neox.Task.Valid.{Core, IsValid}
use neox.Task.Wake.{first_blocked, woken-Core}
use neox.Task.WakeAll.{wake_first, wake_each, wake_off}
use neox.Task.Sleep.{current_unqueued, blocked-Core}

-- The current thread terminated and off the ready list, interrupts off.
abbrev pub ending : Kernel → Kernel
ending s = record s {
  state = update s.state s.current thread_terminated;
  ready_list = remove s.current s.ready_list;
  interrupts = false;
}

module _ (s : Kernel) (v : IsValid s) (real : s.current ≢ idle_thread) where
  pub ending-Core : Core (ending s)
  ending-Core =
      let b = blocked-Core s v real in
      record {
        distinct = b.distinct;
        runnable = λ u h.
            ground (arith, mem-remove u s.current s.ready_list v.core.distinct, v.core.runnable u);
        waiting = λ q u h. ground (arith, v.core.waiting q u, current_unqueued s v real q);
        awaited = v.core.awaited;
        queued = v.core.queued;
        ended = λ u h. ground (arith, v.core.ended u);
        single = λ u h. ground (arith, v.core.single u);
        listed = λ h. ground arith;
        idle_apart = (b.idle_apart.0, ground (arith, v.core.idle_apart));
        null_apart = b.null_apart;
        started = v.core.started;
      }

  pub unzombie : mem s.current s.zombie_list ≡ false
  unzombie = ground (arith, v.core.ended s.current, v.running)

-- What waking one thread leaves.
pub record FirstWoken (s t : Kernel) (q : WaitQueue) : Type 0 where
  pub core : Core t
  pub still_ready : (u : ℕ) → mem u s.ready_list ≡ true → mem u t.ready_list ≡ true
  pub same_current : t.current ≡ s.current
  pub zombies : t.zombie_list ≡ s.zombie_list
  pub interrupts : t.interrupts ≡ s.interrupts
  pub ended : (u : ℕ) → s.state u ≡ thread_terminated → t.state u ≡ thread_terminated
  pub others : (r : WaitQueue) → same_queue q r ≡ false → t.queues r ≡ s.queues r

pub wake_first-FirstWoken :
    (s : Kernel) (q : WaitQueue) (ts : List ℕ)
    → Core s
    → s.queues q ≡ ts
    → FirstWoken s (wake_first s q ts) q
unfolding wake_first
wake_first-FirstWoken s q [] c e = record {
  core = c;
  still_ready = λ u h. h;
  same_current = refl;
  zombies = refl;
  interrupts = refl;
  ended = λ u h. h;
  others = λ r h. refl;
}
wake_first-FirstWoken s q (t ∷ ts) c e = record {
  core = woken-Core s c q t ts e;
  still_ready = λ u h. ground (arith, mem-append_one u t s.ready_list);
  same_current = refl;
  zombies = refl;
  interrupts = refl;
  ended = λ u h. ground (arith, first_blocked s c q t ts e);
  others = λ r h. rw h;
}

-- A terminated thread that no one joins goes to the reaper.
pub zombied-Core :
    (s : Kernel) (t : ℕ)
    → Core s
    → s.state t ≡ thread_terminated
    → Core (record s { zombie_list = s.zombie_list ++ t ∷ [] })
zombied-Core s t c e = record {
  distinct = c.distinct;
  runnable = c.runnable;
  waiting = c.waiting;
  awaited = c.awaited;
  queued = c.queued;
  ended = λ u h. ground (arith, mem-append_one u t s.zombie_list, c.ended u);
  single = c.single;
  listed = c.listed;
  idle_apart = c.idle_apart;
  null_apart = c.null_apart;
  started = c.started;
}

unfoldable pub zombied : Kernel → ℕ → Kernel
zombied s t =
    let u = record s { zombie_list = s.zombie_list ++ t ∷ [] } in
    wake_first u reaper_wq (u.queues reaper_wq)

-- What `scheduler_terminate` leaves, with the threads that wait for the end.
unfoldable pub terminated : Kernel → Kernel
terminated s =
    let t =
      wake_each (ending s) (termination_queue s.current) (s.queues (termination_queue s.current)) in
    if t.detached s.current && t.reaper_ready then zombied t s.current else t

pub push_lem :
    (s : Kernel) (t : ℕ)
    → Core s
    → t ≢ 0
    → s.interrupts ≡ false
    → s.state t ≡ thread_terminated
    → mem t s.zombie_list ≡ false
    → scheduler_push_zombie s t ≡ done (if s.reaper_ready then zombied s t else s)
unfolding scheduler_push_zombie push_zombie reaper_wait_queue zombied
push_lem s t c nz off e out = ground (
  arith,
  wake_off (record s { zombie_list = s.zombie_list ++ t ∷ [] }) reaper_wq (zombied-Core s t c e)
      off,
)
