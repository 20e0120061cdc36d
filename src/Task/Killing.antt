-- ===== src/Task/Killing.antt =====
-- `thread_kill_current`: the thread is terminated for good, and no one waits for it in vain.
use neox.Base.{
  ℕ, ◌≡◌, ◌≢◌, inl, inr, refl, sym, ap, ◌∙◌, Bool, true, false, ◌&&◌, [], ◌∷◌, ◌++◌, Bool-cases,
  ==_false, arith,
}
use neox.Base.Result.{done}
use neox.Task.{
  Kernel, thread_terminated, reaper_wq, termination_queue, idle_thread, disable, resume,
}
use neox.Task.Lists.{mem, remove, mem-append, mem-append_one}
use neox.Task.Scheduler.{scheduler_remove, switched}
use neox.Task.Thread.{scheduler_terminate, thread_kill_current}
use neox.Task.Valid.{Core, IsValid, Kept, switched-IsValid, switched-Kept, yield_off, IsValid-flags}
use neox.Task.WakeAll.{wake_each, wake_all_off, Woken, wake_each-Woken}
use neox.Task.Sleep.{current_listed}
use neox.Task.Ending.{
  ending, ending-Core, unzombie, wake_first-FirstWoken, zombied-Core, zombied, terminated, push_lem,
}

-- What the end of the current thread leaves before the switch.
record Ended (s t : Kernel) : Type 0 where
  core : Core t
  same_current : t.current ≡ s.current
  off : t.interrupts ≡ false
  dead : t.state s.current ≡ thread_terminated
  off_list : mem s.current t.ready_list ≡ false
  joined :
      (u : ℕ) → mem u (s.queues (termination_queue s.current)) ≡ true → mem u t.ready_list ≡ true
  handed_over :
      s.detached s.current ≡ true → s.reaper_ready ≡ true → mem s.current t.zombie_list ≡ true
  still_dead : (u : ℕ) → s.state u ≡ thread_terminated → t.state u ≡ thread_terminated

module _ (s : Kernel) (v : IsValid s) (real : s.current ≢ idle_thread) where
  woken_all : Kernel
  woken_all =
      wake_each (ending s) (termination_queue s.current) (s.queues (termination_queue s.current))

  joiners :
      Woken
        (ending s)
        woken_all
        (termination_queue s.current)
        (s.queues (termination_queue s.current))
  unfolding woken_all
  joiners =
      wake_each-Woken (ending s) (termination_queue s.current)
        (s.queues (termination_queue s.current)) (ending-Core s v real) refl

  dead_there : woken_all.state s.current ≡ thread_terminated
  dead_there = ground (arith, joiners.running_kept s.current)

  joined_there :
      (u : ℕ)
      → mem u (s.queues (termination_queue s.current)) ≡ true
      → mem u woken_all.ready_list ≡ true
  joined_there u h =
      ap (mem u) joiners.ready_behind
      ∙ ground (
        arith,
        mem-append u (remove s.current s.ready_list) (s.queues (termination_queue s.current)),
      )

  off_there : woken_all.interrupts ≡ false
  off_there = joiners.interrupts_kept

  unzombie_there : mem s.current woken_all.zombie_list ≡ false
  unzombie_there = ap (mem s.current) joiners.zombies_kept ∙ unzombie s v real

  still_dead_there : (u : ℕ) → s.state u ≡ thread_terminated → woken_all.state u ≡ thread_terminated
  still_dead_there u h = ground (arith, joiners.running_kept u)

  remove_step :
      scheduler_remove (disable s) s.current
      ≡ done (record (disable s) { ready_list = remove s.current s.ready_list })
  unfolding scheduler_remove
  remove_step = ground (arith, v.core.started, current_listed s v real)

  terminate_lem :
      s.current ≢ s.reaper_thread → scheduler_terminate (disable s) s.current ≡ done (terminated s)
  unfolding scheduler_terminate terminated woken_all
  terminate_lem apart =
      rw
        (
          ==_false s.current 0 v.core.started,
          ==_false s.current s.reaper_thread apart,
          remove_step,
          wake_all_off (ending s) (termination_queue s.current) (ending-Core s v real) refl,
        )
        (ground (
          arith,
          push_lem woken_all s.current joiners.core v.core.started off_there dead_there
              unzombie_there,
        ))

  woken_all-Ended : (s.detached s.current ≡ true → s.reaper_ready ≡ true → ⊥) → Ended s woken_all
  woken_all-Ended alone = record {
    core = joiners.core;
    same_current = joiners.current_kept;
    off = off_there;
    dead = dead_there;
    off_list = ground (arith, joiners.core.runnable s.current, dead_there);
    joined = joined_there;
    handed_over = λ d r. absurd (alone d r);
    still_dead = still_dead_there;
  }

  zombied-Ended : Ended s (zombied woken_all s.current)
  unfolding zombied
  zombied-Ended =
      let z = record woken_all { zombie_list = woken_all.zombie_list ++ s.current ∷ [] } in
      let w =
        wake_first-FirstWoken z reaper_wq (z.queues reaper_wq)
          (zombied-Core woken_all s.current joiners.core dead_there) refl in
      record {
        core = w.core;
        same_current = w.same_current ∙ joiners.current_kept;
        off = w.interrupts ∙ off_there;
        dead = w.ended s.current dead_there;
        off_list = ground (arith, w.core.runnable s.current, w.ended s.current dead_there);
        joined = λ u h. w.still_ready u (joined_there u h);
        handed_over = λ d r.
            ap (mem s.current) w.zombies
            ∙ ground (arith, mem-append_one s.current s.current woken_all.zombie_list);
        still_dead = λ u h. w.ended u (still_dead_there u h);
      }

  terminated-Ended : Ended s (terminated s)
  unfolding terminated woken_all
  terminated-Ended = elim (Bool-cases (woken_all.detached s.current && woken_all.reaper_ready)) [
    | inl yes_both ↦ rw yes_both zombied-Ended
    | inr not_both ↦ rw not_both (
        woken_all-Ended (λ d r.
          ground (
            arith,
            ap (λ (f : ℕ → Bool). f s.current) joiners.detached_kept,
            joiners.reaper_kept.0,
          )))
  ]

-- The thread is gone for good: it is terminated, another runs, those that waited for its end can
-- run, and the reaper has it if it is detached.
pub record Killed (s t : Kernel) : Type 0 where
  pub valid : IsValid t
  pub dead : t.state s.current ≡ thread_terminated
  pub another : t.current ≢ s.current
  pub off_list : mem s.current t.ready_list ≡ false
  pub joined :
      (u : ℕ) → mem u (s.queues (termination_queue s.current)) ≡ true → mem u t.ready_list ≡ true
  pub handed_over :
      s.detached s.current ≡ true → s.reaper_ready ≡ true → mem s.current t.zombie_list ≡ true
  pub still_dead : (u : ℕ) → s.state u ≡ thread_terminated → t.state u ≡ thread_terminated

module _ (s : Kernel) (v : IsValid s) (real : s.current ≢ idle_thread) where
  gone : Kernel
  gone = switched (terminated s)

  gone_started : (terminated s).current ≢ 0
  gone_started k = v.core.started (sym (terminated-Ended s v real).same_current ∙ k)

  gone-Kept : Kept (terminated s) gone
  unfolding gone
  gone-Kept = switched-Kept (terminated s) gone_started

  gone-IsValid : IsValid gone
  unfolding gone
  gone-IsValid = switched-IsValid (terminated s) (terminated-Ended s v real).core

  gone_dead :
      (u : ℕ) → (terminated s).state u ≡ thread_terminated → gone.state u ≡ thread_terminated
  gone_dead u h =
      let e = terminated-Ended s v real in
      ground (arith, gone-Kept.unlisted u, e.core.runnable u, e.core.idle_apart)

  -- thread_kill_current by a thread other than the idle thread and the reaper, in a valid state:
  -- the thread is terminated and off the ready list, another runs, every thread that waited for its
  -- end is in the ready list, and if it is detached and the reaper is up it is in the list of
  -- zombies.
  pub thread_kill_current-Killed :
      s.current ≢ s.reaper_thread → (t : Kernel) × (thread_kill_current s ≡ done t) × Killed s t
  unfolding thread_kill_current gone
  thread_kill_current-Killed apart =
      let e = terminated-Ended s v real in
      let dead = gone_dead s.current e.dead in
      (
        resume gone,
        rw (
          ==_false s.current 0 v.core.started,
          terminate_lem s v real apart,
          yield_off (terminated s) e.off gone_started,
        ),
        record {
          valid = IsValid-flags gone gone.saved (gone.saved gone.current) gone-IsValid;
          dead = dead;
          another = λ k. ground (arith, gone-IsValid.running, dead, ap gone.state k);
          off_list = ap (mem s.current) gone-Kept.ready_list ∙ e.off_list;
          joined = λ u h. ap (mem u) gone-Kept.ready_list ∙ e.joined u h;
          handed_over = λ d r. ap (mem s.current) gone-Kept.zombie_list ∙ e.handed_over d r;
          still_dead = λ u h. gone_dead u (e.still_dead u h);
        },
      )
