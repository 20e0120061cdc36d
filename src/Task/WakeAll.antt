-- ===== src/Task/WakeAll.antt =====
-- What wakes the threads of a queue: `wait_queue_wake` and `wait_queue_wake_all`.
use neox.Base.{
  ℕ, suc, ◌≡◌, ◌≢◌, refl, sym, ap, ◌∙◌, false, List, [], ◌∷◌, ◌++◌, ==_false, arith, length,
}
use mathlib.Core.List.{append-nil, append_assoc}
use neox.Base.Result.{done}
use neox.Task.{Kernel, thread_blocked, WaitQueue, same_queue}
use neox.Task.Wait.{
  remove_front, wait_queue_remove, wait_queue_wake, wake_rounds, wait_queue_wake_all,
}
use neox.Task.Valid.{Core, IsValid}
use neox.Task.Wake.{
  same_queue_refl, unblocked, dequeued, first_blocked, first_real, wait_queue_remove_lem,
  woken-Core, unblock_first, woken-IsValid,
}

-- All threads of the queue, in their order.
unfoldable pub wake_each : Kernel → WaitQueue → List ℕ → Kernel
wake_each s q [] = s
wake_each s q (t ∷ ts) = wake_each (unblocked (dequeued s q t ts) t) q ts

dequeued_rest :
    (s : Kernel) (q : WaitQueue) (t : ℕ) (ts : List ℕ) → (dequeued s q t ts).queues q ≡ ts
dequeued_rest s q t ts = rw (same_queue_refl q)

pub wait_queue_remove_none :
    (s : Kernel) (q : WaitQueue) → s.queues q ≡ [] → wait_queue_remove s q ≡ (s, 0)
unfolding wait_queue_remove remove_front
wait_queue_remove_none s q e = ap (remove_front s q) e

pub wake_rounds_lem :
    (s : Kernel) (q : WaitQueue) (ts : List ℕ)
    → Core s
    → s.queues q ≡ ts
    → wake_rounds (suc (length ts)) s q ≡ done (wake_each s q ts)
unfolding wake_rounds wake_each
wake_rounds_lem s q [] c e = rw (wait_queue_remove_none s q e)
wake_rounds_lem s q (t ∷ ts) c e =
    rw
      (
        wait_queue_remove_lem s c q t ts e,
        ==_false t 0 (first_real s c q t ts e),
        unblock_first s c q t ts e,
      )
      (wake_rounds_lem (unblocked (dequeued s q t ts) t) q ts (woken-Core s c q t ts e)
        (dequeued_rest s q t ts))

-- What the loop leaves: all threads of the queue run again, behind the others and in their order.
pub record Woken (s t : Kernel) (q : WaitQueue) (ts : List ℕ) : Type 0 where
  pub core : Core t
  pub queue_empty : t.queues q ≡ []
  pub ready_behind : t.ready_list ≡ s.ready_list ++ ts
  pub current_kept : t.current ≡ s.current
  pub interrupts_kept : t.interrupts ≡ s.interrupts
  pub saved_kept : t.saved ≡ s.saved
  pub zombies_kept : t.zombie_list ≡ s.zombie_list
  pub detached_kept : t.detached ≡ s.detached
  pub reaper_kept : (t.reaper_ready ≡ s.reaper_ready) × (t.reaper_thread ≡ s.reaper_thread)
  pub running_kept : (u : ℕ) → s.state u ≢ thread_blocked → t.state u ≡ s.state u
  pub others_kept : (r : WaitQueue) → same_queue q r ≡ false → t.queues r ≡ s.queues r

pub wake_each-Woken :
    (s : Kernel) (q : WaitQueue) (ts : List ℕ)
    → Core s
    → s.queues q ≡ ts
    → Woken s (wake_each s q ts) q ts
unfolding wake_each
wake_each-Woken s q [] c e = record {
  core = c;
  queue_empty = e;
  ready_behind = sym (append-nil s.ready_list);
  current_kept = refl;
  interrupts_kept = refl;
  saved_kept = refl;
  zombies_kept = refl;
  detached_kept = refl;
  reaper_kept = (refl, refl);
  running_kept = λ u h. refl;
  others_kept = λ r h. refl;
}
wake_each-Woken s q (t ∷ ts) c e =
    let w =
      wake_each-Woken (unblocked (dequeued s q t ts) t) q ts (woken-Core s c q t ts e)
        (dequeued_rest s q t ts) in
    record {
      core = w.core;
      queue_empty = w.queue_empty;
      ready_behind = w.ready_behind ∙ append_assoc s.ready_list (t ∷ []) ts;
      current_kept = w.current_kept;
      interrupts_kept = w.interrupts_kept;
      saved_kept = w.saved_kept;
      zombies_kept = w.zombies_kept;
      detached_kept = w.detached_kept;
      reaper_kept = w.reaper_kept;
      running_kept = λ u h. ground (arith, w.running_kept u, first_blocked s c q t ts e);
      others_kept = λ r h. w.others_kept r h ∙ rw h refl;
    }

pub wake_all_off :
    (s : Kernel) (q : WaitQueue)
    → Core s
    → s.interrupts ≡ false
    → wait_queue_wake_all s q ≡ done (wake_each s q (s.queues q))
unfolding wait_queue_wake_all
wake_all_off s q c off = ground (arith, wake_rounds_lem s q (s.queues q) c refl)

-- One thread, if there is one.
unfoldable pub wake_first : Kernel → WaitQueue → List ℕ → Kernel
wake_first s q [] = s
wake_first s q (t ∷ ts) = unblocked (dequeued s q t ts) t

pub wake_of_queue :
    (s : Kernel) (q : WaitQueue) (ts : List ℕ)
    → Core s
    → s.queues q ≡ ts
    → s.interrupts ≡ false
    → wait_queue_wake s q ≡ done (wake_first s q ts)
unfolding wait_queue_wake wake_first
wake_of_queue s q [] c e off = ground (arith, wait_queue_remove_none s q e)
wake_of_queue s q (t ∷ ts) c e off =
    ground (
      arith,
      wait_queue_remove_lem s c q t ts e,
      first_real s c q t ts e,
      unblock_first s c q t ts e,
    )

pub wake_off :
    (s : Kernel) (q : WaitQueue)
    → Core s
    → s.interrupts ≡ false
    → wait_queue_wake s q ≡ done (wake_first s q (s.queues q))
wake_off s q c off = wake_of_queue s q (s.queues q) c refl off

pub wake_first-IsValid :
    (s : Kernel) (q : WaitQueue) (ts : List ℕ)
    → IsValid s
    → s.queues q ≡ ts
    → IsValid (wake_first s q ts)
unfolding wake_first
wake_first-IsValid s q [] v e = v
wake_first-IsValid s q (t ∷ ts) v e = woken-IsValid s v q t ts e

pub wake_each-IsValid :
    (s : Kernel) (q : WaitQueue) → IsValid s → IsValid (wake_each s q (s.queues q))
wake_each-IsValid s q v =
    let w = wake_each-Woken s q (s.queues q) v.core refl in
    record {
      core = w.core;
      running =
          ap (wake_each s q (s.queues q)).state w.current_kept
          ∙ (w.running_kept s.current (λ e. cc (e, v.running)) ∙ v.running);
    }
