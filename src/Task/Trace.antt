-- ===== src/Task/Trace.antt =====
-- Sequences of calls and timer interrupts, each made by the thread that runs then; and the reaper.
use neox.Base.{
  ℕ, ◌+◌, ◌-◌, ◌^◌, ◌≡◌, ◌≢◌, inl, inr, refl, ap, ◌∙◌, subst, true, false, ltb, u32, Bool-cases,
  ==_false, arith,
}
use neox.Base.Result.{Result, done, ◌>>=◌}
use neox.Task.{
  Kernel, thread_blocked, thread_terminated, WaitQueue, reaper_wq, idle_thread, update, disable,
  restore, resume,
}
use neox.Task.Lists.{mem}
use neox.Task.Scheduler.{scheduler_tick, switched, irq_handler}
use neox.Task.Wait.{wait_queue_sleep}
use neox.Task.Thread.{thread_yield, thread_kill_current, reaper_sleep}
use neox.Task.Sync.{condvar_signal, condvar_broadcast}
use neox.Task.Valid.{
  IsValid, switched-IsValid, switched-Kept, yield_off, switch_off, IsValid-flags, IsValid-fresh,
  disable-IsValid,
}
use neox.Task.WakeAll.{wake_first, wake_off, wake_first-IsValid}
use neox.Task.Sleep.{entering, entering-IsValid, wait_queue_sleep-Slept}
use neox.Task.Condvar.{condvar_broadcast-Woken}
use neox.Task.Ending.{wake_first-FirstWoken}
use neox.Task.Killing.{thread_kill_current-Killed}

-- What every call and interrupt keeps.
pub record Safe (s t : Kernel) : Type 0 where
  pub valid : IsValid t
  pub still_dead : (u : ℕ) → s.state u ≡ thread_terminated → t.state u ≡ thread_terminated

switched-Safe : (s : Kernel) → IsValid s → Safe s (resume (switched s))
switched-Safe s v =
    let k = switched-Kept s v.core.started in
    let w = switched-IsValid s v.core in
    record {
      valid =
          IsValid-flags (switched s) (switched s).saved ((switched s).saved (switched s).current) w;
      still_dead = λ u h. ground (arith, k.unlisted u, v.core.runnable u, v.core.idle_apart);
    }

-- The threads may yield, sleep, signal, broadcast and end, and the timer may interrupt.
pub data Call : Type 0 where
  yields ends timer : Call
  sleeps signals broadcasts : WaitQueue → Call

unfoldable pub call : Kernel → Call → Result Kernel
call s yields = thread_yield s
call s ends = thread_kill_current s
call s timer = irq_handler s
call s (sleeps q) = wait_queue_sleep (entering s) q >>= λ t. done (resume t)
call s (signals q) = condvar_signal s q
call s (broadcasts q) = condvar_broadcast s q

-- The idle thread never sleeps and never ends, and the reaper never ends.
abbrev pub Allowed : Kernel → Call → Type 0
Allowed s ends = (s.current ≢ idle_thread) × (s.current ≢ s.reaper_thread)
Allowed s (sleeps q) = s.current ≢ idle_thread
Allowed s _ = Unit {0}

yield_safe : (s : Kernel) → IsValid s → (t : Kernel) × (thread_yield s ≡ done t) × Safe s t
unfolding thread_yield
yield_safe s v =
    let w = switched-Safe (entering s) (entering-IsValid s v) in
    (
      resume (switched (entering s)),
      rw (==_false s.current 0 v.core.started, yield_off (entering s) refl v.core.started),
      record { valid = w.valid; still_dead = w.still_dead },
    )

-- The state in which the timer's `scheduler_tick` decides.
ticking : Kernel → Kernel
ticking s = record s {
  saved = update s.saved s.current true;
  interrupts = false;
  quantum_remaining = u32 (s.quantum_remaining + 2 ^ 32 - 1);
}

ticking-IsValid : (s : Kernel) → IsValid s → IsValid (ticking s)
unfolding ticking
ticking-IsValid s v =
    IsValid-fresh (record s { saved = update s.saved s.current true; interrupts = false })
      (u32 (s.quantum_remaining + 2 ^ 32 - 1)) s.esp0 s.cr3
      (IsValid-flags s (update s.saved s.current true) false v)

irq_stays :
    (s : Kernel)
    → IsValid s
    → s.interrupts ≡ true
    → ltb 0 (u32 (s.quantum_remaining + 2 ^ 32 - 1)) ≡ true
    → irq_handler s ≡ done (resume (ticking s))
unfolding irq_handler scheduler_tick ticking
irq_stays s v on left = ground (arith, v.core.started)

irq_switches :
    (s : Kernel)
    → IsValid s
    → s.interrupts ≡ true
    → ltb 0 (u32 (s.quantum_remaining + 2 ^ 32 - 1)) ≡ false
    → irq_handler s ≡ done (resume (switched (ticking s)))
unfolding irq_handler scheduler_tick ticking
irq_switches s v on out = ground (arith, v.core.started, switch_off (ticking s) refl)

irq_off : (s : Kernel) → s.interrupts ≡ false → irq_handler s ≡ done s
unfolding irq_handler
irq_off s off = ground arith

timer_safe : (s : Kernel) → IsValid s → (t : Kernel) × (irq_handler s ≡ done t) × Safe s t
unfolding ticking
timer_safe s v = elim (Bool-cases s.interrupts) [
  | inr off ↦ (s, irq_off s off, record { valid = v; still_dead = λ u h. h })
  | inl on ↦ elim (Bool-cases (ltb 0 (u32 (s.quantum_remaining + 2 ^ 32 - 1)))) [
    | inl left ↦ (
      resume (ticking s),
      irq_stays s v on left,
      record {
        valid =
            IsValid-flags (ticking s) (ticking s).saved ((ticking s).saved s.current)
              (ticking-IsValid s v);
        still_dead = λ u h. h;
      },
    )
    | inr out ↦
        let w = switched-Safe (ticking s) (ticking-IsValid s v) in
        (
          resume (switched (ticking s)),
          irq_switches s v on out,
          record { valid = w.valid; still_dead = w.still_dead },
        )
  ]
]

signal_safe :
    (s : Kernel) (q : WaitQueue)
    → IsValid s
    → (t : Kernel) × (condvar_signal s q ≡ done t) × Safe s t
unfolding condvar_signal
signal_safe s q v =
    let off = disable-IsValid s v in
    let ts = s.queues q in
    let t = wake_first (disable s) q ts in
    (
      restore t s.interrupts,
      rw (wake_off (disable s) q off.core refl),
      record {
        valid = IsValid-flags t t.saved s.interrupts (wake_first-IsValid (disable s) q ts off refl);
        still_dead = (wake_first-FirstWoken (disable s) q ts off.core refl).ended;
      },
    )

-- In a valid state each yield, sleep, signal, broadcast, end of a thread and timer interrupt
-- returns without a failed assertion, leaves a valid state and every terminated thread terminated,
-- if neither the idle thread sleeps or ends nor the reaper ends.
pub call-Safe :
    (s : Kernel) (c : Call)
    → IsValid s
    → Allowed s c
    → (t : Kernel) × (call s c ≡ done t) × Safe s t
unfolding call
call-Safe s yields v a = yield_safe s v
call-Safe s ends v a =
    let (t, e, k) = thread_kill_current-Killed s v a.0 a.1 in
    (t, e, record { valid = k.valid; still_dead = k.still_dead })
call-Safe s timer v a = timer_safe s v
call-Safe s (sleeps q) v a =
    let (t, e, w) = wait_queue_sleep-Slept s q v a in
    (resume t, rw e, record { valid = w.valid; still_dead = w.ended })
call-Safe s (signals q) v a = signal_safe s q v
call-Safe s (broadcasts q) v a =
    let (t, e, w, k) = condvar_broadcast-Woken s q v in
    (t, e, record { valid = w; still_dead = λ u h. ground (arith, k.running_kept u) })

-- A sequence of allowed calls that return.
pub data Trace (s : Kernel) : Kernel → Type 0 where
  stop : Trace s s
  step : {t u : Kernel} (c : Call) → Trace s t → Allowed t c → call t c ≡ done u → Trace s u

same_end : (r : Result Kernel) (t u : Kernel) → r ≡ done t → r ≡ done u → t ≡ u
same_end r t u e f = cc

Trace-Safe : {s t : Kernel} → IsValid s → Trace s t → Safe s t
Trace-Safe v stop = record { valid = v; still_dead = λ u h. h }
Trace-Safe v (step {t} {u} c r a e) =
    let before = Trace-Safe v r in
    let (x, f, w) = call-Safe t c before.valid a in
    let w' = subst (Safe t) (same_end (call t c) x u f e) w in
    record { valid = w'.valid; still_dead = λ p h. w'.still_dead p (before.still_dead p h) }

-- From a valid state, no sequence of yields, sleeps, signals, broadcasts, ends of threads and timer
-- interrupts makes a terminated thread current again or changes its state, if neither the idle
-- thread sleeps or ends nor the reaper ends.
pub never_resumed :
    (s t : Kernel) (p : ℕ)
    → IsValid s
    → s.state p ≡ thread_terminated
    → Trace s t
    → (t.state p ≡ thread_terminated) × (t.current ≢ p)
never_resumed s t p v dead r =
    let w = Trace-Safe v r in
    let still = w.still_dead p dead in
    (still, λ k. ground (arith, still, w.valid.running, ap t.state k))

-- In a valid state in which a zombie waits, a thread other than the idle thread that goes to sleep
-- as the reaper does is blocked all the same, and the zombie stays in the list.
pub reaper_sleeps_on_zombies :
    (s : Kernel) (z : ℕ)
    → IsValid s
    → s.current ≢ idle_thread
    → mem z s.zombie_list ≡ true
    → (t : Kernel) × (reaper_sleep s ≡ done t)
      × (t.state s.current ≡ thread_blocked)
      × (mem z t.zombie_list ≡ true)
unfolding reaper_sleep
reaper_sleeps_on_zombies s z v real h =
    let (t, e, w) = wait_queue_sleep-Slept s reaper_wq v real in
    (resume t, rw e, w.asleep, ap (mem z) w.zombies ∙ h)
