-- ===== src/Task/RoundRobin.antt =====
-- Round robin: the timer gives each thread of the ready list its quantum in turn.
use neox.Base.{
  ℕ, zero, suc, ◌+◌, ◌-◌, ◌^◌, ◌≤◌, ◌<◌, ◌≡◌, ◌≢◌, refl, sym, ap, ◌∙◌, Bool, true, false, List, [],
  ◌∷◌, ◌++◌, u32, arith,
}
use neox.Nodes.Ring.{first}
use neox.Base.Result.{Result, done, assertion_failed, out_of_fuel, ◌>>=◌}
use neox.Task.{Kernel, quantum_ticks, update, resume}
use neox.Task.Lists.{mem, next_in, mem-next_in}
use neox.Task.Scheduler.{run, next_from, scheduler_next, switched, scheduler_tick, irq_handler}
use neox.Task.Valid.{
  IsValid, Kept, switched-IsValid, switched-Kept, switched-current, switched-quantum, switch_off,
  IsValid-fresh, IsValid-flags,
}

zero-add : (n : ℕ) → 0 + n ≡ n
zero-add n = omega arith

suc-add : (m n : ℕ) → suc m + n ≡ suc (m + n)
suc-add m n = omega arith

next_in-middle :
    (us vs : List ℕ) (t v front : ℕ) → mem t us ≡ false → next_in (us ++ t ∷ v ∷ vs) t front ≡ v
unfolding next_in mem
next_in-middle [] vs t v front h = ground arith
next_in-middle (u ∷ []) vs t v front h = ground arith
next_in-middle (u ∷ w ∷ us) vs t v front h = ground (arith, next_in-middle (w ∷ us) vs t v front)

next_in-last :
    (us : List ℕ) (t front : ℕ) → mem t us ≡ false → next_in (us ++ t ∷ []) t front ≡ front
unfolding next_in mem
next_in-last [] t front h = refl
next_in-last (u ∷ []) t front h = ground arith
next_in-last (u ∷ w ∷ us) t front h = ground (arith, next_in-last (w ∷ us) t front)

-- The thread behind `t` in the ring.
unfoldable pub follower : List ℕ → ℕ → ℕ
follower [] t = t
follower (front ∷ rest) t = next_in (front ∷ rest) t front

next_from-current :
    (s : Kernel) (ready : List ℕ)
    → s.current ≢ 0
    → mem s.current ready ≡ true
    → (next_from s ready).current ≡ follower ready s.current
unfolding next_from run follower mem
next_from-current s [] nz here = cc
next_from-current s (front ∷ rest) nz here = ground arith

follower-mem : (ready : List ℕ) (t : ℕ) → mem t ready ≡ true → mem (follower ready t) ready ≡ true
unfolding follower mem
follower-mem [] t h = cc
follower-mem (front ∷ rest) t h = ground (arith, mem-next_in t front (front ∷ rest))

pub follower-middle :
    (us vs : List ℕ) (t v : ℕ) → mem t us ≡ false → follower (us ++ t ∷ v ∷ vs) t ≡ v
unfolding follower
follower-middle [] vs t v h = next_in-middle [] vs t v t h
follower-middle (u ∷ us) vs t v h = next_in-middle (u ∷ us) vs t v u h

pub follower-last :
    (us : List ℕ) (t : ℕ) → mem t us ≡ false → follower (us ++ t ∷ []) t ≡ first us t
unfolding follower
follower-last [] t h = next_in-last [] t t h
follower-last (u ∷ us) t h = next_in-last (u ∷ us) t u h

-- `n` timer interrupts in a row.
unfoldable pub ticks : ℕ → Kernel → Result Kernel
ticks zero s = done s
ticks (suc n) s = irq_handler s >>= λ t. ticks n t

ticks-suc : (n : ℕ) (s t : Kernel) → irq_handler s ≡ done t → ticks (suc n) s ≡ ticks n t
unfolding ticks
ticks-suc n s t e = rw e

after_first :
    (m n : ℕ) (t : Kernel) (r : Result Kernel)
    → ((u : Kernel) → ticks m u ≡ done t → ticks (m + n) u ≡ ticks n t)
    → (r >>= λ u. ticks m u) ≡ done t
    → (r >>= λ u. ticks (m + n) u) ≡ ticks n t
after_first m n t (done u) ih e = ih u e
after_first m n t assertion_failed ih e = cc
after_first m n t out_of_fuel ih e = cc

pub ticks-add : (m n : ℕ) (s t : Kernel) → ticks m s ≡ done t → ticks (m + n) s ≡ ticks n t
unfolding ticks
ticks-add zero n s t e =
    let same : s ≡ t = cc (e) in ap (λ k. ticks k s) (zero-add n) ∙ ap (ticks n) same
ticks-add (suc m) n s t e =
    ap (λ k. ticks k s) (suc-add m n) ∙ after_first m n t (irq_handler s) (λ u. ticks-add m n u t) e

-- The state between two timer interrupts: the threads of the ready list restore interrupts, and the
-- current thread, which is one of them, has some of its quantum left.
pub record Turning (s : Kernel) : Type 0 where
  pub valid : IsValid s
  pub on : s.interrupts ≡ true
  pub flags : (t : ℕ) → mem t s.ready_list ≡ true → s.saved t ≡ true
  pub here : mem s.current s.ready_list ≡ true
  pub left : (0 < s.quantum_remaining) × (s.quantum_remaining ≤ quantum_ticks)

-- A tick that leaves some of the quantum.
tick_stays :
    (s : Kernel) (k : ℕ)
    → Turning s
    → s.quantum_remaining ≡ suc (suc k)
    → (t : Kernel) × (irq_handler s ≡ done t)
      × Turning t
      × (t.ready_list ≡ s.ready_list)
      × (t.current ≡ s.current)
      × (t.quantum_remaining ≡ suc k)
unfolding irq_handler scheduler_tick
tick_stays s k v e = (
  record s { saved = update s.saved s.current true; quantum_remaining = suc k; interrupts = true },
  ground (arith, v.on, v.valid.core.started),
  record {
    valid =
        IsValid-fresh (record s { saved = update s.saved s.current true; interrupts = true })
          (suc k) s.esp0 s.cr3 (IsValid-flags s (update s.saved s.current true) true v.valid);
    on = refl;
    flags = λ t h. ground (arith, v.flags t);
    here = v.here;
    left = (omega arith, omega (arith, v.left.1));
  },
  refl,
  refl,
  refl,
)

-- The state in which the last tick of a quantum calls `scheduler_switch`.
expired : Kernel → Kernel
expired s = record s {
  saved = update s.saved s.current true;
  quantum_remaining = u32 (s.quantum_remaining + 2 ^ 32 - 1);
  interrupts = false;
}

-- One tick less, or the next thread with a whole quantum.
pub record Turned (s t : Kernel) : Type 0 where
  pub turning : Turning t
  pub same_ready : t.ready_list ≡ s.ready_list
  pub next : t.current ≡ follower s.ready_list s.current
  pub whole : t.quantum_remaining ≡ quantum_ticks

tick_switch_step :
    (s : Kernel)
    → Turning s
    → s.quantum_remaining ≡ 1
    → irq_handler s ≡ done (resume (switched (expired s)))
unfolding irq_handler scheduler_tick expired
tick_switch_step s v e = ground (arith, v.on, v.valid.core.started, switch_off (expired s) refl)

expired-IsValid : (s : Kernel) → IsValid s → IsValid (expired s)
unfolding expired
expired-IsValid s v =
    IsValid-fresh (record s { saved = update s.saved s.current true; interrupts = false })
      (u32 (s.quantum_remaining + 2 ^ 32 - 1)) s.esp0 s.cr3
      (IsValid-flags s (update s.saved s.current true) false v)

expired-saved :
    (s : Kernel) (t : ℕ) → Turning s → mem t s.ready_list ≡ true → (expired s).saved t ≡ true
unfolding expired
expired-saved s t v h = ground (arith, v.flags t)

module _ (s : Kernel) (v : Turning s) where
  after : Kernel
  after = switched (expired s)

  after-Kept : Kept (expired s) after
  unfolding after expired
  after-Kept = switched-Kept (expired s) v.valid.core.started

  after_current : after.current ≡ follower s.ready_list s.current
  unfolding after expired scheduler_next
  after_current =
      switched-current (expired s)
      ∙ next_from-current (expired s) s.ready_list v.valid.core.started v.here

  after_ready : after.ready_list ≡ s.ready_list
  unfolding expired
  after_ready = after-Kept.ready_list

  after_listed : mem after.current s.ready_list ≡ true
  after_listed = rw after_current (follower-mem s.ready_list s.current v.here)

  after_saved : (t : ℕ) → mem t s.ready_list ≡ true → after.saved t ≡ true
  after_saved t h = ap (λ (f : ℕ → Bool). f t) after-Kept.saved ∙ expired-saved s t v h

  after-Turned : Turned s (resume after)
  unfolding after
  after-Turned = record {
    turning = record {
      valid =
          IsValid-flags after after.saved (after.saved after.current)
            (switched-IsValid (expired s) (expired-IsValid s v.valid).core);
      on = after_saved after.current after_listed;
      flags = λ t h. after_saved t (ap (mem t) (sym after_ready) ∙ h);
      here = ap (mem after.current) after_ready ∙ after_listed;
      left = ground (arith, switched-quantum (expired s));
    };
    same_ready = after_ready;
    next = after_current;
    whole = switched-quantum (expired s);
  }

  tick_switches : s.quantum_remaining ≡ 1 → (t : Kernel) × (irq_handler s ≡ done t) × Turned s t
  unfolding after
  tick_switches e = (resume after, tick_switch_step s v e, after-Turned)

-- The rest of a quantum.
pub turn :
    (k : ℕ) (s : Kernel)
    → Turning s
    → s.quantum_remaining ≡ suc k
    → (t : Kernel) × (ticks (suc k) s ≡ done t) × Turned s t
unfolding ticks
turn zero s v e = let (t, r, u) = tick_switches s v e in (t, ticks-suc 0 s t r, u)
turn (suc k) s v e =
    let (t, r, on, ready, same, left) = tick_stays s k v e in
    let (u, rest, turned) = turn k t on left in
    (
      u,
      ticks-suc (suc k) s t r ∙ rest,
      record {
        turning = turned.turning;
        same_ready = turned.same_ready ∙ ready;
        next =
            turned.next ∙ (ap (λ x. follower x t.current) ready ∙ ap (follower s.ready_list) same);
        whole = turned.whole;
      },
    )
