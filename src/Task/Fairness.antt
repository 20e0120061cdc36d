-- ===== src/Task/Fairness.antt =====
-- No thread of the ready list starves.
use neox.Base.{
  ℕ, suc, ◌+◌, ◌-◌, ◌*◌, ◌≤◌, ◌≡◌, inl, inr, refl, sym, ap, ◌∙◌, subst, true, false, List, [], ◌∷◌,
  ◌++◌, ◌==◌, Bool-cases, ==_iff, arith, length, length-append,
}
use mathlib.Core.List.{append_assoc}
use neox.Base.Result.{done}
use neox.Nodes.Ring.{first}
use neox.Task.{Kernel, quantum_ticks}
use neox.Task.Lists.{mem, Distinct, mem-append}
use neox.Task.RoundRobin.{Turning, ticks, ticks-add, turn, follower, follower-middle, follower-last}

mem-split :
    (t : ℕ) (xs : List ℕ) → mem t xs ≡ true → (us : List ℕ) × (ws : List ℕ) × (xs ≡ us ++ t ∷ ws)
unfolding mem
mem-split t [] h = cc
mem-split t (x ∷ xs) h = elim (Bool-cases (x == t)) [
  | inl same ↦ ([], xs, ap (λ y. y ∷ xs) ((==_iff x t).0 same))
  | inr other ↦ let (us, ws, e) = mem-split t xs (ground arith) in (x ∷ us, ws, ap (λ ys. x ∷ ys) e)
]

Distinct-before : (us xs : List ℕ) (t : ℕ) → Distinct (us ++ t ∷ xs) → mem t us ≡ false
unfolding mem
Distinct-before [] xs t d = refl
Distinct-before (u ∷ us) xs t d =
    ground (arith, Distinct-before us xs t d.1, mem-append u us (t ∷ xs))

-- The thread runs after at most so many ticks.
record Reached (s : Kernel) (t bound : ℕ) : Type 0 where
  count : ℕ
  last : Kernel
  soon : count ≤ bound
  reached : ticks count s ≡ done last
  turning : Turning last
  same_ready : last.ready_list ≡ s.ready_list
  runs : last.current ≡ t

-- One turn, then the rest.
one_turn : (s : Kernel) → Turning s → Reached s (follower s.ready_list s.current) quantum_ticks
one_turn s v =
    let (u, r, w) = turn (s.quantum_remaining - 1) s v (omega (arith, v.left.0)) in
    record {
      count = suc (s.quantum_remaining - 1);
      last = u;
      soon = omega (arith, v.left.0, v.left.1);
      reached = r;
      turning = w.turning;
      same_ready = w.same_ready;
      runs = w.next;
    }

then_to :
    (s : Kernel) (t u m n : ℕ) → (r : Reached s t m) → Reached r.last u n → Reached s u (m + n)
then_to s t u m n r q = record {
  count = r.count + q.count;
  last = q.last;
  soon = omega (arith, r.soon, q.soon);
  reached = ticks-add r.count q.count s r.last r.reached ∙ q.reached;
  turning = q.turning;
  same_ready = q.same_ready ∙ r.same_ready;
  runs = q.runs;
}

weaken : (s : Kernel) (t m n : ℕ) → m ≤ n → Reached s t m → Reached s t n
weaken s t m n h r = record {
  count = r.count;
  last = r.last;
  soon = omega (arith, r.soon);
  reached = r.reached;
  turning = r.turning;
  same_ready = r.same_ready;
  runs = r.runs;
}

-- The current thread stands behind `us`.
record At (s : Kernel) (us : List ℕ) (c : ℕ) (vs : List ℕ) : Type 0 where
  turning : Turning s
  current : s.current ≡ c
  ready : s.ready_list ≡ us ++ c ∷ vs

module _ (s : Kernel) (us : List ℕ) (c : ℕ) where
  before : (vs : List ℕ) → At s us c vs → mem c us ≡ false
  before vs a =
      let open_turn = a.turning in
      Distinct-before us vs c (subst Distinct a.ready open_turn.valid.core.distinct)

  following :
      (vs : List ℕ) → At s us c vs → follower s.ready_list s.current ≡ follower (us ++ c ∷ vs) c
  following vs a = ap (λ x. follower x s.current) a.ready ∙ ap (follower (us ++ c ∷ vs)) a.current

  turn_middle : (x : ℕ) (ys : List ℕ) → At s us c (x ∷ ys) → Reached s x 5
  turn_middle x ys a =
      subst (λ t. Reached s t 5)
        (following (x ∷ ys) a ∙ follower-middle us ys c x (before (x ∷ ys) a))
        (one_turn s a.turning)

  turn_last : At s us c [] → Reached s (first us c) 5
  turn_last a =
      subst (λ t. Reached s t 5) (following [] a ∙ follower-last us c (before [] a))
        (one_turn s a.turning)

-- A step further, the next thread is the current one.
moved :
    (s : Kernel) (us ys : List ℕ) (c x n : ℕ)
    → At s us c (x ∷ ys)
    → (r : Reached s x n) → At r.last (us ++ c ∷ []) x ys
moved s us ys c x n a r = record {
  turning = r.turning;
  current = r.runs;
  ready = r.same_ready ∙ (a.ready ∙ sym (append_assoc us (c ∷ []) (x ∷ ys)));
}

-- To a thread further on.
advance :
    (vs us ws : List ℕ) (c t : ℕ) (s : Kernel)
    → At s us c (vs ++ t ∷ ws)
    → Reached s t (5 * (length vs + 1))
advance [] us ws c t s a = turn_middle s us c t ws a
advance (x ∷ vs) us ws c t s a =
    let r = turn_middle s us c x (vs ++ t ∷ ws) a in
    weaken s t (5 + 5 * (length vs + 1)) (5 * (length (x ∷ vs) + 1)) (omega arith) (
      then_to s x t 5 (5 * (length vs + 1)) r
        (advance vs (us ++ c ∷ []) ws x t r.last (moved s us (vs ++ t ∷ ws) c x 5 a r)))

first-append : (us ys : List ℕ) (c : ℕ) → first us c ≡ first (us ++ c ∷ ys) 0
first-append [] ys c = refl
first-append (u ∷ us) ys c = refl

-- Round the end of the list to its front.
to_front :
    (vs us : List ℕ) (c : ℕ) (s : Kernel)
    → At s us c vs
    → Reached s (first s.ready_list 0) (5 * (length vs + 1))
to_front [] us c s a =
    subst (λ t. Reached s t 5) (first-append us [] c ∙ ap (λ x. first x 0) (sym a.ready))
      (turn_last s us c a)
to_front (x ∷ vs) us c s a =
    let r = turn_middle s us c x vs a in
    weaken s (first s.ready_list 0) (5 + 5 * (length vs + 1)) (5 * (length (x ∷ vs) + 1))
      (omega arith)
      (then_to s x (first s.ready_list 0) 5 (5 * (length vs + 1)) r (
        subst (λ t. Reached r.last t (5 * (length vs + 1))) (ap (λ x. first x 0) r.same_ready)
          (to_front vs (us ++ c ∷ []) x r.last (moved s us vs c x 5 a r))))

-- The thread before the current one, from the front on.
from_front :
    (xs bs : List ℕ) (t n : ℕ) (s : Kernel)
    → s.ready_list ≡ xs ++ t ∷ bs
    → Reached s (first s.ready_list 0) n
    → Reached s t (n + 5 * length xs)
from_front [] bs t n s e r =
    weaken s t n (n + 5 * 0) (omega arith) (subst (λ x. Reached s x n) (ap (λ x. first x 0) e) r)
from_front (f ∷ xs) bs t n s e r =
    weaken s t (n + 5 * (length xs + 1)) (n + 5 * length (f ∷ xs)) (omega arith) (
      then_to s (first s.ready_list 0) t n (5 * (length xs + 1)) r (
        advance xs [] bs f t r.last (record {
          turning = r.turning;
          current = r.runs ∙ ap (λ x. first x 0) e;
          ready = r.same_ready ∙ e;
        })))

length_middle :
    (us vs : List ℕ) (c : ℕ) (xs : List ℕ)
    → xs ≡ us ++ c ∷ vs
    → length xs ≡ length us + (length vs + 1)
length_middle us vs c xs e = omega (arith, ap length e, length-append us (c ∷ vs))

module _ (s : Kernel) (us vs : List ℕ) (t : ℕ) (a : At s us s.current vs) where
  total : length s.ready_list ≡ length us + (length vs + 1)
  total = length_middle us vs s.current s.ready_list a.ready

  reach_behind : mem t vs ≡ true → Reached s t (5 * length s.ready_list)
  reach_behind h =
      let (ps, bs, e) = mem-split t vs h in
      weaken s t (5 * (length ps + 1)) (5 * length s.ready_list)
        (omega (arith, total, length_middle ps bs t vs e))
        (advance ps us bs s.current t s (record {
          turning = a.turning;
          current = refl;
          ready = a.ready ∙ ap (λ ys. us ++ s.current ∷ ys) e;
        }))

  reach_before : mem t us ≡ true → Reached s t (5 * length s.ready_list)
  reach_before h =
      let (ps, bs, e) = mem-split t us h in
      weaken s t (5 * (length vs + 1) + 5 * length ps) (5 * length s.ready_list)
        (omega (arith, total, length_middle ps bs t us e))
        (from_front ps (bs ++ s.current ∷ vs) t (5 * (length vs + 1)) s
          (a.ready
            ∙ (ap (λ ys. ys ++ s.current ∷ vs) e ∙ append_assoc ps (t ∷ bs) (s.current ∷ vs)))
          (to_front vs us s.current s a))

  reach_here : s.current ≡ t → Reached s t (5 * length s.ready_list)
  unfolding ticks
  reach_here e = record {
    count = 0;
    last = s;
    soon = omega arith;
    reached = refl;
    turning = a.turning;
    same_ready = refl;
    runs = e;
  }

  reach : mem t (us ++ s.current ∷ vs) ≡ true → Reached s t (5 * length s.ready_list)
  unfolding mem
  reach h = elim (Bool-cases (mem t us)) [
    | inl there ↦ reach_before there
    | inr gone ↦ elim (Bool-cases (s.current == t)) [
      | inl same ↦ reach_here ((==_iff s.current t).0 same)
      | inr other ↦ reach_behind (ground (arith, mem-append t us (s.current ∷ vs)))
    ]
  ]

-- Between two timer interrupts of a valid state in which the current thread is in the ready list,
-- has one to five ticks left and all threads of the list restore interrupts, each thread of the
-- ready list is current after at most five ticks for each thread of the list.
pub scheduler_tick_fair :
    (s : Kernel) (t : ℕ)
    → Turning s
    → mem t s.ready_list ≡ true
    → (n : ℕ) × (u : Kernel) × (n ≤ 5 * length s.ready_list)
      × (ticks n s ≡ done u)
      × (u.current ≡ t)
scheduler_tick_fair s t v h =
    let (us, vs, e) = mem-split s.current s.ready_list v.here in
    let r =
      reach s us vs t (record { turning = v; current = refl; ready = e })
        (ap (mem t) (sym e) ∙ h) in
    (r.count, r.last, r.soon, r.reached, r.runs)
