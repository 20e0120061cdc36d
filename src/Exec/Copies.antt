-- ===== src/Exec/Copies.antt =====
-- What `exec_args_copy_from_user` of kernel/kernel/exec.c copies, and what `exec_args_destroy` gives
-- back.
use neox.Base.{
  ℕ, zero, suc, ◌+◌, ◌<◌, ◌≡◌, ◌↔◌, inl, inr, refl, some, List, [], ◌∷◌, length, ==_cases, arith,
}
use neox.Base.Memory.{Bytes, AreBytes, store}
use neox.Base.Result.{done}
use neox.Strings.{memcpy}
use neox.Machine.{Machine}
use neox.Machine.Laws.{Laws}
use neox.Machine.Owned.{IsBlock, AreHeld}
use neox.Exec.Args.{argument_length, exec_args_destroy}

pub argument_length-le :
    (n : ℕ) (m : Bytes) (string start length : ℕ)
    → argument_length n m string start ≡ some length
    → length < start + n
unfolding argument_length
argument_length-le zero m string start length e = ground arith
argument_length-le (suc n) m string start length e = elim (==_cases (m (string + start)) 0) [
  | inl end ↦ ground (arith, end, e)
  | inr char ↦ ground (arith, char, e, argument_length-le n m string (start + 1) length)
]

pub memcpy-AreBytes : (m : Bytes) (dest src n : ℕ) → AreBytes m → AreBytes (memcpy m dest src n)
unfolding memcpy store
memcpy-AreBytes m dest src zero v j = v j
memcpy-AreBytes m dest src (suc n) v j =
    let t = memcpy-AreBytes m dest src n v in ground (arith, t j, t (src + n))

module _ (machine : Machine) (laws : Laws machine) where
  open machine use {State, paging, set_paging, memory, set_memory, kmalloc, kfree}
  open laws use {IsSound, InUse, kmalloc_returns, kfree_returns}

  -- The copies are freed, and nothing else.
  pub destroy_lem :
      (st : State) (argv : List (ℕ × ℕ))
      → IsSound st
      → AreHeld machine laws st argv
      → (t : State) × (exec_args_destroy machine st argv ≡ done t)
        × IsSound t
        × ((q : ℕ) → InUse t q ↔ (InUse st q × (¬ IsBlock q argv)))
  unfolding exec_args_destroy
  destroy_lem st [] sound held = (st, refl, sound, λ q. ((λ i. (i, λ none. none)), λ i. i.0))
  destroy_lem st ((i, copy) ∷ argv) sound held =
      let u = destroy_lem st argv sound held.2 in
      let f = kfree_returns u.0 copy u.2 ((u.3 copy).1 (held.0, held.1)) in
      (
        f.0,
        rw u.1 f.1,
        f.2,
        λ q. (
          (λ i.
              let o = (f.3 q).0 i in
              let p = (u.3 q).0 o.0 in
              (p.0, λ b. elim b [ inl here ↦ o.1 here | inr there ↦ p.1 there ])),
          (λ i. (f.3 q).1 ((u.3 q).1 (i.0, λ there. i.1 (inr there)), λ here. i.1 (inl here))),
        ),
      )
