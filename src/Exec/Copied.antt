-- ===== src/Exec/Copied.antt =====
-- How `exec_args_copy_from_user` of kernel/kernel/exec.c ends, and what it leaves of the heap.
use neox.Base.{
  ℕ, zero, suc, ◌+◌, ◌*◌, ◌^◌, ◌<◌, ◌≡◌, ◌≢◌, ◌↔◌, inl, inr, refl, sym, subst, Bool, true, false,
  Bool-cases, some, Option-cases, List, [], ◌∷◌, length, ==_cases, ==_true, ==_false, u32, arith,
}
use neox.Base.Memory.{Bytes, AreBytes}
use neox.Base.Result.{Result, done, ◌>>=◌}
use neox.Strings.{word, memcpy}
use neox.Fs.{failure}
use neox.Fs.Mount.{word-lt}
use neox.Paging.UserRange.{paging_user_range_valid}
use neox.Paging.UserString.{IsShut}
use neox.Paging.UserString.Scan.{string_returns}
use neox.Machine.{Machine}
use neox.Machine.Laws.{Laws}
use neox.Machine.Owned.{Owns, copy-Owns, adds, not_added, AreHeld-of, new-IsBlock, start-Owns}
use neox.Exec.Args.{
  exec_max_args, exec_max_arg_length, argument_length, add_copy, copy_argument, copy_valid,
  next_argument, copy_from, finish_args, exec_args_copy_from_user,
}
use neox.Exec.Copies.{argument_length-le, memcpy-AreBytes, destroy_lem}

module _ (machine : Machine) (laws : Laws machine) where
  open machine use {State, paging, set_paging, memory, set_memory, kmalloc, kfree}
  open laws use {IsSound, InUse, kmalloc_returns, kfree_returns}

  -- What the memory and the tables keep of the heap: `kmalloc` maps no page of user mode, and
  -- memory holds bytes.
  pub record IsQuiet (directory : ℕ) : Type 0 where
    pub memory_set : (st : State) (m : Bytes) → memory (set_memory st m) ≡ m
    pub paging_kept : (st : State) (m : Bytes) → paging (set_memory st m) ≡ paging st
    pub bytes_kept :
        (st t : State) (size ptr : ℕ)
        → kmalloc st size ≡ done (t, ptr)
        → AreBytes (memory st)
        → AreBytes (memory t)
    pub shut_kept :
        (st t : State) (size ptr : ℕ)
        → kmalloc st size ≡ done (t, ptr)
        → IsShut (paging st) directory
        → IsShut (paging t) directory

  -- The state of the loop.
  pub record IsCopying (before : State) (directory : ℕ) (st : State) (argv : List (ℕ × ℕ))
      : Type 0 where
    pub owns : Owns machine laws before st argv
    pub bytes : AreBytes (memory st)
    pub shut : IsShut (paging st) directory

  -- How `exec_args_copy_from_user` ends.
  pub data Copied (before : State) (directory : ℕ)
      : Result (State × List (ℕ × ℕ) × ℕ) → Type 0 where
    copied :
        {t : State} (argv : List (ℕ × ℕ))
        → IsCopying before directory t argv
        → length argv < exec_max_args
        → Copied before directory (done (t, argv, 0))
    failed :
        {t : State}
        → IsSound t
        → ((q : ℕ) → InUse t q ↔ InUse before q)
        → Copied before directory (done (t, [], failure))

  module _ (before : State) (fuel directory : ℕ) (some_directory : directory ≢ 0)
      (quiet : IsQuiet directory) (enough : 2 ^ 33 < fuel) where
    -- A part of the loop that returns, with the count of the entries where it succeeds.
    abbrev Goes : (count : ℕ → Type 0) → Result (State × List (ℕ × ℕ) × Bool) → Type 0
    Goes count r =
        (t : State) × (argv : List (ℕ × ℕ)) × (ok : Bool) × (r ≡ done (t, argv, ok))
        × IsCopying before directory t argv
        × (ok ≡ true → count (length argv))

    add_copy-Goes :
        (st : State) (string size i : ℕ) (argv : List (ℕ × ℕ))
        → IsCopying before directory st argv
        → size < exec_max_arg_length
        → Goes (λ n. n ≡ suc (length argv)) (copy_argument machine st string i argv (some size))
    unfolding copy_argument add_copy
    add_copy-Goes st string size i argv k low =
        let r = kmalloc_returns st (size + 1) k.owns.sound (omega arith) in
        elim (==_cases r.1 0) [
          | inl null ↦
              rw (r.2, ==_true r.1 0 null)
                (
                  r.0,
                  argv,
                  false,
                  refl,
                  record {
                    owns = not_added machine laws before st r.0 r.1 argv k.owns r.3 null r.5;
                    bytes = quiet.bytes_kept st r.0 _ r.1 r.2 k.bytes;
                    shut = quiet.shut_kept st r.0 _ r.1 r.2 k.shut;
                  },
                  λ e. ground arith,
                )
          | inr present ↦
              let m = memcpy (memory r.0) r.1 string (size + 1) in
              rw (r.2, ==_false r.1 0 present)
                (
                  set_memory r.0 m,
                  (i, r.1) ∷ argv,
                  true,
                  refl,
                  record {
                    owns =
                        copy-Owns machine laws before r.0 ((i, r.1) ∷ argv) r.1 string (size + 1)
                          (r.6 present)
                          (adds machine laws before st r.0 argv i r.1 k.owns r.3 present
                            (r.4 present) r.5);
                    bytes = subst AreBytes (sym (quiet.memory_set r.0 m)) (
                        memcpy-AreBytes (memory r.0) r.1 string (size + 1)
                          (quiet.bytes_kept st r.0 _ r.1 r.2 k.bytes));
                    shut =
                        subst (λ s. IsShut s directory) (sym (quiet.paging_kept r.0 m))
                          (quiet.shut_kept st r.0 _ r.1 r.2 k.shut);
                  },
                  λ e. refl,
                )
        ]

    copy_valid-Goes :
        (st : State) (string i : ℕ) (argv : List (ℕ × ℕ)) (valid : Bool)
        → IsCopying before directory st argv
        → Goes (λ n. n ≡ suc (length argv)) (copy_valid machine st string i argv valid)
    unfolding copy_valid copy_argument
    copy_valid-Goes st string i argv false k = (st, argv, false, refl, k, λ e. ground arith)
    copy_valid-Goes st string i argv true k =
        elim (Option-cases (argument_length exec_max_arg_length (memory st) string 0)) [
          | inl long ↦ rw long (st, argv, false, refl, k, λ e. ground arith)
          | inr found ↦ rw found.1 (
              add_copy-Goes st string found.0 i argv k
                (argument_length-le exec_max_arg_length (memory st) string 0 found.0 found.1))
        ]

    next_copy :
        (user_argv n i : ℕ) (r : Result (State × List (ℕ × ℕ) × Bool)) (argv : List (ℕ × ℕ))
        → i + suc n ≡ exec_max_args
        → length argv ≡ i
        → Goes (λ c. c ≡ suc (length argv)) r
        → ((t : State) (later : List (ℕ × ℕ))
            → IsCopying before directory t later
            → length later ≡ i + 1
            → Goes
                (λ c. c < exec_max_args)
                (copy_from machine fuel directory user_argv n (i + 1) t later))
        → Goes
            (λ c. c < exec_max_args)
            (r >>= next_argument machine (copy_from machine fuel directory user_argv n (i + 1)))
    unfolding next_argument
    next_copy user_argv n i r argv e c (t, later, true, h, k, count) rest =
        rw h (rest t later k (omega (arith, count refl)))
    next_copy user_argv n i r argv e c (t, later, false, h, k, count) rest =
        rw h (t, later, false, refl, k, λ b. ground arith)

    copy_from-Goes :
        (user_argv n i : ℕ) (st : State) (argv : List (ℕ × ℕ))
        → IsCopying before directory st argv
        → i + n ≡ exec_max_args
        → length argv ≡ i
        → Goes (λ c. c < exec_max_args) (copy_from machine fuel directory user_argv n i st argv)
    unfolding copy_from next_argument
    copy_from-Goes user_argv zero i st argv k e c = (st, argv, false, refl, k, λ b. ground arith)
    copy_from-Goes user_argv (suc n) i st argv k e c =
        elim (Bool-cases
          (paging_user_range_valid (paging st) directory (u32 (user_argv + i * 4)) 4)) [
            | inr invalid ↦ rw invalid (st, argv, false, refl, k, λ b. ground arith)
            | inl valid ↦ elim (==_cases (word (memory st) (u32 (user_argv + i * 4))) 0) [
              | inl null ↦ rw (valid, ==_true _ 0 null) (st, argv, true, refl, k, λ b. omega arith)
              | inr present ↦
                  let string = word (memory st) (u32 (user_argv + i * 4)) in
                  let checked =
                    string_returns fuel (memory st) (paging st) directory string some_directory
                      k.shut (word-lt (memory st) _ k.bytes) enough in
                  rw (valid, ==_false _ 0 present, checked.1)
                    (next_copy user_argv n i (copy_valid machine st string i argv checked.0) argv e
                      c (copy_valid-Goes st string i argv checked.0 k)
                      (λ t later l d. copy_from-Goes user_argv n (i + 1) t later l (omega arith) d))
            ]
          ]

    finish_args-Copied :
        (r : Result (State × List (ℕ × ℕ) × Bool))
        → Goes (λ c. c < exec_max_args) r
        → Copied before directory (r >>= finish_args machine)
    unfolding finish_args
    finish_args-Copied r (t, argv, true, e, k, count) = rw e (copied argv k (count refl))
    finish_args-Copied r (t, argv, false, e, k, count) =
        let held =
          AreHeld-of machine laws before t argv k.owns.new (λ q i. (k.owns.in_use q).1 (inr i)) in
        let d = destroy_lem machine laws t argv k.owns.sound held in
        rw (e, d.1)
          (failed d.2 (λ q. (
            (λ i.
                let o = (d.3 q).0 i in
                elim ((k.owns.in_use q).0 o.0) [ inl old ↦ old | inr taken ↦ absurd (o.1 taken) ]),
            (λ i.
                (d.3 q).1 (
                  (k.owns.in_use q).1 (inl i),
                  new-IsBlock machine laws before q argv k.owns.new i,
                )),
          )))

    -- exec_args_copy_from_user for a page directory, on a sound machine whose kmalloc maps no page
    -- of user mode and keeps memory a memory of bytes, where the last page of the address space is
    -- closed to user mode and the fuel is above 2^33, returns without a failed assertion, whatever
    -- the array in user memory: with 0 and fewer than EXEC_MAX_ARGS copies, where the pointers in
    -- use are those from before and the copies, which differ from one another and from those; or
    -- with -1 and no copies, where the pointers in use are those from before.
    pub exec_args_copy_from_user-Copied :
        (user_argv : ℕ)
        → IsSound before
        → AreBytes (memory before)
        → IsShut (paging before) directory
        → Copied before directory (exec_args_copy_from_user machine fuel before directory user_argv)
    unfolding exec_args_copy_from_user
    exec_args_copy_from_user-Copied user_argv sound bytes shut =
        let start : IsCopying before directory before [] = record {
          owns = start-Owns machine laws before sound;
          bytes = bytes;
          shut = shut;
        } in
        elim (==_cases user_argv 0) [
          | inl null ↦
              rw (==_false directory 0 some_directory, ==_true user_argv 0 null)
                (failed sound (λ q. (λ i. i, λ i. i)))
          | inr present ↦
              rw (==_false directory 0 some_directory, ==_false user_argv 0 present)
                (finish_args-Copied
                  (copy_from machine fuel directory user_argv exec_max_args 0 before [])
                  (copy_from-Goes user_argv exec_max_args 0 before [] start refl refl))
        ]
