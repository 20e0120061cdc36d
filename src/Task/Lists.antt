-- ===== src/Task/Lists.antt =====
-- Sequences of threads: membership, removal, and the thread behind another.
use neox.Base.{
  ℕ, ◌≡◌, refl, Bool, true, false, not, ◌&&◌, ◌||◌, List, [], ◌∷◌, ◌++◌, ◌==◌, if◌then◌else◌, arith,
}

unfoldable pub mem : ℕ → List ℕ → Bool
mem t [] = false
mem t (x ∷ xs) = (x == t) || mem t xs

unfoldable pub remove : ℕ → List ℕ → List ℕ
remove t [] = []
remove t (x ∷ xs) = if x == t then xs else x ∷ remove t xs

-- The thread behind `t`, or `front` behind the last.
unfoldable pub next_in : List ℕ → ℕ → ℕ → ℕ
next_in [] t front = front
next_in (x ∷ []) t front = front
next_in (x ∷ y ∷ ys) t front = if x == t then y else next_in (y ∷ ys) t front

abbrev pub Distinct : List ℕ → Type 0
Distinct [] = Unit {0}
Distinct (x ∷ xs) = (mem x xs ≡ false) × Distinct xs

pub mem-append : (t : ℕ) (xs ys : List ℕ) → mem t (xs ++ ys) ≡ (mem t xs || mem t ys)
unfolding mem
mem-append t [] ys = refl
mem-append t (x ∷ xs) ys = ground (arith, mem-append t xs ys)

pub mem-append_one : (t u : ℕ) (xs : List ℕ) → mem t (xs ++ u ∷ []) ≡ (mem t xs || (u == t))
unfolding mem
mem-append_one t u [] = ground arith
mem-append_one t u (x ∷ xs) = ground (arith, mem-append_one t u xs)

pub mem-remove :
    (t u : ℕ) (xs : List ℕ) → Distinct xs → mem t (remove u xs) ≡ (mem t xs && not (u == t))
unfolding mem remove
mem-remove t u [] d = refl
mem-remove t u (x ∷ xs) d = ground (arith, mem-remove t u xs d.1)

pub Distinct-append_one :
    (u : ℕ) (xs : List ℕ) → Distinct xs → mem u xs ≡ false → Distinct (xs ++ u ∷ [])
unfolding mem
Distinct-append_one u [] d h = (refl, tt)
Distinct-append_one u (x ∷ xs) d h =
    (ground (arith, mem-append_one x u xs), Distinct-append_one u xs d.1 (ground arith))

pub Distinct-remove : (u : ℕ) (xs : List ℕ) → Distinct xs → Distinct (remove u xs)
unfolding mem remove
Distinct-remove u [] d = tt
Distinct-remove u (x ∷ xs) d = ground (arith, mem-remove x u xs d.1, Distinct-remove u xs d.1)

pub mem-next_in :
    (t front : ℕ) (xs : List ℕ)
    → (mem (next_in xs t front) xs || (next_in xs t front == front)) ≡ true
unfolding mem next_in
mem-next_in t front [] = ground arith
mem-next_in t front (x ∷ []) = ground arith
mem-next_in t front (x ∷ y ∷ ys) = ground (arith, mem-next_in t front (y ∷ ys))
