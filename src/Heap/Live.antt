-- ===== src/Heap/Live.antt =====
-- The blocks in use, as a list of addresses and sizes without overlap.
use neox.Base.{ℕ, ◌+◌, ◌≤◌, ◌<◌, ◌≡◌, ◌≢◌, inl, inr, subst, List, [], ◌∷◌, ◌++◌, Bool-cases, arith}
use neox.Heap.{Block, header_size}
use neox.Heap.Chain.{Chain, used}

-- The blocks in use follow one another from `lo` to `hi`, each with its header and without overlap.
abbrev pub Ascending : ℕ → List (ℕ × ℕ) → ℕ → Type 0
Ascending lo [] hi = lo ≤ hi
Ascending lo ((a, n) ∷ us) hi = (lo ≤ a) × Ascending (a + header_size + n) us hi

-- No block in use has its payload at `ptr`.
abbrev pub NotLive : ℕ → List (ℕ × ℕ) → Type 0
NotLive ptr [] = Unit {0}
NotLive ptr ((a, n) ∷ us) = (a + header_size ≢ ptr) × NotLive ptr us

pub Ascending-le :
    (lo : ℕ) (xs : List (ℕ × ℕ)) (a n : ℕ) (ys : List (ℕ × ℕ)) (hi : ℕ)
    → Ascending lo (xs ++ (a, n) ∷ ys) hi
    → lo ≤ a
Ascending-le lo [] a n ys hi asc = asc.0
Ascending-le lo ((b, m) ∷ xs) a n ys hi asc =
    omega (arith, asc.0, Ascending-le (b + header_size + m) xs a n ys hi asc.1)

pub Ascending-weaken :
    (lo lo' : ℕ) (us : List (ℕ × ℕ)) (hi : ℕ) → lo ≤ lo' → Ascending lo' us hi → Ascending lo us hi
Ascending-weaken lo lo' [] hi le asc = omega (arith, asc)
Ascending-weaken lo lo' ((a, n) ∷ us) hi le asc = (omega (arith, asc.0), asc.1)

pub used-Ascending : (a : ℕ) (bs : List Block) (e : ℕ) → Chain a bs e → Ascending a (used bs) e
unfolding used
used-Ascending a [] e c = omega arith
used-Ascending a (b ∷ bs) e c = elim (Bool-cases b.free) [
  | inl is_free ↦ rw is_free (
      Ascending-weaken a (a + header_size + b.size) (used bs) e (omega arith)
        (used-Ascending (a + header_size + b.size) bs e c.2))
  | inr in_use ↦ rw (in_use, c.0) (omega arith, used-Ascending (a + header_size + b.size) bs e c.2)
]

pub NotLive-below :
    (lo : ℕ) (us : List (ℕ × ℕ)) (hi ptr : ℕ)
    → ptr < lo + header_size
    → Ascending lo us hi
    → NotLive ptr us
NotLive-below lo [] hi ptr lt asc = tt
NotLive-below lo ((a, n) ∷ us) hi ptr lt asc = (
  omega (arith, asc.0),
  NotLive-below (a + header_size + n) us hi ptr (omega (arith, asc.0)) asc.1,
)

pub Ascending-end : (lo : ℕ) (us : List (ℕ × ℕ)) (hi : ℕ) → Ascending lo us hi → lo ≤ hi
Ascending-end lo [] hi asc = asc
Ascending-end lo ((a, n) ∷ us) hi asc =
    omega (arith, asc.0, Ascending-end (a + header_size + n) us hi asc.1)

pub NotLive-above :
    (lo : ℕ) (us : List (ℕ × ℕ)) (hi ptr : ℕ)
    → hi + header_size ≤ ptr
    → Ascending lo us hi
    → NotLive ptr us
NotLive-above lo [] hi ptr ge asc = tt
NotLive-above lo ((a, n) ∷ us) hi ptr ge asc = (
  omega (arith, Ascending-end (a + header_size + n) us hi asc.1),
  NotLive-above (a + header_size + n) us hi ptr ge asc.1,
)

pub NotLive-append :
    (ptr : ℕ) (us vs : List (ℕ × ℕ)) → NotLive ptr us → NotLive ptr vs → NotLive ptr (us ++ vs)
NotLive-append ptr [] vs nu nv = nv
NotLive-append ptr (u ∷ us) vs nu nv = (nu.0, NotLive-append ptr us vs nu.1 nv)

-- In a list without overlap an address stands once.
pub same_rest :
    (lo : ℕ) (xs ys xs' ys' : List (ℕ × ℕ)) (a n n' hi : ℕ)
    → Ascending lo (xs ++ (a, n) ∷ ys) hi
    → xs ++ (a, n) ∷ ys ≡ xs' ++ (a, n') ∷ ys'
    → xs ++ ys ≡ xs' ++ ys'
same_rest lo [] ys [] ys' a n n' hi asc e = cc
same_rest lo [] ys (x' ∷ xs') ys' a n n' hi asc e =
    let rest : ys ≡ xs' ++ (a, n') ∷ ys' = cc in
    let later = subst (λ us. Ascending (a + header_size + n) us hi) rest asc.1 in
    absurd (omega (arith, Ascending-le (a + header_size + n) xs' a n' ys' hi later))
same_rest lo ((b, m) ∷ xs) ys [] ys' a n n' hi asc e =
    let same : b ≡ a = cc in
    absurd (omega (arith, Ascending-le (b + header_size + m) xs a n ys hi asc.1))
same_rest lo ((b, m) ∷ xs) ys (x' ∷ xs') ys' a n n' hi asc e =
    let head : (b, m) ≡ x' = cc in
    let rest : xs ++ (a, n) ∷ ys ≡ xs' ++ (a, n') ∷ ys' = cc in
    let ih : xs ++ ys ≡ xs' ++ ys' =
      same_rest (b + header_size + m) xs ys xs' ys' a n n' hi asc.1 rest in
    cc
