-- ===== src/Heap/Chain.antt =====
-- The chain of blocks: contiguous, aligned, and what `heap_validate` asserts.
use neox.Base.{
  ℕ, ◌+◌, ◌%◌, ◌^◌, ◌≤◌, ◌<◌, ◌≡◌, refl, sym, subst, true, false, ◌&&◌, List, [], ◌∷◌, ◌++◌,
  if◌then◌else◌, arith,
}
use neox.Heap.{Block, is_empty, header_size, heap_alignment, heap_validate}
use neox.Layout.{kernel_heap_start}

-- From address `a` the blocks lie one behind the other up to `e`, with aligned sizes.
abbrev pub Chain : ℕ → List Block → ℕ → Type 0
Chain a [] e = a ≡ e
Chain a (b ∷ bs) e =
    (b.addr ≡ a) × (b.size % heap_alignment ≡ 0) × Chain (a + header_size + b.size) bs e

pub Chain-le : (a : ℕ) (bs : List Block) (e : ℕ) → Chain a bs e → a ≤ e
Chain-le a [] e c = omega arith
Chain-le a (b ∷ bs) e c = omega (arith, Chain-le (a + header_size + b.size) bs e c.2)

pub Chain-append :
    (a : ℕ) (xs : List Block) (m : ℕ) (ys : List Block) (e : ℕ)
    → Chain a xs m
    → Chain m ys e
    → Chain a (xs ++ ys) e
Chain-append a [] m ys e c d = subst (λ k. Chain k ys e) (sym c) d
Chain-append a (x ∷ xs) m ys e c d =
    (c.0, c.1, Chain-append (a + header_size + x.size) xs m ys e c.2 d)

-- Where the second of two parts of a chain starts.
pub Chain-cut :
    (a : ℕ) (xs ys : List Block) (e : ℕ)
    → Chain a (xs ++ ys) e
    → (m : ℕ) × Chain a xs m × Chain m ys e
Chain-cut a [] ys e c = (a, refl, c)
Chain-cut a (x ∷ xs) ys e c =
    let rest = Chain-cut (a + header_size + x.size) xs ys e c.2 in
    (rest.0, (c.0, c.1, rest.1), rest.2)

-- A chain in the heap passes `heap_validate`.
pub Chain-heap_validate :
    (a : ℕ) (bs : List Block) (e : ℕ)
    → kernel_heap_start ≤ a
    → a % heap_alignment ≡ 0
    → e < 2 ^ 32
    → Chain a bs e
    → heap_validate bs e ≡ true
unfolding heap_validate
Chain-heap_validate a [] e lo al hi c = refl
Chain-heap_validate a (b ∷ []) e lo al hi c = ground arith
Chain-heap_validate a (b ∷ n ∷ bs) e lo al hi c = ground (
  arith,
  Chain-heap_validate (a + header_size + b.size) (n ∷ bs) e (omega arith) (omega arith) hi c.2,
  Chain-le (a + header_size + b.size + header_size + n.size) bs e c.2.2,
)

-- Address and size of each block in use, in order.
unfoldable pub used : List Block → List (ℕ × ℕ)
used [] = []
used (b ∷ bs) = if b.free then used bs else ((b.addr, b.size) ∷ used bs)

pub used-append : (xs ys : List Block) → used (xs ++ ys) ≡ used xs ++ used ys
unfolding used
used-append [] ys = refl
used-append (x ∷ xs) ys = ground (arith, used-append xs ys)

-- No two neighbours are both free.
abbrev pub Apart : Block → List Block → Type 0
Apart b [] = Unit {0}
Apart b (n ∷ bs) = (b.free && n.free) ≡ false

abbrev pub IsMerged : List Block → Type 0
IsMerged [] = Unit {0}
IsMerged (b ∷ bs) = Apart b bs × IsMerged bs

pub Chain-cons : (a : ℕ) (bs : List Block) (e : ℕ) → a < e → Chain a bs e → is_empty bs ≡ false
Chain-cons a [] e h c = absurd (omega arith)
Chain-cons a (b ∷ bs) e h c = refl

-- Each block of an aligned chain is aligned, and so is its end.
pub Chain-aligned :
    (a : ℕ) (bs : List Block) (e : ℕ)
    → a % heap_alignment ≡ 0
    → Chain a bs e
    → e % heap_alignment ≡ 0
Chain-aligned a [] e al c = omega arith
Chain-aligned a (b ∷ bs) e al c = Chain-aligned (a + header_size + b.size) bs e (omega arith) c.2
