-- ===== src/Exec/Words.antt =====
-- Words in memory.
use neox.Base.{ℕ, ◌+◌, ◌^◌, ◌≤◌, ◌<◌, ◌≡◌, ◌⊎◌, arith}
use neox.Base.Memory.{Bytes, store}
use neox.Strings.{word}
use neox.Exec.{store_word}

pub store_word_apart : (m : Bytes) (a w j : ℕ) → (j < a) ⊎ (a + 4 ≤ j) → store_word m a w j ≡ m j
unfolding store_word store
store_word_apart m a w j h = ground arith

pub word-store_word : (m : Bytes) (a w : ℕ) → w < 2 ^ 32 → word (store_word m a w) a ≡ w
unfolding store_word store
word-store_word m a w h = ground arith

-- A word of which no byte has changed.
pub word_kept :
    (m t : Bytes) (a : ℕ) → ((j : ℕ) → a ≤ j → j < a + 4 → t j ≡ m j) → word t a ≡ word m a
word_kept m t a same = ground (
  arith,
  same a (omega arith) (omega arith),
  same (a + 1) (omega arith) (omega arith),
  same (a + 2) (omega arith) (omega arith),
  same (a + 2 + 1) (omega arith) (omega arith),
)
