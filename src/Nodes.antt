-- ===== src/Nodes.antt =====
-- kernel/lib/list.c, the intrusive lists: rings of nodes through the `prev` and `next` pointers that
-- each node holds, closed by the head that the list holds. A node is its address, NULL is 0, and a
-- list is the address of its head, which is its first field.
pub mod Ring
pub mod Splice
pub mod Insert
pub mod Remove
pub mod Queue
pub mod Cycle
pub mod Others
mod Tests
use neox.Base.{ℕ, Bool, true, not, ◌==◌, if◌then◌else◌}
use neox.Base.Memory.{store}
pub use neox.Base.Result.{Result, done, assertion_failed, ◌>>=◌, ◌>>◌, assert}

-- The `struct list_node` at each address.
pub record Nodes : Type 0 where
  pub prev : ℕ → ℕ
  pub next : ℕ → ℕ

unfoldable pub list_front : Nodes → ℕ → ℕ
list_front s list = if list == 0 then 0 else s.next list

unfoldable pub list_back : Nodes → ℕ → ℕ
list_back s list = if list == 0 then 0 else s.prev list

unfoldable pub list_next : Nodes → ℕ → ℕ
list_next s node = if node == 0 then 0 else s.next node

unfoldable pub list_prev : Nodes → ℕ → ℕ
list_prev s node = if node == 0 then 0 else s.prev node

unfoldable pub list_node_init : Nodes → ℕ → Result Nodes
list_node_init s node = do
  assert (not (node == 0))
  done (record { prev = store s.prev node 0; next = store s.next node 0 })

unfoldable pub list_init : Nodes → ℕ → Result Nodes
list_init s list = do
  assert (not (list == 0))
  done (record { prev = store s.prev list list; next = store s.next list list })

unfoldable pub list_empty : Nodes → ℕ → Bool
list_empty s list = if list == 0 then true else s.next list == list

-- The writes stand in their order, each reading what those before it left.
unfoldable pub list_insert_before : Nodes → ℕ → ℕ → Result Nodes
list_insert_before s pos node = do
  assert (not (pos == 0))
  assert (not (node == 0))
  assert (s.prev node == 0)
  assert (s.next node == 0)
  let a : Nodes = record s { prev = store s.prev node (s.prev pos) }
  let b : Nodes = record a { next = store a.next node pos }
  let c : Nodes = record b { next = store b.next (b.prev pos) node }
  done (record c { prev = store c.prev pos node })

unfoldable pub list_insert_after : Nodes → ℕ → ℕ → Result Nodes
list_insert_after s pos node = do
  assert (not (pos == 0))
  assert (not (node == 0))
  assert (s.prev node == 0)
  assert (s.next node == 0)
  let a : Nodes = record s { prev = store s.prev node pos }
  let b : Nodes = record a { next = store a.next node (a.next pos) }
  let c : Nodes = record b { prev = store b.prev (b.next pos) node }
  done (record c { next = store c.next pos node })

unfoldable pub list_push_front : Nodes → ℕ → ℕ → Result Nodes
list_push_front s list node = do
  assert (not (list == 0))
  assert (not (node == 0))
  list_insert_after s list node

unfoldable pub list_push_back : Nodes → ℕ → ℕ → Result Nodes
list_push_back s list node = do
  assert (not (list == 0))
  assert (not (node == 0))
  list_insert_before s list node

unfoldable pub list_remove : Nodes → ℕ → Result Nodes
list_remove s node = do
  assert (not (node == 0))
  assert (not (s.prev node == 0))
  assert (not (s.next node == 0))
  let a : Nodes = record s { next = store s.next (s.prev node) (s.next node) }
  let b : Nodes = record a { prev = store a.prev (a.next node) (a.prev node) }
  let c : Nodes = record b { prev = store b.prev node 0 }
  done (record c { next = store c.next node 0 })
