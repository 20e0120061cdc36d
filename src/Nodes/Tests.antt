-- ===== src/Nodes/Tests.antt =====
-- The theorems on lists at two rings: the list at 8 with the nodes 16 and 24, and the list at 32
-- with the node 40. The node 48 is in neither.
use neox.Base.{◌≡◌, refl, [], ◌∷◌, ◌==◌, if◌then◌else◌, arith}
use neox.Nodes.{Nodes, done, ◌>>=◌, list_insert_before, list_remove}
use neox.Nodes.Ring.{IsRing}
use neox.Nodes.Splice.{Elsewhere}
use neox.Nodes.Insert.{IsFree}
use neox.Nodes.Remove.{list_remove-Relinked}
use neox.Nodes.Cycle.{list_remove-list_insert_before}
use neox.Nodes.Others.{Disjoint}

abbrev rings : Nodes
rings = record {
  next = λ x.
      if x == 8
      then 16
      else if x == 16
      then 24
      else if x == 24
      then 8
      else if x == 32
      then 40
      else if x == 40
      then 32
      else 0;
  prev = λ x.
      if x == 8
      then 24
      else if x == 16
      then 8
      else if x == 24
      then 16
      else if x == 32
      then 40
      else if x == 40
      then 32
      else 0;
}

two : IsRing rings 8 (16 ∷ 24 ∷ [])
two = record {
  linked = (refl, refl, (refl, refl, (refl, refl)));
  distinct = ((omega arith, (omega arith, tt)), ((omega arith, tt), (tt, tt)));
  nonzero = (omega arith, (omega arith, (omega arith, tt)));
}

one : IsRing rings 32 (40 ∷ [])
one = record {
  linked = (refl, refl, (refl, refl));
  distinct = ((omega arith, tt), (tt, tt));
  nonzero = (omega arith, (omega arith, tt));
}

node_48-IsFree : IsFree rings 48
node_48-IsFree = (omega arith, refl, refl)

apart : Disjoint (8 ∷ 16 ∷ 24 ∷ []) (32 ∷ 40 ∷ [])
apart = (
  (omega arith, (omega arith, tt)),
  ((omega arith, (omega arith, tt)), ((omega arith, (omega arith, tt)), tt)),
)

list_remove-Relinked_example :
    (t : Nodes) × (list_remove rings 16 ≡ done t)
    × IsRing t 8 (24 ∷ [])
    × IsFree t 16
    × Elsewhere rings t 8 16 24
list_remove-Relinked_example = list_remove-Relinked rings 8 16 [] (24 ∷ []) two

list_remove-list_insert_before_example :
    (list_insert_before rings 8 48 >>= λ t. list_remove t 48) ≡ done rings
list_remove-list_insert_before_example =
    list_remove-list_insert_before rings 8 48 (16 ∷ 24 ∷ []) [] two node_48-IsFree
