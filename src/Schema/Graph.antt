-- ===== src/Schema/Graph.antt =====
-- internal/schema/graph.go: what the methods of `Graph` find in the index of a model.
use pogo.Prelude.{
  ◌≡◌, List, [], Option, none, some, arith, Bytes, Assoc, lookup, lookup_nil, insert, lookup-insert,
  bytes_eq, Bool-cases, subst, All, Option-cases, inl, inr,
}
use pogo.Schema.{FieldRef, FieldAccess}
use pogo.Schema.Index.{RelationIndex, ModelIndex}
use pogo.Schema.Index.Agreement.{IsIndexed}

-- `Graph.canonical`: the models by their canonical labels.
abbrev pub Graph : Type 0
Graph = Assoc ModelIndex

pub data RelationContext : Type 0 where
  relation_query relation_select_related relation_prefetch_related : RelationContext

abbrev pub relations : ModelIndex → RelationContext → RelationIndex
relations index relation_query = index.query_relations
relations index relation_select_related = index.select_relations
relations index relation_prefetch_related = index.prefetch_relations

unfoldable pub query_access : Graph → Bytes → Bytes → Option FieldAccess
query_access graph label name = elim (lookup label graph) [
  | none ↦ none
  | some index ↦ lookup name index.query.by_name
]

pub instance_access : Graph → Bytes → Bytes → Option FieldAccess
instance_access graph label name = elim (lookup label graph) [
  | none ↦ none
  | some index ↦ lookup name index.instance_table.by_name
]

pub relation : Graph → Bytes → Bytes → RelationContext → Option FieldAccess
relation graph label name context = elim (lookup label graph) [
  | none ↦ none
  | some index ↦ lookup name (relations index context).by_name
]

-- What `VisitQueryFields` and `VisitRelations` visit.
pub query_fields : Graph → Bytes → List FieldAccess
query_fields graph label = elim (lookup label graph) [
  | none ↦ []
  | some index ↦ index.query.accesses
]

pub visited_relations : Graph → Bytes → RelationContext → List FieldAccess
visited_relations graph label context = elim (lookup label graph) [
  | none ↦ []
  | some index ↦ (relations index context).ordered
]

-- The label of the model that `Build` has linked to the field.
abbrev pub related_model : FieldRef → Option Bytes
related_model ref = ref.field.related_model

-- Every model of the graph has a built index.
abbrev pub AllIndexed : Graph → Type 0
AllIndexed graph =
    (label : Bytes) (index : ModelIndex) → lookup label graph ≡ some index → IsIndexed index

pub AllIndexed-nil : AllIndexed []
AllIndexed-nil label index there = absurd (cc (lookup_nil {V = ModelIndex} label))

-- A model with a built index is entered.
pub AllIndexed-insert :
    (graph : Graph) (label : Bytes) (index : ModelIndex)
    → AllIndexed graph
    → IsIndexed index
    → AllIndexed (insert label index graph)
AllIndexed-insert graph label index all new other i there =
    elim (Bool-cases (bytes_eq label other)) [
      | inl same ↦ subst IsIndexed (ground (arith, lookup-insert label other index graph)) new
      | inr apart ↦ all other i (ground (arith, lookup-insert label other index graph))
    ]

pub query_fields-AllIndexed :
    (graph : Graph) (label : Bytes)
    → AllIndexed graph
    → All (λ a. query_access graph label a.name ≡ some a) (query_fields graph label)
unfolding query_access query_fields
query_fields-AllIndexed graph label all = elim (Option-cases (lookup label graph)) [
  | inl missing ↦ rw (query_access, query_fields, missing) tt
  | inr (index, there) ↦ rw (query_access, query_fields, there) (all label index there).query
]

relations-IsIndexed :
    (index : ModelIndex) (context : RelationContext)
    → IsIndexed index
    → All
        (λ a. lookup a.name (relations index context).by_name ≡ some a)
        (relations index context).ordered
relations-IsIndexed index relation_query i = i.query_relations
relations-IsIndexed index relation_select_related i = i.select_relations
relations-IsIndexed index relation_prefetch_related i = i.prefetch_relations

pub visited_relations-AllIndexed :
    (graph : Graph) (label : Bytes) (context : RelationContext)
    → AllIndexed graph
    → All
        (λ a. relation graph label a.name context ≡ some a)
        (visited_relations graph label context)
unfolding relation visited_relations
visited_relations-AllIndexed graph label context all = elim (Option-cases (lookup label graph)) [
  | inl missing ↦ rw (relation, visited_relations, missing) tt
  | inr (index, there) ↦
      rw (relation, visited_relations, there)
        (relations-IsIndexed index context (all label index there))
]
