-- ===== src/Build/Linked/Closed.antt =====
-- What the rest of the server may rely on in a graph that `Build` returns.
use pogo.Prelude.{
  some_injective, ℕ, ◌≡◌, refl, subst, inl, inr, Bool, true, false, ◌&&◌, ◌||◌, List, [], ◌∷◌, ◌++◌,
  take, All, Option, none, some, arith, Bytes, bytes_eq, bytes_eq_iff, Assoc, lookup, is_some,
  Bool-cases, Option-cases,
}
use pogo.Store.{ByteRange}
use pogo.Schema.{FieldRef}
use pogo.Schema.Graph.{AllIndexed}
use pogo.Schema.Index.{ModelIndex}
use pogo.Paths.{PathMode, PathSegment}
use pogo.Paths.Complete.{complete_path}
use pogo.Paths.Validate.{validate_path}
use pogo.Paths.Offered.{complete_path-validate_path}
use pogo.Build.{Snapshot}
use pogo.Build.Valid.{every}
use pogo.Build.Graph.{Paths, ModelEntry, BuiltGraph}
use pogo.Build.Linked.{
  is_linked, is_linked_field, has_related, build, access_graph, has_model,
  canonical_label_for_class, canonical_label_for_source_class, field,
}
use pogo.Schema.Index.Agreement.{IsIndexed}
use pogo.Build.Linked.Entries.{IsConsistent, class_of}
use pogo.Build.Linked.Consistent.{build_checks, build-IsConsistent, second_true}

-- In a graph that `Build` has returned a model under a label has that label, and is found again
-- under it by its class path, and by its file and its qualified name.
pub build-canonical_label_for_class :
    (paths : Paths) (snapshot : Snapshot) (graph : BuiltGraph) (label : Bytes) (entry : ModelEntry)
    → build paths snapshot ≡ some graph
    → lookup label graph.canonical ≡ some entry
    → (entry.model.canonical_label ≡ label)
      × (canonical_label_for_class graph (class_of entry.model) ≡ some label)
      × (canonical_label_for_source_class paths graph entry.model.file_path entry.model.qualname
          ≡ some label)
unfolding canonical_label_for_class canonical_label_for_source_class
build-canonical_label_for_class paths snapshot graph label entry h there =
    let consistent = build-IsConsistent paths snapshot graph h in
    let is_entry = consistent.entries label entry there in
    (
      is_entry.labelled,
      rw (canonical_label_for_class, consistent.classes label entry there) refl,
      rw (canonical_label_for_source_class, is_entry.named) (consistent.sources label entry there),
    )

first_true : (a b : Bool) → (a && b) ≡ true → a ≡ true
first_true true b h = refl
first_true false b h = absurd (cc)

-- A test of all entries holds of what is found, under the key that it is stored with.
every-lookup :
    {V : Type 0} (test : Bytes × V → Bool) (m : Assoc V) (k : Bytes) (v : V)
    → every test m ≡ true
    → lookup k m ≡ some v
    → test (k, v) ≡ true
unfolding lookup
every-lookup test [] k v h there = absurd (cc)
every-lookup test ((j, w) ∷ m) k v h there = elim (Bool-cases (bytes_eq j k)) [
  | inl same ↦
      let key : j ≡ k = ground (arith, same, bytes_eq_iff j k) in
      let value : some w ≡ some v = ground (arith, there, same) in
      subst (λ i. test (i, v) ≡ true) key
        (subst (λ u. test (j, u) ≡ true) (some_injective value)
          (first_true (test (j, w)) (every test m) h))
  | inr apart ↦
      every-lookup test m k v (second_true (test (j, w)) (every test m) h)
        (ground (arith, there, apart))
]

related_found :
    (canonical : Assoc ModelEntry) (o : Option Bytes) (target : Bytes)
    → has_related canonical o ≡ true
    → o ≡ some target
    → is_some (lookup target canonical) ≡ true
related_found canonical none target h e = absurd (cc)
related_found canonical (some label) target h e = ground (arith, h, e)

-- In a graph that `Build` has returned the model that a field is related to is a model of the
-- graph.
pub build-related_model :
    (paths : Paths) (snapshot : Snapshot) (graph : BuiltGraph) (label name target : Bytes)
    (ref : FieldRef)
    → build paths snapshot ≡ some graph
    → field graph label name ≡ some ref
    → ref.field.related_model ≡ some target
    → has_model graph target ≡ true
unfolding field has_model
build-related_model paths snapshot graph label name target ref h found related =
    elim (Option-cases (lookup label graph.canonical)) [
      | inl missing ↦ absurd (ground (arith, found, missing))
      | inr (entry, there) ↦
          let linked =
            every-lookup (is_linked graph.canonical) graph.canonical label entry
              (build_checks paths snapshot graph h).1 there in
          let fields =
            first_true (every (is_linked_field graph.canonical) entry.tables.fields) _ linked in
          let ref_there : lookup name entry.tables.fields ≡ some ref =
            ground (arith, found, there) in
          let link =
            every-lookup (is_linked_field graph.canonical) entry.tables.fields name ref fields
              ref_there in
          related_found graph.canonical ref.field.related_model target
            (second_true
              (ref.field.source_model_abstract
                || is_some (lookup ref.field.source_model graph.canonical))
              (has_related graph.canonical ref.field.related_model) link)
            related
    ]

abbrev access_of : Option ModelEntry → Option ModelIndex
access_of none = none
access_of (some entry) = some entry.access

lookup-access_graph :
    (canonical : Assoc ModelEntry) (label : Bytes)
    → lookup label (access_graph canonical) ≡ access_of (lookup label canonical)
unfolding lookup
lookup-access_graph [] label = refl
lookup-access_graph ((k, entry) ∷ rest) label = elim (Bool-cases (bytes_eq k label)) [
  | inl same ↦ rw same refl
  | inr apart ↦ rw apart (lookup-access_graph rest label)
]

access_graph-AllIndexed :
    (paths : Paths) (graph : BuiltGraph)
    → IsConsistent paths graph
    → AllIndexed (access_graph graph.canonical)
access_graph-AllIndexed paths graph consistent label index there =
    elim (Option-cases (lookup label graph.canonical)) [
      | inl missing ↦
          absurd (ground (arith, there, missing, lookup-access_graph graph.canonical label))
      | inr (entry, found) ↦
          let same : some entry.access ≡ some index =
            ground (arith, there, found, lookup-access_graph graph.canonical label) in
          subst IsIndexed (some_injective same) (consistent.entries label entry found).indexed
    ]

-- In a graph that `Build` has returned, whatever the snapshot was: each candidate offered for the
-- segment at the cursor ends a path that passes the validation, in every mode and whatever the
-- annotations are.
pub build-complete_path :
    (paths : Paths) (snapshot : Snapshot) (graph : BuiltGraph) (label : Bytes) (mode : PathMode)
    (segments : List PathSegment) (active : ℕ) (annotations : List Bytes) (range : ByteRange)
    → build paths snapshot ≡ some graph
    → All
        (λ c.
          validate_path
            (access_graph graph.canonical)
            label
            mode
            (take active segments ++ record { text = c.name; range = range } ∷ [])
            annotations
          ≡ none)
        (complete_path (access_graph graph.canonical) label mode segments active)
build-complete_path paths snapshot graph label mode segments active annotations range h =
    complete_path-validate_path (access_graph graph.canonical) label mode segments active
      annotations range
      (access_graph-AllIndexed paths graph (build-IsConsistent paths snapshot graph h))
