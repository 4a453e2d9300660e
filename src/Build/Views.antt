-- ===== src/Build/Views.antt =====
-- internal/schema/graph.go: what `Graph` finds in the tables of a model that `Build` has entered, and
-- the field that a statement of the source declares.
pub mod Declared
use pogo.Prelude.{
  ℕ, eq_ℤ, Bool, true, false, not, ◌&&◌, ◌||◌, List, [], ◌∷◌, ◌++◌, Option, none, some,
  if◌then◌else◌, length, drop, Bytes, codes, bytes_eq, Assoc, lookup, leb, ◌-◌,
}
use pogo.Schema.{FieldRef, SourceRange, SourcePosition}
use pogo.Schema.Index.{holds, nonempty_or}
use pogo.Schema.Graph.{related_model}
use pogo.Paths.{is_empty}
use pogo.Build.{Method}
use pogo.Build.Tables.{ManagerRef, QuerySetRef}
use pogo.Build.Graph.{Paths, ModelEntry, BuiltGraph}

-- What a function reads in the entry of a label, if there is one.
abbrev pub in_entry : {A : Type 0} → BuiltGraph → Bytes → (ModelEntry → Option A) → Option A
in_entry graph label read = elim (lookup label graph.canonical) [
  | none ↦ none
  | some entry ↦ read entry
]

unfoldable pub query_field : BuiltGraph → Bytes → Bytes → Option FieldRef
query_field graph label name = in_entry graph label (λ entry. lookup name entry.tables.queries)

unfoldable pub accessor_field : BuiltGraph → Bytes → Bytes → Option FieldRef
accessor_field graph label name = in_entry graph label (λ entry. lookup name entry.tables.accessors)

unfoldable pub attname_field : BuiltGraph → Bytes → Bytes → Option FieldRef
attname_field graph label name = in_entry graph label (λ entry. lookup name entry.tables.attnames)

unfoldable pub manager : BuiltGraph → Bytes → Bytes → Option ManagerRef
manager graph label name = in_entry graph label (λ entry. lookup name entry.managers.managers)

unfoldable pub query_set : BuiltGraph → Bytes → Bytes → Option QuerySetRef
query_set graph label name = in_entry graph label (λ entry. lookup name entry.managers.query_sets)

abbrev pub set_method : Option QuerySetRef → Bytes → Option Method
set_method none name = none
set_method (some set) name = lookup name set.methods

unfoldable pub query_set_method : BuiltGraph → Bytes → Bytes → Bytes → Option Method
unfolding query_set
query_set_method graph label class name = set_method (query_set graph label class) name

-- What the visits see, when the visitor never stops; without an entry the visit is false.
unfoldable pub visited_managers : BuiltGraph → Bytes → Option (List ManagerRef)
visited_managers graph label = in_entry graph label (λ entry. some entry.managers.manager_order)

unfoldable pub visited_query_sets : BuiltGraph → Bytes → Option (List QuerySetRef)
visited_query_sets graph label = in_entry graph label (λ entry. some entry.query_set_order)

unfoldable pub visited_query_set_methods : BuiltGraph → Bytes → Option (List Method)
visited_query_set_methods graph label = in_entry graph label (λ entry. some entry.method_order)

abbrev pub same_position : SourcePosition → SourcePosition → Bool
same_position left right = eq_ℤ left.line right.line && eq_ℤ left.column right.column

abbrev pub same_range : SourceRange → SourceRange → Bool
same_range left right =
    bytes_eq left.file_path right.file_path
    && bytes_eq left.source_digest right.source_digest
    && same_position left.start right.start
    && same_position left.end right.end

abbrev pub same_ranges : Option SourceRange → Option SourceRange → Bool
same_ranges (some left) (some right) = same_range left right
same_ranges _ _ = false

unfoldable pub same_source_range : FieldRef → FieldRef → Bool
same_source_range left right = same_ranges left.field.source_range right.field.source_range

abbrev pub has_suffix : Bytes → Bytes → Bool
has_suffix s suffix =
    leb (length suffix) (length s) && bytes_eq (drop (length s - length suffix) s) suffix

-- Whether a field is declared in the class, by the name, at the place in the resolved file.
abbrev pub stands_at : Paths → Bytes → SourcePosition → SourcePosition → Option SourceRange → Bool
stands_at paths file_path start end none = false
stands_at paths file_path start end (some range) =
    same_position range.start start
    && same_position range.end end
    && bytes_eq (paths.resolved_path range.file_path) file_path

unfoldable pub declares :
    Paths → Bytes → Bytes → Bytes → SourcePosition → SourcePosition → FieldRef → Bool
declares paths file_path class_name field_name start end ref =
    holds ref.field.relation_direction (codes "forward")
    && bytes_eq ref.field.name field_name
    && has_suffix ref.field.source_model (46 ∷ class_name)
    && stands_at paths file_path start end ref.field.source_range

-- The target of a relation: the model at run time, if it is known.
abbrev pub relation_target : FieldRef → Option Bytes
relation_target ref = elim ref.field.runtime_related_model [
  | some (b ∷ label) ↦ some (b ∷ label)
  | _ ↦ related_model ref
]

-- The field selected so far with its target, and `none` where the loop returns false.
abbrev pub select_field :
    Option (FieldRef × Bytes) → FieldRef → Option Bytes → Option (Option (FieldRef × Bytes))
select_field selected ref none = none
select_field none ref (some target) = some (some (ref, target))
select_field (some (chosen, chosen_target)) ref (some target) =
    if bytes_eq chosen_target target && same_source_range chosen ref
    then some (some (ref, target))
    else none

-- The two loops over the fields of all models.
unfoldable pub select_loop :
    (FieldRef → Bool)
    → Option (FieldRef × Bytes)
    → List FieldRef
    → Option (Option (FieldRef × Bytes))
unfolding same_source_range
select_loop wanted selected [] = some selected
select_loop wanted selected (ref ∷ refs) =
    let passed = select_loop wanted selected refs in
    if wanted ref
    then elim (select_field selected ref (relation_target ref)) [
      | none ↦ none
      | some next ↦ select_loop wanted next refs
    ]
    else passed

abbrev pub table_fields : Assoc FieldRef → List FieldRef
table_fields [] = []
table_fields ((name, ref) ∷ fields) = ref ∷ table_fields fields

abbrev pub all_fields : Assoc ModelEntry → List FieldRef
all_fields [] = []
all_fields ((label, entry) ∷ entries) = table_fields entry.tables.fields ++ all_fields entries

abbrev pub selected_field : Option (Option (FieldRef × Bytes)) → Option FieldRef
selected_field none = none
selected_field (some none) = none
selected_field (some (some (ref, target))) = some ref

unfoldable pub relation_field_for_source :
    Paths → BuiltGraph → Bytes → Bytes → Bytes → SourcePosition → SourcePosition → Option FieldRef
unfolding select_loop declares
relation_field_for_source paths graph file_path class_name field_name start end =
    if is_empty file_path || is_empty class_name || is_empty field_name
    then none
    else selected_field (
        select_loop (declares paths (paths.resolved_path file_path) class_name field_name start end)
          none (all_fields graph.canonical))
