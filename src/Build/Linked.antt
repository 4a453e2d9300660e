-- ===== src/Build/Linked.antt =====
-- internal/schema/graph.go: `Build`, with the checks of the links between models, and the look-ups.
pub mod Sources
pub mod Entries
pub mod Consistent
pub mod Closed
use pogo.Prelude.{
  ℕ, ℤ, pos, eq_ℤ, Bool, true, false, not, ◌&&◌, ◌||◌, List, [], ◌∷◌, Option, none, some,
  if◌then◌else◌, length, Bytes, codes, bytes_eq, Assoc, lookup, is_some,
}
use pogo.Schema.{FieldRef, SourceRange}
use pogo.Schema.Index.{◌>>=◌, ModelIndex}
use pogo.Schema.Graph.{Graph}
use pogo.Build.{Method, Parent, Model, App, Snapshot}
use pogo.Paths.{is_empty}
use pogo.Build.Valid.{every, build_query_set_method_defs}
use pogo.Build.Graph.{Paths, ModelEntry, BuiltGraph, enter_models, source_class_key}

abbrev pub is_app : Paths → Bytes → App → Bool
is_app paths app_key app =
    not (is_empty app_key)
    && bytes_eq app.label app_key
    && not (is_empty app.import_name)
    && not (is_empty app.root_path)
    && paths.is_abs app.root_path

unfoldable pub enter_apps :
    Paths → Snapshot → Assoc Method → BuiltGraph → Assoc App → Option BuiltGraph
unfolding enter_models
enter_apps paths snapshot defs graph [] = some graph
enter_apps paths snapshot defs graph ((app_key, app) ∷ apps) = do
  next ←
      if is_app paths app_key app
      then enter_models paths snapshot defs app_key app graph app.models
      else none
  enter_apps paths snapshot defs next apps

abbrev pub has_related : Assoc ModelEntry → Option Bytes → Bool
has_related canonical none = true
has_related canonical (some label) = is_some (lookup label canonical)

-- No error of a field, and none of a parent.
abbrev pub is_linked_field : Assoc ModelEntry → Bytes × FieldRef → Bool
is_linked_field canonical (name, ref) =
    (ref.field.source_model_abstract || is_some (lookup ref.field.source_model canonical))
    && has_related canonical ref.field.related_model

abbrev pub is_linked_parent : Assoc ModelEntry → Parent → Bool
is_linked_parent canonical parent =
    parent.is_abstract || is_some (lookup parent.canonical_label canonical)

abbrev pub is_linked : Assoc ModelEntry → Bytes × ModelEntry → Bool
is_linked canonical (label, entry) =
    every (is_linked_field canonical) entry.tables.fields
    && every (is_linked_parent canonical) entry.model.parents

abbrev pub is_source : Paths → Bytes → Bool
is_source paths source = not (is_empty source) && paths.is_abs source

abbrev pub is_supported : Snapshot → Bool
is_supported snapshot =
    eq_ℤ snapshot.schema_version (pos 3)
    && bytes_eq snapshot.position_encoding (codes "utf-8-bytes")
    && (eq_ℤ snapshot.lookup_transform_max_depth (pos 2)
        && eq_ℤ snapshot.lookup_path_max_count (pos 512))

abbrev pub empty_graph : BuiltGraph
empty_graph = record {
  canonical = [];
  class_path = [];
  model_export = [];
  source_class = [];
  module_models = [];
}

-- The copy of the snapshot that `Build` works on is the snapshot.
unfoldable pub build : Paths → Snapshot → Option BuiltGraph
unfolding build_query_set_method_defs enter_apps
build paths snapshot = do
  defs ← if is_supported snapshot then build_query_set_method_defs snapshot else none
  graph ← enter_apps paths snapshot defs empty_graph snapshot.apps
  if every (is_source paths) snapshot.schema_sources
        && every (is_linked graph.canonical) graph.canonical
      then some graph
      else none

-- The tables for access, by canonical label: what the field paths walk over.
abbrev pub access_graph : Assoc ModelEntry → Graph
access_graph [] = []
access_graph ((label, entry) ∷ entries) = (label, entry.access) ∷ access_graph entries

unfoldable pub model_count : BuiltGraph → ℕ
model_count graph = length graph.canonical

unfoldable pub has_model : BuiltGraph → Bytes → Bool
has_model graph label = is_some (lookup label graph.canonical)

unfoldable pub has_class : BuiltGraph → Bytes → Bool
has_class graph class_path = is_some (lookup class_path graph.class_path)

abbrev pub exported : Option (Option Bytes) → Option Bytes
exported none = none
exported (some label) = label

unfoldable pub canonical_label_for_class : BuiltGraph → Bytes → Option Bytes
canonical_label_for_class graph class_path = elim (lookup class_path graph.class_path) [
  | some label ↦ some label
  | none ↦ exported (lookup class_path graph.model_export)
]

unfoldable pub canonical_label_for_source_class : Paths → BuiltGraph → Bytes → Bytes → Option Bytes
canonical_label_for_source_class paths graph file_path qualname =
    if is_empty file_path || is_empty qualname
    then none
    else lookup (source_class_key paths file_path qualname) graph.source_class

pub record ModelInfo : Type 0 where
  pub canonical_label : Bytes
  pub file_path : Bytes
  pub managed : Bool
  pub has_abstract_parent : Bool
  pub multi_table_child : Bool
  pub index_count : ℕ
  pub constraint_count : ℕ

abbrev pub info_of : Model → ModelInfo
info_of model = record {
  canonical_label = model.canonical_label;
  file_path = model.file_path;
  managed = model.managed;
  has_abstract_parent = model.has_abstract_parent;
  multi_table_child = model.multi_table_child;
  index_count = length model.indexes;
  constraint_count = length model.constraints;
}

unfoldable pub model_info : BuiltGraph → Bytes → Option ModelInfo
model_info graph label = elim (lookup label graph.canonical) [
  | none ↦ none
  | some entry ↦ some (info_of entry.model)
]

unfoldable pub model_source_range : BuiltGraph → Bytes → Option SourceRange
model_source_range graph label = elim (lookup label graph.canonical) [
  | none ↦ none
  | some entry ↦ entry.model.source_range
]

unfoldable pub module_model_count : BuiltGraph → Bytes → ℕ
module_model_count graph name = elim (lookup name graph.module_models) [
  | none ↦ 0
  | some labels ↦ length labels
]

unfoldable pub field : BuiltGraph → Bytes → Bytes → Option FieldRef
field graph label name = elim (lookup label graph.canonical) [
  | none ↦ none
  | some entry ↦ lookup name entry.tables.fields
]
