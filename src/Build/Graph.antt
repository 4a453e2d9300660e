-- ===== src/Build/Graph.antt =====
-- internal/schema/graph.go: `buildModelIndex` as a whole, `Build`, and what it finds by a label.
use pogo.Prelude.{
  Bool, not, ◌&&◌, ◌||◌, List, [], ◌∷◌, ◌++◌, Option, none, some, if◌then◌else◌, Bytes, codes,
  bytes_eq, Assoc, lookup, insert, is_some,
}
use pogo.Text.{contains_byte}
use pogo.Schema.{bytes_less, sort_by}
use pogo.Schema.Index.{◌>>=◌, ModelIndex, build_index}
use pogo.Build.{Method, MethodKey, Model, App, Snapshot}
use pogo.Paths.Complete.{has_prefix}
use pogo.Build.Valid.{validate_model, resolve_query_set_method}
use pogo.Build.Tables.{
  FieldTables, QuerySetRef, ManagerRef, ManagerTables, sorted_refs, enter_fields,
  enter_query_set_methods, enter_managers, method_less,
}

-- `modelIndex`; the tables for access are in `access`.
pub record ModelEntry : Type 0 where
  pub name : Bytes
  pub model : Model
  pub tables : FieldTables
  pub managers : ManagerTables
  pub query_set_order : List QuerySetRef
  pub method_order : List Method
  pub access : ModelIndex

abbrev pub manager_less : ManagerRef → ManagerRef → Bool
manager_less left right = bytes_less left.manager.name right.manager.name

abbrev pub query_set_less : QuerySetRef → QuerySetRef → Bool
query_set_less left right = bytes_less left.class_path right.class_path

abbrev pub sorted_query_set : QuerySetRef → QuerySetRef
sorted_query_set set = record set { method_order = sort_by method_less set.method_order }

abbrev pub sorted_query_sets : Assoc QuerySetRef → Assoc QuerySetRef
sorted_query_sets [] = []
sorted_query_sets ((name, set) ∷ sets) = (name, sorted_query_set set) ∷ sorted_query_sets sets

abbrev pub query_set_values : Assoc QuerySetRef → List QuerySetRef
query_set_values [] = []
query_set_values ((name, set) ∷ sets) = set ∷ query_set_values sets

-- The methods that the loop over `model.QuerySetMethods` has resolved.
abbrev pub resolved_methods : Assoc Method → List MethodKey → List Method
resolved_methods defs [] = []
resolved_methods defs (key ∷ keys) = elim (resolve_query_set_method defs key) [
  | none ↦ resolved_methods defs keys
  | some method ↦ method ∷ resolved_methods defs keys
]

abbrev pub no_fields : FieldTables
no_fields = record { fields = []; attnames = []; queries = []; accessors = [] }

abbrev pub model_entry :
    Bytes → Model → Assoc Method → FieldTables → ManagerTables → ModelIndex → ModelEntry
model_entry name model defs tables managers access =
    let sets = sorted_query_sets managers.query_sets in
    record {
      name = name;
      model = model;
      tables = tables;
      managers = record managers {
        query_sets = sets;
        manager_order = sort_by manager_less managers.manager_order;
      };
      query_set_order = sort_by query_set_less (query_set_values sets);
      method_order = sort_by method_less (resolved_methods defs model.query_set_methods);
      access = access;
    }

unfoldable pub build_model_index : Bytes → Model → Assoc Method → Option ModelEntry
unfolding sorted_refs enter_fields enter_query_set_methods enter_managers build_index sort_by
    resolve_query_set_method
build_model_index name model defs = do
  tables ← enter_fields no_fields (sorted_refs model.fields)
  query_sets ← enter_query_set_methods defs [] model.query_set_methods
  managers ←
      enter_managers defs (record { query_sets = query_sets; managers = []; manager_order = [] })
        model.managers
  access ← build_index (sorted_refs model.fields)
  some (model_entry name model defs tables managers access)

-- A pointer to a `modelIndex` in a table is the canonical label of the model. An export that two
-- models claim is `none`.
pub record BuiltGraph : Type 0 where
  pub canonical : Assoc ModelEntry
  pub class_path : Assoc Bytes
  pub model_export : Assoc (Option Bytes)
  pub source_class : Assoc Bytes
  pub module_models : Assoc (List Bytes)

abbrev pub dotted : Bytes → Bytes → Bytes
dotted left right = left ++ (46 ∷ right)

-- Whether a model stands at the top of the module `models` of its app.
abbrev pub is_exported : App → Model → Bool
is_exported app model =
    let models = app.import_name ++ codes ".models" in
    not (contains_byte model.qualname 46)
    && (bytes_eq model.module_path models || has_prefix model.module_path (models ++ (46 ∷ [])))

abbrev pub export_path : App → Model → Bytes
export_path app model = app.import_name ++ codes ".models." ++ model.qualname

abbrev pub enter_export : Assoc (Option Bytes) → Bytes → Bytes → Assoc (Option Bytes)
enter_export exports path label = elim (lookup path exports) [
  | none ↦ insert path (some label) exports
  | some none ↦ insert path none exports
  | some (some existing) ↦ if bytes_eq existing label then exports else insert path none exports
]

abbrev pub enter_module : Assoc (List Bytes) → Bytes → Bytes → Assoc (List Bytes)
enter_module modules name label = elim (lookup name modules) [
  | none ↦ insert name (label ∷ []) modules
  | some labels ↦ insert name (labels ++ (label ∷ [])) modules
]

-- The calls of path/filepath on a system other than Windows, and ResolvedPath, which asks the file
-- system.
pub record Paths : Type 0 where
  pub is_abs : Bytes → Bool
  pub clean : Bytes → Bytes
  pub resolved_path : Bytes → Bytes

abbrev pub source_class_key : Paths → Bytes → Bytes → Bytes
source_class_key paths file_path qualname = paths.clean file_path ++ (0 ∷ qualname)

abbrev pub source_paths : Paths → Model → List Bytes
source_paths paths model =
    let resolved = paths.resolved_path model.file_path in
    if bytes_eq (paths.clean model.file_path) resolved
    then model.file_path ∷ []
    else model.file_path ∷ resolved ∷ []

-- The loop over `sourcePaths`.
unfoldable pub enter_source_classes :
    Paths → Assoc Bytes → Bytes → Bytes → List Bytes → Option (Assoc Bytes)
enter_source_classes paths classes qualname label [] = some classes
enter_source_classes paths classes qualname label (path ∷ rest) =
    let key = source_class_key paths path qualname in
    let entered = enter_source_classes paths (insert key label classes) qualname label rest in
    elim (lookup key classes) [
      | none ↦ entered
      | some existing ↦ if bytes_eq existing label then entered else none
    ]

-- The tables with the entry of a model that has no error.
abbrev pub with_model : App → BuiltGraph → Model → ModelEntry → Assoc Bytes → BuiltGraph
with_model app graph model entry source_class =
    let label = model.canonical_label in
    record {
      canonical = insert label entry graph.canonical;
      class_path = insert (dotted model.module_path model.qualname) label graph.class_path;
      model_export =
          if is_exported app model
          then enter_export graph.model_export (export_path app model) label
          else graph.model_export;
      source_class = source_class;
      module_models = enter_module graph.module_models model.module_path label;
    }

-- The body of the loop over the models of an app.
unfoldable pub enter_model :
    Paths → Snapshot → Assoc Method → Bytes → App → BuiltGraph → Bytes → Model → Option BuiltGraph
unfolding validate_model build_model_index enter_source_classes
enter_model paths snapshot defs app_key app graph model_name model =
    let class_path = dotted model.module_path model.qualname in
    let label = model.canonical_label in
    if not (validate_model app_key model_name model snapshot defs)
      || is_some (lookup label graph.canonical)
      || is_some (lookup class_path graph.class_path)
    then none
    else (do
      entry ← build_model_index model_name model defs
      source_class ←
          enter_source_classes paths graph.source_class model.qualname label
            (source_paths paths model)
      some (with_model app graph model entry source_class))

unfoldable pub enter_models :
    Paths → Snapshot → Assoc Method → Bytes → App → BuiltGraph → Assoc Model → Option BuiltGraph
unfolding enter_model
enter_models paths snapshot defs app_key app graph [] = some graph
enter_models paths snapshot defs app_key app graph ((model_name, model) ∷ models) = do
  next ← enter_model paths snapshot defs app_key app graph model_name model
  enter_models paths snapshot defs app_key app next models
