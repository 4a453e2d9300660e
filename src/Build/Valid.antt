-- ===== src/Build/Valid.antt =====
-- internal/schema/graph.go: what `Build` asks of a snapshot. `true` is that there is no error; of an
-- error the text is not modelled.
use pogo.Prelude.{
  ℕ, pos, leb_ℤ, eq_ℤ, Bool, true, false, not, ◌&&◌, ◌||◌, List, [], ◌∷◌, ◌++◌, Option, none, some,
  leb, ◌==◌, if◌then◌else◌, length, Bytes, codes, bytes_eq, Assoc, lookup, insert, is_some,
}
use pogo.Schema.{LookupPath, Field, SourcePosition, SourceRange}
use pogo.Schema.Index.{holds}
use pogo.Paths.{is_empty}
use pogo.Build.{
  Method, MethodKey, BoundQuerySetMethod, Manager, Parent, DatabaseIndex, Constraint, Model,
  Snapshot,
}

-- A loop that returns an error as soon as an element has one.
abbrev pub every {ℓ} : {A : Type ℓ} → (A → Bool) → List A → Bool
every test [] = true
every test (a ∷ rest) = test a && every test rest

abbrev pub is_hex_digit : ℕ → Bool
is_hex_digit b = (leb 48 b && leb b 57) || (leb 97 b && leb b 102)

-- `a.Line < b.Line || (a.Line == b.Line && a.Column < b.Column)`
abbrev pub precedes : SourcePosition → SourcePosition → Bool
precedes a b = not (leb_ℤ b.line a.line) || (eq_ℤ a.line b.line && not (leb_ℤ b.column a.column))

abbrev pub is_position : SourcePosition → Bool
is_position p = not (leb_ℤ p.line (pos 0)) && leb_ℤ (pos 0) p.column

unfoldable pub validate_range : Option SourceRange → Bool
validate_range none = false
validate_range (some range) =
    not (is_empty range.file_path)
    && is_position range.start
    && is_position range.end
    && not (precedes range.end range.start)
    && (length range.source_digest == 64 && every is_hex_digit range.source_digest)

unfoldable pub validate_method : Method → Bool
unfolding validate_range
validate_method method =
    (not (is_empty method.name) && not (is_empty method.owner_class) && is_some method.source_range)
    && not (method.assumed_chainable && not method.chainable)
    && validate_range method.source_range

-- `OwnerClass + "\x00" + Name`
abbrev pub method_key : Bytes → Bytes → Bytes
method_key owner_class name = owner_class ++ (0 ∷ name)

-- The loop of buildQuerySetMethodDefs.
pub enter_method_defs : Assoc Method → List Method → Option (Assoc Method)
unfolding validate_method
enter_method_defs defs [] = some defs
enter_method_defs defs (method ∷ rest) =
    let key = method_key method.owner_class method.name in
    let entered = enter_method_defs (insert key method defs) rest in
    if not (validate_method method) || is_some (lookup key defs) then none else entered

unfoldable pub build_query_set_method_defs : Snapshot → Option (Assoc Method)
unfolding enter_method_defs
build_query_set_method_defs snapshot = enter_method_defs [] snapshot.query_set_method_defs

unfoldable pub resolve_query_set_method : Assoc Method → MethodKey → Option Method
resolve_query_set_method defs key = lookup (method_key key.owner_class key.name) defs

abbrev pub is_member : Bytes → List Bytes → Bool
is_member name [] = false
is_member name (seen ∷ names) = bytes_eq seen name || is_member name names

-- The three loops that keep a set of the names so far.
pub validate_methods : List Bytes → List Method → Bool
unfolding validate_method
validate_methods seen [] = true
validate_methods seen (method ∷ rest) =
    validate_method method
    && not (is_member method.name seen)
    && validate_methods (method.name ∷ seen) rest

abbrev pub valid_resolved : Option Method → Bool
valid_resolved none = false
valid_resolved (some method) = validate_method method

pub validate_bindings : Assoc Method → List Bytes → List BoundQuerySetMethod → Bool
unfolding validate_method resolve_query_set_method
validate_bindings defs seen [] = true
validate_bindings defs seen (binding ∷ rest) =
    valid_resolved (resolve_query_set_method defs binding.method)
    && not (is_member binding.method.name seen)
    && validate_bindings defs (binding.method.name ∷ seen) rest

pub validate_method_keys : Assoc Method → List Bytes → List MethodKey → Bool
unfolding validate_method resolve_query_set_method
validate_method_keys defs seen [] = true
validate_method_keys defs seen (method ∷ rest) =
    let key = method_key method.owner_class method.name in
    valid_resolved (resolve_query_set_method defs method)
    && not (is_member key seen)
    && validate_method_keys defs (key ∷ seen) rest

pub validate_managers : Assoc Method → List Bytes → List Manager → Bool
unfolding validate_range validate_methods validate_bindings
validate_managers defs seen [] = true
validate_managers defs seen (manager ∷ rest) =
    (not (is_empty manager.name)
      && not (is_empty manager.owner_class)
      && is_some manager.source_range)
    && not (is_member manager.name seen)
    && validate_range manager.source_range
    && not (holds manager.query_set_class [])
    && validate_methods [] manager.methods
    && (length manager.query_set_methods == 0 || is_some manager.query_set_class)
    && validate_bindings defs [] manager.query_set_methods
    && validate_managers defs (manager.name ∷ seen) rest

abbrev pub is_transform_kind : Bytes → Bool
is_transform_kind kind = bytes_eq kind (codes "transform") || bytes_eq kind (codes "key_transform")

abbrev pub validate_lookup_path : Snapshot → LookupPath → Bool
validate_lookup_path snapshot path =
    length path.transforms == length path.kinds
    && leb_ℤ (pos (length path.transforms)) snapshot.lookup_transform_max_depth
    && every is_transform_kind path.kinds

abbrev pub is_cardinality : Bytes → Bool
is_cardinality text =
    bytes_eq text (codes "many-to-one")
    || bytes_eq text (codes "one-to-many")
    || bytes_eq text (codes "one-to-one")
    || bytes_eq text (codes "many-to-many")

abbrev pub valid_cardinality : Option Bytes → Bool
valid_cardinality none = true
valid_cardinality (some text) = is_cardinality text

abbrev pub valid_relation : Field → Bool
valid_relation field =
    if field.is_relation
    then (holds field.relation_direction (codes "forward")
        || holds field.relation_direction (codes "reverse"))
      && valid_cardinality field.relation_cardinality
    else not (
        is_some field.related_model
        || is_some field.relation_direction
        || is_some field.relation_cardinality)

unfoldable pub validate_field : Snapshot → Bytes × Field → Bool
unfolding validate_range
validate_field snapshot (field_name, field) =
    (not (is_empty field_name)
      && bytes_eq field.name field_name
      && not (is_empty field.type)
      && not (is_empty field.internal_type)
      && not (is_empty field.source_model))
    && validate_range field.source_range
    && leb_ℤ (pos (length field.lookup_paths)) snapshot.lookup_path_max_count
    && every (validate_lookup_path snapshot) field.lookup_paths
    && valid_relation field

abbrev pub validate_parent : Parent → Bool
validate_parent parent =
    (not (is_empty parent.canonical_label)
      && not (is_empty parent.class_path)
      && is_some parent.source_range)
    && validate_range parent.source_range

abbrev pub validate_database_index : DatabaseIndex → Bool
validate_database_index index =
    (not (is_empty index.name) && is_some index.source_range) && validate_range index.source_range

abbrev pub validate_constraint : Constraint → Bool
validate_constraint constraint =
    (not (is_empty constraint.name)
      && not (is_empty constraint.type)
      && is_some constraint.source_range)
    && validate_range constraint.source_range

abbrev pub manager_names : List Manager → List Bytes
manager_names [] = []
manager_names (manager ∷ managers) = manager.name ∷ manager_names managers

-- `model.FilePath != model.SourceRange.FilePath || model.LineNumber != model.SourceRange.Start.Line`
abbrev pub consistent_source : Model → Option SourceRange → Bool
consistent_source model none = false
consistent_source model (some range) =
    bytes_eq model.file_path range.file_path && eq_ℤ model.line_number range.start.line

unfoldable pub validate_model : Bytes → Bytes → Model → Snapshot → Assoc Method → Bool
unfolding validate_range validate_managers validate_field validate_method_keys
validate_model app_key model_name model snapshot defs =
    let names = manager_names model.managers in
    (not (is_empty model_name) && bytes_eq model.canonical_label (app_key ++ (46 ∷ model_name)))
    && (not (is_empty model.module_path)
        && not (is_empty model.qualname)
        && not (is_empty model.file_path)
        && not (leb_ℤ model.line_number (pos 0)))
    && validate_range model.source_range
    && consistent_source model model.source_range
    && validate_managers defs [] model.managers
    && is_member model.default_manager names
    && every (λ (name : Bytes). is_member name names) model.custom_managers
    && every (validate_field snapshot) model.fields
    && every validate_parent model.parents
    && (not (is_empty model.base_manager.name) && not (is_empty model.base_manager.owner_class))
    && validate_method_keys defs [] model.query_set_methods
    && every validate_database_index model.indexes
    && every validate_constraint model.constraints
