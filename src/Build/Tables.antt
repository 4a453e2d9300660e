-- ===== src/Build/Tables.antt =====
-- internal/schema/graph.go: `buildModelIndex`. The fields under their names, and the methods of the
-- query sets and managers; the tables for access are those of Schema/Index.antt.
use pogo.Prelude.{
  Bool, true, false, List, [], ◌∷◌, ◌++◌, Option, none, some, if◌then◌else◌, Bytes, bytes_eq, Assoc,
  lookup, insert,
}
use pogo.Schema.{Field, FieldRef, same_field, bytes_less, sort_by}
use pogo.Schema.Index.{◌>>=◌, is_reverse}
use pogo.Build.{Method, MethodKey, BoundQuerySetMethod, Manager}
use pogo.Build.Valid.{resolve_query_set_method}

abbrev pub key_less : Bytes × Field → Bytes × Field → Bool
key_less (left, _) (right, _) = bytes_less left right

abbrev pub field_refs : Assoc Field → List FieldRef
field_refs [] = []
field_refs ((name, field) ∷ fields) = record { key = name; field = field } ∷ field_refs fields

-- The references in the order of sortedFieldNames.
unfoldable pub sorted_refs : Assoc Field → List FieldRef
unfolding sort_by
sorted_refs fields = field_refs (sort_by key_less fields)

pub record FieldTables : Type 0 where
  pub fields : Assoc FieldRef
  pub attnames : Assoc FieldRef
  pub queries : Assoc FieldRef
  pub accessors : Assoc FieldRef

-- A name may be entered again only for the same field.
abbrev pub enter_field : Assoc FieldRef → Bytes → FieldRef → Option (Assoc FieldRef)
enter_field table name ref = elim (lookup name table) [
  | none ↦ some (insert name ref table)
  | some existing ↦ if same_field existing ref then some (insert name ref table) else none
]

abbrev pub enter_named : Assoc FieldRef → Option Bytes → FieldRef → Option (Assoc FieldRef)
enter_named table none ref = some table
enter_named table (some []) ref = some table
enter_named table (some (b ∷ name)) ref = enter_field table (b ∷ name) ref

-- An attname may not be entered again.
abbrev pub enter_attname : Assoc FieldRef → Option Bytes → FieldRef → Option (Assoc FieldRef)
enter_attname table none ref = some table
enter_attname table (some []) ref = some table
enter_attname table (some (b ∷ name)) ref = elim (lookup (b ∷ name) table) [
  | none ↦ some (insert (b ∷ name) ref table)
  | some existing ↦ none
]

abbrev pub enter_reverse : Assoc FieldRef → Option Bytes → FieldRef → Option (Assoc FieldRef)
enter_reverse table name ref =
    if is_reverse ref.field then enter_named table name ref else some table

-- The first loop over the names of the fields.
unfoldable pub enter_fields : FieldTables → List FieldRef → Option FieldTables
enter_fields t [] = some t
enter_fields t (ref ∷ refs) = do
  declared ← enter_field t.queries ref.key ref
  attnames ← enter_attname t.attnames ref.field.attname ref
  queries ← enter_reverse declared ref.field.query_name ref
  accessors ← enter_reverse t.accessors ref.field.accessor_name ref
  enter_fields
      (record {
        fields = insert ref.key ref t.fields;
        attnames = attnames;
        queries = queries;
        accessors = accessors;
      })
      refs

pub record QuerySetRef : Type 0 where
  pub class_path : Bytes
  pub methods : Assoc Method
  pub method_order : List Method

-- The query set of a manager is the entry of the model for the class.
pub record ManagerRef : Type 0 where
  pub manager : Manager
  pub methods : Assoc Method
  pub method_order : List Method
  pub query_set : Option Bytes
  pub query_set_methods : Assoc Method
  pub query_set_method_order : List Method

abbrev pub ensure_query_set : Assoc QuerySetRef → Bytes → QuerySetRef
ensure_query_set sets name = elim (lookup name sets) [
  | some existing ↦ existing
  | none ↦ record { class_path = name; methods = []; method_order = [] }
]

abbrev pub add_method : QuerySetRef → Method → QuerySetRef
add_method set method = record set {
  methods = insert method.name method set.methods;
  method_order = set.method_order ++ (method ∷ []);
}

abbrev pub with_query_set : Assoc QuerySetRef → QuerySetRef → Assoc QuerySetRef
with_query_set sets set = insert set.class_path set sets

-- The loop over `model.QuerySetMethods`.
unfoldable pub enter_query_set_methods :
    Assoc Method → Assoc QuerySetRef → List MethodKey → Option (Assoc QuerySetRef)
unfolding resolve_query_set_method
enter_query_set_methods defs sets [] = some sets
enter_query_set_methods defs sets (key ∷ keys) = do
  method ← resolve_query_set_method defs key
  enter_query_set_methods defs
      (with_query_set sets (add_method (ensure_query_set sets method.owner_class) method)) keys

abbrev pub method_less : Method → Method → Bool
method_less left right =
    if bytes_eq left.name right.name
    then bytes_less left.owner_class right.owner_class
    else bytes_less left.name right.name

abbrev pub methods_by_name : Assoc Method → List Method → Assoc Method
methods_by_name methods [] = methods
methods_by_name methods (method ∷ rest) = methods_by_name (insert method.name method methods) rest

-- What a binding adds to the query set of its manager: nothing, if the name is there.
abbrev pub bound_method : Assoc Method → QuerySetRef → MethodKey → Option (QuerySetRef × Method)
bound_method defs set key = elim (lookup key.name set.methods) [
  | some method ↦ some (set, method)
  | none ↦ elim (resolve_query_set_method defs key) [
    | none ↦ none
    | some method ↦ some (
      record set {
        methods = insert key.name method set.methods;
        method_order = set.method_order ++ (method ∷ []);
      },
      method,
    )
  ]
]

abbrev pub offer : Bool → Bytes → Method → ManagerRef → ManagerRef
offer false name method ref = ref
offer true name method ref = record ref {
  query_set_methods = insert name method ref.query_set_methods;
  query_set_method_order = ref.query_set_method_order ++ (method ∷ []);
}

-- The loop over the bindings of a manager.
pub bind_methods :
    Assoc Method
    → QuerySetRef
    → ManagerRef
    → List BoundQuerySetMethod
    → Option (QuerySetRef × ManagerRef)
unfolding resolve_query_set_method
bind_methods defs set ref [] = some (set, ref)
bind_methods defs set ref (binding ∷ rest) = do
  bound ← bound_method defs set binding.method
  bind_methods defs bound.0 (offer binding.available_on_manager binding.method.name bound.1 ref)
      rest

abbrev pub sorted_manager : ManagerRef → ManagerRef
sorted_manager ref = record ref {
  method_order = sort_by method_less ref.method_order;
  query_set_method_order = sort_by method_less ref.query_set_method_order;
}

abbrev pub manager_ref : Manager → ManagerRef
manager_ref manager = record {
  manager = manager;
  methods = methods_by_name [] manager.methods;
  method_order = manager.methods;
  query_set = manager.query_set_class;
  query_set_methods = [];
  query_set_method_order = [];
}

-- A manager's own part: its reference and the query sets behind it. Without a query set a binding
-- is a nil pointer, which validateModel has ruled out.
pub enter_manager :
    Assoc Method → Assoc QuerySetRef → Manager → Option (Assoc QuerySetRef × ManagerRef)
unfolding bind_methods sort_by
enter_manager defs sets manager = elim manager.query_set_class [
  | none ↦ elim manager.query_set_methods [
    | [] ↦ some (sets, sorted_manager (manager_ref manager))
    | binding ∷ bindings ↦ none
  ]
  | some name ↦
      elim (bind_methods defs (ensure_query_set sets name) (manager_ref manager)
        manager.query_set_methods) [
          | none ↦ none
          | some (set, ref) ↦ some (insert name set sets, sorted_manager ref)
        ]
]

pub record ManagerTables : Type 0 where
  pub query_sets : Assoc QuerySetRef
  pub managers : Assoc ManagerRef
  pub manager_order : List ManagerRef

unfoldable pub enter_managers : Assoc Method → ManagerTables → List Manager → Option ManagerTables
unfolding enter_manager
enter_managers defs t [] = some t
enter_managers defs t (manager ∷ rest) = do
  entered ← enter_manager defs t.query_sets manager
  enter_managers defs
      (record {
        query_sets = entered.0;
        managers = insert manager.name entered.1 t.managers;
        manager_order = t.manager_order ++ (entered.1 ∷ []);
      })
      rest
