-- ===== src/Schema/Index.antt =====
-- internal/schema/graph.go: the second loop of `buildModelIndex`, which enters every field of a model
-- under its names, and the sorting behind it.

pub mod Relations
pub mod Agreement
mod Names
pub mod Owners
use pogo.Prelude.{
  Bool, true, false, ◌&&◌, ◌||◌, List, [], ◌∷◌, Option, none, some, if◌then◌else◌, is_some, not,
  Bytes, codes, bytes_eq, Assoc, map,
}
use pogo.Schema.{
  Field, FieldRef, FieldAccess, FieldAccessKind, declared, attname_access, reverse, AccessTable,
  add_access, add_relation, access_less, sort_by,
}

-- The tables of `modelIndex` while the loop runs; a relation's list is made of its map at the end.
pub record Tables : Type 0 where
  pub query : AccessTable
  pub instance_table : AccessTable
  pub query_relations : Assoc FieldAccess
  pub select_relations : Assoc FieldAccess
  pub prefetch_relations : Assoc FieldAccess

abbrev pub no_table : AccessTable
no_table = record { by_name = []; accesses = [] }

abbrev pub no_tables : Tables
no_tables = record {
  query = no_table;
  instance_table = no_table;
  query_relations = [];
  select_relations = [];
  prefetch_relations = [];
}

infixl 5 ◌>>=◌
abbrev pub ◌>>=◌ {ℓ κ} : {X : Type ℓ} {Y : Type κ} → Option X → (X → Option Y) → Option Y
none >>= next = none
some x >>= next = next x

-- `text != nil && *text == wanted`
abbrev pub holds : Option Bytes → Bytes → Bool
holds none wanted = false
holds (some text) wanted = bytes_eq text wanted

-- The text, if there is one that is not empty.
abbrev pub nonempty_or : Option Bytes → Bytes → Bytes
nonempty_or none fallback = fallback
nonempty_or (some []) fallback = fallback
nonempty_or (some (b ∷ text)) fallback = b ∷ text

abbrev pub is_reverse : Field → Bool
is_reverse field = holds field.relation_direction (codes "reverse")

pub add_relation_when :
    Bool → Assoc FieldAccess → Bytes → FieldAccessKind → FieldRef → Option (Assoc FieldAccess)
unfolding add_relation
add_relation_when on relations name kind ref =
    if on then add_relation relations name kind ref else some relations

-- Every error ends the loop.
pub with_relations :
    AccessTable
    → AccessTable
    → Option (Assoc FieldAccess)
    → Option (Assoc FieldAccess)
    → Option (Assoc FieldAccess)
    → Option Tables
with_relations query instance_table (some query_relations) (some select_relations)
      (some prefetch_relations) =
    some (record {
      query = query;
      instance_table = instance_table;
      query_relations = query_relations;
      select_relations = select_relations;
      prefetch_relations = prefetch_relations;
    })
with_relations query instance_table _ _ _ = none

pub index_reverse : Tables → FieldRef → Option Tables
unfolding add_access add_relation_when with_relations
index_reverse t ref =
    let field = ref.field in
    let query_name = nonempty_or field.query_name field.name in
    let instance_name = nonempty_or field.accessor_name field.name in
    let selectable =
      field.is_relation
      && holds field.relation_cardinality (codes "one-to-one")
      && is_some field.related_model in
    with_relations (add_access t.query query_name reverse ref)
      (add_access t.instance_table instance_name reverse ref)
      (add_relation_when field.is_relation t.query_relations query_name reverse ref)
      (add_relation_when selectable t.select_relations query_name reverse ref)
      (add_relation_when field.is_relation t.prefetch_relations instance_name reverse ref)

-- The three names of a declared field in a table: its own, `pk`, and its attname.
pub add_declared : AccessTable → FieldRef → AccessTable
unfolding add_access
add_declared table ref =
    let field = ref.field in
    let named = add_access table field.name declared ref in
    let keyed =
      if field.effective_primary_key && not (bytes_eq field.name (codes "pk"))
      then add_access named (codes "pk") declared ref
      else named in
    let attname = nonempty_or field.attname field.name in
    if bytes_eq attname field.name then keyed else add_access keyed attname attname_access ref

-- A declared relation is found by its attname too.
pub add_declared_relation : Assoc FieldAccess → FieldRef → Option (Assoc FieldAccess)
unfolding add_relation_when
add_declared_relation relations ref =
    let field = ref.field in
    let attname = nonempty_or field.attname field.name in
    add_relation_when field.is_relation relations field.name declared ref >>= λ named.
    add_relation_when (field.is_relation && not (bytes_eq attname field.name)) named attname
      attname_access ref

pub index_declared : Tables → FieldRef → Option Tables
unfolding add_declared add_declared_relation add_relation_when with_relations
index_declared t ref =
    let field = ref.field in
    let selectable =
      field.is_relation
      && is_some field.related_model
      && (holds field.relation_cardinality (codes "many-to-one")
          || holds field.relation_cardinality (codes "one-to-one")) in
    with_relations (add_declared t.query ref) (add_declared t.instance_table ref)
      (add_declared_relation t.query_relations ref)
      (add_relation_when selectable t.select_relations field.name declared ref)
      (add_relation_when field.is_relation t.prefetch_relations field.name declared ref)

pub index_fields : Tables → List FieldRef → Option Tables
unfolding index_reverse index_declared
index_fields t [] = some t
index_fields t (ref ∷ refs) = do
  next ← if is_reverse ref.field then index_reverse t ref else index_declared t ref
  index_fields next refs

pub record RelationIndex : Type 0 where
  pub by_name : Assoc FieldAccess
  pub ordered : List FieldAccess

-- The part of `modelIndex` that the paths read.
pub record ModelIndex : Type 0 where
  pub query : AccessTable
  pub instance_table : AccessTable
  pub query_relations : RelationIndex
  pub select_relations : RelationIndex
  pub prefetch_relations : RelationIndex

abbrev pub values : Assoc FieldAccess → List FieldAccess
values [] = []
values ((name, access) ∷ m) = access ∷ values m

abbrev pub relation_index : Assoc FieldAccess → RelationIndex
relation_index relations = record {
  by_name = relations;
  ordered = sort_by access_less (values relations);
}

abbrev pub sorted_table : AccessTable → AccessTable
sorted_table t = record { by_name = t.by_name; accesses = sort_by access_less t.accesses }

abbrev pub model_index : Tables → ModelIndex
model_index t = record {
  query = sorted_table t.query;
  instance_table = sorted_table t.instance_table;
  query_relations = relation_index t.query_relations;
  select_relations = relation_index t.select_relations;
  prefetch_relations = relation_index t.prefetch_relations;
}

-- The fields come in the order of their names, as `sortedFieldNames` gives them.
unfoldable pub build_index : List FieldRef → Option ModelIndex
unfolding index_fields sort_by
build_index refs = do t ← index_fields no_tables refs; some (model_index t)
