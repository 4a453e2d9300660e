-- ===== src/Schema.antt =====
-- internal/schema/graph.go: the tables of a model's fields, by the names under which queries and
-- instances reach them. The fields of a model come from internal/schema/dto.go.
pub mod Access
pub mod Index
pub mod Graph
use pogo.Prelude.{
  ℕ, Bool, true, false, not, ◌&&◌, ◌||◌, List, [], ◌∷◌, Option, none, some, ltb, leb, ◌==◌,
  if◌then◌else◌, Bytes, codes, bytes_eq, Assoc, lookup, insert, map, ℤ,
}

pub record LookupPath : Type 0 where
  pub transforms : List Bytes
  pub kinds : List Bytes
  pub lookups : List Bytes

-- internal/schema/dto.go
pub record SourcePosition : Type 0 where
  pub line : ℤ
  pub column : ℤ

pub record SourceRange : Type 0 where
  pub file_path : Bytes
  pub source_digest : Bytes
  pub start : SourcePosition
  pub end : SourcePosition

pub record Field : Type 0 where
  pub type : Bytes
  pub is_relation : Bool
  pub related_model : Option Bytes
  pub runtime_related_model : Option Bytes
  pub lookups : List Bytes
  pub unsupported_lookups : List Bytes
  pub help_text : Bytes
  pub name : Bytes
  pub attname : Option Bytes
  pub db_column : Option Bytes
  pub db_type : Option Bytes
  pub internal_type : Bytes
  pub null : Bool
  pub db_index : Bool
  pub unique : Bool
  pub primary_key : Bool
  pub effective_primary_key : Bool
  pub concrete : Bool
  pub auto_created : Bool
  pub relation_cardinality : Option Bytes
  pub relation_direction : Option Bytes
  pub accessor_name : Option Bytes
  pub query_name : Option Bytes
  pub source_model : Bytes
  pub source_model_abstract : Bool
  pub source_range : Option SourceRange
  pub parent_link : Bool
  pub transforms : List Bytes
  pub lookup_paths : List LookupPath
  pub lookup_paths_truncated : Bool

-- A pointer to `FieldRef`, told from others by the key of the field in the model's map. `Build` sets
-- `related` to the model that `RelatedModel` names, or fails.
pub record FieldRef : Type 0 where
  pub key : Bytes
  pub field : Field

pub data FieldAccessKind : Type 0 where
  declared attname_access reverse : FieldAccessKind

abbrev pub kind_order : FieldAccessKind → ℕ
kind_order declared = 0
kind_order attname_access = 1
kind_order reverse = 2

pub record FieldAccess : Type 0 where
  pub name : Bytes
  pub kind : FieldAccessKind
  pub field : FieldRef

-- `queryByName` and `queryAccess`, or the two of instances
pub record AccessTable : Type 0 where
  pub by_name : Assoc FieldAccess
  pub accesses : List FieldAccess

-- `name == "" || name == "+"`
abbrev pub is_unnamed : Bytes → Bool
is_unnamed name = bytes_eq name [] || bytes_eq name (43 ∷ [])

pub replace_access : List FieldAccess → FieldAccess → List FieldAccess
replace_access [] replacement = replacement ∷ []
replace_access (access ∷ rest) replacement =
    let replaced = replace_access rest replacement in
    if bytes_eq access.name replacement.name then replacement ∷ rest else access ∷ replaced

pub put_access : AccessTable → FieldAccess → AccessTable
unfolding replace_access
put_access table access = record {
  by_name = insert access.name access table.by_name;
  accesses = replace_access table.accesses access;
}

pub add_access : AccessTable → Bytes → FieldAccessKind → FieldRef → AccessTable
unfolding put_access
add_access table name kind field =
    let access : FieldAccess = record { name = name; kind = kind; field = field } in
    if is_unnamed name then table else elim (lookup name table.by_name) [
      | none ↦ put_access table access
      | some existing ↦
          if leb (kind_order existing.kind) (kind_order kind)
          then table
          else put_access table access
    ]

abbrev pub same_field : FieldRef → FieldRef → Bool
same_field left right = bytes_eq left.key right.key

-- `none` is the error of a duplicate relation name.
pub add_relation :
    Assoc FieldAccess → Bytes → FieldAccessKind → FieldRef → Option (Assoc FieldAccess)
add_relation relations name kind field =
    let access : FieldAccess = record { name = name; kind = kind; field = field } in
    if is_unnamed name then some relations else elim (lookup name relations) [
      | none ↦ some (insert name access relations)
      | some existing ↦
          if not (same_field existing.field field)
          then none
          else if leb (kind_order existing.kind) (kind_order kind)
          then some relations
          else some (insert name access relations)
    ]

-- The order of strings.
pub bytes_less : Bytes → Bytes → Bool
bytes_less [] [] = false
bytes_less [] (y ∷ ys) = true
bytes_less (x ∷ xs) [] = false
bytes_less (x ∷ xs) (y ∷ ys) = ltb x y || (x == y && bytes_less xs ys)

pub access_less : FieldAccess → FieldAccess → Bool
unfolding bytes_less
access_less left right =
    if kind_order left.kind == kind_order right.kind
    then bytes_less left.name right.name
    else ltb (kind_order left.kind) (kind_order right.kind)

-- Go's sort with a function that tells whether the left element comes first.
pub sort_into {ℓ} : {A : Type ℓ} → (A → A → Bool) → A → List A → List A
sort_into less a [] = a ∷ []
sort_into less a (b ∷ rest) =
    let later = sort_into less a rest in if less b a then b ∷ later else a ∷ b ∷ rest

unfoldable pub sort_by {ℓ} : {A : Type ℓ} → (A → A → Bool) → List A → List A
unfolding sort_into
sort_by less [] = []
sort_by less (a ∷ rest) = sort_into less a (sort_by less rest)
