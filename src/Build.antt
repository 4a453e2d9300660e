-- ===== src/Build.antt =====
-- internal/schema/dto.go: the snapshot that the worker sends. A Go map is an association list, in
-- whatever order the loops over it take.
pub mod Valid
pub mod Tables
pub mod Graph
pub mod Linked
pub mod Views
mod Samples
use pogo.Prelude.{ℕ, ℤ, Bool, List, Option, Bytes, Assoc}
use pogo.Schema.{SourceRange, Field}

pub record MethodKey : Type 0 where
  pub name : Bytes
  pub owner_class : Bytes

pub record Method : Type 0 where
  pub name : Bytes
  pub owner_class : Bytes
  pub signature : Option Bytes
  pub docstring : Option Bytes
  pub source_range : Option SourceRange
  pub chainable : Bool
  pub assumed_chainable : Bool

pub record BoundQuerySetMethod : Type 0 where
  pub method : MethodKey
  pub available_on_manager : Bool

pub record Manager : Type 0 where
  pub name : Bytes
  pub owner_class : Bytes
  pub query_set_class : Option Bytes
  pub default : Bool
  pub is_local : Bool
  pub auto_created : Bool
  pub source_range : Option SourceRange
  pub methods : List Method
  pub query_set_methods : List BoundQuerySetMethod

pub record BaseManager : Type 0 where
  pub name : Bytes
  pub owner_class : Bytes

pub record Parent : Type 0 where
  pub canonical_label : Bytes
  pub class_path : Bytes
  pub is_abstract : Bool
  pub proxy : Bool
  pub parent_link : Option Bytes
  pub source_range : Option SourceRange

pub record IndexField : Type 0 where
  pub name : Bytes
  pub order : Bytes

pub record DatabaseIndex : Type 0 where
  pub name : Bytes
  pub fields : List IndexField
  pub expressions : List Bytes
  pub condition : Option Bytes
  pub includes : List Bytes
  pub opclasses : List Bytes
  pub db_tablespace : Option Bytes
  pub source_range : Option SourceRange

pub record Constraint : Type 0 where
  pub name : Bytes
  pub type : Bytes
  pub fields : List Bytes
  pub expressions : List Bytes
  pub condition : Option Bytes
  pub includes : List Bytes
  pub opclasses : List Bytes
  pub deferrable : Option Bytes
  pub nulls_distinct : Option Bool
  pub violation_error_code : Option Bytes
  pub violation_error_message : Option Bytes
  pub source_range : Option SourceRange

pub record Model : Type 0 where
  pub canonical_label : Bytes
  pub module_path : Bytes
  pub qualname : Bytes
  pub file_path : Bytes
  pub line_number : ℤ
  pub source_range : Option SourceRange
  pub docstring : Option Bytes
  pub is_abstract : Bool
  pub proxy : Bool
  pub managed : Bool
  pub swapped : Bool
  pub has_abstract_parent : Bool
  pub multi_table_child : Bool
  pub parents : List Parent
  pub default_manager : Bytes
  pub base_manager : BaseManager
  pub custom_managers : List Bytes
  pub managers : List Manager
  pub query_set_methods : List MethodKey
  pub indexes : List DatabaseIndex
  pub constraints : List Constraint
  pub fields : Assoc Field

pub record App : Type 0 where
  pub label : Bytes
  pub import_name : Bytes
  pub root_path : Bytes
  pub models : Assoc Model

pub record Snapshot : Type 0 where
  pub schema_version : ℤ
  pub position_encoding : Bytes
  pub lookup_transform_max_depth : ℤ
  pub lookup_path_max_count : ℤ
  pub schema_sources : List Bytes
  pub schema_sources_complete : Bool
  pub query_set_method_defs : List Method
  pub apps : Assoc App
