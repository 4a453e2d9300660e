-- ===== src/Build/Samples.antt =====
-- A snapshot of two models, and the graph that is built of it.
use pogo.Prelude.{
  ◌==◌, pos, ◌≡◌, refl, true, false, List, [], ◌∷◌, ◌++◌, Option, none, some, take, All, Bytes,
  codes, Assoc, lookup, insert, bytes_eq,
}
use pogo.Schema.{Field, FieldRef, SourceRange}
use pogo.Paths.{PathSegment, path_lookup}
use pogo.Paths.Complete.{complete_path}
use pogo.Paths.Validate.{validate_path}
use pogo.Build.{Manager, Model, Snapshot}
use pogo.Build.Graph.{Paths, ModelEntry, BuiltGraph}
use pogo.Build.Linked.{
  empty_graph, build, access_graph, has_model, canonical_label_for_class,
  canonical_label_for_source_class, field, model_count,
}
use pogo.Build.Linked.Entries.{IsConsistent, class_of}
use pogo.Build.Linked.Consistent.{build-IsConsistent}
use pogo.Build.Views.{relation_field_for_source, declares, all_fields}
use pogo.Build.Views.Declared.{Agrees, relation_field_for_source-declares}
use pogo.Build.Linked.Closed.{
  build-canonical_label_for_class, build-related_model, build-complete_path,
}

abbrev sample_paths : Paths
sample_paths = record {
  is_abs = λ path. elim path [ [] ↦ false | b ∷ rest ↦ b == 47 ];
  clean = λ path. path;
  resolved_path = λ path. path;
}

abbrev digest : Bytes
digest = codes "0123456789abcdef0123456789abcdef0123456789abcdef0123456789abcdef"

abbrev sample_range : SourceRange
sample_range = record {
  file_path = codes "/m.py";
  source_digest = digest;
  start = record { line = pos 1; column = pos 0 };
  end = record { line = pos 2; column = pos 0 };
}

abbrev sample_field : Bytes → Option Bytes → Field
sample_field name related = record {
  type = codes "Field";
  is_relation = elim related [ none ↦ false | some label ↦ true ];
  related_model = related;
  runtime_related_model = none;
  lookups = [];
  unsupported_lookups = [];
  help_text = [];
  name = name;
  attname = none;
  db_column = none;
  db_type = none;
  internal_type = codes "F";
  null = false;
  db_index = false;
  unique = false;
  primary_key = false;
  effective_primary_key = false;
  concrete = true;
  auto_created = false;
  relation_cardinality = elim related [ none ↦ none | some label ↦ some (codes "many-to-one") ];
  relation_direction = elim related [ none ↦ none | some label ↦ some (codes "forward") ];
  accessor_name = none;
  query_name = none;
  source_model = codes "a.B";
  source_model_abstract = false;
  source_range = some sample_range;
  parent_link = false;
  transforms = [];
  lookup_paths = [];
  lookup_paths_truncated = false;
}

abbrev sample_manager : Manager
sample_manager = record {
  name = codes "objects";
  owner_class = codes "M";
  query_set_class = none;
  default = true;
  is_local = true;
  auto_created = true;
  source_range = some sample_range;
  methods = [];
  query_set_methods = [];
}

abbrev sample_model : Bytes → Assoc Field → Model
sample_model name fields = record {
  canonical_label = codes "a." ++ name;
  module_path = codes "a.models";
  qualname = name;
  file_path = codes "/m.py";
  line_number = pos 1;
  source_range = some sample_range;
  docstring = none;
  is_abstract = false;
  proxy = false;
  managed = true;
  swapped = false;
  has_abstract_parent = false;
  multi_table_child = false;
  parents = [];
  default_manager = codes "objects";
  base_manager = record { name = codes "_base"; owner_class = codes "M" };
  custom_managers = [];
  managers = sample_manager ∷ [];
  query_set_methods = [];
  indexes = [];
  constraints = [];
  fields = fields;
}

abbrev book : Model
book =
    sample_model (codes "B")
      ((codes "author", sample_field (codes "author") (some (codes "a.A"))) ∷ [])

abbrev author : Model
author = sample_model (codes "A") ((codes "name", sample_field (codes "name") none) ∷ [])

abbrev sample_snapshot : Snapshot
sample_snapshot = record {
  schema_version = pos 3;
  position_encoding = codes "utf-8-bytes";
  lookup_transform_max_depth = pos 2;
  lookup_path_max_count = pos 512;
  schema_sources = codes "/m.py" ∷ [];
  schema_sources_complete = true;
  query_set_method_defs = [];
  apps =
      (
        codes "a",
        record {
          label = codes "a";
          import_name = codes "a";
          root_path = codes "/";
          models = (codes "B", book) ∷ (codes "A", author) ∷ [];
        },
      )
      ∷ [];
}

abbrev graph_or : Option BuiltGraph → BuiltGraph
graph_or none = empty_graph
graph_or (some graph) = graph

sample_graph : BuiltGraph
unfolding build
sample_graph = graph_or (build sample_paths sample_snapshot)

sample_graph_built : build sample_paths sample_snapshot ≡ some sample_graph
unfolding build sample_graph bytes_eq lookup insert
sample_graph_built = refl

sample_graph_count : model_count sample_graph ≡ 2
unfolding sample_graph model_count bytes_eq lookup insert
sample_graph_count = refl

abbrev found_entry : Option ModelEntry → ModelEntry → ModelEntry
found_entry none entry = entry
found_entry (some entry) other = entry

abbrev first_entry : Assoc ModelEntry → Option ModelEntry
first_entry [] = none
first_entry ((label, entry) ∷ entries) = some entry

book_found :
    (entry : ModelEntry) × (lookup (codes "a.B") sample_graph.canonical ≡ some entry)
    × (entry.model ≡ book)
unfolding sample_graph lookup bytes_eq insert
book_found = (_, refl, refl)

author_ref : FieldRef
author_ref = record {
  key = codes "author";
  field = sample_field (codes "author") (some (codes "a.A"));
}

author_found : field sample_graph (codes "a.B") (codes "author") ≡ some author_ref
unfolding sample_graph field author_ref lookup bytes_eq insert
author_found = refl

author_related : author_ref.field.related_model ≡ some (codes "a.A")
unfolding author_ref
author_related = refl

build-IsConsistent_example : IsConsistent sample_paths sample_graph
build-IsConsistent_example =
    build-IsConsistent sample_paths sample_snapshot sample_graph sample_graph_built

build-canonical_label_for_class_example :
    (book_found.0.model.canonical_label ≡ codes "a.B")
    × (canonical_label_for_class sample_graph (class_of book_found.0.model) ≡ some (codes "a.B"))
    × (canonical_label_for_source_class sample_paths sample_graph book_found.0.model.file_path
          book_found.0.model.qualname
        ≡ some (codes "a.B"))
build-canonical_label_for_class_example =
    build-canonical_label_for_class sample_paths sample_snapshot sample_graph (codes "a.B")
      book_found.0 sample_graph_built book_found.1

build-related_model_example : has_model sample_graph (codes "a.A") ≡ true
build-related_model_example =
    build-related_model sample_paths sample_snapshot sample_graph (codes "a.B") (codes "author")
      (codes "a.A") author_ref sample_graph_built author_found author_related

abbrev author_segments : List PathSegment
author_segments =
    record { text = codes "author"; range = record { start = 0; end = 6 } }
    ∷ record { text = codes "na"; range = record { start = 8; end = 10 } }
    ∷ []

build-complete_path_example :
    All
      (λ c.
        validate_path
          (access_graph sample_graph.canonical)
          (codes "a.B")
          path_lookup
          (take 1 author_segments
            ++ record { text = c.name; range = record { start = 8; end = 10 } } ∷ [])
          []
        ≡ none)
      (complete_path
        (access_graph sample_graph.canonical)
        (codes "a.B")
        path_lookup
        author_segments
        1)
build-complete_path_example =
    build-complete_path sample_paths sample_snapshot sample_graph (codes "a.B") path_lookup
      author_segments 1 [] (record { start = 8; end = 10 }) sample_graph_built

author_selected :
    relation_field_for_source sample_paths sample_graph
      (codes "/m.py")
      (codes "B")
      (codes "author")
      sample_range.start
      sample_range.end
    ≡ some author_ref
unfolding relation_field_for_source sample_graph author_ref bytes_eq lookup insert
author_selected = refl

relation_field_for_source-declares_example :
    let wanted =
      declares sample_paths
        (codes "/m.py")
        (codes "B")
        (codes "author")
        sample_range.start
        sample_range.end in
    (wanted author_ref ≡ true)
    × (target : Bytes) × All (Agrees wanted target) (all_fields sample_graph.canonical)
relation_field_for_source-declares_example =
    relation_field_for_source-declares sample_paths sample_graph (codes "/m.py") (codes "B")
      (codes "author") sample_range.start sample_range.end author_ref author_selected
