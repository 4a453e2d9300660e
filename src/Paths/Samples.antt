-- ===== src/Paths/Samples.antt =====
-- Paths over a small graph: a book with a title and an author, who has a name.
use pogo.Prelude.{
  ◌≡◌, refl, true, false, List, [], ◌∷◌, ◌++◌, Option, none, some, Bytes, codes, bytes_eq, lookup,
  insert, All, take,
}
use pogo.Store.{ByteRange}
use pogo.Schema.{Field, FieldRef}
use pogo.Schema.Index.{ModelIndex, build_index, no_table}
use pogo.Schema.Index.Agreement.{IsIndexed, build_index-IsIndexed}
use pogo.Schema.Index.Owners.{OwnName, build_index-OwnName}
use pogo.Schema.Graph.{Graph, AllIndexed, AllIndexed-nil, AllIndexed-insert, query_access}
use pogo.Paths.{path_lookup, path_projection, PathSegment, candidate_field, ResolvedPathSegment}
use pogo.Paths.Complete.{complete_path, start_state}
use pogo.Paths.Validate.{PathIssue, unknown_path_segment, validate_path, resolve_path_segment}
use pogo.Paths.Offered.{complete_path-validate_path}
use pogo.Paths.Resolved.{FailsAt, resolve_path_segment-validate_path, validate_path-FailsAt}

abbrev field_with : Bytes → Option Bytes → Field
field_with name related = record {
  type = codes "Field";
  is_relation = elim related [ none ↦ false | some label ↦ true ];
  related_model = related;
  runtime_related_model = none;
  lookups = [];
  unsupported_lookups = [];
  help_text = [];
  name = name;
  attname = none;
  db_column = none;
  db_type = none;
  internal_type = [];
  null = false;
  db_index = false;
  unique = false;
  primary_key = false;
  effective_primary_key = false;
  concrete = true;
  auto_created = false;
  relation_cardinality = elim related [ none ↦ none | some label ↦ some (codes "many-to-one") ];
  relation_direction = elim related [ none ↦ none | some label ↦ some (codes "forward") ];
  accessor_name = none;
  query_name = none;
  source_model = [];
  source_model_abstract = false;
  source_range = none;
  parent_link = false;
  transforms = [];
  lookup_paths =
      record { transforms = []; kinds = []; lookups = codes "exact" ∷ codes "icontains" ∷ [] }
      ∷ record { transforms = codes "lower" ∷ []; kinds = []; lookups = codes "exact" ∷ [] }
      ∷ [];
  lookup_paths_truncated = false;
}

abbrev ref_to : Bytes → Option Bytes → FieldRef
ref_to name related = record { key = name; field = field_with name related }

abbrev book_refs : List FieldRef
book_refs = ref_to (codes "author") (some (codes "a")) ∷ ref_to (codes "title") none ∷ []

abbrev author_refs : List FieldRef
author_refs = ref_to (codes "name") none ∷ []

abbrev no_index : ModelIndex
no_index = record {
  query = no_table;
  instance_table = no_table;
  query_relations = record { by_name = []; ordered = [] };
  select_relations = record { by_name = []; ordered = [] };
  prefetch_relations = record { by_name = []; ordered = [] };
}

abbrev index_of : List FieldRef → ModelIndex
index_of refs = elim (build_index refs) [ none ↦ no_index | some index ↦ index ]

book_index_built : build_index book_refs ≡ some (index_of book_refs)
unfolding build_index bytes_eq lookup
book_index_built = refl

author_index_built : build_index author_refs ≡ some (index_of author_refs)
unfolding build_index bytes_eq lookup
author_index_built = refl

abbrev library : Graph
library = insert (codes "b") (index_of book_refs) (insert (codes "a") (index_of author_refs) [])

build_index-IsIndexed_example : IsIndexed (index_of book_refs)
build_index-IsIndexed_example =
    build_index-IsIndexed book_refs (index_of book_refs) book_index_built

build_index-OwnName_example : All (OwnName (index_of book_refs).query) book_refs
build_index-OwnName_example = build_index-OwnName book_refs (index_of book_refs) book_index_built

library-AllIndexed : AllIndexed library
library-AllIndexed =
    AllIndexed-insert (insert (codes "a") (index_of author_refs) []) (codes "b")
      (index_of book_refs)
      (AllIndexed-insert [] (codes "a") (index_of author_refs) AllIndexed-nil
        (build_index-IsIndexed author_refs (index_of author_refs) author_index_built))
      (build_index-IsIndexed book_refs (index_of book_refs) book_index_built)

abbrev here : ByteRange
here = record { start = 0; end = 0 }

abbrev segment : Bytes → PathSegment
segment text = record { text = text; range = here }

-- author__na
abbrev author_na : List PathSegment
author_na = segment (codes "author") ∷ segment (codes "na") ∷ []

complete_path-validate_path_example :
    All
      (λ c.
        validate_path library
          (codes "b")
          path_lookup
          (take 1 author_na ++ record { text = c.name; range = here } ∷ [])
          []
        ≡ none)
      (complete_path library (codes "b") path_lookup author_na 1)
complete_path-validate_path_example =
    complete_path-validate_path library (codes "b") path_lookup author_na 1 [] here
      library-AllIndexed

-- author__name
abbrev author_name : List PathSegment
author_name = segment (codes "author") ∷ segment (codes "name") ∷ []

abbrev author_name_resolved : ResolvedPathSegment
author_name_resolved = record {
  segment = segment (codes "name");
  kind = candidate_field;
  field = ref_to (codes "name") none;
}

author_name_resolves :
    resolve_path_segment library (codes "b") path_lookup author_name 1 ≡ some author_name_resolved
unfolding resolve_path_segment query_access lookup insert bytes_eq build_index
author_name_resolves = refl

resolve_path_segment-validate_path_example :
    validate_path library (codes "b") path_lookup author_name [] ≡ none
resolve_path_segment-validate_path_example =
    resolve_path_segment-validate_path library (codes "b") path_lookup (segment (codes "author"))
      (segment (codes "name") ∷ []) [] author_name_resolved author_name_resolves

abbrev author_na_issue : PathIssue
author_na_issue = record {
  code = unknown_path_segment;
  segment = segment (codes "na");
  model = codes "a";
  field = some (ref_to (codes "author") (some (codes "a")));
}

author_na_fails :
    validate_path library (codes "b") path_projection author_na [] ≡ some author_na_issue
unfolding validate_path query_access lookup insert bytes_eq build_index
author_na_fails = refl

validate_path-FailsAt_example :
    FailsAt library path_projection (start_state (codes "b")) author_na author_na_issue
validate_path-FailsAt_example =
    validate_path-FailsAt library (codes "b") path_projection author_na [] author_na_issue
      author_na_fails
