-- ===== src/Paths/Validate.antt =====
-- internal/analysis/path.go: `ValidatePath`, which reports the first segment that a path cannot have,
-- and `ResolvePathSegment`.
use pogo.Prelude.{
  ℕ, zero, suc, Bool, true, false, not, ◌&&◌, ◌||◌, List, [], ◌∷◌, Option, none, some,
  if◌then◌else◌, is_some, ltb, leb, length, Bytes,
}
use pogo.Schema.{LookupPath, FieldRef, FieldAccess}
use pogo.Schema.Graph.{Graph, query_access, instance_access}
use pogo.Paths.{
  PathMode, path_lookup, path_projection, path_fields, path_select_related, path_prefetch_related,
  PathSegment, ResolvedPathSegment, ResolverState, is_empty, contains, star, suffix_field,
  consume_path_segment,
}
use pogo.Paths.Complete.{start_state}

pub data PathIssueCode : Type 0 where
  unknown_path_segment nonrelation_traversal invalid_lookup invalid_projection : PathIssueCode
  invalid_select_related : PathIssueCode

pub record PathIssue : Type 0 where
  pub code : PathIssueCode
  pub segment : PathSegment
  pub model : Bytes
  pub field : Option FieldRef

abbrev pub max_path_segments : ℕ
max_path_segments = 64

-- A field where a segment must end: the code of its mode.
abbrev pub field_code : PathMode → PathIssueCode
field_code path_lookup = invalid_lookup
field_code path_projection = invalid_projection
field_code path_fields = nonrelation_traversal
field_code _ = unknown_path_segment

pub empty_code : PathMode → Option FieldRef → PathIssueCode
empty_code mode none = unknown_path_segment
empty_code mode (some ref) = field_code mode

abbrev pub is_not_relation : Option FieldAccess → Bool
is_not_relation none = false
is_not_relation (some access) = not access.field.field.is_relation

pub failed_code : Graph → PathMode → ResolverState → Bytes → PathIssueCode
failed_code graph path_select_related state text =
    if is_some (query_access graph state.model text)
    then invalid_select_related
    else unknown_path_segment
failed_code graph path_prefetch_related state text =
    if is_not_relation (query_access graph state.model text)
      || is_not_relation (instance_access graph state.model text)
    then nonrelation_traversal
    else unknown_path_segment
failed_code graph mode state text =
    if is_some state.field then field_code mode else unknown_path_segment

-- A path with a wildcard that stands as deep as the transforms, at the most.
abbrev pub has_wildcard : List LookupPath → List Bytes → Bool
has_wildcard [] transforms = false
has_wildcard (path ∷ rest) transforms =
    (contains path.transforms star && leb (length path.transforms) (length transforms))
    || has_wildcard rest transforms

pub path_metadata_indeterminate : Option FieldRef → List Bytes → Bytes → Bool → Bool
path_metadata_indeterminate none transforms failed has_more = false
path_metadata_indeterminate (some ref) transforms failed has_more =
    ref.field.lookup_paths_truncated
    || (contains ref.field.unsupported_lookups failed && not has_more)
    || (not ref.field.is_relation && has_wildcard ref.field.lookup_paths transforms)

abbrev pub has_segments : List PathSegment → Bool
has_segments [] = false
has_segments (s ∷ segments) = true

pub segment_failure : Graph → PathMode → ResolverState → PathSegment → Bool → Option PathIssue
unfolding path_metadata_indeterminate failed_code
segment_failure graph mode state segment has_more =
    if path_metadata_indeterminate (suffix_field state) state.transforms segment.text has_more
    then none
    else some (record {
      code = failed_code graph mode state segment.text;
      segment = segment;
      model = state.model;
      field = suffix_field state;
    })

unfoldable pub validate_loop :
    Graph → PathMode → ResolverState → List PathSegment → Option PathIssue
unfolding empty_code segment_failure consume_path_segment
validate_loop graph mode state [] = none
validate_loop graph mode state (segment ∷ segments) = elim (is_empty segment.text) [
  | true ↦ some (record {
    code = empty_code mode state.field;
    segment = segment;
    model = state.model;
    field = suffix_field state;
  })
  | false ↦ elim (consume_path_segment graph mode state segment (has_segments segments)) [
    | some (next, resolved) ↦ validate_loop graph mode next segments
    | none ↦ segment_failure graph mode state segment (has_segments segments)
  ]
]

abbrev pub takes_annotations : PathMode → Bool
takes_annotations path_lookup = true
takes_annotations path_projection = true
takes_annotations _ = false

-- isAnnotationAlias
abbrev pub is_annotation_alias : List Bytes → Bytes → Bool
is_annotation_alias annotations name = not (is_empty name) && contains annotations name

abbrev pub first_text : List PathSegment → Bytes
first_text [] = []
first_text (segment ∷ segments) = segment.text

-- `none` is no issue.
unfoldable pub validate_path :
    Graph → Bytes → PathMode → List PathSegment → List Bytes → Option PathIssue
unfolding validate_loop
validate_path graph label mode segments annotations =
    if is_empty label
      || not (has_segments segments)
      || ltb max_path_segments (length segments)
      || (takes_annotations mode && is_annotation_alias annotations (first_text segments))
    then none
    else validate_loop graph mode (start_state label) segments

unfoldable pub resolve_loop :
    Graph → PathMode → ResolverState → List PathSegment → ℕ → Option ResolvedPathSegment
unfolding consume_path_segment
resolve_loop graph mode state [] target = none
resolve_loop graph mode state (segment ∷ segments) target =
    elim (consume_path_segment graph mode state segment (has_segments segments)) [
      | none ↦ none
      | some (next, resolved) ↦ elim target [
        | zero ↦ some resolved
        | suc rest ↦ resolve_loop graph mode next segments rest
      ]
    ]

unfoldable pub resolve_path_segment :
    Graph → Bytes → PathMode → List PathSegment → ℕ → Option ResolvedPathSegment
unfolding resolve_loop
resolve_path_segment graph label mode segments target =
    resolve_loop graph mode (start_state label) segments target
