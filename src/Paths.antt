-- ===== src/Paths.antt =====
-- internal/analysis/path.go: field paths such as `author__name__icontains`, walked over the graph of
-- models, segment by segment.
pub mod Complete
pub mod Validate
pub mod Suffixes
pub mod Ends
pub mod Offered
pub mod Resolved
pub mod Split
mod Samples
use pogo.Prelude.{
  ℕ, Bool, true, false, not, ◌&&◌, ◌||◌, List, [], ◌∷◌, ◌++◌, Option, none, some, if◌then◌else◌,
  Bytes, codes, bytes_eq, length,
}
use pogo.Store.{ByteRange}
use pogo.Schema.{LookupPath, FieldRef, FieldAccess}
use pogo.Schema.Graph.{
  Graph, RelationContext, relation_select_related, relation_prefetch_related, query_access,
  relation, related_model,
}

pub data PathMode : Type 0 where
  path_lookup path_projection path_fields path_select_related path_prefetch_related : PathMode

pub record PathSegment : Type 0 where
  pub text : Bytes
  pub range : ByteRange

pub data PathCandidateKind : Type 0 where
  candidate_field candidate_transform candidate_lookup : PathCandidateKind

pub record ResolvedPathSegment : Type 0 where
  pub segment : PathSegment
  pub kind : PathCandidateKind
  pub field : FieldRef

-- An empty `model` is none.
pub record ResolverState : Type 0 where
  pub model : Bytes
  pub field : Option FieldRef
  pub relation_field : Option FieldRef
  pub transforms : List Bytes

abbrev pub is_empty : Bytes → Bool
is_empty [] = true
is_empty (b ∷ text) = false

abbrev pub relation_context : PathMode → Option RelationContext
relation_context path_select_related = some relation_select_related
relation_context path_prefetch_related = some relation_prefetch_related
relation_context _ = none

abbrev pub is_lookup_mode : PathMode → Bool
is_lookup_mode path_lookup = true
is_lookup_mode _ = false

abbrev pub is_fields_mode : PathMode → Bool
is_fields_mode path_fields = true
is_fields_mode _ = false

abbrev pub contains : List Bytes → Bytes → Bool
contains [] name = false
contains (x ∷ xs) name = bytes_eq x name || contains xs name

abbrev pub star : Bytes
star = 42 ∷ []

abbrev pub relation_lookup : Bytes → Bool
relation_lookup name =
    contains
      (codes "exact"
        ∷ codes "gt"
        ∷ codes "gte"
        ∷ codes "in"
        ∷ codes "isnull"
        ∷ codes "lt"
        ∷ codes "lte"
        ∷ [])
      name

-- The transforms behind the prefix, if the path starts with it.
pub behind : List Bytes → List Bytes → Option (List Bytes)
behind [] transforms = some transforms
behind (p ∷ prefix) [] = none
behind (p ∷ prefix) (t ∷ transforms) = if bytes_eq t p then behind prefix transforms else none

-- A lookup that the segment may be, on a relation or not.
pub has_lookup : List Bytes → Bytes → Bool → Bool
has_lookup [] segment is_relation = false
has_lookup (candidate ∷ rest) segment is_relation =
    (bytes_eq candidate segment && (not is_relation || relation_lookup candidate))
    || has_lookup rest segment is_relation

pub data Suffix : Type 0 where
  no_suffix transform_suffix lookup_suffix wildcard_suffix : Suffix

-- The visit of `consumeFieldSuffix`, with its variable `wildcard`. `look` is whether a lookup may end
-- the path here.
pub suffix_loop : List LookupPath → List Bytes → Bytes → Bool → Bool → Bool → Suffix
unfolding behind has_lookup
suffix_loop [] prefix segment look is_relation wildcard =
    if wildcard then wildcard_suffix else no_suffix
suffix_loop (path ∷ rest) prefix segment look is_relation wildcard =
    elim (behind prefix path.transforms) [
      | none ↦ suffix_loop rest prefix segment look is_relation wildcard
      | some behind_prefix ↦ elim behind_prefix [
        | [] ↦
            if look && has_lookup path.lookups segment is_relation
            then lookup_suffix
            else suffix_loop rest prefix segment look is_relation wildcard
        | next ∷ _ ↦
            if bytes_eq next segment
            then transform_suffix
            else suffix_loop rest prefix segment look is_relation (wildcard || bytes_eq next star)
      ]
    ]

pub suffix_result : Suffix → List Bytes → Bytes → Option (PathCandidateKind × List Bytes)
suffix_result no_suffix prefix segment = none
suffix_result transform_suffix prefix segment = some (candidate_transform, prefix ++ segment ∷ [])
suffix_result lookup_suffix prefix segment = some (candidate_lookup, prefix)
suffix_result wildcard_suffix prefix segment = some (candidate_transform, prefix ++ star ∷ [])

pub consume_field_suffix :
    Option FieldRef → List Bytes → Bytes → PathMode → Bool → Option (PathCandidateKind × List Bytes)
unfolding suffix_loop suffix_result
consume_field_suffix none prefix segment mode has_more = none
consume_field_suffix (some ref) prefix segment mode has_more =
    if is_fields_mode mode
    then none
    else suffix_result
        (suffix_loop ref.field.lookup_paths prefix segment (is_lookup_mode mode && not has_more)
          ref.field.is_relation false)
        prefix segment

pub state_from_field : FieldAccess → ResolverState
state_from_field access =
    let end_state : ResolverState = record {
      model = [];
      field = some access.field;
      relation_field = none;
      transforms = [];
    } in
    if access.field.field.is_relation
    then elim (related_model access.field) [
      | none ↦ end_state
      | some related ↦ record {
        model = related;
        field = none;
        relation_field = some access.field;
        transforms = [];
      }
    ]
    else end_state

abbrev pub suffix_field : ResolverState → Option FieldRef
suffix_field state = elim state.field [ none ↦ state.relation_field | some ref ↦ some ref ]

abbrev pub Consumed : Type 0
Consumed = Option (ResolverState × ResolvedPathSegment)

pub consume_relation : Option FieldAccess → PathSegment → Bool → Consumed
consume_relation none segment has_more = none
consume_relation (some access) segment has_more =
    let resolved : ResolvedPathSegment = record {
      segment = segment;
      kind = candidate_field;
      field = access.field;
    } in
    elim (related_model access.field) [
      | some related ↦ some (
        record { model = related; field = none; relation_field = none; transforms = [] },
        resolved,
      )
      | none ↦
          if has_more
          then none
          else some (
            record { model = []; field = none; relation_field = none; transforms = [] },
            resolved,
          )
    ]

pub consume_suffix : PathMode → ResolverState → PathSegment → Bool → Option FieldRef → Consumed
unfolding consume_field_suffix
consume_suffix mode state segment has_more none = none
consume_suffix mode state segment has_more (some ref) =
    elim (consume_field_suffix (some ref) state.transforms segment.text mode has_more) [
      | none ↦ none
      | some (kind, transforms) ↦ some (
        record { model = []; field = some ref; relation_field = none; transforms = transforms },
        record { segment = segment; kind = kind; field = ref },
      )
    ]

-- The part behind the relation modes, for what `QueryAccess` has found under a model.
pub consume_field : PathMode → ResolverState → PathSegment → Bool → Option FieldAccess → Consumed
unfolding state_from_field consume_suffix
consume_field mode state segment has_more (some access) = some (
  state_from_field access,
  record { segment = segment; kind = candidate_field; field = access.field },
)
consume_field mode state segment has_more none = elim (is_empty state.model) [
  | true ↦ consume_suffix mode state segment has_more (suffix_field state)
  | false ↦ elim state.relation_field [
    | none ↦ none
    | some ref ↦ consume_suffix mode state segment has_more (suffix_field state)
  ]
]

abbrev pub access_under : Graph → Bytes → Bytes → Option FieldAccess
access_under graph model name = if is_empty model then none else query_access graph model name

pub consume_path_segment : Graph → PathMode → ResolverState → PathSegment → Bool → Consumed
unfolding consume_relation consume_field
consume_path_segment graph mode state segment has_more =
    if is_empty segment.text then none else elim (relation_context mode) [
      | some context ↦
          consume_relation (relation graph state.model segment.text context) segment has_more
      | none ↦
          consume_field mode state segment has_more (access_under graph state.model segment.text)
    ]
