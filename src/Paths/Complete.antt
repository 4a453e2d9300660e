-- ===== src/Paths/Complete.antt =====
-- internal/analysis/path.go: `CompletePath`, the candidates for the segment at the cursor.
use pogo.Prelude.{
  ℕ, Bool, true, false, not, ◌&&◌, ◌||◌, List, [], ◌∷◌, ◌++◌, Option, none, some, if◌then◌else◌,
  Bytes, codes, bytes_eq, get_elem?, take, ℤ, pos, negsuc, leb_ℤ, eq_ℤ,
}
use pogo.Schema.{LookupPath, FieldRef, FieldAccess, bytes_less, sort_by}
use pogo.Schema.Graph.{Graph, query_fields, visited_relations}
use pogo.Paths.{
  PathMode, path_prefetch_related, PathSegment, PathCandidateKind, candidate_field,
  candidate_transform, candidate_lookup, ResolverState, is_empty, relation_context, is_lookup_mode,
  is_fields_mode, contains, star, relation_lookup, behind, suffix_field, consume_path_segment,
}

pub record PathCandidate : Type 0 where
  pub name : Bytes
  pub kind : PathCandidateKind
  pub field : FieldRef
  pub rank : ℤ

abbrev pub field_candidate : ℤ → FieldAccess → PathCandidate
field_candidate rank access = record {
  name = access.name;
  kind = candidate_field;
  field = access.field;
  rank = rank;
}

abbrev holds : Option Bytes → Bytes → Bool
holds none wanted = false
holds (some text) wanted = bytes_eq text wanted

abbrev pub relation_rank : PathMode → FieldRef → ℤ
relation_rank path_prefetch_related ref =
    if holds ref.field.relation_direction (codes "reverse")
      || holds ref.field.relation_cardinality (codes "many-to-many")
      || holds ref.field.relation_cardinality (codes "one-to-many")
    then negsuc 0
    else pos 0
relation_rank _ ref = pos 0

abbrev pub map_accesses : (FieldAccess → PathCandidate) → List FieldAccess → List PathCandidate
map_accesses f [] = []
map_accesses f (a ∷ l) = f a ∷ map_accesses f l

-- The lookups that a field may end with and that have not been seen.
unfoldable pub fresh_lookups : List Bytes → Bool → List Bytes → List Bytes
fresh_lookups [] is_relation seen = []
fresh_lookups (name ∷ rest) is_relation seen =
    let without = fresh_lookups rest is_relation seen in
    let with_name = name ∷ fresh_lookups rest is_relation (name ∷ seen) in
    if (is_relation && not (relation_lookup name)) || contains seen name then without else with_name

unfoldable pub lookup_candidates : FieldRef → List Bytes → List PathCandidate
lookup_candidates ref [] = []
lookup_candidates ref (name ∷ names) =
    record { name = name; kind = candidate_lookup; field = ref; rank = pos 2 }
    ∷ lookup_candidates ref names

-- The visit of `fieldSuffixCandidates`, with the set `seen`.
unfoldable pub suffix_candidates_loop :
    FieldRef → List LookupPath → List Bytes → Bool → List Bytes → List PathCandidate
unfolding behind fresh_lookups lookup_candidates
suffix_candidates_loop ref [] prefix look seen = []
suffix_candidates_loop ref (path ∷ rest) prefix look seen = elim (behind prefix path.transforms) [
  | none ↦ suffix_candidates_loop ref rest prefix look seen
  | some behind_prefix ↦ elim behind_prefix [
    | [] ↦
        let fresh = if look then fresh_lookups path.lookups ref.field.is_relation seen else [] in
        lookup_candidates ref fresh ++ suffix_candidates_loop ref rest prefix look (fresh ++ seen)
    | name ∷ _ ↦
        let candidate : PathCandidate = record {
          name = name;
          kind = candidate_transform;
          field = ref;
          rank = pos 1;
        } in
        if bytes_eq name star || contains seen name
        then suffix_candidates_loop ref rest prefix look seen
        else candidate ∷ suffix_candidates_loop ref rest prefix look (name ∷ seen)
  ]
]

unfoldable pub field_suffix_candidates :
    Option FieldRef → List Bytes → PathMode → List PathCandidate
unfolding suffix_candidates_loop
field_suffix_candidates none prefix mode = []
field_suffix_candidates (some ref) prefix mode =
    if is_fields_mode mode
    then []
    else suffix_candidates_loop ref ref.field.lookup_paths prefix (is_lookup_mode mode) []

-- The closure `add`: no empty name, and the first candidate of a name.
unfoldable pub add_all : List PathCandidate → List Bytes → List PathCandidate
add_all [] seen = []
add_all (c ∷ cs) seen =
    let skipped = add_all cs seen in
    let added = c ∷ add_all cs (c.name ∷ seen) in
    if is_empty c.name || contains seen c.name then skipped else added

unfoldable pub candidates_for_state : Graph → PathMode → ResolverState → List PathCandidate
unfolding add_all field_suffix_candidates
candidates_for_state graph mode state = elim (relation_context mode) [
  | some context ↦
      add_all
        (map_accesses (λ a. field_candidate (relation_rank mode a.field) a)
          (visited_relations graph state.model context))
        []
  | none ↦
      add_all
        (map_accesses (field_candidate (pos 0))
            (if is_empty state.model then [] else query_fields graph state.model)
          ++ field_suffix_candidates (suffix_field state) state.transforms mode)
        []
]

-- The segments in front of the cursor, each of which has more behind it.
unfoldable pub walk : Graph → PathMode → ResolverState → List PathSegment → Option ResolverState
unfolding consume_path_segment
walk graph mode state [] = some state
walk graph mode state (segment ∷ segments) =
    elim (consume_path_segment graph mode state segment true) [
      | none ↦ none
      | some (next, resolved) ↦ walk graph mode next segments
    ]

abbrev pub has_prefix : Bytes → Bytes → Bool
has_prefix text [] = true
has_prefix [] (p ∷ prefix) = false
has_prefix (b ∷ text) (p ∷ prefix) = bytes_eq (b ∷ []) (p ∷ []) && has_prefix text prefix

abbrev pub with_prefix : Bytes → List PathCandidate → List PathCandidate
with_prefix prefix [] = []
with_prefix prefix (c ∷ cs) =
    let rest = with_prefix prefix cs in if has_prefix c.name prefix then c ∷ rest else rest

pub candidate_less : PathCandidate → PathCandidate → Bool
candidate_less left right =
    if eq_ℤ left.rank right.rank
    then bytes_less left.name right.name
    else not (leb_ℤ right.rank left.rank)

abbrev pub start_state : Bytes → ResolverState
start_state label = record { model = label; field = none; relation_field = none; transforms = [] }

unfoldable pub complete_path : Graph → Bytes → PathMode → List PathSegment → ℕ → List PathCandidate
unfolding walk candidates_for_state
complete_path graph label mode segments active = elim (get_elem? segments active) [
  | none ↦ []
  | some segment ↦ elim (walk graph mode (start_state label) (take active segments)) [
    | none ↦ []
    | some state ↦
        sort_by candidate_less (with_prefix segment.text (candidates_for_state graph mode state))
  ]
]
