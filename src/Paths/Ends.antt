-- ===== src/Paths/Ends.antt =====
-- Every candidate that is offered in a state can end a path that has led to that state.
use pogo.Prelude.{
  ◌≡◌, refl, ◌⊎◌, inl, inr, Bool, true, false, List, [], ◌∷◌, Option, none, some, arith,
  if◌then◌else◌, is_some, All, Bool-cases, Option-cases, pos,
}
use pogo.Store.{ByteRange}
use pogo.Schema.{FieldRef, FieldAccess}
use pogo.Schema.Graph.{
  Graph, RelationContext, query_access, relation, query_fields, visited_relations, AllIndexed,
  query_fields-AllIndexed, visited_relations-AllIndexed,
}
use pogo.Paths.{
  PathMode, PathSegment, ResolvedPathSegment, ResolverState, is_empty, relation_context,
  is_lookup_mode, is_fields_mode, suffix_loop, suffix_result, consume_field_suffix, suffix_field,
  consume_suffix, consume_path_segment,
}
use pogo.Paths.Complete.{
  PathCandidate, field_candidate, relation_rank, map_accesses, suffix_candidates_loop,
  field_suffix_candidates, add_all, candidates_for_state,
}
use pogo.Paths.Suffixes.{
  All-append, All-map, All-add_all, is_suffix, Accepts, suffix_candidates_loop-Accepts,
}

-- A state has a model or a field, never both.
abbrev pub IsState : ResolverState → Type 0
IsState state = (state.field ≡ none) ⊎ (state.model ≡ [])

pub consume_path_segment-IsState :
    (graph : Graph) (mode : PathMode) (state next : ResolverState) (segment : PathSegment)
    (has_more : Bool) (resolved : ResolvedPathSegment)
    → consume_path_segment graph mode state segment has_more ≡ some (next, resolved)
    → IsState next
unfolding consume_path_segment
consume_path_segment-IsState graph mode state next segment has_more resolved h = ground arith

-- The segment can end the path.
abbrev pub Ends : Graph → PathMode → ResolverState → PathSegment → Type 0
Ends graph mode state segment = is_some (consume_path_segment graph mode state segment false) ≡ true

relation-Ends :
    (graph : Graph) (mode : PathMode) (state : ResolverState) (segment : PathSegment)
    (context : RelationContext) (a : FieldAccess)
    → relation_context mode ≡ some context
    → relation graph state.model segment.text context ≡ some a
    → is_empty segment.text ≡ false
    → Ends graph mode state segment
unfolding consume_path_segment
relation-Ends graph mode state segment context a rel found named = ground arith

field-Ends :
    (graph : Graph) (mode : PathMode) (state : ResolverState) (segment : PathSegment)
    (a : FieldAccess)
    → relation_context mode ≡ none
    → is_empty state.model ≡ false
    → query_access graph state.model segment.text ≡ some a
    → is_empty segment.text ≡ false
    → Ends graph mode state segment
unfolding consume_path_segment
field-Ends graph mode state segment a plain model found named = ground arith

suffix_consumed :
    (mode : PathMode) (state : ResolverState) (segment : PathSegment) (ref : FieldRef)
    → is_fields_mode mode ≡ false
    → is_suffix (
        suffix_loop ref.field.lookup_paths state.transforms segment.text
          (is_lookup_mode mode)
          ref.field.is_relation
          false)
      ≡ true
    → is_some (consume_suffix mode state segment false (some ref)) ≡ true
unfolding consume_suffix consume_field_suffix suffix_result
suffix_consumed mode state segment ref fields accepts = ground (arith, accepts)

suffix-Ends :
    (graph : Graph) (mode : PathMode) (state : ResolverState) (segment : PathSegment)
    (ref : FieldRef)
    → relation_context mode ≡ none
    → IsState state
    → suffix_field state ≡ some ref
    → is_some (consume_suffix mode state segment false (some ref)) ≡ true
    → is_empty segment.text ≡ false
    → Ends graph mode state segment
unfolding consume_path_segment
suffix-Ends graph mode state segment ref plain one behind_field consumed named = ground arith

abbrev pub no_segment : PathSegment
no_segment = record { text = []; range = record { start = 0; end = 0 } }

abbrev pub segment_of : ByteRange → PathCandidate → PathSegment
segment_of range c = record { text = c.name; range = range }

All-map_accesses :
    (P : PathCandidate → Type 0) (f : FieldAccess → PathCandidate) (l : List FieldAccess)
    → All (λ a. P (f a)) l
    → All P (map_accesses f l)
All-map_accesses P f [] all = tt
All-map_accesses P f (a ∷ l) (pa, all) = (pa, All-map_accesses P f l all)

-- A candidate with a name can end the path.
abbrev NamedEnds : Graph → PathMode → ResolverState → ByteRange → PathCandidate → Type 0
NamedEnds graph mode state range c =
    is_empty c.name ≡ false → Ends graph mode state (segment_of range c)

relations-NamedEnds :
    (graph : Graph) (mode : PathMode) (state : ResolverState) (range : ByteRange)
    (context : RelationContext)
    → AllIndexed graph
    → relation_context mode ≡ some context
    → All (NamedEnds graph mode state range) (
        map_accesses
          (λ a. field_candidate (relation_rank mode a.field) a)
          (visited_relations graph state.model context))
relations-NamedEnds graph mode state range context indexed rel =
    let f = λ (a : FieldAccess). field_candidate (relation_rank mode a.field) a in
    let l = visited_relations graph state.model context in
    All-map_accesses (NamedEnds graph mode state range) f l (
      All-map (λ a. relation graph state.model a.name context ≡ some a)
        (λ a. NamedEnds graph mode state range (f a)) l
        (λ a found named.
          relation-Ends graph mode state (segment_of range (f a)) context a rel found named)
        (visited_relations-AllIndexed graph state.model context indexed))

fields-NamedEnds :
    (graph : Graph) (mode : PathMode) (state : ResolverState) (range : ByteRange)
    → AllIndexed graph
    → relation_context mode ≡ none
    → All (NamedEnds graph mode state range) (
        map_accesses
          (field_candidate (pos 0))
          (if is_empty state.model then [] else query_fields graph state.model))
fields-NamedEnds graph mode state range indexed plain = elim (Bool-cases (is_empty state.model)) [
  | inl empty ↦ rw empty tt
  | inr model ↦
      let l = query_fields graph state.model in
      rw model (
        All-map_accesses (NamedEnds graph mode state range) (field_candidate (pos 0)) l (
          All-map (λ a. query_access graph state.model a.name ≡ some a)
            (λ a. NamedEnds graph mode state range (field_candidate (pos 0) a)) l
            (λ a found named.
              field-Ends graph mode state (segment_of range (field_candidate (pos 0) a)) a plain
                model found named)
            (query_fields-AllIndexed graph state.model indexed)))
]

suffixes-NamedEnds :
    (graph : Graph) (mode : PathMode) (state : ResolverState) (range : ByteRange)
    (ref : Option FieldRef)
    → relation_context mode ≡ none
    → IsState state
    → suffix_field state ≡ ref
    → All (NamedEnds graph mode state range) (field_suffix_candidates ref state.transforms mode)
unfolding field_suffix_candidates
suffixes-NamedEnds graph mode state range none plain one at = tt
suffixes-NamedEnds graph mode state range (some ref) plain one at =
    elim (Bool-cases (is_fields_mode mode)) [
      | inl fields ↦ rw (field_suffix_candidates, fields) tt
      | inr other ↦
          let paths = ref.field.lookup_paths in
          rw (field_suffix_candidates, other)
            (All-map (Accepts ref paths state.transforms (is_lookup_mode mode))
              (NamedEnds graph mode state range)
              (suffix_candidates_loop ref paths state.transforms (is_lookup_mode mode) [])
              (λ c accepts named.
                suffix-Ends graph mode state (segment_of range c) ref plain one at
                  (suffix_consumed mode state (segment_of range c) ref other (accepts false)) named)
              (suffix_candidates_loop-Accepts ref paths state.transforms (is_lookup_mode mode) []))
    ]

-- What is kept of a candidate of a state.
abbrev pub Offer : Graph → PathMode → ResolverState → ByteRange → PathCandidate → Type 0
Offer graph mode state range c =
    (is_empty c.name ≡ false) × Ends graph mode state (segment_of range c)

with_name :
    (graph : Graph) (mode : PathMode) (state : ResolverState) (range : ByteRange)
    (l : List PathCandidate)
    → All (NamedEnds graph mode state range) l
    → All (Offer graph mode state range) (add_all l [])
with_name graph mode state range l all = All-add_all (Offer graph mode state range) l [] (
    All-map (NamedEnds graph mode state range)
      (λ c. is_empty c.name ≡ false → Offer graph mode state range c) l
      (λ c ends named. (named, ends named)) all)

pub candidates_for_state-Offer :
    (graph : Graph) (mode : PathMode) (state : ResolverState) (range : ByteRange)
    → AllIndexed graph
    → IsState state
    → All (Offer graph mode state range) (candidates_for_state graph mode state)
unfolding candidates_for_state
candidates_for_state-Offer graph mode state range indexed one =
    elim (Option-cases (relation_context mode)) [
      | inr (context, rel) ↦
          rw (candidates_for_state, rel)
            (with_name graph mode state range _
              (relations-NamedEnds graph mode state range context indexed rel))
      | inl plain ↦
          rw (candidates_for_state, plain)
            (with_name graph mode state range _ (
              All-append (NamedEnds graph mode state range) _ _
                (fields-NamedEnds graph mode state range indexed plain)
                (suffixes-NamedEnds graph mode state range (suffix_field state) plain one refl)))
    ]
