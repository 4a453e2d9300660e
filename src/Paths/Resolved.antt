-- ===== src/Paths/Resolved.antt =====
-- `ResolvePathSegment` and `ValidatePath` of path.go agree.
use pogo.Prelude.{
  ◌≡◌, ◌∙◌, inl, inr, true, false, List, [], ◌∷◌, none, some, arith, length, Bytes, Option-cases,
}
use pogo.Schema.Graph.{Graph}
use pogo.Paths.{
  PathMode, PathSegment, ResolvedPathSegment, ResolverState, suffix_field, consume_path_segment,
}
use pogo.Paths.Complete.{start_state}
use pogo.Paths.Validate.{
  PathIssue, has_segments, validate_loop, validate_path, resolve_loop, resolve_path_segment,
}
use pogo.Paths.Offered.{validate_loop-step, validate_loop-validate_path}

resolve_loop-validate_loop :
    (graph : Graph) (mode : PathMode) (state : ResolverState) (segment : PathSegment)
    (rest : List PathSegment) (resolved : ResolvedPathSegment)
    → resolve_loop graph mode state (segment ∷ rest) (length rest) ≡ some resolved
    → validate_loop graph mode state (segment ∷ rest) ≡ none
unfolding resolve_loop validate_loop
resolve_loop-validate_loop graph mode state segment [] resolved h =
    elim (Option-cases (consume_path_segment graph mode state segment false)) [
      | inl failed ↦ absurd (ground arith)
      | inr ((next, last), consumed) ↦
          validate_loop-step graph mode state next last segment [] consumed
    ]
resolve_loop-validate_loop graph mode state segment (s ∷ rest) resolved h =
    elim (Option-cases (consume_path_segment graph mode state segment true)) [
      | inl failed ↦ absurd (ground arith)
      | inr ((next, last), consumed) ↦
          validate_loop-step graph mode state next last segment (s ∷ rest) consumed
          ∙ resolve_loop-validate_loop graph mode next s rest resolved (ground arith)
    ]

-- A path whose last segment can be resolved has no issue, whatever the annotations are.
pub resolve_path_segment-validate_path :
    (graph : Graph) (label : Bytes) (mode : PathMode) (segment : PathSegment)
    (rest : List PathSegment) (annotations : List Bytes) (resolved : ResolvedPathSegment)
    → resolve_path_segment graph label mode (segment ∷ rest) (length rest) ≡ some resolved
    → validate_path graph label mode (segment ∷ rest) annotations ≡ none
unfolding resolve_path_segment
resolve_path_segment-validate_path graph label mode segment rest annotations resolved h =
    validate_loop-validate_path graph label mode (segment ∷ rest) annotations
      (resolve_loop-validate_loop graph mode (start_state label) segment rest resolved h)

-- Where a walk along the segments fails: at a segment that cannot be consumed in the state that the
-- ones before it have led to.
pub data FailsAt (graph : Graph) (mode : PathMode)
    : ResolverState → List PathSegment → PathIssue → Type 0 where
  fails_here :
      {state : ResolverState} {segment : PathSegment} {rest : List PathSegment} {issue : PathIssue}
      → consume_path_segment graph mode state segment (has_segments rest) ≡ none
      → (issue.segment ≡ segment) × (issue.model ≡ state.model) × (issue.field ≡ suffix_field state)
      → FailsAt graph mode state (segment ∷ rest) issue
  fails_later :
      {state next : ResolverState} {segment : PathSegment} {rest : List PathSegment}
      {issue : PathIssue} (resolved : ResolvedPathSegment)
      → consume_path_segment graph mode state segment (has_segments rest) ≡ some (next, resolved)
      → FailsAt graph mode next rest issue
      → FailsAt graph mode state (segment ∷ rest) issue

validate_loop_here :
    (graph : Graph) (mode : PathMode) (state : ResolverState) (segment : PathSegment)
    (rest : List PathSegment) (issue : PathIssue)
    → consume_path_segment graph mode state segment (has_segments rest) ≡ none
    → validate_loop graph mode state (segment ∷ rest) ≡ some issue
    → (issue.segment ≡ segment) × (issue.model ≡ state.model) × (issue.field ≡ suffix_field state)
unfolding validate_loop
validate_loop_here graph mode state segment rest issue failed h =
    (ground arith, ground arith, ground arith)

validate_loop-FailsAt :
    (graph : Graph) (mode : PathMode) (state : ResolverState) (segments : List PathSegment)
    (issue : PathIssue)
    → validate_loop graph mode state segments ≡ some issue
    → FailsAt graph mode state segments issue
unfolding validate_loop
validate_loop-FailsAt graph mode state [] issue h = absurd (cc)
validate_loop-FailsAt graph mode state (segment ∷ rest) issue h =
    elim (Option-cases (consume_path_segment graph mode state segment (has_segments rest))) [
      | inl failed ↦
          fails_here failed (validate_loop_here graph mode state segment rest issue failed h)
      | inr ((next, resolved), consumed) ↦
          let onward = validate_loop-step graph mode state next resolved segment rest consumed in
          fails_later resolved consumed (validate_loop-FailsAt graph mode next rest issue (cc))
    ]

-- An issue is real: the segment that it names is the first that cannot be consumed, in the state
-- that the segments before it have led to, whose model and field it reports.
pub validate_path-FailsAt :
    (graph : Graph) (label : Bytes) (mode : PathMode) (segments : List PathSegment)
    (annotations : List Bytes) (issue : PathIssue)
    → validate_path graph label mode segments annotations ≡ some issue
    → FailsAt graph mode (start_state label) segments issue
unfolding validate_path
validate_path-FailsAt graph label mode segments annotations issue h =
    validate_loop-FailsAt graph mode (start_state label) segments issue (ground arith)
