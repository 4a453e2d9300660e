-- ===== src/Paths/Offered.antt =====
-- Every candidate that `CompletePath` offers makes a path that `ValidatePath` accepts.
use pogo.Prelude.{
  ℕ, ◌≡◌, refl, sym, ap, subst, ◌∙◌, inl, inr, Bool, true, false, List, [], ◌∷◌, ◌++◌, none, some,
  arith, Bytes, get_elem?, take, All, Option-cases,
}
use pogo.Store.{ByteRange}
use pogo.Schema.Index.Relations.{All-sort_by}
use pogo.Schema.Graph.{Graph, AllIndexed}
use pogo.Paths.{
  PathMode, PathSegment, ResolvedPathSegment, ResolverState, is_empty, consume_path_segment,
}
use pogo.Paths.Complete.{
  PathCandidate, candidates_for_state, walk, with_prefix, candidate_less, start_state,
  complete_path,
}
use pogo.Paths.Validate.{has_segments, validate_loop, validate_path}
use pogo.Paths.Suffixes.{All-map, All-with_prefix}
use pogo.Paths.Ends.{
  IsState, consume_path_segment-IsState, Ends, segment_of, no_segment, Offer,
  candidates_for_state-Offer,
}

pub consume_path_segment-named :
    (graph : Graph) (mode : PathMode) (state : ResolverState) (segment : PathSegment) (more : Bool)
    (next : ResolverState × ResolvedPathSegment)
    → consume_path_segment graph mode state segment more ≡ some next
    → is_empty segment.text ≡ false
unfolding consume_path_segment
consume_path_segment-named graph mode state segment more next h = ground arith

has_segments-append :
    (segments : List PathSegment) (last : PathSegment) → has_segments (segments ++ last ∷ []) ≡ true
has_segments-append [] last = refl
has_segments-append (s ∷ segments) last = refl

pub validate_loop-step :
    (graph : Graph) (mode : PathMode) (state next : ResolverState) (resolved : ResolvedPathSegment)
    (segment : PathSegment) (rest : List PathSegment)
    → consume_path_segment graph mode state segment (has_segments rest) ≡ some (next, resolved)
    → validate_loop graph mode state (segment ∷ rest) ≡ validate_loop graph mode next rest
unfolding validate_loop
validate_loop-step graph mode state next resolved segment rest h =
    let named =
      consume_path_segment-named graph mode state segment (has_segments rest) (next, resolved) h in
    rw (validate_loop, named, h) refl

-- The segments that lead to a state pass, and leave the state's own kind of record.
walk-validate_loop :
    (graph : Graph) (mode : PathMode) (state final : ResolverState) (segments : List PathSegment)
    (last : PathSegment)
    → IsState state
    → walk graph mode state segments ≡ some final
    → IsState final
      × (validate_loop graph mode state (segments ++ last ∷ [])
          ≡ validate_loop graph mode final (last ∷ []))
unfolding walk
walk-validate_loop graph mode state final [] last one h =
    let e : state ≡ final = cc in
    (subst IsState e one, ap (λ s. validate_loop graph mode s (last ∷ [])) e)
walk-validate_loop graph mode state final (segment ∷ segments) last one h =
    elim (Option-cases (consume_path_segment graph mode state segment true)) [
      | inl failed ↦ absurd (ground arith)
      | inr ((next, resolved), consumed) ↦
          let (is, eq) =
            walk-validate_loop graph mode next final segments last
              (consume_path_segment-IsState graph mode state next segment true resolved consumed)
              (ground arith) in
          let more =
            subst (λ b. consume_path_segment graph mode state segment b ≡ some (next, resolved))
              (sym (has_segments-append segments last)) consumed in
          (
            is,
            validate_loop-step graph mode state next resolved segment (segments ++ last ∷ []) more
                ∙ eq,
          )
    ]

walk-IsState :
    (graph : Graph) (mode : PathMode) (label : Bytes) (final : ResolverState)
    (segments : List PathSegment)
    → walk graph mode (start_state label) segments ≡ some final
    → IsState final
walk-IsState graph mode label final segments h =
    (walk-validate_loop graph mode (start_state label) final segments no_segment (inl refl) h).0

Ends-validate_loop :
    (graph : Graph) (mode : PathMode) (state : ResolverState) (last : PathSegment)
    → Ends graph mode state last
    → validate_loop graph mode state (last ∷ []) ≡ none
unfolding validate_loop
Ends-validate_loop graph mode state last ends =
    elim (Option-cases (consume_path_segment graph mode state last false)) [
      | inl failed ↦ absurd (ground arith)
      | inr ((next, resolved), consumed) ↦
          validate_loop-step graph mode state next resolved last [] consumed
    ]

pub validate_loop-validate_path :
    (graph : Graph) (label : Bytes) (mode : PathMode) (segments : List PathSegment)
    (annotations : List Bytes)
    → validate_loop graph mode (start_state label) segments ≡ none
    → validate_path graph label mode segments annotations ≡ none
unfolding validate_path
validate_loop-validate_path graph label mode segments annotations h = ground (arith, h)

-- Over a graph whose models have built indexes: whatever candidate is offered for the segment at
-- the cursor, the path that ends with it passes the validation, in every mode and whatever the
-- annotations are.
pub complete_path-validate_path :
    (graph : Graph) (label : Bytes) (mode : PathMode) (segments : List PathSegment) (active : ℕ)
    (annotations : List Bytes) (range : ByteRange)
    → AllIndexed graph
    → All
        (λ c.
          validate_path graph label mode
            (take active segments ++ record { text = c.name; range = range } ∷ [])
            annotations
          ≡ none)
        (complete_path graph label mode segments active)
unfolding complete_path
complete_path-validate_path graph label mode segments active annotations range indexed =
    elim (Option-cases (get_elem? segments active)) [
      | inl outside ↦ rw (complete_path, outside) tt
      | inr (segment, there) ↦
          elim (Option-cases (walk graph mode (start_state label) (take active segments))) [
            | inl lost ↦ rw (complete_path, there, lost) tt
            | inr (state, walked) ↦
                let Passes = λ (c : PathCandidate).
                  validate_path graph label mode (take active segments ++ segment_of range c ∷ [])
                    annotations
                  ≡ none in
                let led = λ (c : PathCandidate).
                  walk-validate_loop graph mode (start_state label) state (take active segments)
                    (segment_of range c) (inl refl) walked in
                let offered =
                  candidates_for_state-Offer graph mode state range indexed
                    (walk-IsState graph mode label state (take active segments) walked) in
                rw (complete_path, there, walked)
                  (All-sort_by Passes candidate_less
                    (with_prefix segment.text (candidates_for_state graph mode state))
                    (All-with_prefix Passes segment.text (candidates_for_state graph mode state) (
                      All-map (Offer graph mode state range) Passes
                        (candidates_for_state graph mode state)
                        (λ c offer.
                          validate_loop-validate_path graph label mode
                            (take active segments ++ segment_of range c ∷ []) annotations
                            ((led c).1
                              ∙ Ends-validate_loop graph mode state (segment_of range c) offer.1))
                        offered)))
          ]
    ]
