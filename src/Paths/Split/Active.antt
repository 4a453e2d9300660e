-- ===== src/Paths/Split/Active.antt =====
-- The active segment of a path, and the path that the segments come from.
use pogo.Prelude.{
  ℕ, zero, suc, ◌+◌, ◌-◌, ◌≤◌, ◌<◌, ◌≡◌, refl, ap, ◌∙◌, ◌⊎◌, inl, inr, Bool, true, false, ◌&&◌,
  ◌||◌, List, [], ◌∷◌, ◌++◌, some, arith, leb, ◌==◌, length, length-append, slice, get_elem?, Bytes,
  Bool-cases,
}
use pogo.Paths.{PathSegment}
use pogo.Paths.Split.Pieces.{slice_next, slice_empty}
use pogo.Paths.Split.{underscore, Split, segment_at, end_segment, pass_separator, split_loop}

-- A double underscore of the source has its second byte at the offset.
abbrev pub EndsSeparator : Bytes → ℕ → Type 0
EndsSeparator source offset = slice (offset - 1) (offset + 1) source ≡ underscore ∷ underscore ∷ []

-- The segment holds the offset, or begins behind the second byte of a separator at the offset.
abbrev pub HoldsCursor : Bytes → ℕ → Bool → PathSegment → Type 0
HoldsCursor source offset on_separator segment =
    (segment.text ≡ slice segment.range.start segment.range.end source)
    × (((segment.range.start ≤ offset) × (offset ≤ segment.range.end))
        ⊎ ((on_separator ≡ true)
            × (offset + 1 ≡ segment.range.start)
            × EndsSeparator source offset))

-- What the loop knows of the active segment when it starts the segment at `start`.
pub data Progress (source : Bytes) (offset : ℕ) (s : Split) : Type 0 where
  ahead : s.start ≤ offset → Progress source offset s
  next :
      s.active ≡ some (length s.segments)
      → s.on_separator ≡ true
      → offset + 1 ≡ s.start
      → EndsSeparator source offset
      → Progress source offset s
  done :
      (k : ℕ) (segment : PathSegment)
      → s.active ≡ some k
      → get_elem? s.segments k ≡ some segment
      → HoldsCursor source offset s.on_separator segment
      → offset < s.start
      → Progress source offset s

get_elem?-append_last :
    {A : Type 0} (l : List A) (a : A) → get_elem? (l ++ a ∷ []) (length l) ≡ some a
get_elem?-append_last [] a = refl
get_elem?-append_last (x ∷ l) a = get_elem?-append_last l a

get_elem?-append_kept :
    {A : Type 0} (l m : List A) (k : ℕ) (a : A)
    → get_elem? l k ≡ some a
    → get_elem? (l ++ m) k ≡ some a
get_elem?-append_kept [] m k a h = absurd (cc)
get_elem?-append_kept (x ∷ l) m zero a h = h
get_elem?-append_kept (x ∷ l) m (suc k) a h = get_elem?-append_kept l m k a h

-- The active segment stands among the segments.
abbrev pub IsActive : Bytes → ℕ → Split → Type 0
IsActive source offset s =
    (k : ℕ) × (segment : PathSegment) × (s.active ≡ some k)
    × (get_elem? s.segments k ≡ some segment)
    × HoldsCursor source offset s.on_separator segment

end_segment-IsActive :
    (source : Bytes) (offset index : ℕ) (s : Split)
    → Progress source offset s
    → s.start ≤ index
    → offset ≤ index
    → IsActive source offset (end_segment source offset index s)
end_segment-IsActive source offset index s (ahead begun) low high =
    let inside : (leb s.start offset && leb offset index) ≡ true = ground (arith, begun, high) in
    (
      length s.segments,
      segment_at source s.start index,
      rw inside refl,
      get_elem?-append_last s.segments (segment_at source s.start index),
      (refl, inl (begun, high)),
    )
end_segment-IsActive source offset index s (next active on behind pair) low high =
    let outside : (leb s.start offset && leb offset index) ≡ false = ground (arith, behind) in
    (
      length s.segments,
      segment_at source s.start index,
      rw outside active,
      get_elem?-append_last s.segments (segment_at source s.start index),
      (refl, inr (on, behind, pair)),
    )
end_segment-IsActive source offset index s (done k segment active there holds past) low high =
    let outside : (leb s.start offset && leb offset index) ≡ false = ground (arith, past) in
    (
      k,
      segment,
      rw outside active,
      get_elem?-append_kept s.segments (segment_at source s.start index ∷ []) k segment there,
      holds,
    )

weaken_on : (on more again : Bool) → on ≡ true → (on || more || again) ≡ true
weaken_on on more again h = ground (arith, h)

HoldsCursor-weaken :
    (source : Bytes) (offset : ℕ) (on more again : Bool) (segment : PathSegment)
    → HoldsCursor source offset on segment
    → HoldsCursor source offset (on || more || again) segment
HoldsCursor-weaken source offset on more again segment (text, inl inside) = (text, inl inside)
HoldsCursor-weaken source offset on more again segment (text, inr (o, behind, pair)) =
    (text, inr (weaken_on on more again o, behind, pair))

pass_separator-Progress :
    (source : Bytes) (offset index : ℕ) (s : Split)
    → Progress source offset s
    → s.start ≤ index
    → slice index (index + 2) source ≡ underscore ∷ underscore ∷ []
    → Progress source offset (pass_separator source offset index s)
pass_separator-Progress source offset index s progress low pair =
    let new = pass_separator source offset index s in
    let grown : length new.segments ≡ length s.segments + 1 =
      length-append s.segments (segment_at source s.start index ∷ []) in
    elim (Bool-cases (offset == index + 1)) [
      | inl second ↦
          let before : offset - 1 ≡ index = ground (arith, second) in
          let behind : offset + 1 ≡ index + 2 = ground (arith, second) in
          next (rw (second, grown) refl) (ground (arith, second)) (ground (arith, second))
            (rw (before, behind) pair)
      | inr apart ↦ elim (Bool-cases (leb offset index)) [
        | inl before ↦
            let (k, segment, active, there, holds) =
              end_segment-IsActive source offset index s progress low (ground (arith, before)) in
            done k segment (rw apart active) there
              (HoldsCursor-weaken source offset s.on_separator (offset == index)
                (offset == index + 1) segment holds)
              (ground (arith, before))
        | inr behind ↦ elim progress [
          | ahead begun ↦ ahead (ground (arith, behind, apart))
          | next active on at _ ↦ absurd (ground (arith, behind, at, low))
          | done k segment active there holds past ↦ absurd (ground (arith, behind, past, low))
        ]
      ]
    ]

both_underscores :
    (a b : ℕ) → (a == underscore && b == underscore) ≡ true → (a ≡ underscore) × (b ≡ underscore)
both_underscores a b h = ground arith

-- Two bytes that the loop has in hand stand in the source at the index.
slice_two :
    (source : Bytes) (index end a b : ℕ) (rest : Bytes)
    → a ∷ b ∷ rest ≡ slice index end source
    → (slice index (index + 2) source ≡ a ∷ b ∷ [])
      × (b ∷ rest ≡ slice (index + 1) end source)
      × (rest ≡ slice (index + 2) end source)
slice_two source index end a b rest h =
    let (one, behind) = slice_next source index index end a (b ∷ rest) (omega arith) h in
    let (two, behind') = slice_next source index (index + 1) end b rest (omega arith) behind in
    let e : index + 1 + 1 ≡ index + 2 = omega arith in
    (
      rw (← e)
          (two ∙ ap (λ t. t ++ b ∷ []) (one ∙ ap (λ t. t ++ a ∷ []) (slice_empty source index))),
      behind,
      rw (← e) behind',
    )

pub split_loop-IsActive :
    (source : Bytes) (offset : ℕ) (s : Split) (index end : ℕ) (rest : Bytes)
    → Progress source offset s
    → s.start ≤ index
    → offset ≤ index + length rest
    → rest ≡ slice index end source
    → IsActive source offset (split_loop source offset s index rest)
unfolding split_loop
split_loop-IsActive source offset s index end [] progress low high h =
    end_segment-IsActive source offset index s progress low (omega (arith, high))
split_loop-IsActive source offset s index end (a ∷ []) progress low high h =
    end_segment-IsActive source offset (index + 1) s progress (omega (arith, low))
      (omega (arith, high))
split_loop-IsActive source offset s index end (a ∷ b ∷ rest) progress low high h =
    let (pair, next_one, next_two) = slice_two source index end a b rest h in
    elim (Bool-cases (a == underscore && b == underscore)) [
      | inl sep ↦
          let (is_a, is_b) = both_underscores a b sep in
          let both : slice index (index + 2) source ≡ underscore ∷ underscore ∷ [] =
            pair ∙ (rw (is_a, is_b) refl) in
          rw sep (
            split_loop-IsActive source offset (pass_separator source offset index s) (index + 2) end
              rest (pass_separator-Progress source offset index s progress low both) (omega arith)
              (omega (arith, high)) next_two)
      | inr other ↦ rw other (
          split_loop-IsActive source offset s (index + 1) end (b ∷ rest) progress
            (omega (arith, low)) (omega (arith, high)) next_one)
    ]
