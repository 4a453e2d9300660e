-- ===== src/Paths/Split.antt =====
-- internal/analysis/path.go: `splitPath`, and `diagnosticPathSegments` of diagnostic.go: a field path
-- in the source, split at the double underscores.
pub mod Pieces
pub mod Active
pub mod Cursor
mod Samples
use pogo.Prelude.{
  ℕ, ◌+◌, ◌-◌, Bool, true, false, ◌&&◌, ◌||◌, List, [], ◌∷◌, ◌++◌, Option, none, some, leb, ltb,
  ◌==◌, if◌then◌else◌, length, slice, Bytes, is_some,
}
use pogo.Store.{ByteRange}
use pogo.Paths.{PathSegment}

abbrev pub underscore : ℕ
underscore = 95

-- The variables of the loop; an `active` of `none` is -1.
pub record Split : Type 0 where
  pub segments : List PathSegment
  pub start : ℕ
  pub active : Option ℕ
  pub on_separator : Bool

abbrev pub segment_at : Bytes → ℕ → ℕ → PathSegment
segment_at source start index = record {
  text = slice start index source;
  range = record { start = start; end = index };
}

-- The segment from `start` up to the index is done.
abbrev pub end_segment : Bytes → ℕ → ℕ → Split → Split
end_segment source offset index s = record s {
  segments = s.segments ++ segment_at source s.start index ∷ [];
  active = if leb s.start offset && leb offset index then some (length s.segments) else s.active;
}

-- A separator stands at the index, and `index++` passes its second byte.
abbrev pub pass_separator : Bytes → ℕ → ℕ → Split → Split
pass_separator source offset index s =
    let ended = end_segment source offset index s in
    record ended {
      start = index + 2;
      active = if offset == index + 1 then some (length s.segments + 1) else ended.active;
      on_separator = s.on_separator || offset == index || offset == index + 1;
    }

-- The loop from the index on, over the bytes of the path that are left.
unfoldable pub split_loop : Bytes → ℕ → Split → ℕ → Bytes → Split
split_loop source offset s index [] = end_segment source offset index s
split_loop source offset s index (a ∷ []) = end_segment source offset (index + 1) s
split_loop source offset s index (a ∷ b ∷ rest) =
    let parted = split_loop source offset (pass_separator source offset index s) (index + 2) rest in
    let onward = split_loop source offset s (index + 1) (b ∷ rest) in
    if a == underscore && b == underscore then parted else onward

-- A cursor behind the last segment would get an empty one.
abbrev pub with_last : ℕ → List PathSegment → Option ℕ → List PathSegment
with_last offset segments none = segments
with_last offset segments (some active) =
    if active == length segments
    then segments ++ record { text = []; range = record { start = offset; end = offset } } ∷ []
    else segments

pub record SplitPath : Type 0 where
  pub segments : List PathSegment
  pub active : ℕ
  pub on_separator : Bool

abbrev pub split_result : ℕ → Split → Option SplitPath
split_result offset s = elim s.active [
  | none ↦ none
  | some active ↦ some (record {
    segments = with_last offset s.segments (some active);
    active = active;
    on_separator = s.on_separator;
  })
]

unfoldable pub split_path : Bytes → ByteRange → ℕ → Option SplitPath
unfolding split_loop
split_path source path offset =
    if ltb offset path.start || ltb path.end offset
    then none
    else split_result offset (
        split_loop source offset
          (record { segments = []; start = path.start; active = none; on_separator = false })
          path.start (slice path.start path.end source))

-- The range of an empty segment is that of the separator next to it.
abbrev pub empty_range : ByteRange → ℕ → ByteRange
empty_range path index =
    if ltb index path.end
    then record { start = index; end = index + 2 }
    else if leb 2 (index - path.start)
    then record { start = index - 2; end = index }
    else record { start = index; end = index }

abbrev pub diagnostic_segment : Bytes → ByteRange → ℕ → ℕ → PathSegment
diagnostic_segment source path start index =
    if start == index
    then record { text = []; range = empty_range path index }
    else segment_at source start index

unfoldable pub diagnostic_loop : Bytes → ByteRange → ℕ → ℕ → Bytes → List PathSegment
diagnostic_loop source path start index [] = diagnostic_segment source path start index ∷ []
diagnostic_loop source path start index (a ∷ []) =
    diagnostic_segment source path start (index + 1) ∷ []
diagnostic_loop source path start index (a ∷ b ∷ rest) =
    let parted = diagnostic_loop source path (index + 2) (index + 2) rest in
    let onward = diagnostic_loop source path start (index + 1) (b ∷ rest) in
    if a == underscore && b == underscore
    then diagnostic_segment source path start index ∷ parted
    else onward

-- There is a segment at least.
unfoldable pub diagnostic_path_segments : Bytes → ByteRange → List PathSegment
unfolding diagnostic_loop
diagnostic_path_segments source path =
    diagnostic_loop source path path.start path.start (slice path.start path.end source)
