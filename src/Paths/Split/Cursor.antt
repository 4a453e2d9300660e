-- ===== src/Paths/Split/Cursor.antt =====
-- What splitPath answers for an offset in the path.
use pogo.Prelude.{
  some_injective, ℕ, zero, suc, ◌+◌, ◌-◌, ◌≤◌, ◌<◌, ◌≡◌, refl, sym, ap, ◌∙◌, inl, inr, false, ◌||◌,
  List, [], ◌∷◌, none, some, arith, ltb, ◌==◌, length, drop, slice, get_elem?, Bytes, Bool-cases,
  length-take, length-drop,
}
use pogo.Store.{ByteRange}
use pogo.Paths.{PathSegment}
use pogo.Paths.Split.{
  Split, SplitPath, split_loop, split_result, split_path, diagnostic_path_segments,
}
use pogo.Paths.Split.Pieces.{
  texts, joined, pieces, joined-pieces, split_loop-pieces, diagnostic_loop-pieces, slice_empty,
}
use pogo.Paths.Split.Active.{HoldsCursor, ahead, IsActive, split_loop-IsActive}

get_elem?_bound : {A : Type 0} (l : List A) (k : ℕ) (a : A) → get_elem? l k ≡ some a → k < length l
get_elem?_bound [] k a h = absurd (cc)
get_elem?_bound (x ∷ l) zero a h = omega arith
get_elem?_bound (x ∷ l) (suc k) a h = omega (arith, get_elem?_bound l k a h)

-- An active segment that stands among the segments is no last one to be added.
IsActive-split_result :
    (source : Bytes) (offset : ℕ) (s : Split)
    → IsActive source offset s
    → (result : SplitPath) × (split_result offset s ≡ some result)
      × (result.segments ≡ s.segments)
      × (segment : PathSegment) × (get_elem? result.segments result.active ≡ some segment)
      × HoldsCursor source offset result.on_separator segment
IsActive-split_result source offset s (k, segment, active, there, holds) =
    let inside : (k == length s.segments) ≡ false =
      ground (arith, get_elem?_bound s.segments k segment there) in
    let result : SplitPath = record {
      segments = s.segments;
      active = k;
      on_separator = s.on_separator;
    } in
    (result, rw (active, inside) refl, refl, segment, there, holds)

abbrev start_split : ℕ → Split
start_split start = record { segments = []; start = start; active = none; on_separator = false }

abbrev loop_of : Bytes → ByteRange → ℕ → Split
loop_of source path offset =
    split_loop source offset (start_split path.start) path.start (slice path.start path.end source)

split_path_within :
    (source : Bytes) (path : ByteRange) (offset : ℕ)
    → path.start ≤ offset
    → offset ≤ path.end
    → path.end ≤ length source
    → (result : SplitPath) × (split_path source path offset ≡ some result)
      × (result.segments ≡ (loop_of source path offset).segments)
      × (segment : PathSegment) × (get_elem? result.segments result.active ≡ some segment)
      × HoldsCursor source offset result.on_separator segment
unfolding split_path
split_path_within source path offset low high fits =
    let text = slice path.start path.end source in
    let size : offset ≤ path.start + length text = omega (
      arith,
      low,
      high,
      fits,
      length-take (path.end - path.start) (drop path.start source),
      length-drop path.start source,
    ) in
    let within : (ltb offset path.start || ltb path.end offset) ≡ false =
      ground (arith, low, high) in
    rw within (
      IsActive-split_result source offset (loop_of source path offset) (
        split_loop-IsActive source offset (start_split path.start) path.start path.end text
          (ahead low) (omega arith) size refl))

-- For a path inside the source and an offset in it `splitPath` answers, and its active segment is
-- one of the segments. It is the text of its range, which holds the offset, or begins right
-- behind the offset; the offset is then reported as on a separator, and the source has a double
-- underscore that ends there.
pub split_path-HoldsCursor :
    (source : Bytes) (path : ByteRange) (offset : ℕ)
    → path.start ≤ offset
    → offset ≤ path.end
    → path.end ≤ length source
    → (result : SplitPath) × (split_path source path offset ≡ some result)
      × (segment : PathSegment) × (get_elem? result.segments result.active ≡ some segment)
      × HoldsCursor source offset result.on_separator segment
split_path-HoldsCursor source path offset low high fits =
    let (result, found, _, segment, there, holds) =
      split_path_within source path offset low high fits in
    (result, found, segment, there, holds)

split_path_refused :
    (source : Bytes) (path : ByteRange) (offset : ℕ) (result : SplitPath)
    → split_path source path offset ≡ some result
    → (path.start ≤ offset) × (offset ≤ path.end)
unfolding split_path
split_path_refused source path offset result h =
    elim (Bool-cases (ltb offset path.start || ltb path.end offset)) [
      | inl beyond ↦ absurd (cc)
      | inr within ↦ (ground (arith, within), ground (arith, within))
    ]

-- The texts of the segments that `splitPath` gives for a path inside the source, with double
-- underscores between them, are the path; and `diagnosticPathSegments` gives the same texts.
pub split_path-joined :
    (source : Bytes) (path : ByteRange) (offset : ℕ) (result : SplitPath)
    → path.end ≤ length source
    → split_path source path offset ≡ some result
    → (joined (texts result.segments) ≡ slice path.start path.end source)
      × (texts (diagnostic_path_segments source path) ≡ texts result.segments)
unfolding diagnostic_path_segments
split_path-joined source path offset result fits h =
    let text = slice path.start path.end source in
    let (low, high) = split_path_refused source path offset result h in
    let (other, found, segments, _, _, _) = split_path_within source path offset low high fits in
    let same : some other ≡ some result = sym found ∙ h in
    let parts : texts (loop_of source path offset).segments ≡ pieces [] text =
      split_loop-pieces source offset path.end (start_split path.start) path.start text
        (omega arith) refl
      ∙ ap (λ t. pieces t text) (slice_empty source path.start) in
    let all : texts result.segments ≡ pieces [] text =
      ap (λ (r : SplitPath). texts r.segments) (some_injective (sym same))
      ∙ ap texts segments
      ∙ parts in
    (
      ap joined all ∙ joined-pieces [] text,
      diagnostic_loop-pieces source path path.end path.start path.start text (omega arith) refl
          ∙ ap (λ t. pieces t text) (slice_empty source path.start)
          ∙ sym all,
    )
