-- ===== src/Paths/Split/Samples.antt =====
-- A path with the cursor on the second byte of a separator.
use pogo.Prelude.{◌≡◌, refl, true, [], ◌∷◌, some, arith, get_elem?, slice, Bytes, codes}
use pogo.Store.{ByteRange}
use pogo.Paths.{PathSegment}
use pogo.Paths.Split.{SplitPath, split_path, diagnostic_path_segments}
use pogo.Paths.Split.Pieces.{texts, joined}
use pogo.Paths.Split.Active.{HoldsCursor}
use pogo.Paths.Split.Cursor.{split_path-HoldsCursor, split_path-joined}

abbrev path_text : Bytes
path_text = codes "(a__b__)"

abbrev path_range : ByteRange
path_range = record { start = 1; end = 7 }

abbrev on_second : SplitPath
on_second = record {
  segments =
      record { text = codes "a"; range = record { start = 1; end = 2 } }
      ∷ record { text = codes "b"; range = record { start = 4; end = 5 } }
      ∷ record { text = []; range = record { start = 7; end = 7 } }
      ∷ [];
  active = 1;
  on_separator = true;
}

split_on_second : split_path path_text path_range 3 ≡ some on_second
unfolding split_path
split_on_second = refl

split_path-HoldsCursor_example :
    (result : SplitPath) × (split_path path_text path_range 3 ≡ some result)
    × (segment : PathSegment) × (get_elem? result.segments result.active ≡ some segment)
    × HoldsCursor path_text 3 result.on_separator segment
split_path-HoldsCursor_example =
    split_path-HoldsCursor path_text path_range 3 (omega arith) (omega arith) (omega arith)

split_path-joined_example :
    (joined (texts on_second.segments) ≡ slice 1 7 path_text)
    × (texts (diagnostic_path_segments path_text path_range) ≡ texts on_second.segments)
split_path-joined_example =
    split_path-joined path_text path_range 3 on_second (omega arith) split_on_second
