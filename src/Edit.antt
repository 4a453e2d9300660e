-- ===== src/Edit.antt =====
-- internal/analysis/document.go: the points of an edit that tree-sitter is told of, and the checks of
-- a source text.
mod Samples
pub mod Points
use pogo.Prelude.{
  ℕ, suc, ◌+◌, ◌-◌, ◌*◌, Bool, true, false, List, [], ◌∷◌, ◌++◌, Option, none, some, ltb, leb, ◌==◌,
  if◌then◌else◌, not, u32, length, take, drop, Bytes,
}
use pogo.Utf8.{valid}
use pogo.Position.{line_feed}

-- gotreesitter.Point
pub record Point : Type 0 where
  pub row : ℕ  -- uint32
  pub column : ℕ  -- uint32

-- bytes.Count(s, []byte{'\n'})
pub count_feeds : Bytes → ℕ
count_feeds [] = 0
count_feeds (b ∷ s) = if b == line_feed then suc (count_feeds s) else count_feeds s

-- bytes.LastIndexByte(s, '\n'), where none stands for -1
pub last_feed : Bytes → Option ℕ
last_feed [] = none
last_feed (b ∷ s) = elim (last_feed s) [
  | some i ↦ some (suc i)
  | none ↦ if b == line_feed then some 0 else none
]

-- `n - i - 1` behind the last line feed at `i`; without one, `i` is -1
abbrev pub column_behind : ℕ → Option ℕ → ℕ
column_behind n none = n
column_behind n (some i) = n - i - 1

pub point_for_offset : Bytes → ℕ → Point
unfolding count_feeds last_feed
point_for_offset source offset =
    let prefix = take offset source in
    record {
      row = u32 (count_feeds prefix);
      column = u32 (column_behind offset (last_feed prefix));
    }

pub replacement_end_point : Point → Bytes → Point
unfolding count_feeds last_feed
replacement_end_point start replacement =
    let newlines = count_feeds replacement in
    if newlines == 0
    then record { row = start.row; column = u32 (start.column + u32 (length replacement)) }
    else record {
      row = u32 (start.row + u32 newlines);
      column = u32 (column_behind (length replacement) (last_feed replacement));
    }

unfoldable pub has_non_ascii : Bytes → Bool
has_non_ascii [] = false
has_non_ascii (b ∷ s) = if leb 0x80 b then true else has_non_ascii s

abbrev pub max_document_size : ℕ
max_document_size = 4 * 1024 * 1024

pub data SourceError : Type 0 where
  exceeds_limit not_utf8 exceeds_byte_range : SourceError

-- `none` is a nil error.
unfoldable pub validate_source : Bytes → Option SourceError
validate_source source =
    if ltb max_document_size (length source)
    then some exceeds_limit
    else if not (valid source)
    then some not_utf8
    else if ltb 0xFFFFFFFF (length source)
    then some exceeds_byte_range
    else none

-- The text of a ranged change: source[:start] + replacement + source[end:].
unfoldable pub splice : Bytes → ℕ → ℕ → Bytes → Bytes
splice source start end replacement = take start source ++ (replacement ++ drop end source)
