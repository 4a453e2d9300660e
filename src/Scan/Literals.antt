-- ===== src/Scan/Literals.antt =====
-- path.go: the string literals in an argument, alone or in a list, and the methods that take paths.
pub mod Ranges
pub mod Offsets
mod Samples
use pogo.Prelude.{
  ℕ, zero, suc, ◌+◌, ◌-◌, Bool, true, false, not, ◌&&◌, ◌||◌, List, [], ◌∷◌, ◌++◌, Option, none,
  some, ltb, leb, ◌==◌, if◌then◌else◌, length, take, drop, slice, Bytes, codes, bytes_eq,
}
use pogo.Text.{is_identifier_byte, contains_byte}
use pogo.Position.{byte_at}
use pogo.Store.{ByteRange}
use pogo.Paths.{
  PathMode, path_lookup, path_projection, path_fields, path_select_related, path_prefetch_related,
  contains,
}
use pogo.Scan.{is_quote, skip_spaces, comma}
use pogo.Scan.Calls.{doubled}

-- strings.ToLower, of identifier bytes
abbrev pub lower : Bytes → Bytes
lower [] = []
lower (b ∷ s) = (if leb 65 b && leb b 90 then b + 32 else b) ∷ lower s

abbrev pub is_simple_prefix : Bytes → Bool
is_simple_prefix text =
    let prefix = lower text in
    not (contains_byte prefix 98 || contains_byte prefix 102)
    && (bytes_eq prefix [] || bytes_eq prefix (codes "r") || bytes_eq prefix (codes "u"))

-- `for start < end && isIdentifierByte(source[start]) { start++ }`, over the bytes between
abbrev pub skip_identifier : Bytes → ℕ → ℕ
skip_identifier [] start = start
skip_identifier (value ∷ rest) start =
    if is_identifier_byte value then skip_identifier rest (start + 1) else start

-- The bytes on from an index; behind the end of the source there are none.
abbrev pub quote_width : Bytes → ℕ → ℕ
quote_width source index = if doubled (byte_at source index) (drop (index + 1) source) then 3 else 1

pub data Stop : Type 0 where
  at_quote at_newline at_end : Stop

-- The loop over the content of a string, and what it has stopped at.
unfoldable pub content_loop : ℕ → ℕ → Bytes → ℕ → Bool → ℕ × Stop
content_loop quote width [] index escaped = (index, at_end)
content_loop quote width (value ∷ rest) index escaped =
    let flipped = content_loop quote width rest (index + 1) (not escaped) in
    let onward = content_loop quote width rest (index + 1) false in
    if value == 92
    then flipped
    else if (value == quote && not escaped) && (width == 1 || doubled quote rest)
    then (index, at_quote)
    else if value == 10 && width == 1
    then (index, at_newline)
    else onward

abbrev pub backslash : ℕ
backslash = 92

-- The part of stringPathRange from the quote on.
unfoldable pub quoted_range : Bytes → ℕ → ℕ → Option ByteRange
unfolding content_loop
quoted_range source start offset =
    let quote = byte_at source start in
    let width = quote_width source start in
    let content_start = start + width in
    let end = (content_loop quote width (drop content_start source) content_start false).0 in
    if ltb offset content_start
    then none
    else if ltb end offset || contains_byte (slice content_start end source) backslash
    then none
    else some (record { start = content_start; end = end })

unfoldable pub string_path_range : Bytes → ℕ → ℕ → Option ByteRange
unfolding quoted_range
string_path_range source argument_start offset =
    let prefix_start = skip_spaces (slice argument_start offset source) argument_start in
    let start = skip_identifier (slice prefix_start offset source) prefix_start in
    if not (is_simple_prefix (slice prefix_start start source))
    then none
    else if leb (length source) start || not (is_quote (byte_at source start))
    then none
    else quoted_range source start offset

-- `none` is false; `unfinished` is that the fuel has run out.
pub data Elements : Type 0 where
  elements : List ByteRange → Elements
  refused unfinished : Elements

abbrev pub with_element : ByteRange → Elements → Elements
with_element range (elements ranges) = elements (range ∷ ranges)
with_element range refused = refused
with_element range unfinished = unfinished

abbrev pub behind_comma : Bytes → ℕ → ℕ
behind_comma source index =
    if ltb index (length source) && byte_at source index == comma then index + 1 else index

abbrev pub content_of : Bytes → ℕ → ℕ × Stop
content_of source index =
    let content_start = index + quote_width source index in
    content_loop (byte_at source index) (quote_width source index) (drop content_start source)
      content_start false

-- Where the loop of stringListElements goes on behind an element that ends at an index.
abbrev pub next_element : Bytes → ℕ → ℕ → ℕ
next_element source width content_end =
    let behind = content_end + width in
    behind_comma source (skip_spaces (drop behind source) behind)

abbrev pub is_at_quote : Stop → Bool
is_at_quote at_quote = true
is_at_quote _ = false

-- The loop of stringListElements; a round passes a quote at least.
unfoldable pub elements_loop : ℕ → Bytes → ℕ → Elements
unfolding content_loop
elements_loop zero source from = unfinished
elements_loop (suc fuel) source from =
    let prefix_start = skip_spaces (drop from source) from in
    let index = skip_identifier (drop prefix_start source) prefix_start in
    let width = quote_width source index in
    let (content_end, stop) = content_of source index in
    let content = slice (index + width) content_end source in
    let rest = elements_loop fuel source (next_element source width content_end) in
    if leb (length source) prefix_start
    then refused
    else if byte_at source prefix_start == 93
    then elements []
    else if leb (length source) index || not (is_quote (byte_at source index))
    then refused
    else if not (is_simple_prefix (slice prefix_start index source))
    then refused
    else if not (is_at_quote stop) || contains_byte content backslash
    then refused
    else with_element (record { start = index + width; end = content_end }) rest

unfoldable pub string_list_elements : Bytes → ℕ → Elements
unfolding elements_loop
string_list_elements source from =
    let start = skip_spaces (drop from source) from in
    if leb (length source) start || not (byte_at source start == 91)
    then refused
    else elements_loop (suc (length source)) source (start + 1)

abbrev pub holding : ℕ → List ByteRange → Option ByteRange
holding offset [] = none
holding offset (range ∷ ranges) =
    if leb range.start offset && leb offset range.end then some range else holding offset ranges

abbrev pub element_at : ℕ → Elements → Option ByteRange
element_at offset (elements ranges) = holding offset ranges
element_at offset refused = none
element_at offset unfinished = none

unfoldable pub string_list_path_range : Bytes → ℕ → ℕ → Option ByteRange
unfolding string_list_elements
string_list_path_range source start offset = element_at offset (string_list_elements source start)
