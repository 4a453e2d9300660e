-- ===== src/Scan/Literals/Ranges.antt =====
-- The strings of an argument are found in the source, without an escape.
use pogo.Prelude.{
  ℕ, zero, suc, ◌+◌, ◌≤◌, ◌<◌, ◌≡◌, inl, inr, Bool, true, false, not, ◌||◌, [], ◌∷◌, arith, leb,
  All, ◌==◌, length, length-drop, drop, slice, Bytes, Bool-cases,
}
use pogo.Text.{contains_byte}
use pogo.Position.{byte_at}
use pogo.Store.{ByteRange}
use pogo.Scan.{is_quote, skip_spaces}
use pogo.Scan.Calls.{doubled}
use pogo.Scan.Literals.{
  is_simple_prefix, skip_identifier, quote_width, content_loop, backslash, Elements, elements,
  refused, unfinished, with_element, content_of, next_element, is_at_quote, elements_loop,
  string_list_elements,
}

pub skip_spaces_bound : (rest : Bytes) (start : ℕ) → start ≤ skip_spaces rest start
skip_spaces_bound [] start = omega arith
skip_spaces_bound (v ∷ rest) start = ground (arith, skip_spaces_bound rest (start + 1))

skip_identifier_bound : (rest : Bytes) (start : ℕ) → start ≤ skip_identifier rest start
skip_identifier_bound [] start = omega arith
skip_identifier_bound (v ∷ rest) start = ground (arith, skip_identifier_bound rest (start + 1))

content_loop_bounds :
    (quote width : ℕ) (rest : Bytes) (index : ℕ) (escaped : Bool)
    → (index ≤ (content_loop quote width rest index escaped).0)
      × ((content_loop quote width rest index escaped).0 ≤ index + length rest)
unfolding content_loop
content_loop_bounds quote width [] index escaped = (omega arith, omega arith)
content_loop_bounds quote width (v ∷ rest) index escaped = ground (
  arith,
  content_loop_bounds quote width rest (index + 1) (not escaped),
  content_loop_bounds quote width rest (index + 1) false,
)

doubled-length : (v : ℕ) (rest : Bytes) → doubled v rest ≡ true → 2 ≤ length rest
doubled-length v [] h = absurd (cc)
doubled-length v (a ∷ []) h = absurd (cc)
doubled-length v (a ∷ b ∷ rest) h = omega arith

quote_width_bounds :
    (source : Bytes) (index : ℕ)
    → index < length source
    → (1 ≤ quote_width source index) × (index + quote_width source index ≤ length source)
quote_width_bounds source index low =
    elim (Bool-cases (doubled (byte_at source index) (drop (index + 1) source))) [
      | inl triple ↦
          let room = doubled-length (byte_at source index) (drop (index + 1) source) triple in
          rw triple (omega arith, omega (arith, low, room, length-drop (index + 1) source))
      | inr single ↦ rw single (omega arith, omega (arith, low))
    ]

-- The content of a string: a range of the source without a backslash.
abbrev pub IsContent : Bytes → ByteRange → Type 0
IsContent source range =
    (range.start ≤ range.end)
    × (range.end ≤ length source)
    × (contains_byte (slice range.start range.end source) backslash ≡ false)

pub content_of_bounds :
    (source : Bytes) (index : ℕ)
    → index < length source
    → (index < index + quote_width source index)
      × (index + quote_width source index ≤ (content_of source index).0)
      × ((content_of source index).0 ≤ length source)
content_of_bounds source index low =
    let (wide, fits) = quote_width_bounds source index low in
    let start = index + quote_width source index in
    let (begins, ends) =
      content_loop_bounds (byte_at source index) (quote_width source index) (drop start source)
        start false in
    (omega (arith, wide), begins, omega (arith, ends, fits, length-drop start source))

-- A list that the loop has finished, with the contents as said.
abbrev pub AreContents : Bytes → Elements → Type 0
AreContents source (elements ranges) = All (IsContent source) ranges
AreContents source refused = Unit
AreContents source unfinished = ⊥

with_element-AreContents :
    (source : Bytes) (range : ByteRange) (rest : Elements)
    → IsContent source range
    → AreContents source rest
    → AreContents source (with_element range rest)
with_element-AreContents source range (elements ranges) c h = (c, h)
with_element-AreContents source range refused c h = tt
with_element-AreContents source range unfinished c h = h

pub at_quote_inside :
    (size index : ℕ) (quote : Bool) → (leb size index || not quote) ≡ false → index < size
at_quote_inside size index quote h = ground (arith, h)

pub second_false : (a b : Bool) → (a || b) ≡ false → b ≡ false
second_false true b h = absurd (cc)
second_false false b h = h

next_element_bound :
    (source : Bytes) (width content_end : ℕ)
    → content_end + width ≤ next_element source width content_end
next_element_bound source width content_end =
    ground (arith, skip_spaces_bound (drop (content_end + width) source) (content_end + width))

elements_loop-AreContents :
    (fuel : ℕ) (source : Bytes) (from : ℕ)
    → 0 < fuel
    → length source < fuel + from
    → AreContents source (elements_loop fuel source from)
unfolding elements_loop
elements_loop-AreContents zero source from some_fuel enough = absurd (omega (arith, some_fuel))
elements_loop-AreContents (suc fuel) source from some_fuel enough =
    let prefix_start = skip_spaces (drop from source) from in
    let index = skip_identifier (drop prefix_start source) prefix_start in
    let width = quote_width source index in
    let content_end = (content_of source index).0 in
    let stop = (content_of source index).1 in
    let begun = skip_spaces_bound (drop from source) from in
    let on = skip_identifier_bound (drop prefix_start source) prefix_start in
    let next = next_element source width content_end in
    let far = next_element_bound source width content_end in
    elim (Bool-cases (leb (length source) prefix_start)) [
      | inl over ↦ rw over tt
      | inr inside ↦ elim (Bool-cases (byte_at source prefix_start == 93)) [
        | inl closed ↦ rw (inside, closed) tt
        | inr going ↦
            elim (Bool-cases (leb (length source) index || not (is_quote (byte_at source index)))) [
              | inl other ↦ rw (inside, going, other) tt
              | inr quoted ↦
                  elim (Bool-cases (not (is_simple_prefix (slice prefix_start index source)))) [
                    | inl odd ↦ rw (inside, going, quoted, odd) tt
                    | inr simple ↦
                        elim (Bool-cases (
                          not (is_at_quote stop)
                          || contains_byte (slice (index + width) content_end source) backslash)) [
                            | inl broken ↦ rw (inside, going, quoted, simple, broken) tt
                            | inr whole ↦
                                let low : index < length source =
                                  at_quote_inside (length source) index
                                    (is_quote (byte_at source index)) quoted in
                                let (opened, begins, ends) = content_of_bounds source index low in
                                let plain =
                                  second_false (not (is_at_quote stop))
                                    (contains_byte (slice (index + width) content_end source)
                                      backslash)
                                    whole in
                                rw (inside, going, quoted, simple, whole)
                                  (with_element-AreContents source
                                    (record { start = index + width; end = content_end })
                                    (elements_loop fuel source next) (begins, ends, plain)
                                    (elements_loop-AreContents fuel source next
                                      (omega (arith, enough, begun, on, low))
                                      (omega (arith, enough, begun, on, opened, begins, far))))
                          ]
                  ]
            ]
      ]
    ]

-- On every source and from every offset the loop of `stringListElements` comes to an end with one
-- more round than the source has bytes: it refuses the list, or gives ranges of the source
-- without a backslash.
pub string_list_elements-AreContents :
    (source : Bytes) (from : ℕ) → AreContents source (string_list_elements source from)
unfolding string_list_elements
string_list_elements-AreContents source from =
    let start = skip_spaces (drop from source) from in
    elim (Bool-cases (leb (length source) start || not (byte_at source start == 91))) [
      | inl other ↦ rw other tt
      | inr list ↦ rw list (
          elements_loop-AreContents (suc (length source)) source (start + 1) (omega arith)
            (omega arith))
    ]
