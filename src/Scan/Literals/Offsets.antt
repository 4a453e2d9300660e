-- ===== src/Scan/Literals/Offsets.antt =====
-- The string that is found for an offset holds it.
use pogo.Prelude.{
  some_injective, ℕ, ◌+◌, ◌≤◌, ◌<◌, ◌≡◌, subst, ◌⊎◌, inl, inr, not, ◌&&◌, ◌||◌, List, [], ◌∷◌, some,
  arith, ltb, leb, All, length, slice, Bytes, Bool-cases,
}
use pogo.Text.{contains_byte}
use pogo.Position.{byte_at}
use pogo.Store.{ByteRange}
use pogo.Scan.{is_quote, skip_spaces}
use pogo.Scan.Literals.{
  is_simple_prefix, skip_identifier, quote_width, backslash, quoted_range, string_path_range,
  Elements, elements, refused, unfinished, content_of, string_list_elements, holding, element_at,
  string_list_path_range,
}
use pogo.Scan.Literals.Ranges.{
  IsContent, AreContents, content_of_bounds, at_quote_inside, second_false,
  string_list_elements-AreContents,
}

-- A string that holds an offset.
abbrev pub HoldsOffset : Bytes → ℕ → ByteRange → Type 0
HoldsOffset source offset range =
    IsContent source range × (range.start ≤ offset) × (offset ≤ range.end)

holding-HoldsOffset :
    (source : Bytes) (offset : ℕ) (ranges : List ByteRange) (range : ByteRange)
    → All (IsContent source) ranges
    → holding offset ranges ≡ some range
    → HoldsOffset source offset range
holding-HoldsOffset source offset [] range all h = absurd (cc)
holding-HoldsOffset source offset (r ∷ ranges) range (here, all) h =
    elim (Bool-cases (leb r.start offset && leb offset r.end)) [
      | inl inside ↦
          let same : some r ≡ some range = ground (arith, h, inside) in
          subst (HoldsOffset source offset) (some_injective same)
            (here, ground (arith, inside), ground (arith, inside))
      | inr outside ↦
          holding-HoldsOffset source offset ranges range all (ground (arith, h, outside))
    ]

element_at-HoldsOffset :
    (source : Bytes) (offset : ℕ) (found : Elements) (range : ByteRange)
    → AreContents source found
    → element_at offset found ≡ some range
    → HoldsOffset source offset range
element_at-HoldsOffset source offset (elements ranges) range all h =
    holding-HoldsOffset source offset ranges range all h
element_at-HoldsOffset source offset refused range all h = absurd (cc)
element_at-HoldsOffset source offset unfinished range all h = absurd (cc)

quoted_range-HoldsOffset :
    (source : Bytes) (start offset : ℕ) (range : ByteRange)
    → start < length source
    → quoted_range source start offset ≡ some range
    → HoldsOffset source offset range
unfolding quoted_range
quoted_range-HoldsOffset source start offset range low h =
    let content_start = start + quote_width source start in
    let end = (content_of source start).0 in
    let (opened, begins, ends) = content_of_bounds source start low in
    elim (Bool-cases (ltb offset content_start)) [
      | inl early ↦ absurd (ground (arith, h, early))
      | inr behind ↦
          elim (Bool-cases
            (ltb end offset || contains_byte (slice content_start end source) backslash)) [
              | inl late ↦ absurd (ground (arith, h, behind, late))
              | inr inside ↦
                  let found : ByteRange = record { start = content_start; end = end } in
                  let same : some found ≡ some range = ground (arith, h, behind, inside) in
                  subst (HoldsOffset source offset) (some_injective same) (
                    (
                      begins,
                      ends,
                      second_false (ltb end offset)
                          (contains_byte (slice content_start end source) backslash) inside,
                    ),
                    ground (arith, behind),
                    ground (arith, inside),
                  )
            ]
    ]

-- A range that `stringPathRange` or `stringListPathRange` gives for an offset holds the offset,
-- lies in the source and has no backslash.
pub string_path_range-HoldsOffset :
    (source : Bytes) (argument_start offset : ℕ) (range : ByteRange)
    → (string_path_range source argument_start offset ≡ some range)
      ⊎ (string_list_path_range source argument_start offset ≡ some range)
    → HoldsOffset source offset range
unfolding string_path_range string_list_path_range
string_path_range-HoldsOffset source argument_start offset range (inr h) =
    element_at-HoldsOffset source offset (string_list_elements source argument_start) range
      (string_list_elements-AreContents source argument_start) h
string_path_range-HoldsOffset source argument_start offset range (inl h) =
    let prefix_start = skip_spaces (slice argument_start offset source) argument_start in
    let start = skip_identifier (slice prefix_start offset source) prefix_start in
    elim (Bool-cases (not (is_simple_prefix (slice prefix_start start source)))) [
      | inl odd ↦ absurd (ground (arith, h, odd))
      | inr simple ↦
          elim (Bool-cases (leb (length source) start || not (is_quote (byte_at source start)))) [
            | inl other ↦ absurd (ground (arith, h, simple, other))
            | inr quoted ↦
                quoted_range-HoldsOffset source start offset range
                  (at_quote_inside (length source) start (is_quote (byte_at source start)) quoted)
                  (ground (arith, h, simple, quoted))
          ]
    ]
