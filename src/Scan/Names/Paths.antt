-- ===== src/Scan/Names/Paths.antt =====
-- The paths that are found in an argument are split at the offset.
use pogo.Prelude.{
  some_injective, ℕ, zero, suc, ◌+◌, ◌≤◌, ◌≡◌, subst, ◌⊎◌, inl, inr, Bool, not, ◌&&◌, ◌||◌, [], ◌∷◌,
  some, arith, ltb, length, length-drop, drop, slice, get_elem?, Bytes, Bool-cases,
}
use pogo.Utf8.{decode_rune, is_bad}
use pogo.Utf8.Runes.{decode_rune_size}
use pogo.Text.{is_identifier_rune, identifier_text}
use pogo.Store.{ByteRange}
use pogo.Paths.{PathSegment}
use pogo.Paths.Split.{SplitPath, split_path}
use pogo.Paths.Split.Active.{HoldsCursor}
use pogo.Paths.Split.Cursor.{split_path-HoldsCursor}
use pogo.Scan.{skip_spaces}
use pogo.Scan.Literals.{string_path_range, string_list_path_range}
use pogo.Scan.Literals.Offsets.{string_path_range-HoldsOffset}
use pogo.Scan.Names.{identifier_end, ends_keyword, keyword_path_range}

module _ (is_word : ℕ → Bool) where
  identifier_end_bounds :
      (fuel : ℕ) (rest : Bytes) (end : ℕ)
      → (end ≤ identifier_end is_word fuel rest end)
        × (identifier_end is_word fuel rest end ≤ end + length rest)
  unfolding identifier_end
  identifier_end_bounds zero rest end = (omega arith, omega arith)
  identifier_end_bounds (suc fuel) [] end = (omega arith, omega arith)
  identifier_end_bounds (suc fuel) (b ∷ rest) end =
      let (r, size) = decode_rune (b ∷ rest) in
      let (some_byte, fits) = decode_rune_size b rest in
      let (low, high) = identifier_end_bounds fuel (drop size (b ∷ rest)) (end + size) in
      elim (Bool-cases (is_bad (r, size) || not (is_identifier_rune is_word r))) [
        | inl other ↦ rw other (omega arith, omega arith)
        | inr letter ↦
            rw letter (omega (arith, low), omega (arith, high, fits, length-drop size (b ∷ rest)))
      ]

  keyword_path_range_bounds :
      (source : Bytes) (argument_start offset : ℕ) (range : ByteRange)
      → offset ≤ length source
      → keyword_path_range is_word source argument_start offset ≡ some range
      → (range.start ≤ offset) × (offset ≤ range.end) × (range.end ≤ length source)
  unfolding keyword_path_range
  keyword_path_range_bounds source argument_start offset range inside h =
      let start = skip_spaces (slice argument_start offset source) argument_start in
      let end = identifier_end is_word (length source) (drop offset source) offset in
      let (low, high) = identifier_end_bounds (length source) (drop offset source) offset in
      elim (Bool-cases (ltb offset start)) [
        | inl behind ↦ absurd (ground (arith, h, behind))
        | inr begun ↦
            elim (Bool-cases
              (ltb start offset && not (identifier_text is_word (slice start offset source)))) [
                | inl odd ↦ absurd (ground (arith, h, begun, odd))
                | inr name ↦
                    elim (Bool-cases
                      (not (ends_keyword is_word source (skip_spaces (drop end source) end)))) [
                        | inl other ↦ absurd (ground (arith, h, begun, name, other))
                        | inr ended ↦
                            let found : ByteRange = record { start = start; end = end } in
                            let same : some found ≡ some range =
                              ground (arith, h, begun, name, ended) in
                            subst
                              (λ (r : ByteRange).
                                (r.start ≤ offset) × (offset ≤ r.end) × (r.end ≤ length source))
                              (some_injective same)
                              (
                                ground (arith, begun),
                                low,
                                omega (arith, high, inside, length-drop offset source),
                              )
                      ]
              ]
      ]

  -- A range that one of the three finders of paths has found.
  abbrev pub IsFoundPath : Bytes → ℕ → ℕ → ByteRange → Type 0
  IsFoundPath source argument_start offset range =
      (keyword_path_range is_word source argument_start offset ≡ some range)
      ⊎ (string_path_range source argument_start offset ≡ some range)
      ⊎ (string_list_path_range source argument_start offset ≡ some range)

  found_path_bounds :
      (source : Bytes) (argument_start offset : ℕ) (range : ByteRange)
      → offset ≤ length source
      → IsFoundPath source argument_start offset range
      → (range.start ≤ offset) × (offset ≤ range.end) × (range.end ≤ length source)
  found_path_bounds source argument_start offset range inside (inl keyword) =
      keyword_path_range_bounds source argument_start offset range inside keyword
  found_path_bounds source argument_start offset range inside (inr text) =
      let (content, low, high) =
        string_path_range-HoldsOffset source argument_start offset range text in
      (low, high, content.1)

  -- For an offset in the source: a path that is found in an argument, as a keyword, as a string
  -- or as a string in a list, is split by `splitPath`, and the active segment is one of the
  -- segments, with the text of its range. It holds the offset, or begins right behind it, where a
  -- double underscore of the source ends at the offset.
  pub keyword_path_range-split_path :
      (source : Bytes) (argument_start offset : ℕ) (range : ByteRange)
      → offset ≤ length source
      → IsFoundPath source argument_start offset range
      → (result : SplitPath) × (split_path source range offset ≡ some result)
        × (segment : PathSegment) × (get_elem? result.segments result.active ≡ some segment)
        × HoldsCursor source offset result.on_separator segment
  keyword_path_range-split_path source argument_start offset range inside found =
      let (low, high, fits) = found_path_bounds source argument_start offset range inside found in
      split_path-HoldsCursor source range offset low high fits
