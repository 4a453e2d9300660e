-- ===== src/Edit/Samples.antt =====
-- An edit of a concrete text.
use pogo.Prelude.{◌≡◌, ◌+◌, [], ◌∷◌, arith, length, Bytes}
use pogo.Edit.{point_for_offset, replacement_end_point, splice}
use pogo.Edit.Points.{replacement_end_point-splice}

abbrev two_lines : Bytes
two_lines = 97 ∷ 10 ∷ 98 ∷ 99 ∷ []

abbrev replacement : Bytes
replacement = 120 ∷ 10 ∷ 121 ∷ []

replacement_end_point-splice_example :
    replacement_end_point (point_for_offset two_lines 3) replacement
    ≡ point_for_offset (splice two_lines 3 4 replacement) (3 + length replacement)
replacement_end_point-splice_example =
    replacement_end_point-splice two_lines replacement 3 4 (omega arith)
