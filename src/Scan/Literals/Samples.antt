-- ===== src/Scan/Literals/Samples.antt =====
-- Paths in a list of strings and before a sign.
use pogo.Prelude.{◌≡◌, inr, refl, true, [], ◌∷◌, some, arith, get_elem?, Bytes, codes, bytes_eq}
use pogo.Text.{is_identifier_byte}
use pogo.Store.{ByteRange}
use pogo.Paths.{PathSegment}
use pogo.Paths.Split.{SplitPath, split_path}
use pogo.Paths.Split.Active.{HoldsCursor}
use pogo.Scan.Literals.{elements, string_list_elements, string_list_path_range}
use pogo.Scan.Literals.Ranges.{AreContents, string_list_elements-AreContents}
use pogo.Scan.Literals.Offsets.{HoldsOffset, string_path_range-HoldsOffset}
use pogo.Scan.Names.{keyword_path_range, keyword_name_position, identifier_prefix}
use pogo.Scan.Names.Paths.{keyword_path_range-split_path}

abbrev list_text : Bytes
list_text = codes "x=[u'a__b', \"c\"]"

abbrev first_string : ByteRange
first_string = record { start = 5; end = 9 }

list_found :
    string_list_elements list_text 2
    ≡ elements (first_string ∷ record { start = 13; end = 14 } ∷ [])
unfolding string_list_elements bytes_eq
list_found = refl

first_found : string_list_path_range list_text 2 7 ≡ some first_string
unfolding string_list_path_range bytes_eq
first_found = refl

keyword_found :
    keyword_path_range is_identifier_byte (codes "f(a__b=1)") 2 5
    ≡ some (record { start = 2; end = 6 })
unfolding keyword_path_range
keyword_found = refl

keyword_placed : keyword_name_position (codes "f(1, a__b=1)") 2 5 ≡ true
unfolding keyword_name_position bytes_eq
keyword_placed = refl

prefix_found : identifier_prefix is_identifier_byte (codes "f(a__b=1)") 4 ≡ codes "a_"
unfolding identifier_prefix
prefix_found = refl

string_list_elements-AreContents_example : AreContents list_text (string_list_elements list_text 2)
string_list_elements-AreContents_example = string_list_elements-AreContents list_text 2

string_path_range-HoldsOffset_example : HoldsOffset list_text 7 first_string
string_path_range-HoldsOffset_example =
    string_path_range-HoldsOffset list_text 2 7 first_string (inr first_found)

keyword_path_range-split_path_example :
    (result : SplitPath) × (split_path list_text first_string 7 ≡ some result)
    × (segment : PathSegment) × (get_elem? result.segments result.active ≡ some segment)
    × HoldsCursor list_text 7 result.on_separator segment
keyword_path_range-split_path_example =
    keyword_path_range-split_path is_identifier_byte list_text 2 7 first_string (omega arith)
      (inr (inr first_found))
