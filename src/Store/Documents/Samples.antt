-- ===== src/Store/Documents/Samples.antt =====
-- The store with a concrete parser, whose tree is the text.
use pogo.Prelude.{
  ◌≡◌, refl, false, List, [], ◌∷◌, some, arith, ℤ, pos, Bytes, lookup, insert, bytes_eq, lookup_nil,
}
use pogo.Utf8.{valid}
use pogo.Position.{byte_offset}
use pogo.Edit.{validate_source, splice, has_non_ascii}
use pogo.Store.{Change, Parser, parsed, ok, change_all}
use pogo.Store.Documents.{Document, Documents, change, starts_incremental, edited_tree, reparse}
use pogo.Store.Documents.Invariant.{
  Event, open_event, change_event, save_event, run, ReparseLaws, AllCurrent, run-AllCurrent,
}
use pogo.Store.Documents.Versions.{Advances, change-Advances}

abbrev text_parser : Parser
text_parser = record {
  Tree = Bytes;
  parse = λ source old. parsed (some source);
  root_has_error = λ tree. false;
  copy = λ tree. some tree;
  edit = λ tree e. tree;
  extract_syntax = λ tree source. [];
  extract_calls = λ tree source. [];
}

text_parser_laws : ReparseLaws text_parser
text_parser_laws = record {
  copy_same = λ t c h. ground arith;
  never_nil = λ s t h. absurd (ground arith);
  incremental_full = λ old new es t n first good ascii to second fine. second;
}

abbrev uri : Bytes
uri = 117 ∷ []

-- "ab" between the positions 0:1 and 0:2 becomes "axy", then the line ends.
abbrev changes : List Change
changes =
    record {
      range = some (record {
        start = record { line = 0; character = 1 };
        end = record { line = 0; character = 2 };
      });
      text = 120 ∷ 121 ∷ [];
    }
    ∷ record {
      range = some (record {
        start = record { line = 0; character = 3 };
        end = record { line = 0; character = 3 };
      });
      text = 10 ∷ [];
    }
    ∷ []

abbrev document_with : ℤ → Bytes → Document text_parser
document_with version source = record {
  file_path = [];
  version = version;
  source = source;
  tree = some source;
  syntax = [];
  calls = [];
}

abbrev opened : Documents text_parser
opened = (uri, document_with (pos 1) (97 ∷ 98 ∷ [])) ∷ []

abbrev changed : Documents text_parser
changed = (uri, document_with (pos 2) (97 ∷ 120 ∷ 121 ∷ 10 ∷ [])) ∷ []

change-opened : change text_parser opened uri (pos 2) changes ≡ ok changed
unfolding change lookup bytes_eq change_all byte_offset valid validate_source splice reparse
    edited_tree starts_incremental has_non_ascii insert
change-opened = refl

change-Advances_example : Advances text_parser opened changed uri (pos 2) changes
change-Advances_example =
    change-Advances text_parser opened changed uri (pos 2) changes change-opened

nothing_open : AllCurrent text_parser []
nothing_open = λ k d found. absurd (cc (lookup_nil {V = Document text_parser} k))

abbrev events : List Event
events =
    open_event uri [] (pos 1) (97 ∷ 98 ∷ [])
    ∷ change_event uri (pos 2) changes
    ∷ change_event uri (pos 2) changes
    ∷ save_event uri (some (97 ∷ []))
    ∷ []

run-AllCurrent_example : AllCurrent text_parser (run text_parser [] events)
run-AllCurrent_example = run-AllCurrent text_parser text_parser_laws [] events nothing_open
