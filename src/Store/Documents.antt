-- ===== src/Store/Documents.antt =====
-- The methods of `Store` in document.go, over the map of open documents. A method that returns an
-- error has stored nothing. Releasing a tree has no effect on the map.
mod Inversion
pub mod Invariant
mod Samples
pub mod Versions
use mathlib.Core.List.{foldl}
use pogo.Prelude.{
  Bool, true, false, not, ◌&&◌, List, [], ◌∷◌, Option, none, some, ℤ, leb_ℤ, eq_ℤ, if◌then◌else◌,
  Bytes, Assoc, lookup, insert, delete,
}
use pogo.Edit.{has_non_ascii}
use pogo.Store.{
  Change, SyntaxCall, SyntaxStatement, InputEdit, Parsed, failed, parsed, Parser, StoreError,
  uri_required, no_changes, not_open, stale_version, parse_failed, changed_concurrently,
  StoreResult, ok, err, ◌>>=◌, checked, Pending, change_all,
}

module _ (parser : Parser) where
  open parser use {Tree, parse, root_has_error, copy, edit, extract_syntax, extract_calls}

  pub record Document : Type 0 where
    pub file_path : Bytes
    pub version : ℤ  -- int32
    pub source : Bytes
    pub tree : Option Tree
    pub syntax : List SyntaxStatement
    pub calls : List SyntaxCall

  abbrev pub Documents : Type 0
  Documents = Assoc Document

  -- What every method stores for a parsed source.
  abbrev pub document : Bytes → ℤ → Bytes → Option Tree → Document
  document file_path version source tree = record {
    file_path = file_path;
    version = version;
    source = source;
    tree = tree;
    syntax = extract_syntax tree source;
    calls = extract_calls tree source;
  }

  pub store_parsed : Documents → Bytes → Bytes → ℤ → Bytes → Parsed Tree → StoreResult Documents
  store_parsed docs uri file_path version source failed = err parse_failed
  store_parsed docs uri file_path version source (parsed tree) =
      ok (insert uri (document file_path version source tree) docs)

  pub open_file : Documents → Bytes → Bytes → ℤ → Bytes → StoreResult Documents
  unfolding store_parsed
  open_file docs [] file_path version text = err uri_required
  open_file docs (u ∷ uri) file_path version text = do
    source ← checked text
    store_parsed docs (u ∷ uri) file_path version source (parse source none)

  -- Whether `Change` starts out to reuse the old tree.
  pub starts_incremental : Document → Bool
  starts_incremental current = elim current.tree [
    | none ↦ false
    | some tree ↦ not (root_has_error tree) && not (has_non_ascii current.source)
  ]

  -- The copy of the old tree with the edits made.
  pub edited_tree : Bool → Option Tree → List InputEdit → Option Tree
  edited_tree false old edits = none
  edited_tree true none edits = none
  edited_tree true (some tree) edits = elim (copy tree) [
    | none ↦ none
    | some c ↦ some (foldl edit c edits)
  ]

  -- An incremental parse that fails or whose tree has an error is followed by a full one.
  pub judge : Bytes → Parsed Tree → Parsed Tree
  judge source failed = parse source none
  judge source (parsed none) = parsed none
  judge source (parsed (some tree)) =
      if root_has_error tree then parse source none else parsed (some tree)

  pub reparse : Bytes → Option Tree → Parsed Tree
  unfolding judge
  reparse source none = parse source none
  reparse source (some edited) = judge source (parse source (some edited))

  abbrev pub pending : Document → Pending
  pending current = record {
    source = current.source;
    incremental = starts_incremental current;
    edits = [];
  }

  pub change_document : Documents → Bytes → ℤ → List Change → Document → StoreResult Documents
  unfolding store_parsed
  change_document docs uri version changes current =
      if leb_ℤ version current.version then err stale_version else do
        s ← change_all (pending current) changes
        source ← checked s.source
        store_parsed docs uri current.file_path version source
            (reparse source (edited_tree s.incremental current.tree s.edits))

  pub change : Documents → Bytes → ℤ → List Change → StoreResult Documents
  unfolding change_document
  change docs uri version [] = err no_changes
  change docs uri version (c ∷ cs) = elim (lookup uri docs) [
    | none ↦ err not_open
    | some current ↦ change_document docs uri version (c ∷ cs) current
  ]

  pub close : Documents → Bytes → Documents
  close docs uri = delete uri docs

  pub close_all : Documents → Documents
  close_all docs = []

  -- `saveText` under the lock: the document must still be at the version.
  pub save_current :
      Documents → Bytes → ℤ → Bytes → Option Tree → Option Document → StoreResult Documents
  save_current docs uri version source tree none = err changed_concurrently
  save_current docs uri version source tree (some current) =
      if eq_ℤ current.version version
      then ok (insert uri (document current.file_path current.version source tree) docs)
      else err changed_concurrently

  pub save_parsed : Documents → Bytes → ℤ → Bytes → Parsed Tree → StoreResult Documents
  unfolding save_current
  save_parsed docs uri version source failed = err parse_failed
  save_parsed docs uri version source (parsed tree) =
      save_current docs uri version source tree (lookup uri docs)

  -- The second half of `Save`, for the version that the first half has read. Other methods may have
  -- run since.
  pub save_text : Documents → Bytes → ℤ → Bytes → StoreResult Documents
  unfolding save_parsed
  save_text docs uri version text = do
    source ← checked text
    save_parsed docs uri version source (parse source none)

  pub save : Documents → Bytes → Option Bytes → StoreResult Documents
  unfolding save_text
  save docs uri text = elim (lookup uri docs) [
    | none ↦ err not_open
    | some current ↦ elim text [ none ↦ ok docs | some t ↦ save_text docs uri current.version t ]
  ]
