-- ===== src/Store/Documents/Invariant.antt =====
-- What every sequence of method calls on the document store keeps.
use mathlib.Core.List.{foldl}
use pogo.Prelude.{
  ◌≡◌, ◌≢◌, refl, ap, subst, ◌∙◌, inl, inr, Bool, true, false, List, [], ◌∷◌, Option, none, some,
  arith, ℤ, Option-cases, Bool-cases, Bytes, bytes_eq, lookup, insert, delete, lookup-insert,
  lookup-delete, lookup_nil,
}
use pogo.Edit.{has_non_ascii}
use pogo.Store.{Change, InputEdit, Parsed, failed, parsed, Parser, StoreResult, ok, err, Pending}
use pogo.Store.Changes.{IsAccepted, EditsTo, no_edit, Tracks, change_all-Tracks}
use pogo.Store.Documents.{
  Document, Documents, document, open_file, starts_incremental, edited_tree, judge, reparse,
  pending, change, close, close_all, save_text, save,
}
use pogo.Store.Documents.Inversion.{change_inv, open_file_inv, save_text_inv}

-- The calls that reach the store. `late_save` is the second half of a `Save` whose first half read
-- the version earlier, with other calls in between.
pub data Event : Type 0 where
  open_event : Bytes → Bytes → ℤ → Bytes → Event
  change_event : Bytes → ℤ → List Change → Event
  close_event : Bytes → Event
  close_all_event : Event
  save_event : Bytes → Option Bytes → Event
  late_save : Bytes → ℤ → Bytes → Event

module _ (parser : Parser) where
  open parser use {Tree, parse, root_has_error, copy, edit, extract_syntax, extract_calls}

  pub attempt : Documents parser → Event → StoreResult (Documents parser)
  attempt docs (open_event uri path version text) = open_file parser docs uri path version text
  attempt docs (change_event uri version changes) = change parser docs uri version changes
  attempt docs (close_event uri) = ok (close parser docs uri)
  attempt docs close_all_event = ok (close_all parser docs)
  attempt docs (save_event uri text) = save parser docs uri text
  attempt docs (late_save uri version text) = save_text parser docs uri version text

  -- A call that returns an error has stored nothing.
  abbrev pub settle : Documents parser → StoreResult (Documents parser) → Documents parser
  settle docs (ok docs') = docs'
  settle docs (err e) = docs

  pub run : Documents parser → List Event → Documents parser
  unfolding attempt
  run docs [] = docs
  run docs (e ∷ es) = run (settle docs (attempt docs e)) es

  -- What `Change` relies on of tree-sitter: a copy of a tree is the same tree, a parse that reuses a
  -- tree gives a tree or fails, and where the old text is ASCII, the old tree and the new one have no
  -- errors and the edits lead from the old text to the new one, that tree is the one of a full parse.
  pub record ReparseLaws : Type 0 where
    pub copy_same : (t c : Tree) → copy t ≡ some c → c ≡ t
    pub never_nil : (s : Bytes) (t : Tree) → parse s (some t) ≢ parsed none
    pub incremental_full :
        (old new : Bytes) (es : List InputEdit) (t n : Tree)
        → parse old none ≡ parsed (some t)
        → root_has_error t ≡ false
        → has_non_ascii old ≡ false
        → EditsTo old es new
        → parse new (some (foldl edit t es)) ≡ parsed (some n)
        → root_has_error n ≡ false
        → parse new none ≡ parsed (some n)

  -- The stored text is accepted, and the tree and what is read off it are those of a full parse.
  pub record IsCurrent (d : Document parser) : Type 0 where
    pub accepted : IsAccepted d.source
    pub full : parse d.source none ≡ parsed d.tree
    pub syntax_eq : d.syntax ≡ extract_syntax d.tree d.source
    pub calls_eq : d.calls ≡ extract_calls d.tree d.source

  abbrev pub AllCurrent : Documents parser → Type 0
  AllCurrent docs = (uri : Bytes) (d : Document parser) → lookup uri docs ≡ some d → IsCurrent d

  AllCurrent-insert :
      (docs docs' : Documents parser) (uri : Bytes) (new : Document parser)
      → AllCurrent docs
      → IsCurrent new
      → docs' ≡ insert uri new docs
      → AllCurrent docs'
  AllCurrent-insert docs docs' uri new all current eq k d h = elim (Bool-cases (bytes_eq uri k)) [
    | inl same ↦
        subst IsCurrent (ground (arith, lookup-insert uri k new docs, ap (lookup k) eq)) current
    | inr other ↦ all k d (ground (arith, lookup-insert uri k new docs, ap (lookup k) eq))
  ]

  AllCurrent-delete :
      (docs : Documents parser) (uri : Bytes) → AllCurrent docs → AllCurrent (delete uri docs)
  AllCurrent-delete docs uri all k d h = all k d (ground (arith, lookup-delete uri k docs))

  module _ (laws : ReparseLaws) where
    judge-full :
        (old new : Bytes) (es : List InputEdit) (t : Tree) (tree : Option Tree) (p : Parsed Tree)
        → parse old none ≡ parsed (some t)
        → root_has_error t ≡ false
        → has_non_ascii old ≡ false
        → EditsTo old es new
        → parse new (some (foldl edit t es)) ≡ p
        → judge parser new p ≡ parsed tree
        → parse new none ≡ parsed tree
    unfolding judge
    judge-full old new es t tree failed was good ascii to first h = h
    judge-full old new es t tree (parsed none) was good ascii to first h =
        absurd (laws.never_nil new (foldl edit t es) first)
    judge-full old new es t tree (parsed (some n)) was good ascii to first h =
        elim (Bool-cases (root_has_error n)) [
          | inl bad ↦ ground arith
          | inr fine ↦
              laws.incremental_full old new es t n was good ascii to first fine ∙ ground arith
        ]

    starts_incremental_inv :
        (d : Document parser) (t : Tree)
        → d.tree ≡ some t
        → starts_incremental parser d ≡ true
        → (root_has_error t ≡ false) × (has_non_ascii d.source ≡ false)
    unfolding starts_incremental
    starts_incremental_inv d t e h = (ground arith, ground arith)

    -- Whatever the loop has recorded, the new tree is that of a full parse of the new text.
    reparse-full :
        (current : Document parser) (s : Pending) (old tree : Option Tree) (on : Bool)
        → IsCurrent current
        → current.tree ≡ old
        → s.incremental ≡ on
        → Tracks current.source (starts_incremental parser current) s
        → reparse parser s.source (edited_tree parser on old s.edits) ≡ parsed tree
        → parse s.source none ≡ parsed tree
    unfolding reparse edited_tree
    reparse-full current s old tree false good old_eq on_eq tracks h = h
    reparse-full current s none tree true good old_eq on_eq tracks h = h
    reparse-full current s (some t) tree true good old_eq on_eq tracks h =
        let (first, _, to) = tracks on_eq in
        elim (Option-cases (copy t)) [
          | inl no_copy ↦ ground arith
          | inr (c, copied) ↦
              let same = laws.copy_same t c copied in
              let (good_root, ascii) = starts_incremental_inv current t old_eq first in
              judge-full current.source s.source s.edits t tree
                (parse s.source (some (foldl edit t s.edits))) (good.full ∙ ap parsed old_eq)
                good_root ascii to refl
                (subst
                  (λ x.
                    judge parser s.source (parse s.source (some (foldl edit x s.edits)))
                    ≡ parsed tree)
                  same (ground arith))
        ]

    change-AllCurrent :
        (docs docs' : Documents parser) (uri : Bytes) (version : ℤ) (cs : List Change)
        → AllCurrent docs
        → change parser docs uri version cs ≡ ok docs'
        → AllCurrent docs'
    change-AllCurrent docs docs' uri version cs all h =
        let c = change_inv parser docs docs' uri version cs h in
        let good = all uri c.current c.found in
        AllCurrent-insert docs docs' uri
          (document parser c.current.file_path version c.state.source c.tree) all
          (record {
            accepted = c.accepted;
            full =
                reparse-full c.current c.state c.current.tree c.tree c.state.incremental good refl
                  refl
                  (change_all-Tracks c.current.source (starts_incremental parser c.current)
                    (pending parser c.current) c.state cs (λ on. (on, good.accepted, no_edit))
                    c.ran)
                  c.reparsed;
            syntax_eq = refl;
            calls_eq = refl;
          })
          c.stored

  open_file-AllCurrent :
      (docs docs' : Documents parser) (uri path : Bytes) (version : ℤ) (text : Bytes)
      → AllCurrent docs
      → open_file parser docs uri path version text ≡ ok docs'
      → AllCurrent docs'
  open_file-AllCurrent docs docs' uri path version text all h =
      let (tree, accepted, full, stored) =
        open_file_inv parser docs docs' uri path version text h in
      AllCurrent-insert docs docs' uri (document parser path version text tree) all
        (record { accepted = accepted; full = full; syntax_eq = refl; calls_eq = refl }) stored

  save_text-AllCurrent :
      (docs docs' : Documents parser) (uri : Bytes) (version : ℤ) (text : Bytes)
      → AllCurrent docs
      → save_text parser docs uri version text ≡ ok docs'
      → AllCurrent docs'
  save_text-AllCurrent docs docs' uri version text all h =
      let s = save_text_inv parser docs docs' uri version text h in
      AllCurrent-insert docs docs' uri
        (document parser s.current.file_path s.current.version text s.tree) all
        (record { accepted = s.accepted; full = s.full; syntax_eq = refl; calls_eq = refl })
        s.stored

  save-AllCurrent :
      (docs docs' : Documents parser) (uri : Bytes) (text : Option Bytes)
      → AllCurrent docs
      → save parser docs uri text ≡ ok docs'
      → AllCurrent docs'
  unfolding save
  save-AllCurrent docs docs' uri none all h = elim (Option-cases (lookup uri docs)) [
    | inl closed ↦ absurd (ground arith)
    | inr (current, found) ↦ let e : docs ≡ docs' = ground arith in subst AllCurrent e all
  ]
  save-AllCurrent docs docs' uri (some text) all h = elim (Option-cases (lookup uri docs)) [
    | inl closed ↦ absurd (ground arith)
    | inr (current, found) ↦
        save_text-AllCurrent docs docs' uri current.version text all (ground arith)
  ]

  attempt-AllCurrent :
      (laws : ReparseLaws) (docs docs' : Documents parser) (e : Event)
      → AllCurrent docs
      → attempt docs e ≡ ok docs'
      → AllCurrent docs'
  unfolding attempt close close_all
  attempt-AllCurrent laws docs docs' (open_event uri path version text) all h =
      open_file-AllCurrent docs docs' uri path version text all h
  attempt-AllCurrent laws docs docs' (change_event uri version cs) all h =
      change-AllCurrent laws docs docs' uri version cs all h
  attempt-AllCurrent laws docs docs' (close_event uri) all h =
      let e : delete uri docs ≡ docs' = cc in subst AllCurrent e (AllCurrent-delete docs uri all)
  attempt-AllCurrent laws docs docs' close_all_event all h =
      let e : [] ≡ docs' = cc in
      subst AllCurrent e (λ k d found. absurd (cc (lookup_nil {V = Document parser} k)))
  attempt-AllCurrent laws docs docs' (save_event uri text) all h =
      save-AllCurrent docs docs' uri text all h
  attempt-AllCurrent laws docs docs' (late_save uri version text) all h =
      save_text-AllCurrent docs docs' uri version text all h

  settle-AllCurrent :
      (docs : Documents parser) (r : StoreResult (Documents parser))
      → AllCurrent docs
      → ((docs' : Documents parser) → r ≡ ok docs' → AllCurrent docs')
      → AllCurrent (settle docs r)
  settle-AllCurrent docs (ok docs') all kept = kept docs' refl
  settle-AllCurrent docs (err e) all kept = all

  -- Let the copy of a tree be that tree; let a parse that reuses a tree never give nil without an
  -- error; and let it give the tree of a full parse if the old text is ASCII, the old tree, which
  -- is that of a full parse, and the new one have no errors, and the edits describe the way from
  -- the old text to the new one. Then, from documents that are as said here, after any calls, in
  -- any order and with any outcomes, every open document has a text of at most 4 MiB of valid
  -- UTF-8, the tree of a full parse of that very text, and the statements and calls read off that
  -- tree.
  pub run-AllCurrent :
      (laws : ReparseLaws) (docs : Documents parser) (es : List Event)
      → AllCurrent docs
      → AllCurrent (run docs es)
  unfolding run
  run-AllCurrent laws docs [] all = all
  run-AllCurrent laws docs (e ∷ es) all = run-AllCurrent laws (settle docs (attempt docs e)) es (
      settle-AllCurrent docs (attempt docs e) all
        (λ docs' h. attempt-AllCurrent laws docs docs' e all h))
