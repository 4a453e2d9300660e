-- ===== src/Store/Documents/Inversion.antt =====
-- What a method of the document store has found and stored when it succeeds.
use pogo.Prelude.{
  ◌≡◌, refl, subst, inl, inr, true, false, List, [], ◌∷◌, Option, none, some, arith, ℤ, leb_ℤ, eq_ℤ,
  Option-cases, Bool-cases, Bytes, lookup, insert,
}
use pogo.Store.{
  Change, Parsed, failed, parsed, Parser, ok, ◌>>=◌, >>=-eq-ok, checked, Pending, change_all,
}
use pogo.Store.Changes.{IsAccepted}
use pogo.Store.Documents.{
  Document, Documents, document, store_parsed, open_file, edited_tree, reparse, pending,
  change_document, change, save_current, save_parsed, save_text,
}

pub checked_inv :
    (source : Bytes) {t : Bytes} → checked source ≡ ok t → (t ≡ source) × IsAccepted source
unfolding checked
checked_inv source h = ground arith

module _ (parser : Parser) where
  open parser use {Tree, parse}

  pub store_parsed_inv :
      (docs : Documents parser) (uri path : Bytes) (version : ℤ) (source : Bytes) (p : Parsed Tree)
      {docs' : Documents parser}
      → store_parsed parser docs uri path version source p ≡ ok docs'
      → (tree : Option Tree) × (p ≡ parsed tree)
        × (docs' ≡ insert uri (document parser path version source tree) docs)
  unfolding store_parsed
  store_parsed_inv docs uri path version source failed h = absurd (cc)
  store_parsed_inv docs uri path version source (parsed tree) h = (tree, refl, cc)

  -- What a successful `Change` has found and stored.
  pub record Changed (docs docs' : Documents parser) (uri : Bytes) (version : ℤ) (cs : List Change)
      : Type 0 where
    pub current : Document parser
    pub state : Pending
    pub tree : Option Tree
    pub found : lookup uri docs ≡ some current
    pub newer : leb_ℤ version current.version ≡ false
    pub ran : change_all (pending parser current) cs ≡ ok state
    pub accepted : IsAccepted state.source
    pub reparsed :
        reparse parser state.source (edited_tree parser state.incremental current.tree state.edits)
        ≡ parsed tree
    pub stored :
        docs' ≡ insert uri (document parser current.file_path version state.source tree) docs

  change_document_inv :
      (docs docs' : Documents parser) (uri : Bytes) (version : ℤ) (cs : List Change)
      (current : Document parser)
      → lookup uri docs ≡ some current
      → change_document parser docs uri version cs current ≡ ok docs'
      → Changed docs docs' uri version cs
  unfolding change_document
  change_document_inv docs docs' uri version cs current found h =
      elim (Bool-cases (leb_ℤ version current.version)) [
        | inl stale ↦ absurd (ground arith)
        | inr newer ↦
            let (s, ran, rest) =
              >>=-eq-ok (change_all (pending parser current) cs)
                (λ s. checked s.source >>= λ source.
                  store_parsed parser docs uri current.file_path version source
                    (reparse parser source (edited_tree parser s.incremental current.tree s.edits)))
                (ground arith) in
            let (source, check, rest') =
              >>=-eq-ok (checked s.source)
                (λ source.
                  store_parsed parser docs uri current.file_path version source
                    (reparse parser source (edited_tree parser s.incremental current.tree s.edits)))
                rest in
            let (same, accepted) = checked_inv s.source check in
            let (tree, reparsed, stored) =
              store_parsed_inv docs uri current.file_path version s.source
                (reparse parser s.source (edited_tree parser s.incremental current.tree s.edits))
                (subst
                  (λ x.
                    store_parsed parser docs uri current.file_path version x
                      (reparse parser x (edited_tree parser s.incremental current.tree s.edits))
                    ≡ ok docs')
                  same rest') in
            record {
              current = current;
              state = s;
              tree = tree;
              found = found;
              newer = newer;
              ran = ran;
              accepted = accepted;
              reparsed = reparsed;
              stored = stored;
            }
      ]

  pub change_inv :
      (docs docs' : Documents parser) (uri : Bytes) (version : ℤ) (cs : List Change)
      → change parser docs uri version cs ≡ ok docs'
      → Changed docs docs' uri version cs
  unfolding change
  change_inv docs docs' uri version [] h = absurd (cc)
  change_inv docs docs' uri version (c ∷ cs) h = elim (Option-cases (lookup uri docs)) [
    | inl closed ↦ absurd (ground arith)
    | inr (current, found) ↦
        change_document_inv docs docs' uri version (c ∷ cs) current found (ground arith)
  ]

  -- A successful `OpenFile` has stored the accepted text with the tree of a full parse.
  pub open_file_inv :
      (docs docs' : Documents parser) (uri path : Bytes) (version : ℤ) (text : Bytes)
      → open_file parser docs uri path version text ≡ ok docs'
      → (tree : Option Tree) × IsAccepted text
        × (parse text none ≡ parsed tree)
        × (docs' ≡ insert uri (document parser path version text tree) docs)
  unfolding open_file
  open_file_inv docs docs' [] path version text h = absurd (cc)
  open_file_inv docs docs' (u ∷ uri) path version text h =
      let (source, check, rest) =
        >>=-eq-ok (checked text)
          (λ source. store_parsed parser docs (u ∷ uri) path version source (parse source none))
          h in
      let (same, accepted) = checked_inv text check in
      let (tree, full, stored) =
        store_parsed_inv docs (u ∷ uri) path version text (parse text none) (
          subst (λ x. store_parsed parser docs (u ∷ uri) path version x (parse x none) ≡ ok docs')
            same rest) in
      (tree, accepted, full, stored)

  -- What a successful second half of `Save` has found and stored.
  pub record Saved (docs docs' : Documents parser) (uri : Bytes) (version : ℤ) (text : Bytes)
      : Type 0 where
    pub current : Document parser
    pub tree : Option Tree
    pub accepted : IsAccepted text
    pub full : parse text none ≡ parsed tree
    pub found : lookup uri docs ≡ some current
    pub same_version : eq_ℤ current.version version ≡ true
    pub stored :
        docs' ≡ insert uri (document parser current.file_path current.version text tree) docs

  save_current_inv :
      (docs docs' : Documents parser) (uri : Bytes) (version : ℤ) (text : Bytes)
      (tree : Option Tree)
      → IsAccepted text
      → parse text none ≡ parsed tree
      → save_current parser docs uri version text tree (lookup uri docs) ≡ ok docs'
      → Saved docs docs' uri version text
  unfolding save_current
  save_current_inv docs docs' uri version text tree accepted full h =
      elim (Option-cases (lookup uri docs)) [
        | inl closed ↦ absurd (ground arith)
        | inr (current, found) ↦ record {
          current = current;
          tree = tree;
          accepted = accepted;
          full = full;
          found = found;
          same_version = ground arith;
          stored = ground arith;
        }
      ]

  save_parsed_inv :
      (docs docs' : Documents parser) (uri : Bytes) (version : ℤ) (text : Bytes) (p : Parsed Tree)
      → IsAccepted text
      → parse text none ≡ p
      → save_parsed parser docs uri version text p ≡ ok docs'
      → Saved docs docs' uri version text
  unfolding save_parsed
  save_parsed_inv docs docs' uri version text failed accepted full h = absurd (cc)
  save_parsed_inv docs docs' uri version text (parsed tree) accepted full h =
      save_current_inv docs docs' uri version text tree accepted full h

  pub save_text_inv :
      (docs docs' : Documents parser) (uri : Bytes) (version : ℤ) (text : Bytes)
      → save_text parser docs uri version text ≡ ok docs'
      → Saved docs docs' uri version text
  unfolding save_text
  save_text_inv docs docs' uri version text h =
      let (source, check, rest) =
        >>=-eq-ok (checked text)
          (λ source. save_parsed parser docs uri version source (parse source none)) h in
      let (same, accepted) = checked_inv text check in
      save_parsed_inv docs docs' uri version text (parse text none) accepted refl
        (subst (λ x. save_parsed parser docs uri version x (parse x none) ≡ ok docs') same rest)
