-- ===== src/Store/Documents/Versions.antt =====
-- What a successful `Change` and a late save do to the map of documents.
use pogo.Prelude.{
  ℕ, ◌≡◌, ◌≢◌, refl, ap, subst, inl, inr, List, [], ◌∷◌, none, some, arith, ℤ, ◌<ℤ◌, ◌≤◌, Bytes,
  bytes_eq_iff, bytes_eq_refl, lookup, lookup-insert,
}
use pogo.Position.{byte_offset}
use pogo.Edit.{splice}
use pogo.Store.{Range, Change, Parser, ok, Pending, change_all}
use pogo.Store.Changes.{change_one_inv, change_all_nil_inv, change_all_cons_inv}
use pogo.Store.Documents.{Document, Documents, document, pending, change}
use pogo.Store.Documents.Inversion.{change_inv}

-- What the Language Server Protocol says of a list of changes: each one replaces the whole text, or
-- the text between two positions of the text that the changes before it have left.
pub data Applies : Bytes → List Change → Bytes → Type 0 where
  no_change : {s d : Bytes} → s ≡ d → Applies s [] d
  whole_text :
      {s d : Bytes} {c : Change} {cs : List Change}
      → c.range ≡ none
      → Applies c.text cs d
      → Applies s (c ∷ cs) d
  text_between :
      {s m d : Bytes} {c : Change} {cs : List Change} (r : Range) (start end : ℕ)
      → c.range ≡ some r
      → byte_offset s r.start ≡ some start
      → byte_offset s r.end ≡ some end
      → start ≤ end
      → m ≡ splice s start end c.text
      → Applies m cs d
      → Applies s (c ∷ cs) d

change_all-Applies :
    (s t : Pending) (cs : List Change) → change_all s cs ≡ ok t → Applies s.source cs t.source
change_all-Applies s t [] h = no_change (ap (λ p. p.source) (change_all_nil_inv s t h))
change_all-Applies s t (c ∷ cs) h =
    let (u, one, rest) = change_all_cons_inv s t c cs h in
    let onward = change_all-Applies u t cs rest in
    elim (change_one_inv s u c one) [
      | inl (whole, eq) ↦ whole_text whole (subst (λ m. Applies m cs t.source) eq onward)
      | inr (r, ranged, i) ↦
          text_between r i.start i.end ranged i.at_start i.at_end i.ordered i.source_eq onward
    ]

module _ (parser : Parser) where
  -- The effect of a change on the map of documents.
  pub record Advances (docs docs' : Documents parser) (uri : Bytes) (version : ℤ) (cs : List Change)
      : Type 0 where
    pub before : Document parser
    pub after : Document parser
    pub was : lookup uri docs ≡ some before
    pub is : lookup uri docs' ≡ some after
    pub newer : before.version <ℤ after.version
    pub version_eq : after.version ≡ version
    pub path_eq : after.file_path ≡ before.file_path
    pub applied : Applies before.source cs after.source
    pub others : (other : Bytes) → uri ≢ other → lookup other docs' ≡ lookup other docs

  -- A `Change` that returns no error had an open document of an older version. It stores the
  -- given version, keeps the file path and every other document, and its text is the old one with
  -- the changes applied in order, each to the text that the ones before it have left.
  pub change-Advances :
      (docs docs' : Documents parser) (uri : Bytes) (version : ℤ) (cs : List Change)
      → change parser docs uri version cs ≡ ok docs'
      → Advances docs docs' uri version cs
  change-Advances docs docs' uri version cs h =
      let c = change_inv parser docs docs' uri version cs h in
      let new = document parser c.current.file_path version c.state.source c.tree in
      record {
        before = c.current;
        after = new;
        was = c.found;
        is =
            ground
              (arith, ap (lookup uri) c.stored, lookup-insert uri uri new docs, bytes_eq_refl uri);
        newer = ground (arith, c.newer);
        version_eq = refl;
        path_eq = refl;
        applied = change_all-Applies (pending parser c.current) c.state cs c.ran;
        others = λ other ne. ground (
          arith,
          ap (lookup other) c.stored,
          lookup-insert uri other new docs,
          bytes_eq_iff uri other,
        );
      }
