-- ===== src/Store/Changes.antt =====
-- The loop of `Change`: what it does to the text, and what the recorded edits describe.
use pogo.Prelude.{
  ℕ, ◌+◌, ◌≤◌, ◌≡◌, refl, sym, ◌⊎◌, subst, ◌∙◌, inl, inr, Bool, true, List, [], ◌∷◌, ◌++◌, none,
  some, arith, Option-cases, length, length-append, length-take, take, drop, Bytes,
}
use pogo.Utf8.{valid}
use pogo.Position.{byte_offset}
use pogo.Position.RoundTrip.{byte_offset-le}
use pogo.Edit.{point_for_offset, validate_source, max_document_size, splice}
use pogo.Edit.Points.{replacement_end_point-splice}
use pogo.Store.{
  Range, Change, InputEdit, ok, Pending, input_edit, >>=-eq-ok, change_range, change_one,
  change_all,
}

-- A text that the store accepts.
abbrev pub IsAccepted : Bytes → Type 0
IsAccepted source = validate_source source ≡ none

pub IsAccepted-facts :
    (source : Bytes)
    → IsAccepted source
    → (valid source ≡ true) × (length source ≤ max_document_size)
unfolding validate_source
IsAccepted-facts source h = ground arith

-- What a change with a range has found, if it succeeds.
pub record Ranged (p q : Pending) (r : Range) (text : Bytes) : Type 0 where
  pub start : ℕ
  pub end : ℕ
  pub at_start : byte_offset p.source r.start ≡ some start
  pub at_end : byte_offset p.source r.end ≡ some end
  pub ordered : start ≤ end
  pub text_valid : valid text ≡ true
  pub source_eq : q.source ≡ splice p.source start end text
  pub accepted : IsAccepted q.source
  pub incremental_eq : q.incremental ≡ p.incremental
  pub edits_eq : p.incremental ≡ true → q.edits ≡ p.edits ++ input_edit p.source start end text ∷ []

pub change_range_inv :
    (p q : Pending) (r : Range) (text : Bytes) → change_range p r text ≡ ok q → Ranged p q r text
unfolding change_range
change_range_inv p q r text h = elim (Option-cases (byte_offset p.source r.start)) [
  | inl no_start ↦ absurd (ground arith)
  | inr (start, at_start) ↦ elim (Option-cases (byte_offset p.source r.end)) [
    | inl no_end ↦ absurd (ground arith)
    | inr (end, at_end) ↦ record {
      start = start;
      end = end;
      at_start = at_start;
      at_end = at_end;
      ordered = ground arith;
      text_valid = ground arith;
      source_eq = ground arith;
      accepted = ground arith;
      incremental_eq = ground arith;
      edits_eq = λ on. ground arith;
    }
  ]
]

-- An edit, as tree-sitter wants it, from the text `m` to the text `m'`.
pub record Describes (e : InputEdit) (m m' : Bytes) : Type 0 where
  pub start : ℕ
  pub end : ℕ
  pub replacement : Bytes
  pub ordered : start ≤ end
  pub inside : end ≤ length m
  pub result : m' ≡ splice m start end replacement
  pub start_byte_eq : e.start_byte ≡ start
  pub old_end_byte_eq : e.old_end_byte ≡ end
  pub new_end_byte_eq : e.new_end_byte ≡ start + length replacement
  pub start_point_eq : e.start_point ≡ point_for_offset m start
  pub old_end_point_eq : e.old_end_point ≡ point_for_offset m end
  pub new_end_point_eq : e.new_end_point ≡ point_for_offset m' (start + length replacement)

-- The edits lead from `base` to the last text, one after the other.
pub data EditsTo (base : Bytes) : List InputEdit → Bytes → Type 0 where
  no_edit : EditsTo base [] base
  one_more :
      {es fs : List InputEdit} {m m' : Bytes} (e : InputEdit)
      → EditsTo base es m
      → Describes e m m'
      → fs ≡ es ++ e ∷ []
      → EditsTo base fs m'

length-splice :
    (m : Bytes) (start end : ℕ) (replacement : Bytes)
    → start ≤ length m
    → start + length replacement ≤ length (splice m start end replacement)
unfolding splice
length-splice m start end replacement h = omega (
  arith,
  length-append (take start m) (replacement ++ drop end m),
  length-append replacement (drop end m),
  length-take start m,
)

input_edit-Describes :
    (m m' : Bytes) (start end : ℕ) (text : Bytes)
    → IsAccepted m
    → IsAccepted m'
    → start ≤ end
    → end ≤ length m
    → m' ≡ splice m start end text
    → Describes (input_edit m start end text) m m'
input_edit-Describes m m' start end text acc acc' ordered inside eq =
    let (_, small) = IsAccepted-facts m acc in
    let (_, small') = IsAccepted-facts m' acc' in
    let grown : start + length text ≤ length m' =
      rw eq (length-splice m start end text (omega arith)) in
    record {
      start = start;
      end = end;
      replacement = text;
      ordered = ordered;
      inside = inside;
      result = eq;
      start_byte_eq = omega arith;
      old_end_byte_eq = omega arith;
      new_end_byte_eq = omega arith;
      start_point_eq = refl;
      old_end_point_eq = refl;
      new_end_point_eq = rw eq (replacement_end_point-splice m text start end (omega arith));
    }

-- As long as the loop is incremental, it was so at first, and its edits lead from the old source to the present one.
abbrev pub Tracks : Bytes → Bool → Pending → Type 0
Tracks base first s =
    (s.incremental ≡ true) → (first ≡ true) × IsAccepted s.source × EditsTo base s.edits s.source

pub change_one_inv :
    (s t : Pending) (c : Change)
    → change_one s c ≡ ok t
    → ((c.range ≡ none) × (t.source ≡ c.text))
      ⊎ ((r : Range) × (c.range ≡ some r) × Ranged s t r c.text)
unfolding change_one
change_one_inv s t c h = elim (Option-cases c.range) [
  | inl whole ↦ inl (whole, ground arith)
  | inr (r, ranged) ↦ inr (r, ranged, change_range_inv s t r c.text (ground arith))
]

change_one-Tracks :
    (base : Bytes) (first : Bool) (s t : Pending) (c : Change)
    → Tracks base first s
    → change_one s c ≡ ok t
    → Tracks base first t
unfolding change_one
change_one-Tracks base first s t c tracks h on = elim (Option-cases c.range) [
  | inl whole ↦ absurd (ground arith)
  | inr (r, ranged) ↦
      let i = change_range_inv s t r c.text (ground arith) in
      let was : s.incremental ≡ true = sym i.incremental_eq ∙ on in
      let (start_on, acc, to) = tracks was in
      let (v, _) = IsAccepted-facts s.source acc in
      (
        start_on,
        i.accepted,
        one_more (input_edit s.source i.start i.end c.text) to
            (input_edit-Describes s.source t.source i.start i.end c.text acc i.accepted i.ordered
              (byte_offset-le s.source r.end i.end v i.at_end) i.source_eq)
            (i.edits_eq was),
      )
]

-- After any list of changes the recorded edits still describe the way from the old source.
pub change_all-Tracks :
    (base : Bytes) (first : Bool) (s t : Pending) (cs : List Change)
    → Tracks base first s
    → change_all s cs ≡ ok t
    → Tracks base first t
unfolding change_all
change_all-Tracks base first s t [] tracks h =
    let e : s ≡ t = cc in subst (Tracks base first) e tracks
change_all-Tracks base first s t (c ∷ cs) tracks h =
    let (u, one, rest) = >>=-eq-ok (change_one s c) (λ u. change_all u cs) h in
    change_all-Tracks base first u t cs (change_one-Tracks base first s u c tracks one) rest

pub change_all_nil_inv : (s t : Pending) → change_all s [] ≡ ok t → s ≡ t
unfolding change_all
change_all_nil_inv s t h = cc

pub change_all_cons_inv :
    (s t : Pending) (c : Change) (cs : List Change)
    → change_all s (c ∷ cs) ≡ ok t
    → (u : Pending) × (change_one s c ≡ ok u) × (change_all u cs ≡ ok t)
unfolding change_all
change_all_cons_inv s t c cs h = >>=-eq-ok (change_one s c) (λ u. change_all u cs) h
