-- ===== src/Store.antt =====
-- internal/analysis/document.go: the store of open documents. The parser is tree-sitter's, a
-- parameter; the syntax and the calls of a document are queries over the parser's nodes, and are
-- taken from it too.
pub mod Documents
pub mod Changes
use pogo.Prelude.{
  ℕ, ◌+◌, ◌≡◌, refl, Bool, true, false, not, ◌&&◌, List, [], ◌∷◌, ◌++◌, Option, none, some, ltb, ℤ,
  leb_ℤ, eq_ℤ, if◌then◌else◌, is_some, u32, length, Bytes, bytes_eq,
}
use pogo.Utf8.{valid}
use pogo.Position.{Position, byte_offset}
use pogo.Edit.{
  Point, point_for_offset, replacement_end_point, has_non_ascii, SourceError, validate_source,
  splice,
}

pub record Range : Type 0 where
  pub start : Position
  pub end : Position

-- A change of a whole document has no range.
pub record Change : Type 0 where
  pub range : Option Range
  pub text : Bytes

pub record ByteRange : Type 0 where
  pub start : ℕ
  pub end : ℕ

pub record SyntaxCall : Type 0 where
  pub range : ByteRange
  pub receiver : ByteRange
  pub arguments : ByteRange
  pub method : Bytes

pub record SyntaxStatement : Type 0 where
  pub start : ℕ
  pub end : ℕ
  pub text : Bytes
  pub scope_start : ℕ
  pub scope_end : ℕ
  pub scope_kind : Bytes
  pub scope_marker : Bool
  pub guarded : Bool

-- gotreesitter.InputEdit
pub record InputEdit : Type 0 where
  pub start_byte : ℕ  -- uint32
  pub old_end_byte : ℕ  -- uint32
  pub new_end_byte : ℕ  -- uint32
  pub start_point : Point
  pub old_end_point : Point
  pub new_end_point : Point

-- What `Store.parse` returns: an error, or a tree, which may be nil.
pub data Parsed {ℓ} (T : Type ℓ) : Type ℓ where
  failed : Parsed T
  parsed : Option T → Parsed T

-- The parser and the queries of the grammar.
pub record Parser : Type 1 where
  pub Tree : Type 0
  pub parse : Bytes → Option Tree → Parsed Tree
  pub root_has_error : Tree → Bool  -- the root is nil or has an error
  pub copy : Tree → Option Tree
  pub edit : Tree → InputEdit → Tree
  pub extract_syntax : Option Tree → Bytes → List SyntaxStatement
  pub extract_calls : Option Tree → Bytes → List SyntaxCall

pub data StoreError : Type 0 where
  uri_required no_changes not_open stale_version : StoreError
  bad_start bad_end bad_text parse_failed changed_concurrently : StoreError
  bad_source : SourceError → StoreError

pub data StoreResult {ℓ} (X : Type ℓ) : Type ℓ where
  err : StoreError → StoreResult X
  ok : X → StoreResult X

infixl 5 ◌>>=◌
abbrev pub ◌>>=◌ {ℓ κ} :
    {X : Type ℓ} {Y : Type κ} → StoreResult X → (X → StoreResult Y) → StoreResult Y
err e >>= next = err e
ok x >>= next = next x

-- `if err := validateSource(source); err != nil { return err }`
pub checked : Bytes → StoreResult Bytes
checked source = elim (validate_source source) [ none ↦ ok source | some e ↦ err (bad_source e) ]

-- The loop variables of `Change`.
pub record Pending : Type 0 where
  pub source : Bytes
  pub incremental : Bool
  pub edits : List InputEdit

abbrev pub input_edit : Bytes → ℕ → ℕ → Bytes → InputEdit
input_edit source start end replacement = record {
  start_byte = u32 start;
  old_end_byte = u32 end;
  new_end_byte = u32 (start + length replacement);
  start_point = point_for_offset source start;
  old_end_point = point_for_offset source end;
  new_end_point = replacement_end_point (point_for_offset source start) replacement;
}

pub resolve : Bytes → Position → StoreError → StoreResult ℕ
resolve source p e = elim (byte_offset source p) [ none ↦ err e | some offset ↦ ok offset ]

-- The body of the loop for a change with a range.
pub change_range : Pending → Range → Bytes → StoreResult Pending
unfolding checked resolve
change_range s range replacement = do
  start ← resolve s.source range.start bad_start
  end ← resolve s.source range.end bad_end
  if ltb end start then err bad_end else if not (valid replacement) then err bad_text else do
    updated ← checked (splice s.source start end replacement)
    ok (record {
      source = updated;
      incremental = s.incremental;
      edits =
          if s.incremental
          then s.edits ++ input_edit s.source start end replacement ∷ []
          else s.edits;
    })

pub change_one : Pending → Change → StoreResult Pending
unfolding change_range
change_one s c = elim c.range [
  | none ↦ ok (record { source = c.text; incremental = false; edits = [] })
  | some range ↦ change_range s range c.text
]

pub change_all : Pending → List Change → StoreResult Pending
unfolding change_one
change_all s [] = ok s
change_all s (c ∷ cs) = do t ← change_one s c; change_all t cs

-- The parts of a success in two steps.
pub >>=-eq-ok {ℓ κ} :
    {X : Type ℓ} {Y : Type κ} (first : StoreResult X) (next : X → StoreResult Y) {y : Y}
    → (first >>= next) ≡ ok y
    → (x : X) × (first ≡ ok x) × (next x ≡ ok y)
>>=-eq-ok (err e) next h = absurd (cc)
>>=-eq-ok (ok x) next h = (x, refl, h)
