-- ===== src/Schema/Index/Owners.antt =====
-- Whose field a declared access of the table of queries leads to.
use pogo.Prelude.{
  ◌≡◌, refl, subst, ◌⊎◌, inl, inr, Bool, true, false, not, ◌&&◌, List, [], ◌∷◌, Option, none, some,
  arith, if◌then◌else◌, Bytes, bytes_eq, bytes_eq_iff, lookup, insert, lookup-insert, lookup_nil,
  ◌≤◌, All, Bool-cases, Option-cases, codes, leb,
}
use pogo.Schema.{
  FieldRef, FieldAccess, FieldAccessKind, declared, attname_access, reverse, kind_order,
  AccessTable, is_unnamed, put_access, add_access,
}
use pogo.Schema.Index.{
  Tables, no_tables, nonempty_or, is_reverse, add_declared, index_fields, ModelIndex, no_table,
  model_index, build_index,
}
use pogo.Schema.Access.{KindAtMost}
use pogo.Schema.Index.Names.{
  OwnDeclared, index_field, index_declared-query, index_reverse-query, index_fields-OwnDeclared,
}

-- The field that a declared access may lead to under a name: one of that name, or, under `pk`, an
-- effective primary key.
abbrev pub MayOwn : Bytes → FieldRef → Type 0
MayOwn n ref = (ref.field.name ≡ n) ⊎ ((n ≡ codes "pk") × (ref.field.effective_primary_key ≡ true))

abbrev pub OwnerAt : Bytes → Option FieldAccess → Type 0
OwnerAt n none = Unit {0}
OwnerAt n (some a) = (leb 1 (kind_order a.kind) ≡ true) ⊎ MayOwn n a.field

abbrev pub Owned : AccessTable → Type 0
Owned t = (n : Bytes) → OwnerAt n (lookup n t.by_name)

put_access-Owned :
    (t : AccessTable) (a : FieldAccess) → OwnerAt a.name (some a) → Owned t → Owned (put_access t a)
unfolding put_access
put_access-Owned t a here owned n = elim (Bool-cases (bytes_eq a.name n)) [
  | inl same ↦
      let e : lookup n (insert a.name a t.by_name) ≡ some a =
        ground (arith, lookup-insert a.name n a t.by_name) in
      rw e (subst (λ m. OwnerAt m (some a)) ((bytes_eq_iff a.name n).0 same) here)
  | inr other ↦
      let e : lookup n (insert a.name a t.by_name) ≡ lookup n t.by_name =
        ground (arith, lookup-insert a.name n a t.by_name) in
      rw e (owned n)
]

if-Owned :
    (b : Bool) (t u : AccessTable)
    → (b ≡ true → Owned t)
    → (b ≡ false → Owned u)
    → Owned (if b then t else u)
if-Owned true t u ht hu = ht refl
if-Owned false t u ht hu = hu refl

add_access-Owned :
    (t : AccessTable) (name : Bytes) (kind : FieldAccessKind) (ref : FieldRef)
    → OwnerAt name (some (record { name = name; kind = kind; field = ref }))
    → Owned t
    → Owned (add_access t name kind ref)
unfolding add_access
add_access-Owned t name kind ref here owned =
    let a : FieldAccess = record { name = name; kind = kind; field = ref } in
    let put = put_access-Owned t a here owned in
    elim (Option-cases (lookup name t.by_name)) [
      | inl free ↦ rw free (if-Owned (is_unnamed name) t (put_access t a) (λ e. owned) (λ e. put))
      | inr (b, taken) ↦ rw taken (
          if-Owned (is_unnamed name) t
            (if leb (kind_order b.kind) (kind_order kind) then t else put_access t a) (λ e. owned)
            (λ e.
              if-Owned (leb (kind_order b.kind) (kind_order kind)) t (put_access t a) (λ e. owned)
                (λ e. put)))
    ]

primary_key_part : (a b : Bool) → (a && b) ≡ true → a ≡ true
primary_key_part a b h = ground arith

add_declared-Owned : (t : AccessTable) (ref : FieldRef) → Owned t → Owned (add_declared t ref)
unfolding add_declared
add_declared-Owned t ref owned =
    let field = ref.field in
    let named = add_access t field.name declared ref in
    let other = not (bytes_eq field.name (codes "pk")) in
    let key = field.effective_primary_key && other in
    let keyed = if key then add_access named (codes "pk") declared ref else named in
    let attname = nonempty_or field.attname field.name in
    let one = add_access-Owned t field.name declared ref (inr (inl refl)) owned in
    let two =
      if-Owned key (add_access named (codes "pk") declared ref) named
        (λ e.
          add_access-Owned named (codes "pk") declared ref
            (inr (inr (refl, primary_key_part field.effective_primary_key other e))) one)
        (λ e. one) in
    if-Owned (bytes_eq attname field.name) keyed (add_access keyed attname attname_access ref)
      (λ e. two) (λ e. add_access-Owned keyed attname attname_access ref (inl refl) two)

index_field-Owned :
    (t u : Tables) (ref : FieldRef) → Owned t.query → index_field t ref ≡ some u → Owned u.query
index_field-Owned t u ref owned h = elim (Bool-cases (is_reverse ref.field)) [
  | inl back ↦ subst Owned (index_reverse-query t u ref (ground arith)) (
      add_access-Owned t.query (nonempty_or ref.field.query_name ref.field.name) reverse ref
        (inl refl) owned)
  | inr own ↦
      subst Owned (index_declared-query t u ref (ground arith))
        (add_declared-Owned t.query ref owned)
]

pub index_fields-Owned :
    (t u : Tables) (refs : List FieldRef)
    → Owned t.query
    → index_fields t refs ≡ some u
    → Owned u.query
unfolding index_fields
index_fields-Owned t u [] owned h = let e : t ≡ u = cc in subst (λ s. Owned s.query) e owned
index_fields-Owned t u (ref ∷ refs) owned h = elim (Option-cases (index_field t ref)) [
  | inl failed ↦ absurd (ground arith)
  | inr (v, first) ↦
      index_fields-Owned v u refs (index_field-Owned t v ref owned first) (ground arith)
]

-- A field that is not reverse and has a name is found under it as declared, and the field found is
-- one that may own the name.
abbrev pub OwnName : AccessTable → FieldRef → Type 0
OwnName table ref =
    (is_reverse ref.field ≡ true)
    ⊎ (is_unnamed ref.field.name ≡ true)
    ⊎ ((a : FieldAccess) × (lookup ref.field.name table.by_name ≡ some a)
        × (a.kind ≡ declared)
        × MayOwn ref.field.name a.field)

declared_of_order : (k : FieldAccessKind) → kind_order k ≤ 0 → k ≡ declared
declared_of_order k h = ground arith

owner_of :
    (n : Bytes) (o : Option FieldAccess)
    → KindAtMost o 0
    → OwnerAt n o
    → (a : FieldAccess) × (o ≡ some a) × (a.kind ≡ declared) × MayOwn n a.field
owner_of n none h owner = absurd h
owner_of n (some a) h (inl weak) = absurd (ground (arith, h, weak))
owner_of n (some a) h (inr owns) = (a, refl, declared_of_order a.kind h, owns)

OwnDeclared-OwnName :
    (t : AccessTable) (ref : FieldRef) → Owned t → OwnDeclared t ref → OwnName t ref
OwnDeclared-OwnName t ref owned (inl back) = inl back
OwnDeclared-OwnName t ref owned (inr (inl unnamed)) = inr (inl unnamed)
OwnDeclared-OwnName t ref owned (inr (inr h)) =
    inr (inr (owner_of ref.field.name (lookup ref.field.name t.by_name) h (owned ref.field.name)))

All-OwnName :
    (t : AccessTable) (refs : List FieldRef)
    → Owned t
    → All (OwnDeclared t) refs
    → All (OwnName t) refs
All-OwnName t [] owned h = tt
All-OwnName t (ref ∷ refs) owned (first, rest) =
    (OwnDeclared-OwnName t ref owned first, All-OwnName t refs owned rest)

no_table-Owned : Owned no_table
no_table-Owned n = rw (lookup_nil {V = FieldAccess} n) tt

-- In a built index every field that is not a reverse one, and whose name is neither empty nor
-- "+", has in queries a declared access under its own name, whatever attnames and accessors the
-- other fields have; and this access leads to a field of that name, or, if the name is `pk`,
-- perhaps to an effective primary key.
pub build_index-OwnName :
    (refs : List FieldRef) (index : ModelIndex)
    → build_index refs ≡ some index
    → All (OwnName index.query) refs
unfolding build_index
build_index-OwnName refs index h = elim (Option-cases (index_fields no_tables refs)) [
  | inl failed ↦ absurd (ground arith)
  | inr (t, tables) ↦
      let e : model_index t ≡ index = ground arith in
      subst (λ i. All (OwnName i.query) refs) e
        (All-OwnName t.query refs (index_fields-Owned no_tables t refs no_table-Owned tables)
          (index_fields-OwnDeclared no_tables t refs tables))
]
