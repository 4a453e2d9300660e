-- ===== src/Schema/Index/Names.antt =====
-- Under a field's own name there is a declared access, whatever is entered behind it.
use pogo.Prelude.{
  ℕ, ◌≡◌, subst, ◌⊎◌, inl, inr, Bool, true, false, not, ◌&&◌, List, [], ◌∷◌, Option, some, arith,
  if◌then◌else◌, Bytes, bytes_eq, bytes_eq_iff, Assoc, lookup, lookup-insert, All, Bool-cases,
  Option-cases, codes,
}
use pogo.Schema.{
  FieldRef, FieldAccess, FieldAccessKind, declared, attname_access, reverse, AccessTable,
  is_unnamed, put_access, add_access,
}
use pogo.Schema.Access.{KindAtMost, add_access-KindAtMost}
use pogo.Schema.Index.{
  Tables, nonempty_or, is_reverse, index_reverse, add_declared, index_declared, index_fields,
  with_relations,
}

KindAtMost-add_access :
    (t : AccessTable) (n name : Bytes) (kind : FieldAccessKind) (ref : FieldRef) (k : ℕ)
    → KindAtMost (lookup n t.by_name) k
    → KindAtMost (lookup n (add_access t name kind ref).by_name) k
unfolding add_access put_access
KindAtMost-add_access t n name kind ref k h = ground (
  arith,
  h,
  lookup-insert name n (record { name = name; kind = kind; field = ref }) t.by_name,
  bytes_eq_iff name n,
)

KindAtMost-if :
    (b : Bool) (n : Bytes) (t u : AccessTable) (k : ℕ)
    → KindAtMost (lookup n t.by_name) k
    → KindAtMost (lookup n u.by_name) k
    → KindAtMost (lookup n (if b then t else u).by_name) k
KindAtMost-if true n t u k ht hu = ht
KindAtMost-if false n t u k ht hu = hu

-- The names that are entered behind the own one keep what is known of a name.
KindAtMost-add_declared :
    (t : AccessTable) (n : Bytes) (ref : FieldRef) (k : ℕ)
    → KindAtMost (lookup n (add_access t ref.field.name declared ref).by_name) k
    → KindAtMost (lookup n (add_declared t ref).by_name) k
unfolding add_declared
KindAtMost-add_declared t n ref k h =
    let field = ref.field in
    let named = add_access t field.name declared ref in
    let key = field.effective_primary_key && not (bytes_eq field.name (codes "pk")) in
    let keyed = if key then add_access named (codes "pk") declared ref else named in
    let attname = nonempty_or field.attname field.name in
    let two =
      KindAtMost-if key n (add_access named (codes "pk") declared ref) named k
        (KindAtMost-add_access named n (codes "pk") declared ref k h) h in
    KindAtMost-if (bytes_eq attname field.name) n keyed
      (add_access keyed attname attname_access ref) k two
      (KindAtMost-add_access keyed n attname attname_access ref k two)

with_relations-query :
    (query instance_table : AccessTable) (q s p : Option (Assoc FieldAccess)) (u : Tables)
    → with_relations query instance_table q s p ≡ some u
    → query ≡ u.query
unfolding with_relations
with_relations-query query instance_table q s p u h = ground arith

pub index_declared-query :
    (t u : Tables) (ref : FieldRef)
    → index_declared t ref ≡ some u
    → add_declared t.query ref ≡ u.query
unfolding index_declared
index_declared-query t u ref h = with_relations-query _ _ _ _ _ u h

pub index_reverse-query :
    (t u : Tables) (ref : FieldRef)
    → index_reverse t ref ≡ some u
    → add_access t.query (nonempty_or ref.field.query_name ref.field.name) reverse ref ≡ u.query
unfolding index_reverse
index_reverse-query t u ref h = with_relations-query _ _ _ _ _ u h

-- What is known of a name in the table of queries.
abbrev Known : Tables → Bytes → Type 0
Known t n = KindAtMost (lookup n t.query.by_name) 0

abbrev pub index_field : Tables → FieldRef → Option Tables
index_field t ref = if is_reverse ref.field then index_reverse t ref else index_declared t ref

Known-index_field :
    (t u : Tables) (n : Bytes) (ref : FieldRef) → Known t n → index_field t ref ≡ some u → Known u n
Known-index_field t u n ref known h = elim (Bool-cases (is_reverse ref.field)) [
  | inl back ↦
      let name = nonempty_or ref.field.query_name ref.field.name in
      subst (λ q. KindAtMost (lookup n q.by_name) 0) (index_reverse-query t u ref (ground arith))
        (KindAtMost-add_access t.query n name reverse ref 0 known)
  | inr own ↦
      subst (λ q. KindAtMost (lookup n q.by_name) 0) (index_declared-query t u ref (ground arith))
        (KindAtMost-add_declared t.query n ref 0
          (KindAtMost-add_access t.query n ref.field.name declared ref 0 known))
]

-- A field that is not reverse and has a name is found under it as declared.
abbrev pub OwnDeclared : AccessTable → FieldRef → Type 0
OwnDeclared table ref =
    (is_reverse ref.field ≡ true)
    ⊎ (is_unnamed ref.field.name ≡ true)
    ⊎ KindAtMost (lookup ref.field.name table.by_name) 0

Known-index_fields :
    (t u : Tables) (n : Bytes) (refs : List FieldRef)
    → Known t n
    → index_fields t refs ≡ some u
    → Known u n
unfolding index_fields
Known-index_fields t u n [] known h = let e : t ≡ u = cc in subst (λ s. Known s n) e known
Known-index_fields t u n (ref ∷ refs) known h = elim (Option-cases (index_field t ref)) [
  | inl failed ↦ absurd (ground arith)
  | inr (v, first) ↦
      Known-index_fields v u n refs (Known-index_field t v n ref known first) (ground arith)
]

index_field-OwnDeclared :
    (t u v : Tables) (ref : FieldRef) (refs : List FieldRef)
    → index_field t ref ≡ some v
    → index_fields v refs ≡ some u
    → OwnDeclared u.query ref
index_field-OwnDeclared t u v ref refs first rest = elim (Bool-cases (is_reverse ref.field)) [
  | inl back ↦ inl back
  | inr own ↦ elim (Bool-cases (is_unnamed ref.field.name)) [
    | inl unnamed ↦ inr (inl unnamed)
    | inr named ↦ inr (
        inr (
          Known-index_fields v u ref.field.name refs
            (subst (λ q. KindAtMost (lookup ref.field.name q.by_name) 0)
              (index_declared-query t v ref (ground arith))
              (KindAtMost-add_declared t.query ref.field.name ref 0
                (add_access-KindAtMost t.query ref.field.name declared ref named)))
            rest))
  ]
]

pub index_fields-OwnDeclared :
    (t u : Tables) (refs : List FieldRef)
    → index_fields t refs ≡ some u
    → All (OwnDeclared u.query) refs
unfolding index_fields
index_fields-OwnDeclared t u [] h = tt
index_fields-OwnDeclared t u (ref ∷ refs) h = elim (Option-cases (index_field t ref)) [
  | inl failed ↦ absurd (ground arith)
  | inr (v, first) ↦ (
    index_field-OwnDeclared t u v ref refs first (ground arith),
    index_fields-OwnDeclared v u refs (ground arith),
  )
]
