-- ===== src/Schema/Index/Agreement.antt =====
-- The tables that the loop over the fields leaves: the views agree.
use pogo.Prelude.{
  some_injective, ◌≡◌, refl, subst, inl, inr, Bool, true, false, not, ◌&&◌, List, [], ◌∷◌, Option,
  none, some, arith, if◌then◌else◌, Bytes, bytes_eq, Assoc, lookup, All, Bool-cases, Option-cases,
  codes,
}
use pogo.Schema.{
  FieldRef, FieldAccess, FieldAccessKind, declared, attname_access, reverse, AccessTable,
  add_access, access_less, sort_by,
}
use pogo.Schema.Access.{find_access, Listed, IsSynced, add_access-IsSynced}
use pogo.Schema.Index.{
  Tables, no_tables, no_table, nonempty_or, is_reverse, add_relation_when, index_reverse,
  add_declared, index_declared, index_fields, with_relations, add_declared_relation, ModelIndex,
  values, model_index, build_index,
}
use pogo.Schema.Index.Relations.{All-sort_by, IsRelationMap, add_relation_when-IsRelationMap}

if-IsSynced :
    (b : Bool) (t u : AccessTable) → IsSynced t → IsSynced u → IsSynced (if b then t else u)
if-IsSynced true t u st su = st
if-IsSynced false t u st su = su

no_table-IsSynced : IsSynced no_table
unfolding lookup find_access
no_table-IsSynced = record { listed = tt; found = λ name. refl }

-- Every table of the loop agrees with itself.
record IsAgreed (t : Tables) : Type 0 where
  query : IsSynced t.query
  instance_table : IsSynced t.instance_table
  query_relations : IsRelationMap t.query_relations
  select_relations : IsRelationMap t.select_relations
  prefetch_relations : IsRelationMap t.prefetch_relations

with_relations-IsAgreed :
    (query instance_table : AccessTable) (q s p : Option (Assoc FieldAccess)) (u : Tables)
    → IsSynced query
    → IsSynced instance_table
    → ((m : Assoc FieldAccess) → q ≡ some m → IsRelationMap m)
    → ((m : Assoc FieldAccess) → s ≡ some m → IsRelationMap m)
    → ((m : Assoc FieldAccess) → p ≡ some m → IsRelationMap m)
    → with_relations query instance_table q s p ≡ some u
    → IsAgreed u
unfolding with_relations
with_relations-IsAgreed query instance_table (some q) (some s) (some p) u sq si rq rs rp h =
    subst IsAgreed (some_injective h) (record {
      query = sq;
      instance_table = si;
      query_relations = rq q refl;
      select_relations = rs s refl;
      prefetch_relations = rp p refl;
    })
with_relations-IsAgreed query instance_table (some q) (some s) none u sq si rq rs rp h = absurd (cc)
with_relations-IsAgreed query instance_table (some q) none p u sq si rq rs rp h = absurd (cc)
with_relations-IsAgreed query instance_table none s p u sq si rq rs rp h = absurd (cc)

-- A call of `add_relation_when` keeps what is said of a relation map.
abbrev when-kept :
    (on : Bool) (m : Assoc FieldAccess) (name : Bytes) (kind : FieldAccessKind) (ref : FieldRef)
    → IsRelationMap m
    → (n : Assoc FieldAccess) → add_relation_when on m name kind ref ≡ some n
    → IsRelationMap n
when-kept on m name kind ref r n h = add_relation_when-IsRelationMap on m n name kind ref r h

add_declared_relation-IsRelationMap :
    (m : Assoc FieldAccess) (ref : FieldRef)
    → IsRelationMap m
    → (n : Assoc FieldAccess) → add_declared_relation m ref ≡ some n
    → IsRelationMap n
unfolding add_declared_relation
add_declared_relation-IsRelationMap m ref r n h =
    let field = ref.field in
    let attname = nonempty_or field.attname field.name in
    elim (Option-cases (add_relation_when field.is_relation m field.name declared ref)) [
      | inl failed ↦ absurd (ground arith)
      | inr (named, first) ↦
          add_relation_when-IsRelationMap (field.is_relation && not (bytes_eq attname field.name))
            named n attname attname_access ref
            (add_relation_when-IsRelationMap field.is_relation m named field.name declared ref r
              first)
            (ground arith)
    ]

index_reverse-IsAgreed :
    (t u : Tables) (ref : FieldRef) → IsAgreed t → index_reverse t ref ≡ some u → IsAgreed u
unfolding index_reverse
index_reverse-IsAgreed t u ref a h =
    let field = ref.field in
    let query_name = nonempty_or field.query_name field.name in
    let instance_name = nonempty_or field.accessor_name field.name in
    with_relations-IsAgreed _ _ _ _ _ u (add_access-IsSynced t.query query_name reverse ref a.query)
      (add_access-IsSynced t.instance_table instance_name reverse ref a.instance_table)
      (when-kept _ t.query_relations query_name reverse ref a.query_relations)
      (when-kept _ t.select_relations query_name reverse ref a.select_relations)
      (when-kept _ t.prefetch_relations instance_name reverse ref a.prefetch_relations) h

add_declared-IsSynced :
    (t : AccessTable) (ref : FieldRef) → IsSynced t → IsSynced (add_declared t ref)
unfolding add_declared
add_declared-IsSynced t ref s =
    let field = ref.field in
    let named = add_access t field.name declared ref in
    let one = add_access-IsSynced t field.name declared ref s in
    let key = field.effective_primary_key && not (bytes_eq field.name (codes "pk")) in
    let keyed = if key then add_access named (codes "pk") declared ref else named in
    let two : IsSynced keyed =
      if-IsSynced key (add_access named (codes "pk") declared ref) named
        (add_access-IsSynced named (codes "pk") declared ref one) one in
    let attname = nonempty_or field.attname field.name in
    if-IsSynced (bytes_eq attname field.name) keyed (add_access keyed attname attname_access ref)
      two (add_access-IsSynced keyed attname attname_access ref two)

index_declared-IsAgreed :
    (t u : Tables) (ref : FieldRef) → IsAgreed t → index_declared t ref ≡ some u → IsAgreed u
unfolding index_declared
index_declared-IsAgreed t u ref a h =
    let name = ref.field.name in
    with_relations-IsAgreed _ _ _ _ _ u (add_declared-IsSynced t.query ref a.query)
      (add_declared-IsSynced t.instance_table ref a.instance_table)
      (add_declared_relation-IsRelationMap t.query_relations ref a.query_relations)
      (when-kept _ t.select_relations name declared ref a.select_relations)
      (when-kept _ t.prefetch_relations name declared ref a.prefetch_relations) h

index_field-IsAgreed :
    (t u : Tables) (ref : FieldRef)
    → IsAgreed t
    → (if is_reverse ref.field then index_reverse t ref else index_declared t ref) ≡ some u
    → IsAgreed u
index_field-IsAgreed t u ref a h = elim (Bool-cases (is_reverse ref.field)) [
  | inl back ↦ index_reverse-IsAgreed t u ref a (ground arith)
  | inr own ↦ index_declared-IsAgreed t u ref a (ground arith)
]

index_fields-IsAgreed :
    (t u : Tables) (refs : List FieldRef) → IsAgreed t → index_fields t refs ≡ some u → IsAgreed u
unfolding index_fields
index_fields-IsAgreed t u [] a h = subst IsAgreed (some_injective h) a
index_fields-IsAgreed t u (ref ∷ refs) a h =
    elim (Option-cases
      (if is_reverse ref.field then index_reverse t ref else index_declared t ref)) [
        | inl failed ↦ absurd (ground arith)
        | inr (v, first) ↦
            index_fields-IsAgreed v u refs (index_field-IsAgreed t v ref a first) (ground arith)
      ]

no_tables-IsAgreed : IsAgreed no_tables
unfolding lookup
no_tables-IsAgreed = record {
  query = no_table-IsSynced;
  instance_table = no_table-IsSynced;
  query_relations = record { keyed = tt; listed = tt };
  select_relations = record { keyed = tt; listed = tt };
  prefetch_relations = record { keyed = tt; listed = tt };
}

-- Every listed access is the one that its name looks up.
abbrev pub AllFound : Assoc FieldAccess → List FieldAccess → Type 0
AllFound m l = All (λ a. lookup a.name m ≡ some a) l

Listed→AllFound : (m : Assoc FieldAccess) (l : List FieldAccess) → Listed m l → AllFound m l
Listed→AllFound m [] listed = tt
Listed→AllFound m (a ∷ l) (here, once, rest) = (here, Listed→AllFound m l rest)

-- What the lists of a model's index promise: an access that is listed is the one that is looked up.
pub record IsIndexed (i : ModelIndex) : Type 0 where
  pub query : AllFound i.query.by_name i.query.accesses
  pub instance_table : AllFound i.instance_table.by_name i.instance_table.accesses
  pub query_relations : AllFound i.query_relations.by_name i.query_relations.ordered
  pub select_relations : AllFound i.select_relations.by_name i.select_relations.ordered
  pub prefetch_relations : AllFound i.prefetch_relations.by_name i.prefetch_relations.ordered

AllFound-sort_by :
    (m : Assoc FieldAccess) (l : List FieldAccess) → Listed m l → AllFound m (sort_by access_less l)
AllFound-sort_by m l listed =
    All-sort_by (λ a. lookup a.name m ≡ some a) access_less l (Listed→AllFound m l listed)

-- Whatever fields a model has: if its index is built, then in each of the five tables every
-- access that is listed is the one that is looked up by its name.
pub build_index-IsIndexed :
    (refs : List FieldRef) (index : ModelIndex) → build_index refs ≡ some index → IsIndexed index
unfolding build_index
build_index-IsIndexed refs index h = elim (Option-cases (index_fields no_tables refs)) [
  | inl failed ↦ absurd (ground arith)
  | inr (t, tables) ↦
      let a = index_fields-IsAgreed no_tables t refs no_tables-IsAgreed tables in
      let made : model_index t ≡ index = ground arith in
      subst IsIndexed made (record {
        query = AllFound-sort_by t.query.by_name t.query.accesses a.query.listed;
        instance_table =
            AllFound-sort_by t.instance_table.by_name t.instance_table.accesses
              a.instance_table.listed;
        query_relations =
            AllFound-sort_by t.query_relations (values t.query_relations) a.query_relations.listed;
        select_relations =
            AllFound-sort_by t.select_relations (values t.select_relations)
              a.select_relations.listed;
        prefetch_relations =
            AllFound-sort_by t.prefetch_relations (values t.prefetch_relations)
              a.prefetch_relations.listed;
      })
]
