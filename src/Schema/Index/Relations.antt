-- ===== src/Schema/Index/Relations.antt =====
-- Sorting keeps what holds of all elements, and a map of relations agrees with its list of values.
use pogo.Prelude.{
  ◌≡◌, refl, sym, ap, subst, ◌∙◌, ◌⊎◌, inl, inr, Bool, true, false, List, [], ◌∷◌, some, arith,
  Bytes, bytes_eq, Assoc, insert, All, Bool-cases,
}
use pogo.Schema.{
  FieldRef, FieldAccess, FieldAccessKind, replace_access, add_relation, sort_into, sort_by,
}
use pogo.Schema.Access.{Listed, Listed-replace_access}
use pogo.Schema.Index.{add_relation_when, values}

All-sort_into :
    {A : Type 0} (P : A → Type 0) (less : A → A → Bool) (a : A) (l : List A)
    → P a
    → All P l
    → All P (sort_into less a l)
unfolding sort_into
All-sort_into P less a [] pa all = (pa, tt)
All-sort_into P less a (b ∷ l) pa (pb, all) = elim (Bool-cases (less b a)) [
  | inl later ↦ rw later (pb, All-sort_into P less a l pa all)
  | inr here ↦ rw here (pa, (pb, all))
]

pub All-sort_by :
    {A : Type 0} (P : A → Type 0) (less : A → A → Bool) (l : List A)
    → All P l
    → All P (sort_by less l)
unfolding sort_by
All-sort_by P less [] all = tt
All-sort_by P less (a ∷ l) (pa, all) =
    All-sort_into P less a (sort_by less l) pa (All-sort_by P less l all)

-- The key of an entry is the name of its access.
abbrev pub Keyed : Assoc FieldAccess → Type 0
Keyed [] = Unit {0}
Keyed ((name, access) ∷ m) = (name ≡ access.name) × Keyed m

Keyed-insert : (m : Assoc FieldAccess) (a : FieldAccess) → Keyed m → Keyed (insert a.name a m)
unfolding insert
Keyed-insert [] a keyed = (refl, tt)
Keyed-insert ((name, b) ∷ m) a (here, keyed) = elim (Bool-cases (bytes_eq name a.name)) [
  | inl same ↦ rw same (refl, keyed)
  | inr other ↦ rw other (here, Keyed-insert m a keyed)
]

values-insert :
    (m : Assoc FieldAccess) (a : FieldAccess)
    → Keyed m
    → values (insert a.name a m) ≡ replace_access (values m) a
unfolding insert replace_access
values-insert [] a keyed = refl
values-insert ((name, b) ∷ m) a (here, keyed) = elim (Bool-cases (bytes_eq name a.name)) [
  | inl same ↦
      let same' : bytes_eq b.name a.name ≡ true = ap (λ n. bytes_eq n a.name) (sym here) ∙ same in
      rw (same, same') refl
  | inr other ↦
      let other' : bytes_eq b.name a.name ≡ false =
        ap (λ n. bytes_eq n a.name) (sym here) ∙ other in
      rw (other, other') (ap (λ l. b ∷ l) (values-insert m a keyed))
]

pub record IsRelationMap (m : Assoc FieldAccess) : Type 0 where
  pub keyed : Keyed m
  pub listed : Listed m (values m)

insert-IsRelationMap :
    (m : Assoc FieldAccess) (a : FieldAccess) → IsRelationMap m → IsRelationMap (insert a.name a m)
insert-IsRelationMap m a r = record {
  keyed = Keyed-insert m a r.keyed;
  listed =
      subst (Listed (insert a.name a m)) (sym (values-insert m a r.keyed))
        (Listed-replace_access m (values m) a r.listed);
}

add_relation-IsRelationMap :
    (m n : Assoc FieldAccess) (name : Bytes) (kind : FieldAccessKind) (ref : FieldRef)
    → IsRelationMap m
    → add_relation m name kind ref ≡ some n
    → IsRelationMap n
unfolding add_relation
add_relation-IsRelationMap m n name kind ref r h =
    let access : FieldAccess = record { name = name; kind = kind; field = ref } in
    let stored : (m ≡ n) ⊎ (insert name access m ≡ n) = ground arith in
    elim stored [
      | inl same ↦ subst IsRelationMap same r
      | inr put ↦ subst IsRelationMap put (insert-IsRelationMap m access r)
    ]

pub add_relation_when-IsRelationMap :
    (on : Bool) (m n : Assoc FieldAccess) (name : Bytes) (kind : FieldAccessKind) (ref : FieldRef)
    → IsRelationMap m
    → add_relation_when on m name kind ref ≡ some n
    → IsRelationMap n
unfolding add_relation_when
add_relation_when-IsRelationMap true m n name kind ref r h =
    add_relation-IsRelationMap m n name kind ref r h
add_relation_when-IsRelationMap false m n name kind ref r h =
    let e : m ≡ n = cc in subst IsRelationMap e r
