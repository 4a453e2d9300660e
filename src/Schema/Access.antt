-- ===== src/Schema/Access.antt =====
-- The two views of a table, the map and the list, always agree.
use pogo.Prelude.{
  ℕ, ◌≤◌, ◌≡◌, refl, sym, inl, inr, false, List, [], ◌∷◌, Option, none, some, arith, if◌then◌else◌,
  leb, Bytes, bytes_eq, bytes_eq_iff, bytes_eq_refl, Assoc, lookup, insert, lookup-insert,
  Bool-cases, Option-cases,
}
use pogo.Schema.{
  FieldRef, FieldAccess, FieldAccessKind, kind_order, AccessTable, is_unnamed, replace_access,
  put_access, add_access,
}

-- The first access of a name.
unfoldable pub find_access : Bytes → List FieldAccess → Option FieldAccess
find_access name [] = none
find_access name (access ∷ rest) =
    if bytes_eq access.name name then some access else find_access name rest

-- Every access of the list is the one that the map has for its name, and no name is listed twice.
abbrev pub Listed : Assoc FieldAccess → List FieldAccess → Type 0
Listed m [] = Unit {0}
Listed m (a ∷ l) = (lookup a.name m ≡ some a) × (find_access a.name l ≡ none) × Listed m l

find_access-replace_access :
    (n : Bytes) (l : List FieldAccess) (a : FieldAccess)
    → find_access n (replace_access l a) ≡ (if bytes_eq a.name n then some a else find_access n l)
unfolding find_access replace_access
find_access-replace_access n [] a = refl
find_access-replace_access n (b ∷ l) a = ground (
  arith,
  bytes_eq_iff b.name a.name,
  bytes_eq_iff b.name n,
  bytes_eq_iff a.name n,
  find_access-replace_access n l a,
)

find_access-head_none :
    (n : Bytes) (b : FieldAccess) (l : List FieldAccess)
    → find_access n (b ∷ l) ≡ none
    → (bytes_eq b.name n ≡ false) × (find_access n l ≡ none)
unfolding find_access
find_access-head_none n b l h = (ground arith, ground arith)

bytes_eq_swap : (s t : Bytes) → bytes_eq s t ≡ false → bytes_eq t s ≡ false
bytes_eq_swap s t h = elim (Bool-cases (bytes_eq t s)) [
  | inl same ↦ absurd (ground (arith, bytes_eq_iff t s, bytes_eq_iff s t))
  | inr other ↦ other
]

Listed-insert :
    (m : Assoc FieldAccess) (l : List FieldAccess) (a : FieldAccess)
    → find_access a.name l ≡ none
    → Listed m l
    → Listed (insert a.name a m) l
Listed-insert m [] a fresh listed = tt
Listed-insert m (b ∷ l) a fresh (here, once, rest) =
    let (other, none_left) = find_access-head_none a.name b l fresh in
    let swapped = bytes_eq_swap b.name a.name other in
    (ground (arith, lookup-insert a.name b.name a m), once, Listed-insert m l a none_left rest)

pub Listed-replace_access :
    (m : Assoc FieldAccess) (l : List FieldAccess) (a : FieldAccess)
    → Listed m l
    → Listed (insert a.name a m) (replace_access l a)
unfolding replace_access find_access
Listed-replace_access m [] a listed =
    (ground (arith, lookup-insert a.name a.name a m, bytes_eq_refl a.name), refl, tt)
Listed-replace_access m (b ∷ l) a (here, once, rest) = elim (Bool-cases (bytes_eq b.name a.name)) [
  | inl same ↦
      let e : b.name ≡ a.name = (bytes_eq_iff b.name a.name).0 same in
      let fresh : find_access a.name l ≡ none = rw (sym e) once in
      let now : lookup a.name (insert a.name a m) ≡ some a =
        ground (arith, lookup-insert a.name a.name a m, bytes_eq_refl a.name) in
      rw same (now, fresh, Listed-insert m l a fresh rest)
  | inr other ↦
      let swapped = bytes_eq_swap b.name a.name other in
      let kept : lookup b.name (insert a.name a m) ≡ some b =
        ground (arith, lookup-insert a.name b.name a m) in
      let alone : find_access b.name (replace_access l a) ≡ none =
        ground (arith, find_access-replace_access b.name l a) in
      rw other (kept, alone, Listed-replace_access m l a rest)
]

-- The list and the map agree: the list has an access of a name exactly if the map has, the same one,
-- and has it once.
pub record IsSynced (t : AccessTable) : Type 0 where
  pub listed : Listed t.by_name t.accesses
  pub found : (name : Bytes) → find_access name t.accesses ≡ lookup name t.by_name

put_access-IsSynced : (t : AccessTable) (a : FieldAccess) → IsSynced t → IsSynced (put_access t a)
unfolding put_access
put_access-IsSynced t a s = record {
  listed = Listed-replace_access t.by_name t.accesses a s.listed;
  found = λ name. ground (
    arith,
    find_access-replace_access name t.accesses a,
    lookup-insert a.name name a t.by_name,
    s.found name,
  );
}

-- Entering a name keeps the two views of a table in agreement.
pub add_access-IsSynced :
    (t : AccessTable) (name : Bytes) (kind : FieldAccessKind) (ref : FieldRef)
    → IsSynced t
    → IsSynced (add_access t name kind ref)
unfolding add_access
add_access-IsSynced t name kind ref s = elim (Bool-cases (is_unnamed name)) [
  | inl unnamed ↦ rw (add_access, unnamed) s
  | inr named ↦ elim (Option-cases (lookup name t.by_name)) [
    | inl missing ↦
        rw (add_access, named, missing)
          (put_access-IsSynced t (record { name = name; kind = kind; field = ref }) s)
    | inr (existing, there) ↦ elim (Bool-cases (leb (kind_order existing.kind) (kind_order kind))) [
      | inl stronger ↦ rw (add_access, named, there, stronger) s
      | inr weaker ↦
          rw (add_access, named, there, weaker)
            (put_access-IsSynced t (record { name = name; kind = kind; field = ref }) s)
    ]
  ]
]

-- The kind under which a name is entered.
abbrev pub KindAtMost : Option FieldAccess → ℕ → Type 0
KindAtMost none n = ⊥
KindAtMost (some a) n = kind_order a.kind ≤ n

-- A name that is entered is found, under a kind that is at least as strong.
pub add_access-KindAtMost :
    (t : AccessTable) (name : Bytes) (kind : FieldAccessKind) (ref : FieldRef)
    → is_unnamed name ≡ false
    → KindAtMost (lookup name (add_access t name kind ref).by_name) (kind_order kind)
unfolding add_access put_access
add_access-KindAtMost t name kind ref named = ground (
  arith,
  lookup-insert name name (record { name = name; kind = kind; field = ref }) t.by_name,
  bytes_eq_refl name,
)
