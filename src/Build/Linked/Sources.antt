-- ===== src/Build/Linked/Sources.antt =====
-- The classes of the source files: none loses its label when a model is entered.
use pogo.Prelude.{
  some_injective, ◌≡◌, refl, sym, ap, subst, ◌∙◌, inl, inr, List, [], ◌∷◌, Option, none, some,
  arith, Bytes, bytes_eq, bytes_eq_iff, bytes_eq_refl, Assoc, lookup, lookup-insert, insert,
  Bool-cases, Option-cases,
}
use pogo.Schema.Index.{◌>>=◌}
use pogo.Build.{Model}
use pogo.Build.Graph.{Paths, source_class_key, source_paths, enter_source_classes}

pub bind_some :
    {X Y : Type 0} (o : Option X) (next : X → Option Y) (y : Y)
    → (o >>= next) ≡ some y
    → (x : X) × (o ≡ some x) × (next x ≡ some y)
bind_some none next y h = absurd (cc)
bind_some (some x) next y h = (x, refl, h)

pub lookup-insert_new :
    {V : Type 0} (k : Bytes) (v : V) (m : Assoc V) → lookup k (insert k v m) ≡ some v
lookup-insert_new k v m = ground (arith, lookup-insert k k v m, bytes_eq_refl k)

pub lookup-insert_kept :
    {V : Type 0} (k : Bytes) (v : V) (m : Assoc V)
    → lookup k m ≡ none
    → (j : Bytes) (w : V) → lookup j m ≡ some w
    → lookup j (insert k v m) ≡ some w
lookup-insert_kept k v m free j w there = elim (Bool-cases (bytes_eq k j)) [
  | inl same ↦
      let e : k ≡ j = ground (arith, same, bytes_eq_iff k j) in absurd (cc (free, there, e))
  | inr apart ↦ ground (arith, lookup-insert k j v m, apart, there)
]

pub insert_cases :
    {V : Type 0} (k : Bytes) (v : V) (m : Assoc V) (P : Bytes → V → Type 0)
    → P k v
    → ((j : Bytes) (w : V) → lookup j m ≡ some w → P j w)
    → (j : Bytes) (w : V) → lookup j (insert k v m) ≡ some w
    → P j w
insert_cases k v m P new old j w there = elim (Bool-cases (bytes_eq k j)) [
  | inl same ↦
      let key : k ≡ j = ground (arith, same, bytes_eq_iff k j) in
      let value : v ≡ w = some_injective (ground (arith, lookup-insert k j v m, same, there)) in
      subst (P j) value (subst (λ i. P i v) key new)
  | inr apart ↦ old j w (ground (arith, lookup-insert k j v m, apart, there))
]

-- No class loses its label, and the first path gets the one at hand.
pub enter_source_classes_keep :
    (paths : Paths) (classes after : Assoc Bytes) (qualname label : Bytes) (rest : List Bytes)
    (key other : Bytes)
    → enter_source_classes paths classes qualname label rest ≡ some after
    → lookup key classes ≡ some other
    → lookup key after ≡ some other
unfolding enter_source_classes
enter_source_classes_keep paths classes after qualname label [] key other h there =
    ap (lookup key) (sym (some_injective h)) ∙ there
enter_source_classes_keep paths classes after qualname label (path ∷ rest) key other h there =
    let k = source_class_key paths path qualname in
    let next = insert k label classes in
    let onward = enter_source_classes_keep paths next after qualname label rest key other in
    let read = lookup-insert k key label classes in
    elim (Option-cases (lookup k classes)) [
      | inl free ↦
          onward (ground (arith, h, free)) (ground (arith, read, there, free, bytes_eq_iff k key))
      | inr (existing, taken) ↦ elim (Bool-cases (bytes_eq existing label)) [
        | inl same ↦
            onward (ground (arith, h, taken, same))
              (ground (arith, read, there, taken, bytes_eq_iff k key, bytes_eq_iff existing label))
        | inr apart ↦ absurd (ground (arith, h, taken, apart))
      ]
    ]

pub enter_source_classes_first :
    (paths : Paths) (classes after : Assoc Bytes) (qualname label path : Bytes) (rest : List Bytes)
    → enter_source_classes paths classes qualname label (path ∷ rest) ≡ some after
    → lookup (source_class_key paths path qualname) after ≡ some label
unfolding enter_source_classes
enter_source_classes_first paths classes after qualname label path rest h =
    let k = source_class_key paths path qualname in
    let read : lookup k (insert k label classes) ≡ some label =
      ground (arith, lookup-insert k k label classes, bytes_eq_refl k) in
    let onward =
      λ (h : enter_source_classes paths (insert k label classes) qualname label rest ≡ some after).
        enter_source_classes_keep paths (insert k label classes) after qualname label rest k label h
          read in
    elim (Option-cases (lookup k classes)) [
      | inl free ↦ onward (ground (arith, h, free))
      | inr (existing, taken) ↦ elim (Bool-cases (bytes_eq existing label)) [
        | inl same ↦ onward (ground (arith, h, taken, same))
        | inr apart ↦ absurd (ground (arith, h, taken, apart))
      ]
    ]

pub source_paths_first :
    (paths : Paths) (model : Model)
    → (rest : List Bytes) × (source_paths paths model ≡ model.file_path ∷ rest)
source_paths_first paths model =
    elim (Bool-cases
      (bytes_eq (paths.clean model.file_path) (paths.resolved_path model.file_path))) [
        | inl same ↦ ([], rw same refl)
        | inr apart ↦ (paths.resolved_path model.file_path ∷ [], rw apart refl)
      ]
