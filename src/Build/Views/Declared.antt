-- ===== src/Build/Views/Declared.antt =====
-- The field that `RelationFieldForSource` selects.
use pogo.Prelude.{
  ◌≡◌, refl, ap, subst, ◌∙◌, ◌⊎◌, inl, inr, Bool, true, false, ◌&&◌, ◌||◌, List, [], ◌∷◌, All,
  Option, none, some, some_injective, arith, Bytes, bytes_eq, bytes_eq_iff, Bool-cases,
  Option-cases,
}
use pogo.Schema.{FieldRef, SourcePosition}
use pogo.Paths.{is_empty}
use pogo.Build.Graph.{Paths, BuiltGraph}
use pogo.Build.Views.{
  declares, relation_target, same_source_range, select_field, select_loop, all_fields,
  selected_field, relation_field_for_source,
}

-- The target so far is the one of the end.
abbrev KeepsTarget : Bytes → Option (FieldRef × Bytes) → Type 0
KeepsTarget target none = Unit
KeepsTarget target (some (ref, so_far)) = so_far ≡ target

-- A field that is not wanted, or has the target.
abbrev pub Agrees : (FieldRef → Bool) → Bytes → FieldRef → Type 0
Agrees wanted target ref = (wanted ref ≡ false) ⊎ (relation_target ref ≡ some target)

abbrev IsChosen : (FieldRef → Bool) → Option (FieldRef × Bytes) → FieldRef → Bytes → Type 0
IsChosen wanted selected chosen target = (wanted chosen ≡ true) ⊎ (selected ≡ some (chosen, target))

now_chosen :
    (wanted : FieldRef → Bool) (ref chosen : FieldRef) (t target : Bytes)
    → wanted ref ≡ true
    → IsChosen wanted (some (ref, t)) chosen target
    → wanted chosen ≡ true
now_chosen wanted ref chosen t target w (inl is) = is
now_chosen wanted ref chosen t target w (inr same) =
    subst (λ (p : FieldRef × Bytes). wanted p.0 ≡ true) (some_injective same) w

select_field_cases :
    (selected : Option (FieldRef × Bytes)) (ref : FieldRef) (t : Bytes)
    → (select_field selected ref (some t) ≡ none)
      ⊎ ((select_field selected ref (some t) ≡ some (some (ref, t))) × KeepsTarget t selected)
select_field_cases none ref t = inr (refl, tt)
select_field_cases (some (chosen, so_far)) ref t =
    elim (Bool-cases (bytes_eq so_far t && same_source_range chosen ref)) [
      | inl same ↦ inr (rw same refl, ground (arith, same, bytes_eq_iff so_far t))
      | inr apart ↦ inl (rw apart refl)
    ]

select_loop-Agrees :
    (wanted : FieldRef → Bool) (selected : Option (FieldRef × Bytes)) (refs : List FieldRef)
    (chosen : FieldRef) (target : Bytes)
    → select_loop wanted selected refs ≡ some (some (chosen, target))
    → All (Agrees wanted target) refs
      × KeepsTarget target selected
      × IsChosen wanted selected chosen target
unfolding select_loop
select_loop-Agrees wanted none [] chosen target h = absurd (cc)
select_loop-Agrees wanted (some (ref, t)) [] chosen target h =
    let same : some (ref, t) ≡ some (chosen, target) = some_injective h in
    (tt, ap (λ (p : FieldRef × Bytes). p.1) (some_injective same), inr same)
select_loop-Agrees wanted selected (ref ∷ refs) chosen target h = elim (Bool-cases (wanted ref)) [
  | inr other ↦
      let (all, keeps, is) =
        select_loop-Agrees wanted selected refs chosen target (ground (arith, h, other)) in
      ((inl other, all), keeps, is)
  | inl here ↦ elim (Option-cases (relation_target ref)) [
    | inl lost ↦ absurd (ground (arith, h, here, lost))
    | inr (t, found) ↦ elim (select_field_cases selected ref t) [
      | inl apart ↦ absurd (ground (arith, h, here, found, apart))
      | inr (chosen_now, kept) ↦
          let (all, same, is) =
            select_loop-Agrees wanted (some (ref, t)) refs chosen target
              (ground (arith, h, here, found, chosen_now)) in
          (
            (inr (found ∙ ap some same), all),
            subst (λ u. KeepsTarget u selected) same kept,
            inl (now_chosen wanted ref chosen t target here is),
          )
    ]
  ]
]

selected_some :
    (o : Option (Option (FieldRef × Bytes))) (ref : FieldRef)
    → selected_field o ≡ some ref
    → (target : Bytes) × (o ≡ some (some (ref, target)))
selected_some none ref h = absurd (cc)
selected_some (some none) ref h = absurd (cc)
selected_some (some (some (chosen, target))) ref h =
    (target, ap (λ (r : FieldRef). some (some (r, target))) (some_injective h))

none_chosen :
    (wanted : FieldRef → Bool) (ref : FieldRef) (target : Bytes)
    → IsChosen wanted none ref target
    → wanted ref ≡ true
none_chosen wanted ref target (inl is) = is
none_chosen wanted ref target (inr no_field) = absurd (cc)

-- A field that `RelationFieldForSource` selects is declared forward in the class, by the name and
-- at the place in the resolved file, and every other field of the graph that is declared so has
-- one and the same target.
pub relation_field_for_source-declares :
    (paths : Paths) (graph : BuiltGraph) (file_path class_name field_name : Bytes)
    (start end : SourcePosition) (ref : FieldRef)
    → relation_field_for_source paths graph file_path class_name field_name start end ≡ some ref
    → let wanted = declares paths (paths.resolved_path file_path) class_name field_name start end in
      (wanted ref ≡ true)
      × (target : Bytes) × All (Agrees wanted target) (all_fields graph.canonical)
unfolding relation_field_for_source
relation_field_for_source-declares paths graph file_path class_name field_name start end ref h =
    let wanted = declares paths (paths.resolved_path file_path) class_name field_name start end in
    elim (Bool-cases (is_empty file_path || is_empty class_name || is_empty field_name)) [
      | inl blank ↦ absurd (ground (arith, h, blank))
      | inr named ↦
          let (target, found) =
            selected_some (select_loop wanted none (all_fields graph.canonical)) ref
              (ground (arith, h, named)) in
          let (all, _, is) =
            select_loop-Agrees wanted none (all_fields graph.canonical) ref target found in
          (none_chosen wanted ref target is, target, all)
    ]
