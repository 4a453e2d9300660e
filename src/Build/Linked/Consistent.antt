-- ===== src/Build/Linked/Consistent.antt =====
-- What a graph that `Build` returns satisfies.
use pogo.Prelude.{
  some_injective, ◌≡◌, refl, subst, Bool, true, false, not, ◌&&◌, ◌||◌, [], ◌∷◌, Option, none, some,
  if◌then◌else◌, arith, Bytes, Assoc, lookup, lookup_nil, is_some,
}
use pogo.Schema.Index.{◌>>=◌}
use pogo.Build.{Method, Model, App, Snapshot}
use pogo.Paths.{is_empty}
use pogo.Build.Valid.{validate_model, every, build_query_set_method_defs}
use pogo.Build.Graph.{
  Paths, ModelEntry, build_model_index, BuiltGraph, with_model, source_paths, enter_source_classes,
  enter_model, enter_models,
}
use pogo.Build.Linked.{is_app, enter_apps, empty_graph, is_supported, is_source, is_linked, build}
use pogo.Build.Linked.Sources.{bind_some}
use pogo.Build.Linked.Entries.{
  build_model_index-IsEntry, IsConsistent, class_of, with_model-IsConsistent,
}

empty_graph-IsConsistent : (paths : Paths) → IsConsistent paths empty_graph
empty_graph-IsConsistent paths = record {
  entries = λ label entry there. absurd (cc (lookup_nil {V = ModelEntry} label));
  classes = λ label entry there. absurd (cc (lookup_nil {V = ModelEntry} label));
  class_paths = λ class_path label there. absurd (cc (lookup_nil {V = Bytes} class_path));
  sources = λ label entry there. absurd (cc (lookup_nil {V = ModelEntry} label));
}

not_some : {V : Type 0} (o : Option V) → is_some o ≡ false → o ≡ none
not_some none h = refl
not_some (some v) h = absurd (cc)

not_refused : (a b c : Bool) → (not a || b || c) ≡ false → a ≡ true
not_refused a b c h = ground arith

validate_model-named :
    (app_key model_name : Bytes) (model : Model) (snapshot : Snapshot) (defs : Assoc Method)
    → validate_model app_key model_name model snapshot defs ≡ true
    → (is_empty model.file_path || is_empty model.qualname) ≡ false
unfolding validate_model
validate_model-named app_key model_name model snapshot defs h = ground (arith, h)

none_refused : (a b c : Bool) → (a || b || c) ≡ false → (b ≡ false) × (c ≡ false)
none_refused a b c h = ground arith

unless_some :
    {X : Type 0} (b : Bool) (o : Option X) (x : X)
    → (if b then none else o) ≡ some x
    → (b ≡ false) × (o ≡ some x)
unless_some true o x h = absurd (cc)
unless_some false o x h = (refl, h)

when_some :
    {X : Type 0} (b : Bool) (o : Option X) (x : X)
    → (if b then o else none) ≡ some x
    → (b ≡ true) × (o ≡ some x)
when_some true o x h = (refl, h)
when_some false o x h = absurd (cc)

pub second_true : (a b : Bool) → (a && b) ≡ true → b ≡ true
second_true true b h = h
second_true false b h = absurd (cc)

enter_model-IsConsistent :
    (paths : Paths) (snapshot : Snapshot) (defs : Assoc Method) (app_key : Bytes) (app : App)
    (graph : BuiltGraph) (model_name : Bytes) (model : Model) (next : BuiltGraph)
    → IsConsistent paths graph
    → enter_model paths snapshot defs app_key app graph model_name model ≡ some next
    → IsConsistent paths next
unfolding enter_model
enter_model-IsConsistent paths snapshot defs app_key app graph model_name model next consistent h =
    let invalid = not (validate_model app_key model_name model snapshot defs) in
    let known = is_some (lookup model.canonical_label graph.canonical) in
    let claimed = is_some (lookup (class_of model) graph.class_path) in
    let built = build_model_index model_name model defs in
    let classes =
      enter_source_classes paths graph.source_class model.qualname model.canonical_label
        (source_paths paths model) in
    let onward = λ (entry : ModelEntry).
      classes >>= λ source_class. some (with_model app graph model entry source_class) in
    let (accepted, entered) = unless_some (invalid || known || claimed) (built >>= onward) next h in
    let (unknown, unclaimed) = none_refused invalid known claimed accepted in
    let (entry, e1, h1) = bind_some built onward next entered in
    let (source_class, e2, h2) =
      bind_some classes (λ source_class. some (with_model app graph model entry source_class)) next
        h1 in
    let (is_entry, of_model) = build_model_index-IsEntry model_name model defs entry e1 (
      validate_model-named app_key model_name model snapshot defs (
        not_refused (validate_model app_key model_name model snapshot defs) known claimed
          accepted)) in
    subst (IsConsistent paths) (some_injective h2) (
      with_model-IsConsistent paths app graph model entry source_class consistent
        (not_some (lookup model.canonical_label graph.canonical) unknown)
        (not_some (lookup (class_of model) graph.class_path) unclaimed) is_entry of_model e2)

enter_models-IsConsistent :
    (paths : Paths) (snapshot : Snapshot) (defs : Assoc Method) (app_key : Bytes) (app : App)
    (graph : BuiltGraph) (models : Assoc Model) (after : BuiltGraph)
    → IsConsistent paths graph
    → enter_models paths snapshot defs app_key app graph models ≡ some after
    → IsConsistent paths after
unfolding enter_models
enter_models-IsConsistent paths snapshot defs app_key app graph [] after consistent h =
    subst (IsConsistent paths) (some_injective h) consistent
enter_models-IsConsistent paths snapshot defs app_key app graph ((model_name, model) ∷ models) after
      consistent h =
    let (next, entered, h') =
      bind_some (enter_model paths snapshot defs app_key app graph model_name model)
        (λ next. enter_models paths snapshot defs app_key app next models) after h in
    enter_models-IsConsistent paths snapshot defs app_key app next models after
      (enter_model-IsConsistent paths snapshot defs app_key app graph model_name model next
        consistent entered)
      h'

enter_apps-IsConsistent :
    (paths : Paths) (snapshot : Snapshot) (defs : Assoc Method) (graph : BuiltGraph)
    (apps : Assoc App) (after : BuiltGraph)
    → IsConsistent paths graph
    → enter_apps paths snapshot defs graph apps ≡ some after
    → IsConsistent paths after
unfolding enter_apps
enter_apps-IsConsistent paths snapshot defs graph [] after consistent h =
    subst (IsConsistent paths) (some_injective h) consistent
enter_apps-IsConsistent paths snapshot defs graph ((app_key, app) ∷ apps) after consistent h =
    let entered = enter_models paths snapshot defs app_key app graph app.models in
    let (next, there, h') =
      bind_some (if is_app paths app_key app then entered else none)
        (λ next. enter_apps paths snapshot defs next apps) after h in
    let (is, made) = when_some (is_app paths app_key app) entered next there in
    enter_apps-IsConsistent paths snapshot defs next apps after
      (enter_models-IsConsistent paths snapshot defs app_key app graph app.models next consistent
        made)
      h'

pub build_checks :
    (paths : Paths) (snapshot : Snapshot) (graph : BuiltGraph)
    → build paths snapshot ≡ some graph
    → IsConsistent paths graph × (every (is_linked graph.canonical) graph.canonical ≡ true)
unfolding build
build_checks paths snapshot graph h =
    let method_defs =
      if is_supported snapshot then build_query_set_method_defs snapshot else none in
    let checked = λ (g : BuiltGraph).
      every (is_source paths) snapshot.schema_sources
      && every (is_linked g.canonical) g.canonical in
    let last = λ (g : BuiltGraph). if checked g then some g else none in
    let (defs, e1, h1) =
      bind_some method_defs
        (λ defs. enter_apps paths snapshot defs empty_graph snapshot.apps >>= last) graph h in
    let (g, e2, h2) =
      bind_some (enter_apps paths snapshot defs empty_graph snapshot.apps) last graph h1 in
    let (passed, same) = when_some (checked g) (some g) graph h2 in
    let linked : every (is_linked g.canonical) g.canonical ≡ true =
      second_true (every (is_source paths) snapshot.schema_sources)
        (every (is_linked g.canonical) g.canonical) passed in
    subst (λ g. IsConsistent paths g × (every (is_linked g.canonical) g.canonical ≡ true))
      (some_injective same)
      (
        enter_apps-IsConsistent paths snapshot defs empty_graph snapshot.apps g
            (empty_graph-IsConsistent paths) e2,
        linked,
      )

-- In a graph that `Build` has returned the tables agree: each model stands under its own label,
-- with a path and a name that are not empty and the tables that its fields give; its class path
-- and its class in its source file lead to its label, and a class path leads to no label but that
-- of the model with this class path.
pub build-IsConsistent :
    (paths : Paths) (snapshot : Snapshot) (graph : BuiltGraph)
    → build paths snapshot ≡ some graph
    → IsConsistent paths graph
build-IsConsistent paths snapshot graph h = (build_checks paths snapshot graph h).0
