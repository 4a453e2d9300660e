-- ===== src/Build/Linked/Entries.antt =====
-- The tables of a graph agree with one another while `Build` enters the models.
use pogo.Prelude.{
  some_injective, ◌≡◌, refl, ap, subst, false, ◌||◌, [], ◌∷◌, Option, none, some, Bytes, Assoc,
  lookup, insert,
}
use pogo.Schema.Index.{◌>>=◌, build_index}
use pogo.Schema.Index.Agreement.{IsIndexed, build_index-IsIndexed}
use pogo.Build.{Method, Model, App}
use pogo.Paths.{is_empty}
use pogo.Build.Tables.{enter_fields, sorted_refs, enter_query_set_methods, enter_managers}
use pogo.Build.Graph.{
  Paths, ModelEntry, model_entry, build_model_index, no_fields, dotted, BuiltGraph, with_model,
  source_class_key, source_paths, enter_source_classes,
}
use pogo.Build.Linked.Sources.{
  bind_some, lookup-insert_new, lookup-insert_kept, insert_cases, enter_source_classes_keep,
  enter_source_classes_first, source_paths_first,
}

-- What an entry holds of its model: the label, and the tables that the fields give.
pub record IsEntry (label : Bytes) (entry : ModelEntry) : Type 0 where
  pub labelled : entry.model.canonical_label ≡ label
  pub named : (is_empty entry.model.file_path || is_empty entry.model.qualname) ≡ false
  pub indexed : IsIndexed entry.access
  pub accessed : build_index (sorted_refs entry.model.fields) ≡ some entry.access
  pub tabled : enter_fields no_fields (sorted_refs entry.model.fields) ≡ some entry.tables

-- The chain of buildModelIndex: of four results, the third one needs the second.
chain_some :
    {X Y Z W V : Type 0} (x : Option X) (y : Option Y) (z : Y → Option Z) (w : Option W)
    (make : X → Z → W → V) (v : V)
    → (x >>= λ a. y >>= λ b. z b >>= λ c. w >>= λ d. some (make a c d)) ≡ some v
    → (a : X) × (c : Z) × (d : W) × (x ≡ some a) × (w ≡ some d) × (make a c d ≡ v)
chain_some none y z w make v h = absurd (cc)
chain_some (some a) none z w make v h = absurd (cc)
chain_some (some a) (some b) z w make v h =
    let (c, _, h') = bind_some (z b) (λ c. w >>= λ d. some (make a c d)) v h in
    let (d, there, made) = bind_some w (λ d. some (make a c d)) v h' in
    (a, c, d, refl, there, some_injective made)

pub build_model_index-IsEntry :
    (name : Bytes) (model : Model) (defs : Assoc Method) (entry : ModelEntry)
    → build_model_index name model defs ≡ some entry
    → (is_empty model.file_path || is_empty model.qualname) ≡ false
    → IsEntry model.canonical_label entry × (entry.model ≡ model)
unfolding build_model_index
build_model_index-IsEntry name model defs entry h named =
    let (tables, managers, access, tabled, accessed, made) =
      chain_some (enter_fields no_fields (sorted_refs model.fields))
        (enter_query_set_methods defs [] model.query_set_methods)
        (λ query_sets.
          enter_managers defs
            (record { query_sets = query_sets; managers = []; manager_order = [] }) model.managers)
        (build_index (sorted_refs model.fields))
        (λ tables managers access. model_entry name model defs tables managers access) entry h in
    subst (λ e. IsEntry model.canonical_label e × (e.model ≡ model)) made
      (
        record {
          labelled = refl;
          named = named;
          indexed = build_index-IsIndexed (sorted_refs model.fields) access accessed;
          accessed = accessed;
          tabled = tabled;
        },
        refl,
      )

abbrev pub class_of : Model → Bytes
class_of model = dotted model.module_path model.qualname

-- The tables agree: a label has an entry, its class path and its class in the source file have the
-- label, and no other class path has it.
pub record IsConsistent (paths : Paths) (graph : BuiltGraph) : Type 0 where
  pub entries :
      (label : Bytes) (entry : ModelEntry)
      → lookup label graph.canonical ≡ some entry
      → IsEntry label entry
  pub classes :
      (label : Bytes) (entry : ModelEntry)
      → lookup label graph.canonical ≡ some entry
      → lookup (class_of entry.model) graph.class_path ≡ some label
  pub class_paths :
      (class_path label : Bytes)
      → lookup class_path graph.class_path ≡ some label
      → (entry : ModelEntry) × (lookup label graph.canonical ≡ some entry)
        × (class_of entry.model ≡ class_path)
  pub sources :
      (label : Bytes) (entry : ModelEntry)
      → lookup label graph.canonical ≡ some entry
      → lookup
          (source_class_key paths entry.model.file_path entry.model.qualname)
          graph.source_class
        ≡ some label

-- A model that has no error, under a label and a class path that are free.
pub with_model-IsConsistent :
    (paths : Paths) (app : App) (graph : BuiltGraph) (model : Model) (entry : ModelEntry)
    (source_class : Assoc Bytes)
    → IsConsistent paths graph
    → lookup model.canonical_label graph.canonical ≡ none
    → lookup (class_of model) graph.class_path ≡ none
    → IsEntry model.canonical_label entry
    → entry.model ≡ model
    → enter_source_classes paths graph.source_class model.qualname model.canonical_label
        (source_paths paths model)
      ≡ some source_class
    → IsConsistent paths (with_model app graph model entry source_class)
with_model-IsConsistent paths app graph model entry source_class consistent free free_class is_entry
      of_model entered =
    let label = model.canonical_label in
    let class_path = insert (class_of model) label graph.class_path in
    let canonical = insert label entry graph.canonical in
    let (rest, first) = source_paths_first paths model in
    let entered' : enter_source_classes paths graph.source_class model.qualname label
          (model.file_path ∷ rest)
        ≡ some source_class =
      rw (← first) entered in
    let class_of_model : class_of entry.model ≡ class_of model = ap class_of of_model in
    let kept = λ (c l : Bytes) (there : lookup c graph.class_path ≡ some l).
      lookup-insert_kept (class_of model) label graph.class_path free_class c l there in
    record {
      entries = insert_cases label entry graph.canonical IsEntry is_entry consistent.entries;
      classes =
          insert_cases label entry graph.canonical
            (λ l e. lookup (class_of e.model) class_path ≡ some l)
            (rw of_model (lookup-insert_new (class_of model) label graph.class_path))
            (λ l e there. kept (class_of e.model) l (consistent.classes l e there));
      class_paths =
          insert_cases (class_of model) label graph.class_path
            (λ c l. (e : ModelEntry) × (lookup l canonical ≡ some e) × (class_of e.model ≡ c))
            (entry, lookup-insert_new label entry graph.canonical, class_of_model)
            (λ c l there.
              let (e, found, is) = consistent.class_paths c l there in
              (e, lookup-insert_kept label entry graph.canonical free l e found, is));
      sources =
          insert_cases label entry graph.canonical
            (λ l e.
              lookup (source_class_key paths e.model.file_path e.model.qualname) source_class
              ≡ some l)
            (rw of_model (
              enter_source_classes_first paths graph.source_class source_class model.qualname label
                model.file_path rest entered'))
            (λ l e there.
              enter_source_classes_keep paths graph.source_class source_class model.qualname label
                (model.file_path ∷ rest) (source_class_key paths e.model.file_path e.model.qualname)
                l entered' (consistent.sources l e there));
    }
