-- ===== src/Paths/Suffixes.antt =====
-- The transforms and lookups that are offered behind a field are suffixes that it has.
use pogo.Prelude.{
  ◌≡◌, refl, inl, inr, Bool, true, false, not, ◌&&◌, ◌||◌, List, [], ◌∷◌, ◌++◌, some, arith,
  if◌then◌else◌, Bytes, bytes_eq, bytes_eq_refl, All, Bool-cases, Option-cases,
}
use pogo.Schema.{LookupPath, FieldRef}
use pogo.Paths.{
  is_empty, contains, star, relation_lookup, behind, has_lookup, Suffix, no_suffix, suffix_loop,
}
use pogo.Paths.Complete.{
  PathCandidate, fresh_lookups, lookup_candidates, suffix_candidates_loop, add_all, has_prefix,
  with_prefix,
}

pub All-append : {A : Type 0} (P : A → Type 0) (l m : List A) → All P l → All P m → All P (l ++ m)
All-append P [] m pl pm = pm
All-append P (a ∷ l) m (pa, pl) pm = (pa, All-append P l m pl pm)

pub All-map :
    {A : Type 0} (P Q : A → Type 0) (l : List A) → ((a : A) → P a → Q a) → All P l → All Q l
All-map P Q [] f all = tt
All-map P Q (a ∷ l) f (pa, all) = (f a pa, All-map P Q l f all)

pub All-with_prefix :
    (P : PathCandidate → Type 0) (prefix : Bytes) (l : List PathCandidate)
    → All P l
    → All P (with_prefix prefix l)
All-with_prefix P prefix [] all = tt
All-with_prefix P prefix (c ∷ l) (pc, all) = elim (Bool-cases (has_prefix c.name prefix)) [
  | inl kept ↦ rw kept (pc, All-with_prefix P prefix l all)
  | inr left ↦ rw left (All-with_prefix P prefix l all)
]

-- What holds of every candidate with a name holds of those that `add` keeps.
pub All-add_all :
    (P : PathCandidate → Type 0) (l : List PathCandidate) (seen : List Bytes)
    → All (λ c. is_empty c.name ≡ false → P c) l
    → All P (add_all l seen)
unfolding add_all
All-add_all P [] seen all = tt
All-add_all P (c ∷ l) seen (pc, all) = elim (Bool-cases (is_empty c.name || contains seen c.name)) [
  | inl skipped ↦ rw (add_all, skipped) (All-add_all P l seen all)
  | inr added ↦ rw (add_all, added) (pc (ground arith), All-add_all P l (c.name ∷ seen) all)
]

abbrev pub is_suffix : Suffix → Bool
is_suffix no_suffix = false
is_suffix _ = true

suffix_loop_wildcard :
    (paths : List LookupPath) (prefix : List Bytes) (segment : Bytes) (look rel : Bool)
    → is_suffix (suffix_loop paths prefix segment look rel true) ≡ true
unfolding suffix_loop
suffix_loop_wildcard [] prefix segment look rel = refl
suffix_loop_wildcard (path ∷ rest) prefix segment look rel =
    ground (arith, suffix_loop_wildcard rest prefix segment look rel)

-- A suffix that the later paths allow is allowed.
suffix_loop_later :
    (path : LookupPath) (rest : List LookupPath) (prefix : List Bytes) (segment : Bytes)
    (look rel wildcard : Bool)
    → ((w : Bool) → is_suffix (suffix_loop rest prefix segment look rel w) ≡ true)
    → is_suffix (suffix_loop (path ∷ rest) prefix segment look rel wildcard) ≡ true
unfolding suffix_loop
suffix_loop_later path rest prefix segment look rel wildcard h =
    ground (arith, h wildcard, h (wildcard || true))

fresh_lookups-has_lookup :
    (names : List Bytes) (rel : Bool) (seen : List Bytes)
    → All (λ n. has_lookup names n rel ≡ true) (fresh_lookups names rel seen)
unfolding fresh_lookups has_lookup
fresh_lookups-has_lookup [] rel seen = tt
fresh_lookups-has_lookup (name ∷ rest) rel seen =
    let later = λ (s : List Bytes).
      All-map (λ n. has_lookup rest n rel ≡ true) (λ n. has_lookup (name ∷ rest) n rel ≡ true)
        (fresh_lookups rest rel s) (λ n h. ground (arith, h))
        (fresh_lookups-has_lookup rest rel s) in
    elim (Bool-cases ((rel && not (relation_lookup name)) || contains seen name)) [
      | inl left ↦ rw left (later seen)
      | inr kept ↦
          let here : has_lookup (name ∷ rest) name rel ≡ true =
            ground (arith, bytes_eq_refl name) in
          rw kept (here, later (name ∷ seen))
    ]

-- The segment is a suffix whatever the visit has seen before.
abbrev pub Accepts : FieldRef → List LookupPath → List Bytes → Bool → PathCandidate → Type 0
Accepts ref paths prefix look c =
    (w : Bool) → is_suffix (suffix_loop paths prefix c.name look ref.field.is_relation w) ≡ true

lookup_candidates-Accepts :
    (ref : FieldRef) (path : LookupPath) (rest : List LookupPath) (prefix names : List Bytes)
    → behind prefix path.transforms ≡ some []
    → All (λ n. has_lookup path.lookups n ref.field.is_relation ≡ true) names
    → All (Accepts ref (path ∷ rest) prefix true) (lookup_candidates ref names)
unfolding lookup_candidates suffix_loop
lookup_candidates-Accepts ref path rest prefix [] ends all = tt
lookup_candidates-Accepts ref path rest prefix (name ∷ names) ends (here, all) = (
  (λ w. ground (arith, here, ends)),
  lookup_candidates-Accepts ref path rest prefix names ends all,
)

Accepts-later :
    (ref : FieldRef) (path : LookupPath) (rest : List LookupPath) (prefix : List Bytes)
    (look : Bool) (cs : List PathCandidate)
    → All (Accepts ref rest prefix look) cs
    → All (Accepts ref (path ∷ rest) prefix look) cs
Accepts-later ref path rest prefix look cs all =
    All-map (Accepts ref rest prefix look) (Accepts ref (path ∷ rest) prefix look) cs
      (λ c h w. suffix_loop_later path rest prefix c.name look ref.field.is_relation w h) all

next_accepted :
    (ref : FieldRef) (path : LookupPath) (rest : List LookupPath) (prefix : List Bytes)
    (name : Bytes) (more : List Bytes) (look w : Bool)
    → behind prefix path.transforms ≡ some (name ∷ more)
    → is_suffix (suffix_loop (path ∷ rest) prefix name look ref.field.is_relation w) ≡ true
unfolding suffix_loop
next_accepted ref path rest prefix name more look w ends = ground (arith, bytes_eq_refl name)

ending :
    (ref : FieldRef) (path : LookupPath) (rest : List LookupPath) (prefix : List Bytes)
    (look : Bool) (seen : List Bytes)
    → behind prefix path.transforms ≡ some []
    → ((s : List Bytes)
        → All
            (Accepts ref (path ∷ rest) prefix look)
            (suffix_candidates_loop ref rest prefix look s))
    → let fresh = if look then fresh_lookups path.lookups ref.field.is_relation seen else [] in
      All
        (Accepts ref (path ∷ rest) prefix look)
        (lookup_candidates ref fresh ++ suffix_candidates_loop ref rest prefix look (fresh ++ seen))
unfolding lookup_candidates
ending ref path rest prefix true seen ends later =
    let fresh = fresh_lookups path.lookups ref.field.is_relation seen in
    All-append (Accepts ref (path ∷ rest) prefix true) (lookup_candidates ref fresh)
      (suffix_candidates_loop ref rest prefix true (fresh ++ seen))
      (lookup_candidates-Accepts ref path rest prefix fresh ends
        (fresh_lookups-has_lookup path.lookups ref.field.is_relation seen))
      (later (fresh ++ seen))
ending ref path rest prefix false seen ends later = later seen

pub suffix_candidates_loop-Accepts :
    (ref : FieldRef) (paths : List LookupPath) (prefix : List Bytes) (look : Bool)
    (seen : List Bytes)
    → All (Accepts ref paths prefix look) (suffix_candidates_loop ref paths prefix look seen)
unfolding suffix_candidates_loop
suffix_candidates_loop-Accepts ref [] prefix look seen = tt
suffix_candidates_loop-Accepts ref (path ∷ rest) prefix look seen =
    let later = λ (s : List Bytes).
      Accepts-later ref path rest prefix look (suffix_candidates_loop ref rest prefix look s)
        (suffix_candidates_loop-Accepts ref rest prefix look s) in
    elim (Option-cases (behind prefix path.transforms)) [
      | inl other ↦ rw (suffix_candidates_loop, other) (later seen)
      | inr ([], ends) ↦
          rw (suffix_candidates_loop, ends) (ending ref path rest prefix look seen ends later)
      | inr (name ∷ more, ends) ↦ elim (Bool-cases (bytes_eq name star || contains seen name)) [
        | inl left ↦ rw (suffix_candidates_loop, ends, left) (later seen)
        | inr kept ↦
            rw (suffix_candidates_loop, ends, kept)
              ((λ w. next_accepted ref path rest prefix name more look w ends), later (name ∷ seen))
      ]
    ]
