-- ===== src/PodSets/Valid.antt =====
-- ValidatePodSets of pkg/utils/utils.go, against a description of the lists that fit.
use appwrapper.Base.{
  ◌≡◌, refl, arith, false, Bool-cases, inl, inr, Option, none, some, List, [], ◌∷◌, length, ◌==◌,
  ==_iff, if◌then◌else◌, Option-cases, is_nil, All, eqb_ℤ, eqb_ℤ_iff,
}
use appwrapper.Base.Text.{Text, text_eq, text_eq_iff, text_eq_refl, lookup, insert, lookup-insert}
use appwrapper.Base.Result.{ok, Result-cases}
use appwrapper.Api.{PodSet}
use appwrapper.PodSets.{replicas, declared_paths, match_inferred, validate_pod_sets}

-- The first pod set with a path.
abbrev pub find_path : Text → List PodSet → Option PodSet
find_path x [] = none
find_path x (p ∷ ps) = if text_eq p.path x then some p else find_path x ps

-- No path occurs twice.
abbrev pub Distinct : List PodSet → Type 0
Distinct [] = Unit
Distinct (p ∷ ps) = (find_path p.path ps ≡ none) × Distinct ps

-- A pod set of the same path and the same number of replicas is declared.
abbrev pub Declares : List PodSet → PodSet → Type 0
Declares declared p =
    (d : PodSet) × (find_path p.path declared ≡ some d) × (replicas p ≡ replicas d)

abbrev Seen : Type 0
Seen = List (Text × PodSet)

-- An accepted path was not seen before.
fresh :
    (seen : Seen) (ds : List PodSet) (m : Seen) (x : Text) (q : PodSet)
    → declared_paths seen ds ≡ ok m
    → find_path x ds ≡ some q
    → lookup x seen ≡ none
unfolding declared_paths
fresh seen [] m x q e f = cc
fresh seen (p ∷ ps) m x q e f = elim (Option-cases (lookup p.path seen)) [
  | inr (d, h) ↦ absurd (ground arith)
  | inl h ↦ elim (Bool-cases (text_eq p.path x)) [
    | inl t ↦ ground (arith, text_eq_iff p.path x)
    | inr t ↦
        let g = fresh (insert p.path p seen) ps m x q (rw (h, declared_paths) at e) (rw t at f) in
        ground (arith, lookup-insert p.path x p seen)
  ]
]

-- A path that has just been stored is not found again.
unseen :
    (p : PodSet) (seen : Seen) (ps : List PodSet) (m : Seen)
    → declared_paths (insert p.path p seen) ps ≡ ok m
    → find_path p.path ps ≡ none
unseen p seen ps m e = elim (Option-cases (find_path p.path ps)) [
  | inl h ↦ h
  | inr (q, h) ↦
      let f = fresh (insert p.path p seen) ps m p.path q e h in
      absurd (ground (arith, lookup-insert p.path p.path p seen, text_eq_refl p.path))
]

declared_paths-Distinct :
    (seen : Seen) (ds : List PodSet) (m : Seen) → declared_paths seen ds ≡ ok m → Distinct ds
unfolding declared_paths
declared_paths-Distinct seen [] m e = tt
declared_paths-Distinct seen (p ∷ ps) m e = elim (Option-cases (lookup p.path seen)) [
  | inr (d, h) ↦ absurd (ground arith)
  | inl h ↦
      let rest : declared_paths (insert p.path p seen) ps ≡ ok m = rw (h, declared_paths) at e in
      (unseen p seen ps m rest, declared_paths-Distinct (insert p.path p seen) ps m rest)
]

-- What has been seen stays in the map.
declared_paths_keeps :
    (seen : Seen) (ds : List PodSet) (m : Seen) (x : Text) (q : PodSet)
    → declared_paths seen ds ≡ ok m
    → lookup x seen ≡ some q
    → lookup x m ≡ some q
unfolding declared_paths
declared_paths_keeps seen [] m x q e f = ground arith
declared_paths_keeps seen (p ∷ ps) m x q e f = elim (Option-cases (lookup p.path seen)) [
  | inr (d, h) ↦ absurd (ground arith)
  | inl h ↦
      declared_paths_keeps (insert p.path p seen) ps m x q (rw (h, declared_paths) at e)
        (ground (arith, lookup-insert p.path x p seen, text_eq_iff p.path x))
]

-- The map holds no other pod sets than the declared ones.
lookup-declared_paths :
    (seen : Seen) (ds : List PodSet) (m : Seen) (x : Text) (q : PodSet)
    → declared_paths seen ds ≡ ok m
    → lookup x m ≡ some q
    → lookup x seen ≡ none
    → find_path x ds ≡ some q
unfolding declared_paths
lookup-declared_paths seen [] m x q e f g = ground arith
lookup-declared_paths seen (p ∷ ps) m x q e f g = elim (Option-cases (lookup p.path seen)) [
  | inr (d, h) ↦ absurd (ground arith)
  | inl h ↦
      let rest : declared_paths (insert p.path p seen) ps ≡ ok m = rw (h, declared_paths) at e in
      elim (Bool-cases (text_eq p.path x)) [
        | inl t ↦
            let k =
              declared_paths_keeps (insert p.path p seen) ps m x p rest
                (rw (lookup-insert p.path x p seen, t) refl) in
            ground arith
        | inr t ↦ rw t (
            lookup-declared_paths (insert p.path p seen) ps m x q rest f
              (rw (lookup-insert p.path x p seen, t) g))
      ]
]

match_inferred-All :
    (declared : List PodSet) (m : Seen) (ps : List PodSet)
    → declared_paths [] declared ≡ ok m
    → match_inferred m ps ≡ none
    → All (Declares declared) ps
unfolding match_inferred lookup
match_inferred-All declared m [] e h = tt
match_inferred-All declared m (p ∷ ps) e h = elim (Option-cases (lookup p.path m)) [
  | inl l ↦ absurd (ground arith)
  | inr (d, l) ↦ elim (Bool-cases (eqb_ℤ (replicas p) (replicas d))) [
    | inr b ↦ absurd (ground arith)
    | inl b ↦ (
      (
        d,
        lookup-declared_paths [] declared m p.path d e l refl,
        (eqb_ℤ_iff (replicas p) (replicas d)).0 b,
      ),
      match_inferred-All declared m ps e (rw (l, match_inferred, b) at h),
    )
  ]
]

-- The declared pod sets fit the inferred ones.
pub record Fits (declared inferred : List PodSet) : Type 0 where
  pub distinct : Distinct declared
  pub count : is_nil inferred ≡ false → length inferred ≡ length declared
  pub declares : All (Declares declared) inferred

-- When ValidatePodSets accepts declared pod sets, of which there is at least one, no path is
-- declared twice, and each inferred pod set has a declared one of the same path and the same
-- number of replicas; where pod sets were inferred, there are as many as are declared.
pub validate_pod_sets-Fits :
    (declared inferred : List PodSet)
    → is_nil declared ≡ false
    → validate_pod_sets declared inferred ≡ none
    → Fits declared inferred
unfolding validate_pod_sets
validate_pod_sets-Fits declared [] n h = elim (Result-cases (declared_paths [] declared)) [
  | inr (x, e) ↦ absurd (ground arith)
  | inl (m, e) ↦ record {
    distinct = declared_paths-Distinct [] declared m e;
    count = λ f. cc;
    declares = tt;
  }
]
validate_pod_sets-Fits declared (p ∷ ps) n h = elim (Result-cases (declared_paths [] declared)) [
  | inr (x, e) ↦ absurd (ground arith)
  | inl (m, e) ↦ elim (Bool-cases (length (p ∷ ps) == length declared)) [
    | inr b ↦ absurd (ground arith)
    | inl b ↦ record {
      distinct = declared_paths-Distinct [] declared m e;
      count = λ f. (==_iff (length (p ∷ ps)) (length declared)).0 b;
      declares = match_inferred-All declared m (p ∷ ps) e (ground arith);
    }
  ]
]
