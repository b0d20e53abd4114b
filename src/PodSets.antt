-- ===== src/PodSets.antt =====
-- The pod sets of pkg/utils/utils.go: their inference from a wrapped object, their validation, the
-- initialisation of the component statuses, and the infos that Kueue assigns.
mod Infer
pub mod Templates
pub mod Kueue
pub mod Initialized
pub mod Assign
pub mod Valid
unfoldable pub use Infer.*
use appwrapper.Base.{
  ℤ, pos, ℕ, zero, suc, Bool, true, false, ◌&&◌, not, Option, none, some, List, [], ◌∷◌, ◌++◌, ◌+ℤ◌,
  ◌+◌, ◌==◌, eqb_ℤ, int32, if◌then◌else◌, length, is_nil,
}
use appwrapper.Base.Text.{Text, lookup, insert}
use appwrapper.Base.Result.{Result, ok, err, ◌>>=◌}
use appwrapper.Api.{AppWrapper, Component, ComponentStatus, PodSet, PodSetInfo, Spec}
use appwrapper.Cluster.{Library, Error, Reply, internal}
use appwrapper.Paths.{PathError}

-- Replicas(ps)
unfoldable pub replicas : PodSet → ℤ
replicas ps = elim ps.replicas [ none ↦ pos 1 | some n ↦ n ]

-- The status that a component starts with; the other fields have Go's zero values.
abbrev initial_status : List PodSet → ComponentStatus
initial_status pss = record {
  name = [];
  kind = [];
  api_version = [];
  pod_sets = pss;
  conditions = [];
}

-- The inferred pod sets, with an error of the inference as an error of the caller.
abbrev lifted : Result PathError (List PodSet) → Reply (List PodSet)
lifted (ok pss) = ok pss
lifted (err e) = err (internal [])

module _ (l : Library) where
  initialize_component : Component → Reply ComponentStatus
  initialize_component c =
      if is_nil c.declared_pod_sets
      then (do m ← l.decode c.template; pss ← lifted (infer_pod_sets l m); ok (initial_status pss))
      else ok (initial_status c.declared_pod_sets)

  initialize_components : List Component → Reply (List ComponentStatus)
  initialize_components [] = ok []
  initialize_components (c ∷ cs) = do
    s ← initialize_component c
    rest ← initialize_components cs
    ok (s ∷ rest)

  -- The statuses after EnsureComponentStatusInitialized; an error leaves them as they were.
  unfoldable pub ensure_component_status_initialized : AppWrapper → Reply AppWrapper
  unfolding initialize_components initialize_component
  ensure_component_status_initialized aw =
      if length aw.status.component_status == length aw.spec.components then ok aw else do
        css ← initialize_components aw.spec.components
        ok (record aw { status = record aw.status { component_status = css } })

-- `expected += Replicas(s)` over the pod sets, in int32.
add_replicas : ℤ → List PodSet → ℤ
add_replicas acc [] = acc
add_replicas acc (ps ∷ pss) = add_replicas (int32 (acc +ℤ replicas ps)) pss

sum_replicas : ℤ → List ComponentStatus → ℤ
unfolding add_replicas
sum_replicas acc [] = acc
sum_replicas acc (c ∷ cs) = sum_replicas (add_replicas acc c.pod_sets) cs

module _ (l : Library) where
  -- ExpectedPodCount, with the AppWrapper that it may have initialised.
  unfoldable pub expected_pod_count : AppWrapper → Reply (AppWrapper × ℤ)
  unfolding sum_replicas
  expected_pod_count aw = do
    aw' ← ensure_component_status_initialized l aw
    ok (aw', sum_replicas (pos 0) aw'.status.component_status)

abbrev pub no_info : PodSetInfo
no_info = record {
  annotations = [];
  labels = [];
  node_selector = [];
  tolerations = [];
  scheduling_gates = [];
}

abbrev fresh_infos : List PodSet → List PodSetInfo
fresh_infos [] = []
fresh_infos (ps ∷ pss) = no_info ∷ fresh_infos pss

-- The infos that a component starts the loop with: its own, if there is one for each pod set.
abbrev resized : List PodSetInfo → List PodSet → List PodSetInfo
resized infos pss = if length infos == length pss then infos else fresh_infos pss

-- The inner loop: each pod set takes the next info, and keeps what it has when there is none left.
fill : List PodSetInfo → List PodSetInfo → List PodSetInfo × List PodSetInfo
fill [] queue = ([], queue)
fill (old ∷ olds) [] = (old ∷ olds, [])
fill (old ∷ olds) (info ∷ queue) = let (infos, rest) = fill olds queue in (info ∷ infos, rest)

-- The outer loop, with `podSetsInfoIndex`; `none` is an index out of range.
assign : List Component → List ComponentStatus → List PodSetInfo → ℕ → Option (List Component × ℕ)
unfolding fill
assign [] css queue index = some ([], index)
assign (c ∷ cs) [] queue index = none
assign (c ∷ cs) (s ∷ css) queue index =
    let (infos, rest) = fill (resized c.pod_set_infos s.pod_sets) queue in
    elim (assign cs css rest (index + length s.pod_sets)) [
      | none ↦ none
      | some (cs', index') ↦ some (record c { pod_set_infos = infos } ∷ cs', index')
    ]

abbrev with_components : AppWrapper → List Component → AppWrapper
with_components aw cs = record aw { spec = record aw.spec { components = cs } }

-- BadPodSetsInfoLenError, or nil.
abbrev length_error : ℕ → ℕ → Option Error
length_error index n = if index == n then none else some (internal [])

module _ (l : Library) where
  -- SetPodSetInfos: the AppWrapper, changed also where the lengths disagree, and the error.
  unfoldable pub set_pod_set_infos :
      AppWrapper → List PodSetInfo → Option (AppWrapper × Option Error)
  unfolding assign
  set_pod_set_infos aw infos = elim (ensure_component_status_initialized l aw) [
    | err e ↦ some (aw, some e)
    | ok aw' ↦ elim (assign aw'.spec.components aw'.status.component_status infos 0) [
      | none ↦ none
      | some (cs, index) ↦ some (with_components aw' cs, length_error index (length infos))
    ]
  ]

abbrev pub cleared : List Component → List Component
cleared [] = []
cleared (c ∷ cs) = record c { pod_set_infos = [] } ∷ cleared cs

-- ClearPodSetInfos
unfoldable pub clear_pod_set_infos : AppWrapper → AppWrapper × Bool
clear_pod_set_infos aw = (with_components aw (cleared aw.spec.components), true)

-- The error of ValidatePodSets, one for each test.
pub data PodSetError : Type 0 where
  duplicate_path count_differs path_missing replicas_differ : PodSetError

-- The loop over the declared pod sets, with `declaredPaths`.
declared_paths : List (Text × PodSet) → List PodSet → Result PodSetError (List (Text × PodSet))
declared_paths seen [] = ok seen
declared_paths seen (p ∷ ps) =
    let rest = declared_paths (insert p.path p seen) ps in
    elim (lookup p.path seen) [ some q ↦ err duplicate_path | none ↦ rest ]

-- The loop over the inferred pod sets.
match_inferred : List (Text × PodSet) → List PodSet → Option PodSetError
match_inferred declared [] = none
match_inferred declared (p ∷ ps) = elim (lookup p.path declared) [
  | none ↦ some path_missing
  | some d ↦
      if eqb_ℤ (replicas p) (replicas d) then match_inferred declared ps else some replicas_differ
]

unfoldable pub validate_pod_sets : List PodSet → List PodSet → Option PodSetError
unfolding declared_paths match_inferred
validate_pod_sets declared inferred =
    if is_nil declared then none else elim (declared_paths [] declared) [
      | err e ↦ some e
      | ok paths ↦
          if is_nil inferred
          then none
          else if length inferred == length declared
          then match_inferred paths inferred
          else some count_differs
    ]
