-- ===== src/PodSets/Kueue.antt =====
-- GetPodSets of pkg/utils/utils.go: the pod sets of an AppWrapper, for Kueue.
use appwrapper.Base.{ℤ, ℕ, suc, Option, none, some, List, [], ◌∷◌, ◌++◌, is_nil, if◌then◌else◌}
use appwrapper.Base.Text.{Text, codes}
use appwrapper.Base.Json.{Json, Fields}
use appwrapper.Base.Result.{Result, ok, err, ◌>>=◌}
use appwrapper.Base.Strings.{decimal}
use appwrapper.Api.{AppWrapper, Component, ComponentStatus, PodSet}
use appwrapper.Cluster.{Library, Reply}
use appwrapper.Paths.{PathError}
use appwrapper.PodSets.{replicas, ensure_component_status_initialized}
use appwrapper.PodSets.Templates.{PodTemplateSpec, get_pod_template_spec}

-- A kueue.PodSet.
pub record KueuePodSet : Type 0 where
  pub name : Text
  pub template : PodTemplateSpec
  pub count : ℤ
  pub topology_request : Option Json

abbrev pod_set_name : Text → ℕ → ℕ → Text
pod_set_name name idx i = name ++ (codes "-" ++ (decimal idx ++ (codes "-" ++ decimal i)))

abbrev appended_if :
    Text → ℤ → Result PathError PodTemplateSpec → List KueuePodSet → List KueuePodSet
appended_if name n (err e) rest = rest
appended_if name n (ok t) rest =
    record { name = name; template = t; count = n; topology_request = none } ∷ rest

module _ (l : Library) where
  -- The inner loop, from the i-th pod set on.
  unfoldable pub template_pod_sets : Text → ℕ → Fields → ℕ → List PodSet → List KueuePodSet
  unfolding decimal
  template_pod_sets name idx m i [] = []
  template_pod_sets name idx m i (ps ∷ pss) =
      appended_if (pod_set_name name idx i) (replicas ps) (get_pod_template_spec l m ps.path)
        (template_pod_sets name idx m (suc i) pss)

  unfoldable pub component_pod_sets :
      Text → ℕ → Component → ComponentStatus → Reply (List KueuePodSet)
  unfolding template_pod_sets
  component_pod_sets name idx c s =
      if is_nil s.pod_sets
      then ok []
      else (do m ← l.decode c.template; ok (template_pod_sets name idx m 0 s.pod_sets))

  -- The outer loop, from the idx-th component on; `none` is an index out of range.
  unfoldable pub all_pod_sets :
      Text → ℕ → List Component → List ComponentStatus → Option (Reply (List KueuePodSet))
  unfolding component_pod_sets
  all_pod_sets name idx cs [] = some (ok [])
  all_pod_sets name idx [] (s ∷ css) =
      if is_nil s.pod_sets then all_pod_sets name (suc idx) [] css else none
  all_pod_sets name idx (c ∷ cs) (s ∷ css) = elim (component_pod_sets name idx c s) [
    | err e ↦ some (err e)
    | ok pss ↦ elim (all_pod_sets name (suc idx) cs css) [
      | none ↦ none
      | some (err e) ↦ some (err e)
      | some (ok rest) ↦ some (ok (pss ++ rest))
    ]
  ]

  -- GetPodSets: the pod sets or the error, and the AppWrapper, whose statuses it may initialise.
  unfoldable pub get_pod_sets : AppWrapper → Option (Reply (List KueuePodSet) × AppWrapper)
  unfolding all_pod_sets
  get_pod_sets aw = elim (ensure_component_status_initialized l aw) [
    | err e ↦ some (err e, aw)
    | ok aw' ↦
        elim (all_pod_sets aw'.metadata.name 0 aw'.spec.components aw'.status.component_status) [
          | none ↦ none
          | some r ↦ some (r, aw')
        ]
  ]
