-- ===== src/PodSets/Infer.antt =====
-- InferPodSets: the pod sets of the known kinds of objects.
use appwrapper.Base.{
  ℤ, pos, ℕ, zero, suc, Bool, ◌&&◌, none, some, List, [], ◌∷◌, ◌++◌, ltb_ℤ, if◌then◌else◌, length,
}
use appwrapper.Base.Text.{Text, codes, text_eq}
use appwrapper.Base.Json.{Fields, as_array}
use appwrapper.Base.Result.{Result, ok, err, ◌>>=◌, is_ok}
use appwrapper.Base.Strings.{decimal}
use appwrapper.Api.{PodSet}
use appwrapper.Cluster.{Library, Gvk}
use appwrapper.PodSets.Templates.{get_pod_template_spec}
use appwrapper.Paths.{PathError, template_string, get_value_at_path, get_replicas, infer_replicas}

abbrev pub gvk : Text → Text → Text → Gvk
gvk g v k = record { group = g; version = v; kind = k }

abbrev pub same_gvk : Gvk → Gvk → Bool
same_gvk a b = text_eq a.group b.group && text_eq a.version b.version && text_eq a.kind b.kind

abbrev pod_set : ℤ → Text → PodSet
pod_set n p = record { replicas = some n; path = p }

-- The tests by which GetPodTemplateSpec fails.
unfoldable pub check_pod_template_spec : Library → Fields → Text → Result PathError Unit
check_pod_template_spec l m path = do _ ← get_pod_template_spec l m path; ok tt

-- A pod set where its template is found: the test and the inference that the cases share.
replica_group : Fields → Text → Text → Result PathError (List PodSet)
replica_group m path count_path =
    if is_ok (get_value_at_path m path)
    then (do n ← infer_replicas m count_path; ok (pod_set n path ∷ []))
    else ok []

appended :
    Result PathError (List PodSet) → Result PathError (List PodSet) → Result PathError (List PodSet)
appended a b = do xs ← a; ys ← b; ok (xs ++ ys)

abbrev worker_prefix : Text → ℕ → Text
worker_prefix prefix i = prefix ++ (codes "workerGroupSpecs[" ++ (decimal i ++ codes "]."))

-- The loop over the worker groups from the i-th on.
worker_groups : Fields → Text → ℕ → ℕ → Result PathError (List PodSet)
unfolding replica_group appended decimal
worker_groups m prefix i zero = ok []
worker_groups m prefix i (suc n) =
    let rest = worker_groups m prefix (suc i) n in
    let w = worker_prefix prefix i in
    appended (replica_group m (w ++ template_string) (w ++ codes "replicas")) rest

infer_ray_pod_sets : Fields → Text → Result PathError (List PodSet)
unfolding worker_groups
infer_ray_pod_sets m prefix =
    let head = pod_set (pos 1) (prefix ++ codes "headGroupSpec.template") in
    elim (get_value_at_path m (prefix ++ codes "workerGroupSpecs")) [
      | err e ↦ ok (head ∷ [])
      | ok workers ↦ elim (as_array workers) [
        | none ↦ ok (head ∷ [])
        | some xs ↦ appended (ok (head ∷ [])) (worker_groups m prefix 0 (length xs))
      ]
    ]

abbrev or_else : Result PathError ℤ → ℤ → ℤ
or_else (ok n) d = n
or_else (err e) d = d

abbrev smaller : Result PathError ℤ → ℤ → ℤ
smaller (ok n) d = if ltb_ℤ n d then n else d
smaller (err e) d = d

job_replicas : Fields → ℤ
job_replicas m =
    smaller (get_replicas m (codes "template.spec.completions"))
      (or_else (get_replicas m (codes "template.spec.parallelism")) (pos 1))

pytorch_group : Fields → Text → Result PathError (List PodSet)
pytorch_group m replica_type =
    let prefix = codes "template.spec.pytorchReplicaSpecs." ++ (replica_type ++ codes ".") in
    replica_group m (prefix ++ template_string) (prefix ++ codes "replicas")

deployment_group : Fields → Result PathError (List PodSet)
deployment_group m =
    replica_group m (codes "template.spec.template") (codes "template.spec.replicas")

-- The switch on the object's kind, with `templatesForGVK` as its last cases.
unfoldable pub candidate_pod_sets : Fields → Gvk → Result PathError (List PodSet)
unfolding job_replicas pytorch_group infer_ray_pod_sets deployment_group replica_group appended
candidate_pod_sets m g =
    if same_gvk g (gvk (codes "batch") (codes "v1") (codes "Job"))
    then ok (pod_set (job_replicas m) (codes "template.spec.template") ∷ [])
    else if same_gvk g (gvk (codes "kubeflow.org") (codes "v1") (codes "PyTorchJob"))
    then appended (pytorch_group m (codes "Master")) (pytorch_group m (codes "Worker"))
    else if same_gvk g (gvk (codes "ray.io") (codes "v1") (codes "RayCluster"))
    then infer_ray_pod_sets m (codes "template.spec.")
    else if same_gvk g (gvk (codes "ray.io") (codes "v1") (codes "RayJob"))
    then infer_ray_pod_sets m (codes "template.spec.rayClusterSpec.")
    else if same_gvk g (gvk [] (codes "v1") (codes "Pod"))
    then replica_group m (codes "template") []
    else if same_gvk g (gvk (codes "apps") (codes "v1") (codes "Deployment"))
    then deployment_group m
    else if same_gvk g (gvk (codes "apps") (codes "v1") (codes "StatefulSet"))
    then deployment_group m
    else ok []

check_all : Library → Fields → List PodSet → Result PathError Unit
check_all l m [] = ok tt
check_all l m (ps ∷ pss) = do _ ← check_pod_template_spec l m ps.path; check_all l m pss

unfoldable pub infer_pod_sets : Library → Fields → Result PathError (List PodSet)
unfolding candidate_pod_sets check_all
infer_pod_sets l m = do
  pss ← candidate_pod_sets m (l.group_version_kind m)
  _ ← check_all l m pss
  ok pss
