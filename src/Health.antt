-- ===== src/Health.antt =====
-- getComponentStatus of internal/controller/appwrapper/appwrapper_controller.go: how many of the
-- wrapped objects exist, and how many their own controllers report as failed.
use appwrapper.Base.{
  ℤ, pos, ℕ, Bool, true, false, ◌&&◌, Option, none, some, List, [], ◌∷◌, ◌++◌, ◌+ℤ◌, int32,
  if◌then◌else◌, length,
}
use appwrapper.Base.Text.{Text, codes, text_eq}
use appwrapper.Base.Json.{Json, Fields, get_field, as_map, as_array, as_string}
use appwrapper.Base.Result.{ok, err}
use appwrapper.Api.{ComponentStatus}
use appwrapper.Cluster.{Kit, Reply, Object, ObjectRef, is_not_found}
use appwrapper.Exec.{State, M}
use appwrapper.Pods.{is_set}

pub record ComponentStatusSummary : Type 0 where
  pub expected : ℤ
  pub deployed : ℤ
  pub failed : ℤ

abbrev plus : ℤ → ℕ → ℤ
plus a n = int32 (a +ℤ pos n)

failed_conditions : List (Text × Text) → ℕ
failed_conditions [] = 0
failed_conditions ((t, s) ∷ cs) =
    if text_eq t (codes "Failed") && text_eq s (codes "True")
    then ℕ.suc (failed_conditions cs)
    else failed_conditions cs

-- `v, ok := m[key]; ok && v.(string) == want`; `none` is the panic of the assertion.
abbrev is_text : Option Json → Text → Option Bool
is_text none want = some false
is_text (some v) want = elim (as_string v) [ none ↦ none | some s ↦ some (text_eq s want) ]

failed_entry : Json → Option Bool
failed_entry c = elim (as_map c) [
  | none ↦ some false
  | some m ↦ elim (is_text (get_field (codes "type") m) (codes "Failed")) [
    | none ↦ none
    | some false ↦ some false
    | some true ↦ is_text (get_field (codes "status") m) (codes "True")
  ]
]

failed_entries : List Json → Option ℕ
unfolding failed_entry
failed_entries [] = some 0
failed_entries (c ∷ cs) = elim (failed_entry c) [
  | none ↦ none
  | some b ↦ elim (failed_entries cs) [ none ↦ none | some n ↦ some (if b then ℕ.suc n else n) ]
]

-- The failed conditions of a PyTorchJob; a missing field is not a failure.
pytorch_failures : Fields → Option ℕ
unfolding failed_entries
pytorch_failures content = elim (get_field (codes "status") content) [
  | none ↦ some 0
  | some status ↦ elim (as_map status) [
    | none ↦ none
    | some m ↦ elim (get_field (codes "conditions") m) [
      | none ↦ some 0
      | some cond ↦ elim (as_array cond) [ none ↦ some 0 | some cs ↦ failed_entries cs ]
    ]
  ]
]

-- The failures that the switch on APIVersion:Kind reads from an object.
unfoldable pub failures : Text → Object → Option ℕ
unfolding failed_conditions pytorch_failures
failures kind obj =
    if text_eq kind (codes "batch/v1:Job")
    then some (failed_conditions obj.job_conditions)
    else if text_eq kind (codes "kubeflow.org/v1:PyTorchJob")
    then pytorch_failures obj.content
    else some 0

-- The summary after an object that was found.
unfoldable pub add_object : Text → Object → ComponentStatusSummary → Option ComponentStatusSummary
add_object kind obj s = if is_set obj.deletion_timestamp then some s else elim (failures kind obj) [
  | none ↦ none
  | some n ↦ some (record s { deployed = plus s.deployed 1; failed = plus s.failed n })
]

abbrev pub type_of : ComponentStatus → Text
type_of cs = cs.api_version ++ (codes ":" ++ cs.kind)

module _ {W : Type 0} (k : Kit W) where
  unfoldable pub check_components :
      Text → List ComponentStatus → ComponentStatusSummary → M W (Reply ComponentStatusSummary)
  unfolding add_object failures
  check_components ns [] sum s = some (ok sum, s)
  check_components ns (cs ∷ css) sum s =
      let ref : ObjectRef = record {
        api_version = cs.api_version;
        kind = cs.kind;
        name = cs.name;
        namespace = ns;
      } in
      let (r, w) = k.get_object ref s.world in
      let s' : State W = record s { world = w } in
      elim r [
        | ok obj ↦ elim (add_object (type_of cs) obj sum) [
          | none ↦ none
          | some sum' ↦ check_components ns css sum' s'
        ]
        | err e ↦ elim (is_not_found e) [
          | true ↦ check_components ns css sum s'
          | false ↦ some (err e, s')
        ]
      ]

  unfoldable pub get_component_status : M W (Reply ComponentStatusSummary)
  unfolding check_components
  get_component_status s =
      check_components s.aw.metadata.namespace s.aw.status.component_status
        (record {
          expected = int32 (pos (length s.aw.status.component_status));
          deployed = pos 0;
          failed = pos 0;
        })
        s
