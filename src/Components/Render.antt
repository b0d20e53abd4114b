-- ===== src/Components/Render.antt =====
-- The first part of createComponent of internal/controller/appwrapper/resource_management.go, up to
-- SetControllerReference, with parseComponent: the object to create. An error of it is fatal;
-- `none` is a panic. Where the code ranges over a Go map, the model takes the list's order.
pub mod Affinity
pub mod Gates
pub mod Labels
mod Tests
use appwrapper.Base.{
  ℕ, zero, suc, Bool, true, false, ◌&&◌, not, Option, none, some, List, [], ◌∷◌, ◌++◌, any, is_nil,
  get_elem?, if◌then◌else◌,
}
use appwrapper.Base.Text.{Text, StringMap, codes, text_eq, lookup, insert}
use appwrapper.Base.Json.{
  Json, Fields, end, field, obj, arr, null, str, str_map, items, from_items, get_field, set_field,
  as_map, as_array, as_string,
}
use appwrapper.Base.Result.{Result, ok, err}
use appwrapper.Config.{AppWrapperConfig, AutopilotConfig, Taint}
use appwrapper.Api.{AppWrapper, Component, ComponentStatus, PodSet, PodSetInfo, app_wrapper_label}
use appwrapper.Cluster.{Library, Kit, Error, Reply, internal}
use appwrapper.Paths.{get_raw_template, put_raw_template}
use appwrapper.PodSets.{no_info}
use appwrapper.Components.Render.Affinity.{has_resource_request, add_node_selectors_to_affinity}

-- A reply, or a panic.
abbrev pub Attempt : Type 0 → Type 0
Attempt A = Option (Reply A)

infixl 5 ◌>>=◌
abbrev ◌>>=◌ : {A B : Type 0} → Attempt A → (A → Attempt B) → Attempt B
m >>= f = elim m [ none ↦ none | some r ↦ elim r [ err e ↦ some (err e) | ok a ↦ f a ] ]

abbrev done : {A : Type 0} → A → Attempt A
done a = some (ok a)

abbrev fails : {A : Type 0} → Error → Attempt A
fails e = some (err e)

-- A type assertion without `ok`.
abbrev asserted : {A : Type 0} → Option A → Attempt A
asserted none = none
asserted (some a) = some (ok a)

module _ (l : Library) where
  -- parseComponent
  unfoldable pub parse_component : Text → Text → Reply Fields
  parse_component raw expected = elim (l.decode raw) [
    | err e ↦ err e
    | ok m ↦
        if is_nil (l.namespace_of m)
        then ok (l.with_namespace m expected)
        else if text_eq (l.namespace_of m) expected
        then ok m
        else err (internal [])
  ]

  abbrev entry_text : Json → Text
  entry_text (str s) = s
  entry_text v = l.sprint v

  abbrev string_entries : Fields → StringMap
  string_entries end = []
  string_entries (field k v m) = (k, entry_text v) ∷ string_entries m

  -- toMap
  abbrev to_map : Option Json → StringMap
  to_map (some (str_map m)) = m
  to_map (some (obj m)) = string_entries m
  to_map _ = []

  -- The check and the merge that labels, annotations and node selectors share.
  merge_into : Text → StringMap → Fields → Attempt Fields
  merge_into key additions m =
      let existing = to_map (get_field key m) in
      elim (l.have_conflict existing additions) [
        | some e ↦ fails e
        | none ↦ done (set_field key (str_map (l.merge_keep_first existing additions)) m)
      ]

  merge_unless_empty : Text → StringMap → Fields → Attempt Fields
  unfolding merge_into
  merge_unless_empty key additions m =
      if is_nil additions then done m else merge_into key additions m

-- `m[key]` as an array, stored as an empty one if it is missing.
array_at : Text → Fields → Attempt (List Json)
array_at key m = elim (get_field key m) [ none ↦ done [] | some v ↦ asserted (as_array v) ]

inject_tolerations : List Json → Fields → Attempt Fields
unfolding array_at
inject_tolerations additions spec = if is_nil additions then done spec else (do
  existing ← array_at (codes "tolerations") spec
  done (set_field (codes "tolerations") (arr (from_items (existing ++ additions))) spec))

-- Is a gate of this name there already?
pub has_name : Text → Json → Bool
has_name name gate = elim (as_map gate) [
  | none ↦ false
  | some m ↦ elim (get_field (codes "name") m) [
    | none ↦ false
    | some v ↦ elim (as_string v) [ none ↦ false | some s ↦ text_eq s name ]
  ]
]

pub add_gates : List Text → List Json → List Json
unfolding has_name
add_gates [] gates = gates
add_gates (name ∷ names) gates = add_gates names (
    if any (has_name name) gates
    then gates
    else gates ++ (obj (field (codes "name") (str name) end) ∷ []))

inject_scheduling_gates : List Text → Fields → Attempt Fields
unfolding array_at add_gates
inject_scheduling_gates additions spec = if is_nil additions then done spec else (do
  existing ← array_at (codes "schedulingGates") spec
  done (set_field (codes "schedulingGates") (arr (from_items (add_gates additions existing))) spec))

abbrev text_or_empty : Option Json → Text
text_or_empty (some (str s)) = s
text_or_empty _ = []

inject_scheduler_name : Text → Fields → Fields
inject_scheduler_name name spec =
    if not (is_nil name) && is_nil (text_or_empty (get_field (codes "schedulerName") spec))
    then set_field (codes "schedulerName") (str name) spec
    else spec

-- `toAdd[taint.Key] = append(toAdd[taint.Key], taint.Value)`
abbrev values_or_nil : Option (List Text) → List Text
values_or_nil none = []
values_or_nil (some vs) = vs

add_taints : List Taint → List (Text × List Text) → List (Text × List Text)
add_taints [] found = found
add_taints (t ∷ ts) found =
    add_taints ts (insert t.key (values_or_nil (lookup t.key found) ++ (t.value ∷ [])) found)

collect_taints :
    Library → Fields → List (Text × List Taint) → List (Text × List Text) → List (Text × List Text)
unfolding add_taints
collect_taints l spec [] found = found
collect_taints l spec ((resource, taints) ∷ rest) found =
    collect_taints l spec rest
      (if has_resource_request l spec resource then add_taints taints found else found)

abbrev requirements : Library → List (Text × List Text) → List Json
requirements l [] = []
requirements l ((key, vs) ∷ rest) = l.not_in key vs ∷ requirements l rest

-- The anti-affinities of Autopilot; an error of the injection is only logged.
inject_anti_affinities : Library → Option AutopilotConfig → Fields → Fields
unfolding collect_taints
inject_anti_affinities l none spec = spec
inject_anti_affinities l (some a) spec =
    let found = collect_taints l spec a.resource_taints [] in
    if a.inject_anti_affinities && not (is_nil found)
    then (add_node_selectors_to_affinity spec (requirements l found)).0
    else spec

-- `p["metadata"]`, a new map if it is missing or nil.
abbrev with_metadata : Fields → Fields
with_metadata p = elim (get_field (codes "metadata") p) [
  | none ↦ set_field (codes "metadata") (obj end) p
  | some null ↦ set_field (codes "metadata") (obj end) p
  | some _ ↦ p
]

abbrev map_at : Text → Fields → Attempt Fields
map_at key p = elim (get_field key p) [ none ↦ none | some v ↦ asserted (as_map v) ]

module _ {W : Type 0} (k : Kit W) where
  abbrev app_wrapper_labels : AppWrapper → StringMap
  app_wrapper_labels aw = (app_wrapper_label, aw.metadata.name) ∷ []

  inject_metadata : AppWrapper → PodSetInfo → Fields → Attempt Fields
  unfolding merge_into merge_unless_empty
  inject_metadata aw info md = do
    md1 ← merge_unless_empty k.lib (codes "annotations") info.annotations md
    merge_into k.lib (codes "labels") (k.lib.merge_keep_first info.labels (app_wrapper_labels aw))
        md1

  inject_spec : PodSetInfo → Fields → Attempt Fields
  unfolding merge_unless_empty inject_tolerations inject_scheduling_gates inject_scheduler_name
      inject_anti_affinities
  inject_spec info spec = do
    spec1 ← merge_unless_empty k.lib (codes "nodeSelector") info.node_selector spec
    spec2 ← inject_tolerations info.tolerations spec1
    spec3 ← inject_scheduling_gates info.scheduling_gates spec2
    done (
        inject_anti_affinities k.lib k.config.autopilot
          (inject_scheduler_name k.config.scheduler_name spec3))

  -- The body of the loop: the pod template of one pod set.
  inject_template : AppWrapper → PodSetInfo → Fields → Attempt Fields
  unfolding inject_metadata inject_spec
  inject_template aw info p = do
    md ← map_at (codes "metadata") (with_metadata p)
    spec ← map_at (codes "spec") (with_metadata p)
    md' ← inject_metadata aw info md
    spec' ← inject_spec info spec
    done (
        set_field (codes "spec") (obj spec')
          (set_field (codes "metadata") (obj md') (with_metadata p)))

  abbrev info_at : Component → ℕ → Reply PodSetInfo
  info_at c idx =
      if k.config.enable_kueue_integrations
      then elim (get_elem? c.pod_set_infos idx) [ none ↦ err (internal []) | some info ↦ ok info ]
      else ok no_info

  abbrev raw_template : Fields → Text → Reply Fields
  raw_template m path = elim (get_raw_template m path) [ err e ↦ err (internal []) | ok p ↦ ok p ]

  pub inject_pod_set : AppWrapper → Component → ℕ → PodSet → Fields → Attempt Fields
  unfolding inject_template
  inject_pod_set aw c idx ps m = do
    info ← some (info_at c idx)
    p ← some (raw_template m ps.path)
    p' ← inject_template aw info p
    done (put_raw_template m ps.path p')

  -- The loop, from the idx-th pod set on.
  inject_pod_sets : AppWrapper → Component → List PodSet → ℕ → Fields → Attempt Fields
  unfolding inject_pod_set
  inject_pod_sets aw c [] idx m = done m
  inject_pod_sets aw c (ps ∷ pss) idx m = do
    m' ← inject_pod_set aw c idx ps m
    inject_pod_sets aw c pss (suc idx) m'

  -- The object of a component, for its status.
  unfoldable pub render_component : AppWrapper → Component → ComponentStatus → Attempt Fields
  unfolding inject_pod_sets
  render_component aw c cs = do
    m ← some (parse_component k.lib c.template aw.metadata.namespace)
    m' ←
        inject_pod_sets aw c cs.pod_sets 0
          (k.lib.with_labels m (k.lib.merge_keep_first (k.lib.labels_of m) (app_wrapper_labels aw)))
    some (k.lib.set_controller_reference aw m')

  unfoldable pub render : AppWrapper → ℕ → Option (Result Error Fields)
  unfolding render_component
  render aw idx = elim (get_elem? aw.spec.components idx) [
    | none ↦ none
    | some c ↦ elim (get_elem? aw.status.component_status idx) [
      | none ↦ none
      | some cs ↦ render_component aw c cs
    ]
  ]
