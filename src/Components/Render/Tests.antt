-- ===== src/Components/Render/Tests.antt =====
-- The rendering of one pod set on a small object.
use appwrapper.Base.{ℕ, ◌≡◌, refl, false, none, some, [], ◌∷◌, is_nil, if◌then◌else◌}
use appwrapper.Base.Text.{codes, StringMap, lookup, text_eq}
use appwrapper.Base.Json.{Fields, field, end, obj, str_map, get_field, set_field}
use appwrapper.Base.Result.{ok}
use appwrapper.Api.{AppWrapper, Component, PodSet, PodSetInfo, empty, app_wrapper_label}
use appwrapper.Config.{new_app_wrapper_config}
use appwrapper.Cluster.{Kit, Library, api_error}
use appwrapper.Base.Strings.{after_prefix, index_of}
use appwrapper.Paths.{get_raw_template, get_value_at_path, put_raw_template}
use appwrapper.Components.Render.{
  inject_pod_set, info_at, inject_template, inject_metadata, merge_into, merge_unless_empty,
  inject_spec, inject_tolerations, inject_scheduling_gates, inject_scheduler_name,
  inject_anti_affinities,
}
use appwrapper.Components.Render.Labels.{Agree, Labelled, inject_pod_set-Labelled}
use appwrapper.Tests.World.{kit, library, component, app_wrapper, library-KeepsFirst}

-- Entries may only be merged into a map that has none.
abbrev strict_library : Library
strict_library = record library {
  have_conflict = λ a b. if is_nil a then none else some (api_error 1);
}

abbrev strict_kit : Kit ℕ
strict_kit = record kit {
  lib = strict_library;
  config = record new_app_wrapper_config { autopilot = none };
}

strict-Agree : Agree strict_library
unfolding lookup
strict-Agree [] b key v w h e f = absurd cc
strict-Agree (x ∷ a) b key v w h e f = absurd cc

abbrev wrapper : AppWrapper
wrapper = app_wrapper empty false false []

abbrev info : PodSetInfo
info = record {
  annotations = [];
  labels = (codes "zone", codes "a") ∷ [];
  node_selector = [];
  tolerations = [];
  scheduling_gates = [];
}

abbrev informed : Component
informed = record component { pod_set_infos = info ∷ [] }

abbrev pod_set : PodSet
pod_set = record { replicas = none; path = codes "template.template" }

abbrev before : Fields
before = field (codes "template") (obj (field (codes "spec") (obj end) end)) end

abbrev labels : StringMap
labels = (codes "zone", codes "a") ∷ (app_wrapper_label, codes "aw") ∷ []

abbrev after : Fields
after =
    field (codes "template")
      (obj (
        field (codes "spec") (obj end)
          (field (codes "metadata") (obj (field (codes "labels") (str_map labels) end)) end)))
      end

rendered : inject_pod_set strict_kit wrapper informed 0 pod_set before ≡ some (ok after)
unfolding inject_pod_set inject_template inject_metadata merge_into merge_unless_empty inject_spec
    inject_tolerations inject_scheduling_gates inject_scheduler_name inject_anti_affinities
    get_raw_template get_value_at_path put_raw_template after_prefix get_field set_field text_eq
    index_of
rendered = refl

inject_pod_set-Labelled_example :
    (i : PodSetInfo) × (p : Fields) × (info_at strict_kit informed 0 ≡ ok i)
    × (get_raw_template after pod_set.path ≡ ok p)
    × Labelled wrapper i p
inject_pod_set-Labelled_example =
    inject_pod_set-Labelled strict_kit library-KeepsFirst strict-Agree wrapper informed 0 pod_set
      before after rendered
