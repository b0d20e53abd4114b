-- ===== src/Components/Render/Labels.antt =====
-- The labels of a pod template that createComponent injects
-- (internal/controller/appwrapper/resource_management.go).
use appwrapper.Base.{
  ℕ, ◌≡◌, refl, sym, ◌∙◌, ap, false, none, some, [], Option-cases, Bool-cases, inl, inr,
}
use appwrapper.Base.Text.{Text, StringMap, codes, text_eq, text_eq_refl, text_eq_sound, lookup}
use appwrapper.Base.Json.{Json, Fields, end, field, obj, str_map, get_field, set_field}
use appwrapper.Base.Result.{ok, err, Result-cases, ok_injective}
use appwrapper.Api.{AppWrapper, Component, PodSet, PodSetInfo, app_wrapper_label}
use appwrapper.Cluster.{Kit, Library, Reply, internal}
use appwrapper.Paths.{get_raw_template, put_raw_template}
use appwrapper.Paths.RoundTrip.{get_field-set_field, get_raw_template-put_raw_template}
use appwrapper.Webhook.Owner.{KeepsFirst}
use appwrapper.Components.Render.{
  Attempt, to_map, merge_into, merge_unless_empty, map_at, with_metadata, app_wrapper_labels,
  inject_metadata, inject_spec, inject_template, info_at, raw_template, inject_pod_set,
}

-- HaveConflict gives no error only where the two maps agree on the keys that both have.
abbrev pub Agree : Library → Type 0
Agree l =
    (a b : StringMap) (key v w : Text)
    → l.have_conflict a b ≡ none
    → lookup key a ≡ some v
    → lookup key b ≡ some w
    → v ≡ w

-- The first action of a successful pair has succeeded.
attempted :
    {A B : Type 0} (r : Attempt A) (f : A → Attempt B) (b : B)
    → (elim r [ none ↦ none | some x ↦ elim x [ err e ↦ some (err e) | ok a ↦ f a ] ]) ≡ some (ok b)
    → (a : A) × (r ≡ some (ok a)) × (f a ≡ some (ok b))
attempted none f b h = absurd cc
attempted (some (err e)) f b h = absurd cc
attempted (some (ok a)) f b h = (a, refl, h)

done_injective : {A : Type 0} {a b : A} → ◌≡◌ {A = Attempt A} (some (ok a)) (some (ok b)) → a ≡ b
done_injective e = cc

get_field-other :
    (j key : Text) (v : Json) (m : Fields)
    → text_eq key j ≡ false
    → get_field j (set_field key v m) ≡ get_field j m
unfolding get_field set_field
get_field-other j key v end h = rw h refl
get_field-other j key v (field i w m) h = elim (Bool-cases (text_eq i key)) [
  | inl p ↦
      let same : i ≡ key = text_eq_sound i key p in
      let other : text_eq i j ≡ false = rw same h in rw (set_field, p, get_field, h, other) refl
  | inr p ↦ elim (Bool-cases (text_eq i j)) [
    | inl q ↦ rw (set_field, p, get_field, q) refl
    | inr q ↦ rw (set_field, p, get_field, q) (get_field-other j key v m h)
  ]
]

-- The labels that a template gets.
pub record Labelled (aw : AppWrapper) (info : PodSetInfo) (p : Fields) : Type 0 where
  pub metadata : Fields
  pub labels : StringMap
  pub has_metadata : get_field (codes "metadata") p ≡ some (obj metadata)
  pub has_labels : get_field (codes "labels") metadata ≡ some (str_map labels)
  pub of_info : (name v : Text) → lookup name info.labels ≡ some v → lookup name labels ≡ some v
  pub of_app_wrapper :
      lookup app_wrapper_label info.labels ≡ none
      → lookup app_wrapper_label labels ≡ some aw.metadata.name

module _ {W : Type 0} (k : Kit W) (keeps : KeepsFirst k.lib) (agree : Agree k.lib) where
  -- A merge without a conflict has every entry of what is merged in.
  merged_entry :
      (a b : StringMap) (key v : Text)
      → k.lib.have_conflict a b ≡ none
      → lookup key b ≡ some v
      → lookup key (k.lib.merge_keep_first a b) ≡ some v
  merged_entry a b key v h e = elim (Option-cases (lookup key a)) [
    | inl p ↦ keeps a b key ∙ rw (p, e) refl
    | inr (u, p) ↦ keeps a b key ∙ rw p (ap some (agree a b key u v h p e))
  ]

  merge_into_lem :
      (key : Text) (additions : StringMap) (m m' : Fields)
      → merge_into k.lib key additions m ≡ some (ok m')
      → (labels : StringMap) × (get_field key m' ≡ some (str_map labels))
        × ((name v : Text) → lookup name additions ≡ some v → lookup name labels ≡ some v)
  unfolding merge_into
  merge_into_lem key additions m m' h =
      let existing = to_map k.lib (get_field key m) in
      elim (Option-cases (k.lib.have_conflict existing additions)) [
        | inr (e, p) ↦ absurd (
            let z : ◌≡◌ {A = Attempt Fields} (some (err e)) (some (ok m')) =
              rw (merge_into, p) at h in
            cc)
        | inl p ↦
            let labels = k.lib.merge_keep_first existing additions in
            let same : set_field key (str_map labels) m ≡ m' =
              done_injective (rw (merge_into, p) at h) in
            (
              labels,
              ap (get_field key) (sym same) ∙ get_field-set_field key (str_map labels) m,
              λ name v e. merged_entry existing additions name v p e,
            )
      ]

  own_label :
      (aw : AppWrapper) → lookup app_wrapper_label (app_wrapper_labels k aw) ≡ some aw.metadata.name
  unfolding lookup
  own_label aw = rw (text_eq_refl app_wrapper_label) refl

  inject_metadata_lem :
      (aw : AppWrapper) (info : PodSetInfo) (md md' : Fields)
      → inject_metadata k aw info md ≡ some (ok md')
      → (labels : StringMap) × (get_field (codes "labels") md' ≡ some (str_map labels))
        × ((name v : Text) → lookup name info.labels ≡ some v → lookup name labels ≡ some v)
        × (lookup app_wrapper_label info.labels ≡ none
            → lookup app_wrapper_label labels ≡ some aw.metadata.name)
  unfolding inject_metadata
  inject_metadata_lem aw info md md' h =
      let (md1, annotated, h1) =
        attempted (merge_unless_empty k.lib (codes "annotations") info.annotations md) _ md' h in
      let (labels, at, entries) = merge_into_lem (codes "labels") _ md1 md' h1 in
      (
        labels,
        at,
        λ name v e. entries name v (keeps info.labels (app_wrapper_labels k aw) name ∙ rw e refl),
        λ n.
            entries app_wrapper_label aw.metadata.name
              (keeps info.labels (app_wrapper_labels k aw) app_wrapper_label ∙ rw n (own_label aw)),
      )

  inject_template-Labelled :
      (aw : AppWrapper) (info : PodSetInfo) (p p' : Fields)
      → inject_template k aw info p ≡ some (ok p')
      → Labelled aw info p'
  unfolding inject_template text_eq
  inject_template-Labelled aw info p p' h =
      let (md, found, h1) = attempted (map_at (codes "metadata") (with_metadata p)) _ p' h in
      let (spec, spec_found, h2) = attempted (map_at (codes "spec") (with_metadata p)) _ p' h1 in
      let (md', injected, h3) = attempted (inject_metadata k aw info md) _ p' h2 in
      let (spec', spec_injected, h4) = attempted (inject_spec k info spec) _ p' h3 in
      let same : set_field (codes "spec") (obj spec')
            (set_field (codes "metadata") (obj md') (with_metadata p))
          ≡ p' =
        done_injective h4 in
      let (labels, at, of_info, own) = inject_metadata_lem aw info md md' injected in
      record {
        metadata = md';
        labels = labels;
        has_metadata =
            ap (get_field (codes "metadata")) (sym same)
            ∙ get_field-other (codes "metadata") (codes "spec") (obj spec') _ refl
            ∙ get_field-set_field (codes "metadata") (obj md') (with_metadata p);
        has_labels = at;
        of_info = of_info;
        of_app_wrapper = own;
      }

  raw_template_ok :
      (m p : Fields) (path : Text) → raw_template k m path ≡ ok p → get_raw_template m path ≡ ok p
  raw_template_ok m p path h = elim (Result-cases (get_raw_template m path)) [
    | inl (q, e) ↦ let z : ok q ≡ ok p = rw (raw_template, e) at h in e ∙ ap ok (ok_injective z)
    | inr (x, e) ↦ absurd (
        let z : ◌≡◌ {A = Reply Fields} (err (internal [])) (ok p) = rw (raw_template, e) at h in cc)
  ]

  -- Where MergeKeepFirst keeps the entries of its first map, and HaveConflict reports two maps
  -- that differ on a key: when the rendering of a pod set succeeds, a pod template is read at the
  -- pod set's path in the new object, whose metadata has a map of labels, with every label of the
  -- info that the pod set is given, and the name of the AppWrapper under the AppWrapper label,
  -- unless that info has a value for it.
  pub inject_pod_set-Labelled :
      (aw : AppWrapper) (c : Component) (idx : ℕ) (ps : PodSet) (m m' : Fields)
      → inject_pod_set k aw c idx ps m ≡ some (ok m')
      → (info : PodSetInfo) × (p : Fields) × (info_at k c idx ≡ ok info)
        × (get_raw_template m' ps.path ≡ ok p)
        × Labelled aw info p
  unfolding inject_pod_set
  inject_pod_set-Labelled aw c idx ps m m' h =
      let (info, known, h1) = attempted (some (info_at k c idx)) _ m' h in
      let (p, at, h2) = attempted (some (raw_template k m ps.path)) _ m' h1 in
      let (p', injected, h3) = attempted (inject_template k aw info p) _ m' h2 in
      let same : put_raw_template m ps.path p' ≡ m' = done_injective h3 in
      let is_known : info_at k c idx ≡ ok info = cc in
      let is_at : raw_template k m ps.path ≡ ok p = cc in
      (
        info,
        p',
        is_known,
        ap (λ x. get_raw_template x ps.path) (sym same)
            ∙ get_raw_template-put_raw_template m p' p ps.path (raw_template_ok m p ps.path is_at),
        inject_template-Labelled aw info p p' injected,
      )
