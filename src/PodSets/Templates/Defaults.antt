-- ===== src/PodSets/Templates/Defaults.antt =====
-- The defaults of a pod template that GetPodTemplateSpec gives (pkg/utils/utils.go).
use appwrapper.Base.{
  ℤ, pos, ◌≡◌, ◌≢◌, ◌↔◌, ◌⊎◌, refl, sym, ap, ◌∙◌, true, ◌&&◌, Option, none, some, List, [], ◌∷◌,
  map, is_nil, if◌then◌else◌, Option-cases, Bool-cases, inl, inr,
}
use appwrapper.Base.Text.{Text, codes, text_eq, text_eq_iff}
use appwrapper.Base.Json.{Json, Fields, get_field, as_map, obj, end}
use appwrapper.Base.Result.{ok, err, require, bind_ok, require_ok, ok_injective}
use appwrapper.Cluster.{Library, TemplateContainer, PodSpec, Image, ResourceAmounts, Reply}
use appwrapper.Paths.{no_spec, get_raw_template}
use appwrapper.PodSets.Templates.{
  PodTemplateSpec, or_default, or_value, pull_policy, get_image_tag, tag_or_latest,
  default_resource_list, copy_container, copy_containers, grace_period, copy_spec, parsed_spec,
  get_pod_template_spec,
}

-- A text is the source's, or the default where the source has none.
abbrev pub Filled : Text → Text → Text → Type 0
Filled d src dst = (src ≡ [] → dst ≡ d) × (src ≢ [] → dst ≡ src)

-- So is a value behind a pointer.
abbrev pub FilledPointer : {A : Type 0} → A → Option A → Option A → Type 0
FilledPointer d src dst = (src ≡ none → dst ≡ some d) × (src ≢ none → dst ≡ src)

or_default-Filled : (d src : Text) → Filled d src (or_default d src)
or_default-Filled d [] = (λ e. refl, λ n. absurd (n refl))
or_default-Filled d (c ∷ t) = (λ e. absurd cc, λ n. refl)

or_value-FilledPointer :
    {A : Type 0} (d : A) (o : Option A) → FilledPointer d o (some (or_value d o))
or_value-FilledPointer d none = (λ e. refl, λ n. absurd (n refl))
or_value-FilledPointer d (some a) = (λ e. absurd cc, λ n. refl)

module _ (l : Library) where
  -- The image is pulled at each start: its name is parsed, and its tag is "latest" or it has neither
  -- a tag nor a digest.
  abbrev pub IsLatest : Text → Type 0
  IsLatest image =
      (i : Image) × (l.parse_image image ≡ some i)
      × ((i.tag ≡ codes "latest") ⊎ ((i.tag ≡ []) × (i.digest ≡ [])))

  abbrev pub rounded : ResourceAmounts → ResourceAmounts
  rounded rs = map (λ (p : Text × ℤ). (p.0, l.round_up_milli p.1)) rs

  -- A container that has been copied.
  pub record Copied (src dst : TemplateContainer) : Type 0 where
    pub name : dst.name ≡ src.name
    pub image : dst.image ≡ src.image
    pub command : dst.command ≡ src.command
    pub args : dst.args ≡ src.args
    pub requests : dst.requests ≡ rounded src.requests
    pub limits : dst.limits ≡ rounded src.limits
    pub message_path :
        Filled
          (codes "/dev/termination-log")
          src.termination_message_path
          dst.termination_message_path
    pub message_policy :
        Filled (codes "File") src.termination_message_policy dst.termination_message_policy
    pub own_pull_policy : src.image_pull_policy ≢ [] → dst.image_pull_policy ≡ src.image_pull_policy
    pub always :
        src.image_pull_policy ≡ [] → IsLatest src.image → dst.image_pull_policy ≡ codes "Always"
    pub if_not_present :
        src.image_pull_policy ≡ []
        → ¬ IsLatest src.image
        → dst.image_pull_policy ≡ codes "IfNotPresent"
    pub security_context : dst.security_context ≡ src.security_context

  abbrev pub AllCopied : List TemplateContainer → List TemplateContainer → Type 0
  AllCopied [] [] = Unit
  AllCopied (s ∷ ss) (d ∷ ds) = Copied s d × AllCopied ss ds
  AllCopied _ _ = ⊥

  -- The copy of a pod spec: the defaults of the API server where the source has no value, and the
  -- source's value elsewhere, but for the grace period, which is left out where the source has one.
  pub record Defaulted (src dst : PodSpec) : Type 0 where
    pub restart_policy : Filled (codes "Always") src.restart_policy dst.restart_policy
    pub dns_policy : Filled (codes "ClusterFirst") src.dns_policy dst.dns_policy
    pub scheduler_name : Filled (codes "default-scheduler") src.scheduler_name dst.scheduler_name
    pub security_context : FilledPointer (obj end) src.security_context dst.security_context
    pub preemption_policy :
        FilledPointer (codes "PreemptLowerPriority") src.preemption_policy dst.preemption_policy
    pub grace_period_default :
        src.termination_grace_period_seconds ≡ none
        → dst.termination_grace_period_seconds ≡ some (pos 30)
    pub grace_period_lost :
        src.termination_grace_period_seconds ≢ none → dst.termination_grace_period_seconds ≡ none
    pub containers : AllCopied src.containers dst.containers
    pub init_containers : AllCopied src.init_containers dst.init_containers
    pub overhead : dst.overhead ≡ rounded src.overhead
    pub node_selector : dst.node_selector ≡ src.node_selector
    pub node_name : dst.node_name ≡ src.node_name
    pub affinity : dst.affinity ≡ src.affinity
    pub tolerations : dst.tolerations ≡ src.tolerations
    pub priority_class_name : dst.priority_class_name ≡ src.priority_class_name
    pub topology_spread_constraints :
        dst.topology_spread_constraints ≡ src.topology_spread_constraints

  rounded_lem : (rs : ResourceAmounts) → default_resource_list l rs ≡ rounded rs
  unfolding default_resource_list
  rounded_lem [] = refl
  rounded_lem ((r, n) ∷ rs) = ap (λ xs. (r, l.round_up_milli n) ∷ xs) (rounded_lem rs)

  -- The tag that an image is given is "latest" exactly where it is the latest.
  latest_tag :
      (i : Image)
      → (tag_or_latest i ≡ codes "latest")
        ↔ ((i.tag ≡ codes "latest") ⊎ ((i.tag ≡ []) × (i.digest ≡ [])))
  latest_tag i = go i.tag i.digest
    where
      go :
          (tag digest : Text)
          → ((if is_nil tag && is_nil digest then codes "latest" else tag) ≡ codes "latest")
            ↔ ((tag ≡ codes "latest") ⊎ ((tag ≡ []) × (digest ≡ [])))
      go [] [] = (λ _. inr (refl, refl), λ _. refl)
      go [] (c ∷ d) = (λ e. absurd cc, λ s. elim s [ inl e ↦ e | inr e ↦ absurd cc ])
      go (c ∷ t) d = (λ e. inl e, λ s. elim s [ inl e ↦ e | inr e ↦ absurd cc ])

  get_image_tag-IsLatest :
      (image : Text) → (get_image_tag l image ≡ codes "latest") ↔ IsLatest image
  unfolding get_image_tag
  get_image_tag-IsLatest image = elim (Option-cases (l.parse_image image)) [
    | inl p ↦ rw (get_image_tag, p) (λ e. absurd cc, λ (i, e, s). absurd cc)
    | inr (i, p) ↦
        rw (get_image_tag, p)
          (
            λ e. (i, refl, (latest_tag i).0 e),
            λ (i', e, s). let same : i ≡ i' = cc in (latest_tag i).1 (rw same s),
          )
  ]

  pull_policy-latest : (image : Text) → IsLatest image → pull_policy l image ≡ codes "Always"
  unfolding pull_policy
  pull_policy-latest image h =
      let t : text_eq (get_image_tag l image) (codes "latest") ≡ true =
        (text_eq_iff _ _).1 ((get_image_tag-IsLatest image).1 h) in
      rw (pull_policy, t) refl

  pull_policy-other : (image : Text) → ¬ IsLatest image → pull_policy l image ≡ codes "IfNotPresent"
  unfolding pull_policy
  pull_policy-other image h = elim (Bool-cases (text_eq (get_image_tag l image) (codes "latest"))) [
    | inl t ↦ absurd (h ((get_image_tag-IsLatest image).0 ((text_eq_iff _ _).0 t)))
    | inr f ↦ rw (pull_policy, f) refl
  ]

  copy_container-Copied : (c : TemplateContainer) → Copied c (copy_container l c)
  unfolding copy_container
  copy_container-Copied c =
      let pull = or_default-Filled (pull_policy l c.image) c.image_pull_policy in
      record {
        name = refl;
        image = refl;
        command = refl;
        args = refl;
        requests = rounded_lem c.requests;
        limits = rounded_lem c.limits;
        message_path = or_default-Filled _ c.termination_message_path;
        message_policy = or_default-Filled _ c.termination_message_policy;
        own_pull_policy = pull.1;
        always = λ e h. pull.0 e ∙ pull_policy-latest c.image h;
        if_not_present = λ e h. pull.0 e ∙ pull_policy-other c.image h;
        security_context = refl;
      }

  copy_containers-AllCopied : (cs : List TemplateContainer) → AllCopied cs (copy_containers l cs)
  unfolding copy_containers
  copy_containers-AllCopied [] = tt
  copy_containers-AllCopied (c ∷ cs) = (copy_container-Copied c, copy_containers-AllCopied cs)

  period_default : (o : Option ℤ) → o ≡ none → grace_period l o ≡ some (pos 30)
  period_default none e = refl
  period_default (some n) e = absurd cc

  period_lost : (o : Option ℤ) → o ≢ none → grace_period l o ≡ none
  period_lost none h = absurd (h refl)
  period_lost (some n) h = refl

  copy_spec-Defaulted : (src : PodSpec) → Defaulted src (copy_spec l src)
  unfolding copy_spec
  copy_spec-Defaulted src = record {
    restart_policy = or_default-Filled _ src.restart_policy;
    dns_policy = or_default-Filled _ src.dns_policy;
    scheduler_name = or_default-Filled _ src.scheduler_name;
    security_context = or_value-FilledPointer _ src.security_context;
    preemption_policy = or_value-FilledPointer _ src.preemption_policy;
    grace_period_default = period_default src.termination_grace_period_seconds;
    grace_period_lost = period_lost src.termination_grace_period_seconds;
    containers = copy_containers-AllCopied src.containers;
    init_containers = copy_containers-AllCopied src.init_containers;
    overhead = rounded_lem src.overhead;
    node_selector = refl;
    node_name = refl;
    affinity = refl;
    tolerations = refl;
    priority_class_name = refl;
    topology_spread_constraints = refl;
  }

  copied-Defaulted : (src dst : PodSpec) → copy_spec l src ≡ dst → Defaulted src dst
  copied-Defaulted src dst e = rw (sym e) (copy_spec-Defaulted src)

  -- A result of the parser, from the result of parsed_spec.
  parsed_spec_lem : (r : Reply PodSpec) (src : PodSpec) → parsed_spec l r ≡ ok src → r ≡ ok src
  parsed_spec_lem (ok s) src h = let e : s ≡ src = cc in ap ok e
  parsed_spec_lem (err x) src h = absurd cc

  -- When GetPodTemplateSpec returns a template, the object at the path is a map with a map as its
  -- spec, which is parsed as a pod spec; and the template's spec is the copy of that: a restart
  -- policy, DNS policy, scheduler, security context and preemption policy of the source is kept,
  -- and the defaults are Always, ClusterFirst, default-scheduler, an empty one and
  -- PreemptLowerPriority; the grace period is 30 where the source has none, and missing where it
  -- has one; the amounts of resources are rounded up; the node's name and selector, the affinity,
  -- the tolerations, the priority class and the spread constraints are the source's. The
  -- containers and the init containers are copied in order: the path and the policy for
  -- termination messages have the defaults /dev/termination-log and File, and the pull policy is
  -- Always where the image's name is parsed and has the tag latest or neither tag nor digest, and
  -- IfNotPresent for any other image.
  pub get_pod_template_spec-Defaulted :
      (m : Fields) (path : Text) (t : PodTemplateSpec)
      → get_pod_template_spec l m path ≡ ok t
      → (candidate spec : Fields) × (src : PodSpec) × (get_raw_template m path ≡ ok candidate)
        × ((j : Json) × (get_field (codes "spec") candidate ≡ some j) × (as_map j ≡ some spec))
        × (l.parse_pod_spec spec ≡ ok src)
        × Defaulted src t.spec
  unfolding get_pod_template_spec
  get_pod_template_spec-Defaulted m path t h =
      let (candidate, at, h1) = bind_ok (get_raw_template m path) _ t h in
      let (j, field, h2) = bind_ok (require no_spec (get_field (codes "spec") candidate)) _ t h1 in
      let (spec, asserted, h3) = bind_ok (require no_spec (as_map j)) _ t h2 in
      let (src, read, h4) = bind_ok (parsed_spec l (l.parse_pod_spec spec)) _ t h3 in
      let copied : copy_spec l src ≡ t.spec =
        ap (λ (x : PodTemplateSpec). x.spec) (ok_injective h4) in
      (
        candidate,
        spec,
        src,
        at,
        (j, require_ok no_spec _ j field, require_ok no_spec _ spec asserted),
        parsed_spec_lem (l.parse_pod_spec spec) src read,
        copied-Defaulted src t.spec copied,
      )
