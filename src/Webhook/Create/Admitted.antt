-- ===== src/Webhook/Create/Admitted.antt =====
-- What an accepted create request guarantees (validateAppWrapperCreate,
-- internal/webhook/appwrapper_webhook.go).
use appwrapper.Base.{
  ℕ, suc, ◌+◌, ◌≤◌, true, false, none, some, List, [], ◌∷◌, ◌++◌, ◌≡◌, ◌≢◌, sym, arith, All, ◌⊎◌,
  inl, inr, Option-cases, Bool-cases, ap, ◌∙◌,
}
use appwrapper.Base.Text.{Text}
use appwrapper.Base.Result.{ok}
use appwrapper.Api.{AppWrapper, Component, PodSet}
use appwrapper.Cluster.{Gvk, Reply}
use appwrapper.PodSets.{same_gvk, check_pod_template_spec, infer_pod_sets, validate_pod_sets}
use appwrapper.Webhook.{Server, AppWrapperWebhook, UserInfo, FieldError}
use appwrapper.Webhook.Create.{
  app_wrapper_gvk, Session, requested, review, rbac_errors, decoded_errors, validate_components,
  count_errors, validate_app_wrapper_create, lookup_resource,
}
use appwrapper.Webhook.Create.Resources.{IsNameFor, Faithful, lookup_resource-IsNameFor}
use appwrapper.Webhook.Create.Errors.{
  append_nil, unless_nil, not-true, has_no_error-none, allowed_namespace, declared_lem,
  inferred_lem, counted_lem, answer_lem, request_lem, count_lem, if_on, counted,
}

module _ {W : Type 0} (srv : Server W) (wh : AppWrapperWebhook) where
  -- The pod sets of the components: of each the declared or the inferred ones, if these are more.
  abbrev pub pod_spec_count : List Component → ℕ
  pod_spec_count [] = 0
  pod_spec_count (c ∷ cs) =
      counted c.declared_pod_sets (infer_pod_sets srv.lib (srv.decode c.template).object)
      + pod_spec_count cs

  -- Where the webhook has to ask, the server answered that the user may create objects of the kind:
  -- of the resource that it lists for the kind, or of any resource of the group and version.
  abbrev pub Entitled : UserInfo → Text → Gvk → Type 0
  Entitled user ns g =
      wh.user_rbac_admission_check ≡ true
      → (resource : Text) × (w : W) × IsNameFor srv g resource
        × ((srv.review_access
              (record {
                namespace = ns;
                group = g.group;
                version = g.version;
                resource = resource;
                user = user;
              })
              w).0
            ≡ ok true)

  pub record AdmittedComponent (user : UserInfo) (ns : Text) (c : Component) : Type 0 where
    pub kind : Gvk
    pub known : (srv.decode c.template).kind ≡ some kind
    pub decoded : (srv.decode c.template).error ≡ none
    pub not_nested : same_gvk kind app_wrapper_gvk ≡ false
    pub own_namespace :
        (srv.lib.namespace_of (srv.decode c.template).object ≡ [])
        ⊎ (srv.lib.namespace_of (srv.decode c.template).object ≡ ns)
    pub entitled : Entitled user ns kind
    pub parseable :
        All
          (λ ps.
            (ps.path ≢ [])
            × (check_pod_template_spec srv.lib (srv.decode c.template).object ps.path ≡ ok tt))
          c.declared_pod_sets
    pub inferred : List PodSet
    pub infers : infer_pod_sets srv.lib (srv.decode c.template).object ≡ ok inferred
    pub fitting : validate_pod_sets c.declared_pod_sets inferred ≡ none

-- What a component with a kind is validated for, once its errors are told apart.
module _ {W : Type 0} (srv : Server W) (wh : AppWrapperWebhook) where
  entitled_lem :
      (idx : ℕ) (user : UserInfo) (ns : Text) (g : Gvk) (s : Session W)
      → Faithful srv s
      → (rbac_errors srv wh idx user ns g s).0 ≡ []
      → Entitled srv wh user ns g
  unfolding rbac_errors review
  entitled_lem idx user ns g s f h on = (
    (lookup_resource srv g s).0,
    (lookup_resource srv g s).1.world,
    (lookup_resource-IsNameFor srv g s f).0,
    answer_lem idx _ (sym (ap (λ (r : List FieldError × Session W). r.0) (if_on _ on _ _)) ∙ h),
  )

  -- A review leaves the cache that its lookup leaves.
  decoded-Faithful :
      (idx : ℕ) (user : UserInfo) (ns : Text) (c : Component) (g : Gvk) (s : Session W)
      → Faithful srv s
      → Faithful srv (decoded_errors srv wh idx user ns c (srv.decode c.template) g s).1
  unfolding decoded_errors rbac_errors review
  decoded-Faithful idx user ns c g s f = elim (Bool-cases wh.user_rbac_admission_check) [
    | inl p ↦ rw (decoded_errors, rbac_errors, p) (lookup_resource-IsNameFor srv g s f).1
    | inr p ↦ rw (decoded_errors, rbac_errors, p) f
  ]

  decoded_lem :
      (idx : ℕ) (user : UserInfo) (ns : Text) (c : Component) (g : Gvk) (s : Session W)
      → Faithful srv s
      → (srv.decode c.template).kind ≡ some g
      → (decoded_errors srv wh idx user ns c (srv.decode c.template) g s).0.0 ≡ []
      → AdmittedComponent srv wh user ns c
  unfolding decoded_errors
  decoded_lem idx user ns c g s f known h =
      let (e1, h1) = append_nil h in
      let (e2, h2) = append_nil h1 in
      let (e3, h3) = append_nil h2 in
      let (e4, h4) = append_nil h3 in
      let (e5, e6) = append_nil h4 in
      let (inferred, infers, fitting) = inferred_lem idx c.declared_pod_sets _ e6 in
      record {
        kind = g;
        known = known;
        decoded = has_no_error-none (unless_nil _ _ e1);
        not_nested = not-true _ (unless_nil _ _ e2);
        own_namespace = allowed_namespace ns _ (unless_nil _ _ e3);
        entitled = entitled_lem idx user ns g s f e4;
        parseable = declared_lem srv.lib _ idx 0 c.declared_pod_sets e5;
        inferred = inferred;
        infers = infers;
        fitting = fitting;
      }

  -- What a run of the loop that reports nothing says of the components.
  loop_lem :
      (idx : ℕ) (user : UserInfo) (ns : Text) (cs : List Component) (s s' : Session W) (n : ℕ)
      → Faithful srv s
      → validate_components srv wh idx user ns cs s ≡ some (([], n), s')
      → All (AdmittedComponent srv wh user ns) cs × (n ≡ pod_spec_count srv wh cs) × Faithful srv s'
  unfolding validate_components
  loop_lem idx user ns [] s s' n f h = let same : s ≡ s' = cc in (tt, cc, rw (sym same) f)
  loop_lem idx user ns (c ∷ cs) s s' n f h = elim (Option-cases (srv.decode c.template).kind) [
    | inl no_kind ↦
        absurd (let q : none ≡ some (([], n), s') = rw (validate_components, no_kind) at h in cc)
    | inr (g, known) ↦
        let here = decoded_errors srv wh idx user ns c (srv.decode c.template) g s in
        elim (Option-cases (validate_components srv wh (suc idx) user ns cs here.1)) [
          | inl panics ↦ let q = rw (validate_components, known, panics) at h in absurd cc
          | inr (((rest, m), s''), runs) ↦
              let q : some ((here.0.0 ++ rest, here.0.1 + m), s'') ≡ some (([], n), s') =
                rw (validate_components, known, runs) at h in
              let reported : (here.0.0 ++ rest) ≡ [] = cc in
              let count : here.0.1 + m ≡ n = cc in
              let (now, later) = append_nil reported in
              let below : validate_components srv wh (suc idx) user ns cs here.1
                  ≡ some (([], m), s'') =
                runs ∙ ap (λ es. some ((es, m), s'')) later in
              let (all, same, faithful) =
                loop_lem (suc idx) user ns cs here.1 s'' m (decoded-Faithful idx user ns c g s f)
                  below in
              let ends : s'' ≡ s' = cc in
              (
                (decoded_lem idx user ns c g s f known now, all),
                omega (
                  arith,
                  count,
                  same,
                  counted_lem idx c.declared_pod_sets
                      (infer_pod_sets srv.lib (srv.decode c.template).object),
                ),
                rw (sym ends) faithful,
              )
        ]
  ]

  -- Where the cache of resource names holds only names that the server has listed: when
  -- validateAppWrapperCreate reports no error, this holds of the cache again, the request names a
  -- user, and each component has a template that is decoded with a kind and without an error,
  -- which is not that of an AppWrapper, for an object with no namespace or the AppWrapper's;
  -- where the check is on, the server has answered that the user may create, in the AppWrapper's
  -- namespace and the kind's group and version, a resource that the server lists for a kind
  -- written the same, or all resources; every declared pod set has a path, to a parseable pod
  -- spec, and the declared pod sets fit the inferred ones. The components have between one and
  -- eight pod sets, counted as the larger of the declared and the inferred ones of each.
  pub validate_app_wrapper_create-AdmittedComponent :
      (request : Reply UserInfo) (aw : AppWrapper) (s s' : Session W)
      → Faithful srv s
      → validate_app_wrapper_create srv wh request aw s ≡ some ([], s')
      → (user : UserInfo) × (request ≡ ok user)
        × All (AdmittedComponent srv wh user aw.metadata.namespace) aw.spec.components
        × (1 ≤ pod_spec_count srv wh aw.spec.components)
        × (pod_spec_count srv wh aw.spec.components ≤ 8)
        × Faithful srv s'
  unfolding validate_app_wrapper_create
  validate_app_wrapper_create-AdmittedComponent request aw s s' f h =
      let user = (requested request).1 in
      elim (Option-cases
        (validate_components srv wh 0 user aw.metadata.namespace aw.spec.components s)) [
          | inl panics ↦ let q = rw (validate_app_wrapper_create, panics) at h in absurd cc
          | inr (((es, n), s''), runs) ↦
              let q : some ((requested request).0 ++ (es ++ count_errors n), s'') ≡ some ([], s') =
                rw (validate_app_wrapper_create, runs) at h in
              let reported : ((requested request).0 ++ (es ++ count_errors n)) ≡ [] = cc in
              let (known, others) = append_nil reported in
              let (fine, bounded) = append_nil others in
              let ends : s'' ≡ s' = cc in
              let (all, same, faithful) =
                loop_lem 0 user aw.metadata.namespace aw.spec.components s s'' n f
                  (runs ∙ ap (λ es. some ((es, n), s'')) fine) in
              let (low, high) = count_lem n bounded in
              (
                user,
                request_lem request known,
                all,
                omega (arith, low, same),
                omega (arith, high, same),
                rw (sym ends) faithful,
              )
        ]
