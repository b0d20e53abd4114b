-- ===== src/Webhook/Create.antt =====
-- ValidateCreate, validateAppWrapperCreate and lookupResource of
-- internal/webhook/appwrapper_webhook.go. `none` is the panic at `*gvk`, where the decoding of a
-- template gives no kind.
mod Errors
pub mod Resources
pub mod Admitted
pub mod Panic
pub mod Cache
use appwrapper.Base.{
  ℕ, suc, zero, ◌+◌, Bool, true, false, Option, none, some, List, [], ◌∷◌, ◌++◌, ◌==◌, not, ◌&&◌,
  ltb, is_nil, if◌then◌else◌, length,
}
use appwrapper.Base.Text.{Text, StringMap, codes, text_eq, lookup, insert}
use appwrapper.Base.Json.{Fields}
use appwrapper.Base.Result.{Result, ok, err, is_ok}
use appwrapper.Api.{AppWrapper, Component, PodSet}
use appwrapper.Cluster.{Gvk, Library, Error, Reply}
use appwrapper.PodSets.{gvk, same_gvk, check_pod_template_spec, infer_pod_sets, validate_pod_sets}
use appwrapper.Paths.{PathError}
use appwrapper.Webhook.{
  Server, AppWrapperWebhook, UserInfo, AccessReview, FieldError, Place, internal_error,
  invalid_value, forbidden, required, components, template, template_namespace, pod_sets,
  pod_set_path, Decoded,
}
use appwrapper.Webhook.Update.{unless}

-- wlc.GVK
abbrev pub app_wrapper_gvk : Gvk
app_wrapper_gvk = gvk (codes "workload.codeflare.dev") (codes "v1beta2") (codes "AppWrapper")

-- `kindToResourceCache`, and the world of the server.
pub record Session (W : Type 0) : Type 0 where
  pub cache : StringMap
  pub world : W

unfoldable pub find_resource : Text → List (Text × Text) → Option Text
find_resource kind [] = none
find_resource kind ((k, name) ∷ rs) =
    let rest = find_resource kind rs in if text_eq k kind then some name else rest

abbrev pub namespace_allowed : Text → Text → Bool
namespace_allowed own ns = if is_nil ns then true else text_eq ns own

-- The loop over the declared pod sets of a component.
unfoldable declared_errors : Library → Fields → ℕ → ℕ → List PodSet → List FieldError
declared_errors l m idx i [] = []
declared_errors l m idx i (ps ∷ pss) =
    unless (not (is_nil ps.path)) (required (pod_set_path idx i))
    ++ (unless (is_ok (check_pod_template_spec l m ps.path)) (invalid_value (pod_set_path idx i))
        ++ declared_errors l m idx (suc i) pss)

abbrev pub larger : ℕ → ℕ → ℕ
larger a b = if ltb b a then a else b

abbrev pub fits : List PodSet → List PodSet → Bool
fits declared inferred = elim (validate_pod_sets declared inferred) [ none ↦ true | some e ↦ false ]

-- The pod sets of a component against those inferred, and how many there are.
pub inferred_errors : ℕ → List PodSet → Result PathError (List PodSet) → List FieldError × ℕ
inferred_errors idx declared (err e) = (invalid_value (template idx) ∷ [], 0)
inferred_errors idx declared (ok inferred) = (
  unless (fits declared inferred) (invalid_value (pod_sets idx)),
  larger (length declared) (length inferred),
)

abbrev pub has_no_error : Option Error → Bool
has_no_error none = true
has_no_error (some e) = false

abbrev no_user : UserInfo
no_user = record { username = []; uid = []; groups = []; extra = [] }

-- The error of the request, and its user: the zero value where there is an error.
pub requested : Reply UserInfo → List FieldError × UserInfo
requested (ok user) = ([], user)
requested (err e) = (internal_error components ∷ [], no_user)

abbrev pub access_review : UserInfo → Text → Gvk → Text → AccessReview
access_review user ns g resource = record {
  namespace = ns;
  group = g.group;
  version = g.version;
  resource = resource;
  user = user;
}

pub answer_errors : ℕ → Reply Bool → List FieldError
answer_errors idx (err e) = internal_error (template idx) ∷ []
answer_errors idx (ok allowed) = unless allowed (forbidden (template idx))

-- The limit of Kueue on the number of pod sets.
pub count_errors : ℕ → List FieldError
count_errors n =
    unless (not (n == 0)) (invalid_value components)
    ++ unless (not (ltb 8 n)) (invalid_value components)

module _ {W : Type 0} (srv : Server W) where
  remember : Gvk → Session W → Option Text → Text × Session W
  remember g s none = (codes "*", s)
  remember g s (some name) = (name, record s { cache = insert (srv.gvk_string g) name s.cache })

  discovered : Gvk → Session W → Reply (List (Text × Text)) → Text × Session W
  unfolding remember
  discovered g s (err e) = (codes "*", s)
  discovered g s (ok rs) = remember g s (find_resource g.kind rs)

  unfoldable pub lookup_resource : Gvk → Session W → Text × Session W
  unfolding discovered
  lookup_resource g s = elim (lookup (srv.gvk_string g) s.cache) [
    | some known ↦ (known, s)
    | none ↦
        let (resources, w) = srv.server_resources (srv.group_version_string g) s.world in
        discovered g (record s { world = w }) resources
  ]

module _ {W : Type 0} (srv : Server W) (wh : AppWrapperWebhook) where
  -- The SubjectAccessReview for a component.
  unfoldable review : ℕ → UserInfo → Text → Gvk → Session W → List FieldError × Session W
  unfolding answer_errors
  review idx user ns g s =
      let (resource, s') = lookup_resource srv g s in
      let (answer, w) = srv.review_access (access_review user ns g resource) s'.world in
      (answer_errors idx answer, record s' { world = w })

  unfoldable rbac_errors : ℕ → UserInfo → Text → Gvk → Session W → List FieldError × Session W
  unfolding review
  rbac_errors idx user ns g s =
      if wh.user_rbac_admission_check then review idx user ns g s else ([], s)

  -- The errors of a component once its template is decoded, and the number of its pod sets.
  unfoldable decoded_errors :
      ℕ
      → UserInfo
      → Text
      → Component
      → Decoded
      → Gvk
      → Session W
      → (List FieldError × ℕ) × Session W
  unfolding rbac_errors inferred_errors declared_errors
  decoded_errors idx user ns c d g s =
      let (denied, s') = rbac_errors idx user ns g s in
      let (unfit, n) = inferred_errors idx c.declared_pod_sets (infer_pod_sets srv.lib d.object) in
      (
        (
          unless (has_no_error d.error) (invalid_value (template idx))
              ++ (unless (not (same_gvk g app_wrapper_gvk)) (forbidden (template idx))
                  ++ (unless (namespace_allowed ns (srv.lib.namespace_of d.object))
                        (forbidden (template_namespace idx))
                      ++ (denied
                          ++ (declared_errors srv.lib d.object idx 0 c.declared_pod_sets
                              ++ unfit)))),
          n,
        ),
        s',
      )

  -- The loop over the components, from the idx-th on.
  validate_components :
      ℕ → UserInfo → Text → List Component → Session W → Option ((List FieldError × ℕ) × Session W)
  unfolding decoded_errors
  validate_components idx user ns [] s = some (([], 0), s)
  validate_components idx user ns (c ∷ cs) s =
      let d = srv.decode c.template in
      elim d.kind [
        | none ↦ none
        | some g ↦
            let ((es, n), s') = decoded_errors idx user ns c d g s in
            elim (validate_components (suc idx) user ns cs s') [
              | none ↦ none
              | some ((rest, m), s'') ↦ some ((es ++ rest, n + m), s'')
            ]
      ]

  -- validateAppWrapperCreate
  unfoldable pub validate_app_wrapper_create :
      Reply UserInfo → AppWrapper → Session W → Option (List FieldError × Session W)
  unfolding requested validate_components count_errors
  validate_app_wrapper_create request aw s =
      let (bad, user) = requested request in
      elim (validate_components 0 user aw.metadata.namespace aw.spec.components s) [
        | none ↦ none
        | some ((es, n), s') ↦ some (bad ++ (es ++ count_errors n), s')
      ]

  with_kueue : AppWrapper → List FieldError → List FieldError
  with_kueue aw es =
      if wh.enable_kueue_integrations then es ++ srv.validate_job_on_create aw else es

  -- ValidateCreate
  unfoldable pub validate_create :
      Reply UserInfo → AppWrapper → Session W → Option (List FieldError × Session W)
  unfolding validate_app_wrapper_create with_kueue
  validate_create request aw s = elim (validate_app_wrapper_create request aw s) [
    | none ↦ none
    | some (es, s') ↦ some (with_kueue aw es, s')
  ]
