-- ===== src/Components/Create.antt =====
-- createComponents of internal/controller/appwrapper/resource_management.go, and what createComponent
-- does once the object to create is rendered: the status of the component is patched before and
-- after the call that creates the object.
pub mod Frame
pub mod All
use appwrapper.Base.{
  ℕ, zero, suc, Bool, true, false, not, ◌||◌, Option, none, some, List, [], ◌∷◌, String,
  if◌then◌else◌, get_elem?, set,
}
use appwrapper.Base.Text.{Text, text_eq}
use appwrapper.Base.Json.{Fields}
use appwrapper.Base.Result.{Result, ok, err}
use appwrapper.Api.{
  AppWrapper, Component, ComponentStatus, Condition, ConditionStatus, condition_true,
  condition_false, condition_unknown, resources_deployed,
}
use appwrapper.Cluster.{Kit, Error, Reply, internal, is_already_exists, is_fatal}
use appwrapper.Exec.{State, M, ◌>>=◌, ◌>>◌, pure, deref, get_aw, new_condition, patch}
use appwrapper.Components.{with_component_status, set_component_condition}

-- The results of createComponent and createComponents: an error, and whether it is fatal.
abbrev pub Failure : Type 0
Failure = Option (Error × Bool)

-- `aw.Status.ComponentStatus[idx]`, written.
abbrev write_status : {W : Type 0} → ℕ → ComponentStatus → M W Unit
write_status idx cs s =
    some
      (tt, record s { aw = with_component_status s.aw (set s.aw.status.component_status idx cs) })

-- An error that is not fatal, or the rest.
abbrev or_retry : {W : Type 0} → Option Error → M W Failure → M W Failure
or_retry none rest = rest
or_retry (some e) rest = pure (some (e, false))

abbrev identified : Text → Text → Text → ComponentStatus → ComponentStatus
identified n g v cs = record cs { name = n; kind = g; api_version = v }

module _ {W : Type 0} (k : Kit W) where
  -- SetStatusCondition on the conditions of the idx-th component
  mark : ℕ → ConditionStatus → String → M W Unit
  mark idx b reason = do
    aw ← get_aw
    cs ← deref (get_elem? aw.status.component_status idx)
    λ s.
        let (cs', w) = set_component_condition k b reason cs s.world in
        write_status idx cs' (record s { world = w })

  -- The first patch: the object's identity, unless an earlier attempt has stored it.
  announce : ℕ → Fields → M W Failure → M W Failure
  unfolding mark
  announce idx obj rest = do
    aw ← get_aw
    cs ← deref (get_elem? aw.status.component_status idx)
    elim (k.find_status_condition cs.conditions resources_deployed) [
      | some rd ↦ rest
      | none ↦
          write_status idx
            (identified (k.lib.name_of obj) (k.lib.kind_of obj) (k.lib.api_version_of obj) cs)
          >> (mark idx condition_unknown "ComponentCreationInitiated"
              >> (patch k aw >>= λ e. or_retry e rest))
    ]

  -- The last patch: the object exists.
  confirm : ℕ → Fields → M W Failure
  unfolding mark
  confirm idx obj = do
    aw ← get_aw
    cs ← deref (get_elem? aw.status.component_status idx)
    write_status idx (record cs { name = k.lib.name_of obj })
    mark idx condition_true "ComponentCreatedSuccessfully"
    e ← patch k aw
    or_retry e (pure none)

  owned_by : Option Text → Text → Bool
  owned_by none name = false
  owned_by (some owner) name = text_eq owner name

  -- Create says that the object exists: it must be controlled by this AppWrapper.
  adopt : ℕ → Fields → M W Failure
  unfolding confirm owned_by
  adopt idx obj s =
      let (r, w) = k.read_object obj s.world in
      elim r [
        | err e ↦ some (some (e, false), record s { world = w })
        | ok found ↦
            if owned_by (k.lib.controller_of found) s.aw.metadata.name
            then confirm idx found (record s { world = w })
            else some (some (internal [], true), record s { world = w })
      ]

  -- Create failed: the status says so, unless that patch fails too.
  withdraw : ℕ → Error → M W Failure
  unfolding mark
  withdraw idx e = do
    aw ← get_aw
    mark idx condition_false "ComponentCreationErrored"
    patch_error ← patch k aw
    or_retry patch_error (pure (some (e, is_fatal e)))

  after_create : ℕ → Fields → Reply Fields → M W Failure
  unfolding adopt confirm withdraw
  after_create idx obj (ok created) = confirm idx created
  after_create idx obj (err e) = if is_already_exists e then adopt idx obj else withdraw idx e

  create_object : ℕ → Fields → M W Failure
  unfolding after_create
  create_object idx obj s =
      let (r, w) = k.create_object obj s.world in after_create idx obj r (record s { world = w })

  -- `render` is the first part of createComponent: the object to create from the AppWrapper's idx-th
  -- component, or an error, which is fatal; `none` is a panic.
  module _ (render : AppWrapper → ℕ → Option (Result Error Fields)) where
    unfoldable pub create_component : ℕ → M W Failure
    unfolding announce create_object
    create_component idx = do
      aw ← get_aw
      r ← deref (render aw idx)
      elim r [ err e ↦ pure (some (e, true)) | ok obj ↦ announce idx obj (create_object idx obj) ]

    -- One round of the loop: a component that is deployed already is left alone.
    unfoldable pub attempt : ℕ → M W Failure
    attempt idx = do
      aw ← get_aw
      st ← deref (get_elem? aw.status.component_status idx)
      if k.is_status_condition_true st.conditions resources_deployed
          then pure none
          else create_component idx

    -- The loop over the components that are left, the first of them at idx.
    unfoldable pub create_from : List Component → ℕ → M W Failure
    create_from [] idx = pure none
    create_from (c ∷ cs) idx = do
      failure ← attempt idx
      elim failure [ some f ↦ pure (some f) | none ↦ create_from cs (suc idx) ]

    unfoldable pub create_components : M W Failure
    unfolding create_from attempt
    create_components = do aw ← get_aw; create_from aw.spec.components 0
