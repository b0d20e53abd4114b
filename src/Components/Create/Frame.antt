-- ===== src/Components/Create/Frame.antt =====
-- What the steps of createComponent change: the status of their component, and nothing else.
use appwrapper.Base.{
  ℤ, ℕ, ◌<◌, ◌≡◌, refl, ap, ◌∙◌, Bool, true, false, Option, none, some, List, [], String, length,
  set, map, get_elem?, ◌∷◌, zero, suc, length-set, set-get_elem?, set-set, get_elem?-lt, Bool-cases,
  inl, inr, Option-cases,
}
use appwrapper.Base.Json.{Fields}
use appwrapper.Base.Result.{Result, ok, err, Result-cases}
use appwrapper.Api.{
  AppWrapper, ComponentStatus, PodSet, Condition, ConditionStatus, condition_true, condition_false,
  condition_unknown, resources_deployed, same_status,
}
use appwrapper.Cluster.{Kit, Error, internal, already_exists, is_fatal}
use appwrapper.Cluster.Laws.{MetaLaws, ClientLaws}
use appwrapper.Exec.{State, M, ◌>>=◌, ◌>>◌, pure, patch, new_condition}
use appwrapper.Exec.Returns.{Returns, returned, bind-Returns, Returns-map}
use appwrapper.Components.{with_component_status}
use appwrapper.Components.Create.{
  Failure, or_retry, identified, mark, announce, confirm, owned_by, adopt, withdraw, after_create,
  create_object, create_component,
}

abbrev pub pod_sets_of : AppWrapper → List (List PodSet)
pod_sets_of aw = map (λ (c : ComponentStatus). c.pod_sets) aw.status.component_status

-- The AppWrapper with another status for one component, whose pod sets are kept.
pub record At (idx : ℕ) (aw aw' : AppWrapper) : Type 0 where
  pub entry : ComponentStatus
  pub eq : aw' ≡ with_component_status aw (set aw.status.component_status idx entry)
  pub kept : pod_sets_of aw' ≡ pod_sets_of aw

map-set :
    {A B : Type 0} (f : A → B) (xs : List A) (idx : ℕ) (x y : A)
    → get_elem? xs idx ≡ some x
    → f y ≡ f x
    → map f (set xs idx y) ≡ map f xs
map-set f [] idx x y e h = refl
map-set f (z ∷ xs) zero x y e h = let same : z ≡ x = cc in rw same (ap (λ t. t ∷ map f xs) h)
map-set f (z ∷ xs) (suc idx) x y e h = ap (λ t. f z ∷ t) (map-set f xs idx x y e h)

written :
    (idx : ℕ) (aw : AppWrapper) (c entry : ComponentStatus)
    → get_elem? aw.status.component_status idx ≡ some c
    → entry.pod_sets ≡ c.pod_sets
    → At idx aw (with_component_status aw (set aw.status.component_status idx entry))
written idx aw c entry e h = record {
  entry = entry;
  eq = refl;
  kept = map-set (λ (c : ComponentStatus). c.pod_sets) aw.status.component_status idx c entry e h;
}

abbrev pub InRange : ℕ → AppWrapper → Type 0
InRange idx aw = idx < length aw.status.component_status

pub At-InRange : (idx : ℕ) (aw aw' : AppWrapper) → InRange idx aw → At idx aw aw' → InRange idx aw'
At-InRange idx aw aw' h a = rw a.eq (rw (length-set aw.status.component_status idx a.entry) h)

pub At-refl : (idx : ℕ) (aw : AppWrapper) → InRange idx aw → At idx aw aw
At-refl idx aw h =
    let (c, e) = get_elem?-lt aw.status.component_status idx h in
    record { entry = c; eq = rw (set-get_elem? aw.status.component_status idx c e); kept = refl }

At-trans : (idx : ℕ) (a b c : AppWrapper) → At idx a b → At idx b c → At idx a c
At-trans idx a b c p q = record {
  entry = q.entry;
  eq =
      q.eq
      ∙ ap (λ x. with_component_status x (set x.status.component_status idx q.entry)) p.eq
      ∙ ap (with_component_status a) (set-set a.status.component_status idx p.entry q.entry);
  kept = q.kept ∙ p.kept;
}

At-same : (idx : ℕ) (a b c : AppWrapper) → At idx a b → c ≡ b → At idx a c
At-same idx a b c p q = record { entry = p.entry; eq = q ∙ p.eq; kept = ap pod_sets_of q ∙ p.kept }

module _ {W : Type 0} (k : Kit W) (meta : MetaLaws k) (client : ClientLaws k) where
  patch_keeps : (orig : AppWrapper) (s : State W) → Returns (patch k orig s) λ e s'. s'.aw ≡ s.aw
  patch_keeps orig s = elim (Result-cases (k.patch_status s.aw orig s.world).0) [
    | inl (aw, e) ↦ rw e (returned none _ (client.patched s.aw orig aw s.world e))
    | inr (x, e) ↦ rw e (returned (some x) _ refl)
  ]

  abbrev pub IsDeployed : ComponentStatus → Type 0
  IsDeployed cs = k.is_status_condition_true cs.conditions resources_deployed ≡ true

  -- An attempt at the idx-th component changes its status alone, and leaves it deployed unless
  -- there was an error.
  pub record Made (idx : ℕ) (s : State W) (f : Failure) (s' : State W) : Type 0 where
    pub at : At idx s.aw s'.aw
    pub deployed : f ≡ none → IsDeployed at.entry

  Made-trans :
      (idx : ℕ) (s s1 : State W) (f : Failure) (s' : State W)
      → At idx s.aw s1.aw
      → Made idx s1 f s'
      → Made idx s f s'
  unfolding At-trans
  Made-trans idx s s1 f s' a m = record {
    at = At-trans idx s.aw s1.aw s'.aw a m.at;
    deployed = m.deployed;
  }

  Made-error :
      (idx : ℕ) (s : State W) (e : Error × Bool) (s' : State W)
      → At idx s.aw s'.aw
      → Made idx s (some e) s'
  Made-error idx s e s' a = record { at = a; deployed = λ q. cc }

  mark_true :
      (n : ℤ) (cs : List Condition) (b : ConditionStatus) (r : String)
      → k.is_status_condition_true
          (k.set_status_condition n cs (new_condition resources_deployed b r []))
          resources_deployed
        ≡ same_status b condition_true
  mark_true n cs b r =
      rw (meta.is_true_find, meta.find_set)
        (elim (Option-cases (k.find_status_condition cs resources_deployed)) [
          | inl e ↦ rw e
          | inr (c, e) ↦ rw e
        ])

  mark_lem :
      (idx : ℕ) (b : ConditionStatus) (r : String) (s : State W)
      → InRange idx s.aw
      → Returns (mark k idx b r s) λ _ s'.
        (a : At idx s.aw s'.aw) × (k.is_status_condition_true a.entry.conditions resources_deployed
          ≡ same_status b condition_true)
  unfolding mark written
  mark_lem idx b r s h =
      let (c, e) = get_elem?-lt s.aw.status.component_status idx h in
      rw (e, mark)
        (returned tt _ (written idx s.aw c _ e refl, mark_true (k.now s.world).0 c.conditions b r))

  -- An error of a patch ends the attempt, which is tried again.
  or_retry_lem :
      (idx : ℕ) (s s1 : State W) (e : Option Error) (rest : M W Failure)
      → At idx s.aw s1.aw
      → Returns (rest s1) (Made idx s)
      → Returns (or_retry e rest s1) (Made idx s)
  or_retry_lem idx s s1 none rest a h = h
  or_retry_lem idx s s1 (some e) rest a h =
      returned (some (e, false)) s1 (Made-error idx s (e, false) s1 a)

  patched_lem :
      (idx : ℕ) (s s1 : State W) (orig : AppWrapper) (rest : M W Failure)
      → At idx s.aw s1.aw
      → ((s2 : State W) → s2.aw ≡ s1.aw → Returns (rest s2) (Made idx s))
      → Returns ((patch k orig >>= λ e. or_retry e rest) s1) (Made idx s)
  patched_lem idx s s1 orig rest a h =
      bind-Returns (patch k orig s1) (λ e. or_retry e rest) (patch_keeps orig s1)
        (λ e s2 q. or_retry_lem idx s s2 e rest (At-same idx s.aw s1.aw s2.aw a q) (h s2 q))

  confirm_lem :
      (idx : ℕ) (obj : Fields) (s : State W)
      → InRange idx s.aw
      → Returns (confirm k idx obj s) (Made idx s)
  unfolding confirm At-trans At-same written
  confirm_lem idx obj s h =
      let (c, e) = get_elem?-lt s.aw.status.component_status idx h in
      let named : ComponentStatus = record c { name = k.lib.name_of obj } in
      let s1 : State W = record s {
        aw = with_component_status s.aw (set s.aw.status.component_status idx named);
      } in
      let p : At idx s.aw s1.aw = written idx s.aw c named e refl in
      rw (e, confirm)
        (bind-Returns (mark k idx condition_true "ComponentCreatedSuccessfully" s1)
          (λ _. patch k s.aw >>= λ x. or_retry x (pure none))
          (mark_lem idx condition_true "ComponentCreatedSuccessfully" s1
            (At-InRange idx s.aw s1.aw h p))
          (λ _ s2 q.
            let a = At-trans idx s.aw s1.aw s2.aw p q.0 in
            patched_lem idx s s2 s.aw (pure none) a (λ s3 r.
              returned none s3
                (record { at = At-same idx s.aw s2.aw s3.aw a r; deployed = λ _. q.1 }))))

  withdraw_lem :
      (idx : ℕ) (e : Error) (s : State W)
      → InRange idx s.aw
      → Returns (withdraw k idx e s) (Made idx s)
  unfolding withdraw
  withdraw_lem idx e s h =
      bind-Returns (mark k idx condition_false "ComponentCreationErrored" s)
        (λ _. patch k s.aw >>= λ p. or_retry p (pure (some (e, is_fatal e))))
        (mark_lem idx condition_false "ComponentCreationErrored" s h)
        (λ _ s1 q. patched_lem idx s s1 s.aw (pure (some (e, is_fatal e))) q.0 (λ s2 r.
          returned (some (e, is_fatal e)) s2
            (Made-error idx s (e, is_fatal e) s2 (At-same idx s.aw s1.aw s2.aw q.0 r))))

  -- An error that changes the world alone.
  failed_lem :
      (idx : ℕ) (s : State W) (w : W) (f : Error × Bool)
      → InRange idx s.aw
      → Returns (some (some f, record s { world = w })) (Made idx s)
  failed_lem idx s w f h =
      returned (some f) _ (Made-error idx s f (record s { world = w }) (At-refl idx s.aw h))

  moved :
      (idx : ℕ) (s : State W) (w : W) (f : Failure) (s' : State W)
      → Made idx (record s { world = w }) f s'
      → Made idx s f s'
  moved idx s w f s' m = record { at = m.at; deployed = m.deployed }

  adopt_lem :
      (idx : ℕ) (obj : Fields) (s : State W)
      → InRange idx s.aw
      → Returns (adopt k idx obj s) (Made idx s)
  unfolding adopt
  adopt_lem idx obj s h =
      let w = (k.read_object obj s.world).1 in
      elim (Result-cases (k.read_object obj s.world).0) [
        | inr (e, p) ↦ rw (p, adopt) (failed_lem idx s w (e, false) h)
        | inl (found, p) ↦
            elim (Bool-cases (owned_by k (k.lib.controller_of found) s.aw.metadata.name)) [
              | inl q ↦
                  rw (p, adopt, q)
                    (Returns-map (confirm_lem idx found (record s { world = w }) h) (moved idx s w))
              | inr q ↦ rw (p, adopt, q) (failed_lem idx s w (internal [], true) h)
            ]
      ]

  after_create_lem :
      (idx : ℕ) (obj : Fields) (r : Result Error Fields) (s : State W)
      → InRange idx s.aw
      → Returns (after_create k idx obj r s) (Made idx s)
  unfolding after_create
  after_create_lem idx obj (ok created) s h = confirm_lem idx created s h
  after_create_lem idx obj (err already_exists) s h = adopt_lem idx obj s h
  after_create_lem idx obj (err e) s h = withdraw_lem idx e s h

  create_object_lem :
      (idx : ℕ) (obj : Fields) (s : State W)
      → InRange idx s.aw
      → Returns (create_object k idx obj s) (Made idx s)
  unfolding create_object
  create_object_lem idx obj s h =
      let (r, w) = k.create_object obj s.world in
      Returns-map (after_create_lem idx obj r (record s { world = w }) h) (moved idx s w)

  announced :
      (idx : ℕ) (rest : M W Failure) (s s1 : State W)
      → InRange idx s.aw
      → At idx s.aw s1.aw
      → ((s1 : State W) → InRange idx s1.aw → Returns (rest s1) (Made idx s1))
      → Returns
          ((mark k idx condition_unknown "ComponentCreationInitiated"
              >> (patch k s.aw >>= λ x. or_retry x rest))
            s1)
          (Made idx s)
  announced idx rest s s1 h p next =
      bind-Returns (mark k idx condition_unknown "ComponentCreationInitiated" s1)
        (λ _. patch k s.aw >>= λ x. or_retry x rest)
        (mark_lem idx condition_unknown "ComponentCreationInitiated" s1
          (At-InRange idx s.aw s1.aw h p))
        (λ _ s2 q.
          let a = At-trans idx s.aw s1.aw s2.aw p q.0 in
          patched_lem idx s s2 s.aw rest a (λ s3 r.
            let b = At-same idx s.aw s2.aw s3.aw a r in
            Returns-map (next s3 (At-InRange idx s.aw s3.aw h b))
              (λ f s' m. Made-trans idx s s3 f s' b m)))

  announce_lem :
      (idx : ℕ) (obj : Fields) (rest : M W Failure) (s : State W)
      → InRange idx s.aw
      → ((s1 : State W) → InRange idx s1.aw → Returns (rest s1) (Made idx s1))
      → Returns (announce k idx obj rest s) (Made idx s)
  unfolding announce written
  announce_lem idx obj rest s h next =
      let (c, e) = get_elem?-lt s.aw.status.component_status idx h in
      elim (Option-cases (k.find_status_condition c.conditions resources_deployed)) [
        | inr (rd, p) ↦ rw (e, announce, p) (next s h)
        | inl p ↦
            let initiated =
              identified (k.lib.name_of obj) (k.lib.kind_of obj) (k.lib.api_version_of obj) c in
            let s1 : State W = record s {
              aw = with_component_status s.aw (set s.aw.status.component_status idx initiated);
            } in
            rw (e, announce, p)
              (announced idx rest s s1 h (written idx s.aw c initiated e refl) next)
      ]

  module _ (render : AppWrapper → ℕ → Option (Result Error Fields)) where
    pub create_component_lem :
        (idx : ℕ) (s : State W) (r : Result Error Fields)
        → render s.aw idx ≡ some r
        → InRange idx s.aw
        → Returns (create_component k render idx s) (Made idx s)
    unfolding create_component
    create_component_lem idx s (err e) p h =
        rw (p, create_component) (returned _ s (Made-error idx s (e, true) s (At-refl idx s.aw h)))
    create_component_lem idx s (ok obj) p h =
        rw (p, create_component)
          (announce_lem idx obj (create_object k idx obj) s h (create_object_lem idx obj))
