-- ===== src/Tests/Lives.antt =====
-- The life of an AppWrapper on the small cluster.
use appwrapper.Base.{
  ℕ, ◌≡◌, ◌⊎◌, ◌<◌, refl, true, false, none, some, List, [], ◌∷◌, arith, length, map, zero, suc,
}
use appwrapper.Base.Text.{text_eq_refl}
use appwrapper.Base.Json.{Fields}
use appwrapper.Base.Result.{Result}
use appwrapper.Api.{
  suspended, AppWrapper, ComponentStatus, empty, resuming, resources_deployed,
  app_wrapper_finalizer, succeeded, terminating,
}
use appwrapper.Cluster.{Error}
use appwrapper.Exec.{State}
use appwrapper.Exec.Returns.{Returns}
use appwrapper.Components.Render.{render, render_component, parse_component}
use appwrapper.Components.Create.{create_components}
use appwrapper.Components.Create.All.{Renders, Created, create_components_lem}
use appwrapper.Reconcile.{
  ended, reconcile_object, reconcile_phase, reconcile_empty, transition_to_phase,
  reconcile_resuming,
}
use appwrapper.PodSets.{ensure_component_status_initialized}
use appwrapper.Reconcile.Invariant.{flag, Coherent, Step}
use appwrapper.Reconcile.Resume.{reconcile_resuming-Step}
use appwrapper.Reconcile.Every.{reconcile_object-Step}
use appwrapper.Workload.{finished, is_active}
use appwrapper.Workload.Reachable.{
  Reachable, created, reconciled, written, Reachable-Coherent, quota_accounting,
}
use appwrapper.Tests.World.{
  kit, kit_meta, kit_finalizers, kit_client, kit-Readable, at_phase, app_wrapper, status_of, holds,
}

-- An AppWrapper of one component with no pods, which is about to be created.
abbrev plain : State ℕ
plain = record {
  aw = app_wrapper resuming true true (record status_of { pod_sets = []; conditions = [] } ∷ []);
  world = 5;
}

render_plain :
    (aw : AppWrapper) (css : List ComponentStatus) (idx : ℕ)
    → aw.spec ≡ plain.aw.spec
    → aw.status.component_status ≡ css
    → map (λ (c : ComponentStatus). c.pod_sets) css ≡ [] ∷ []
    → idx < length css
    → (r : Result Error Fields) × (render kit aw idx ≡ some r)
unfolding render render_component parse_component
render_plain aw [] idx e f g h = absurd (omega (arith, h))
render_plain aw (c ∷ d ∷ css) idx e f g h = absurd cc
render_plain aw (c ∷ []) (suc idx) e f g h = absurd (omega (arith, h))
render_plain aw (c ∷ []) zero e f g h =
    let none_declared : c.pod_sets ≡ [] = cc in rw (render, e, f, none_declared) (_, refl)

plain-Renders : Renders (render kit) plain.aw
plain-Renders aw same idx h =
    render_plain aw aw.status.component_status idx same.spec_eq refl same.pod_sets_eq h

create_components_lem_example :
    Returns (create_components kit (render kit) plain) (Created kit 1 plain)
create_components_lem_example =
    create_components_lem kit kit_meta kit_client (render kit) plain plain-Renders (omega arith)

plain-Coherent : Coherent kit plain.aw
unfolding holds
plain-Coherent = record {
  phase_ok = (refl, refl);
  statuses = λ _. refl;
  guarded = λ d. rw (text_eq_refl app_wrapper_finalizer) refl;
}

reconcile_resuming-Step_example :
    Returns (reconcile_resuming kit (render kit) plain) λ o s'. Step kit plain.aw s'.aw
reconcile_resuming-Step_example =
    reconcile_resuming-Step kit kit_meta kit_client (render kit) plain plain-Coherent refl
      plain-Renders

reconcile_object-Step_example :
    Returns (reconcile_object kit (render kit) plain) λ o s'. Step kit plain.aw s'.aw
reconcile_object-Step_example =
    reconcile_object-Step kit kit_meta kit_finalizers kit_client kit-Readable (render kit) plain
      plain-Coherent refl (λ _. plain-Renders)

abbrev fresh : State ℕ
fresh = at_phase empty false false

abbrev suspended_state : State ℕ
suspended_state = at_phase suspended false false

first_run : reconcile_object kit (render kit) fresh ≡ some (ended none, suspended_state)
unfolding reconcile_object reconcile_phase reconcile_empty transition_to_phase
    ensure_component_status_initialized
first_run = refl

after_first : Reachable kit suspended_state.aw
after_first =
    reconciled fresh (ended none) suspended_state suspended_state.aw
      (created fresh.aw refl refl refl) refl (λ e. absurd cc) first_run
      (written (status_of ∷ []) refl refl)

Reachable-Coherent_example : Coherent kit suspended_state.aw
Reachable-Coherent_example =
    Reachable-Coherent kit kit_meta kit_finalizers kit_client kit-Readable suspended_state.aw
      after_first

quota_accounting_example :
    ((finished kit suspended_state.aw).finished ≡ true → is_active kit suspended_state.aw ≡ false)
    × (flag kit suspended_state.aw resources_deployed ≡ true
        → (is_active kit suspended_state.aw ≡ true)
          ⊎ (suspended_state.aw.status.phase ≡ succeeded)
          ⊎ (suspended_state.aw.status.phase ≡ terminating))
quota_accounting_example =
    quota_accounting kit kit_meta kit_finalizers kit_client kit-Readable suspended_state.aw
      after_first
