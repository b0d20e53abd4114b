-- ===== src/Exec.antt =====
-- Go code that works on one AppWrapper in memory and talks to the cluster: an action on a state of
-- both. `none` is a panic: a nil pointer, an index out of range, a failed type assertion.
pub mod Returns
use appwrapper.Base.{ℤ, Bool, true, false, Option, none, some, List, [], ◌∷◌, String, if◌then◌else◌}
use appwrapper.Api.{
  AppWrapper, Status, Condition, ConditionType, ConditionStatus, condition_true, condition_false,
  Message, Phase,
}
use appwrapper.Cluster.{Kit, Error, Reply}
use appwrapper.Base.Result.{ok, err}
use appwrapper.Cluster.Laws.{zero_time}

pub record State (W : Type 0) : Type 0 where
  pub aw : AppWrapper
  pub world : W

abbrev pub M : Type 0 → Type 0 → Type 0
M W A = State W → Option (A × State W)

infixl 5 ◌>>=◌ ◌>>◌
abbrev pub ◌>>=◌ : {W A B : Type 0} → M W A → (A → M W B) → M W B
◌>>=◌ m f s = elim (m s) [ none ↦ none | some (a, s') ↦ f a s' ]

abbrev pub ◌>>◌ : {W A B : Type 0} → M W A → M W B → M W B
m >> n = m >>= λ _. n

abbrev pub pure : {W A : Type 0} → A → M W A
pure a s = some (a, s)

abbrev pub get_aw : {W : Type 0} → M W AppWrapper
get_aw s = some (s.aw, s)

-- `*p`, a panic where `p` is nil.
abbrev pub deref : {W A : Type 0} → Option A → M W A
deref none s = none
deref (some a) s = some (a, s)

abbrev pub new_condition : ConditionType → ConditionStatus → String → Message → Condition
new_condition t b r m = record {
  type = t;
  status = b;
  reason = r;
  message = m;
  last_transition_time = zero_time;
}

-- The AppWrapper after a write to one field of its status.
abbrev pub with_status : AppWrapper → Status → AppWrapper
with_status aw s = record aw { status = s }

abbrev pub with_conditions : AppWrapper → List Condition → AppWrapper
with_conditions aw cs = with_status aw (record aw.status { conditions = cs })

abbrev pub with_phase : AppWrapper → Phase → AppWrapper
with_phase aw p = with_status aw (record aw.status { phase = p })

module _ {W : Type 0} (k : Kit W) where
  abbrev pub time_now : M W ℤ
  time_now s = let (t, w) = k.now s.world in some (t, record s { world = w })

  -- meta.SetStatusCondition on the conditions of the AppWrapper
  abbrev pub set_condition : ConditionType → ConditionStatus → String → Message → M W Unit
  set_condition t b r m s =
      let (n, w) = k.now s.world in
      some (
        tt,
        record s {
          aw =
              with_conditions s.aw
                (k.set_status_condition n s.aw.status.conditions (new_condition t b r m));
          world = w;
        },
      )

  abbrev on_reply : State W → W → Reply AppWrapper → Option (Option Error × State W)
  on_reply s w (ok aw) = some (none, record { aw = aw; world = w })
  on_reply s w (err e) = some (some e, record s { world = w })

  -- A write that succeeds replaces the object in memory by the server's copy.
  abbrev pub patch : AppWrapper → M W (Option Error)
  patch orig s = let (r, w) = k.patch_status s.aw orig s.world in on_reply s w r

  abbrev pub update_object : M W (Option Error)
  update_object s = let (r, w) = k.update s.aw s.world in on_reply s w r

  abbrev pub record_event : String → Message → M W Unit
  record_event r m s = some (tt, record s { world = k.event s.aw r m s.world })
