-- ===== src/Cluster/Laws.antt =====
-- What the controllers rely on of the packages outside the repository, as they document it.
use appwrapper.Base.{
  ℤ, negsuc, Bool, true, false, Option, none, some, List, if◌then◌else◌, eqb_ℤ, ◌≡◌,
}
use appwrapper.Base.Text.{Text}
use appwrapper.Api.{AppWrapper, Condition, ConditionType, condition_true, same_status, same_type}
use appwrapper.Cluster.{Kit}
use appwrapper.Base.Result.{ok}

-- The zero time.Time, 1 January of the year 1, seen from the Unix epoch.
abbrev pub zero_time : ℤ
zero_time = negsuc 62135596799999999999

abbrev pub given_or_now : ℤ → Condition → ℤ
given_or_now now c = if eqb_ℤ c.last_transition_time zero_time then now else c.last_transition_time

-- The condition that SetStatusCondition stores: it keeps the transition time of the condition
-- that it replaces, if that has the same status.
abbrev pub stamped : ℤ → Option Condition → Condition → Condition
stamped now none c = record c { last_transition_time = given_or_now now c }
stamped now (some old) c = record c {
  last_transition_time =
      if same_status old.status c.status then old.last_transition_time else given_or_now now c;
}

abbrev pub status_is_true : Option Condition → Bool
status_is_true none = false
status_is_true (some c) = same_status c.status condition_true

-- The condition helpers treat the list as a map from types.
pub record MetaLaws {W : Type 0} (k : Kit W) : Type 0 where
  pub find_set :
      (t : ℤ) (cs : List Condition) (c : Condition) (x : ConditionType)
      → k.find_status_condition (k.set_status_condition t cs c) x ≡ (
          if same_type c.type x
          then some (stamped t (k.find_status_condition cs c.type) c)
          else k.find_status_condition cs x)
  pub is_true_find :
      (cs : List Condition) (x : ConditionType)
      → k.is_status_condition_true cs x ≡ status_is_true (k.find_status_condition cs x)

-- The finalizer helpers report whether they changed the list.
pub record FinalizerLaws {W : Type 0} (k : Kit W) : Type 0 where
  pub contains_add :
      (fs : List Text) (f : Text) → k.contains_finalizer (k.add_finalizer fs f).1 f ≡ true
  pub contains_remove :
      (fs : List Text) (f : Text) → k.contains_finalizer (k.remove_finalizer fs f).1 f ≡ false

-- A write that the server accepts comes back as it was sent: nobody else writes the object
-- between the read and the write.
pub record ClientLaws {W : Type 0} (k : Kit W) : Type 0 where
  pub patched :
      (aw orig aw' : AppWrapper) (w : W) → (k.patch_status aw orig w).0 ≡ ok aw' → aw' ≡ aw
  pub updated : (aw aw' : AppWrapper) (w : W) → (k.update aw w).0 ≡ ok aw' → aw' ≡ aw
