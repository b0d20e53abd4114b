-- ===== src/NodeMonitor/Entries.antt =====
-- The entry of one node in a table, seen through an observation of entries (the critical sections
-- and the deletion in internal/controller/appwrapper/node_health_monitor.go).
use appwrapper.Base.{
  Bool, true, Option, none, some, List, ◌≡◌, refl, sym, if◌then◌else◌, Option-cases, Bool-cases,
  inl, inr,
}
use appwrapper.Base.Text.{
  Text, text_eq, text_eq_sound, lookup, insert, delete, lookup-insert, lookup-delete,
}
use appwrapper.NodeMonitor.{update_entry, has_key}

module _ {V X : Type 0} (observe : V → X) (nothing : X) where
  abbrev pub seen : Option V → X
  seen none = nothing
  seen (some v) = observe v

  -- What a table tells of a name.
  abbrev pub view : Text → List (Text × V) → X
  view name table = seen (lookup name table)

  at_key :
      (name j : Text) (table : List (Text × V)) (x : X)
      → (text_eq name j ≡ true → seen (lookup name table) ≡ x)
      → view j table ≡ (if text_eq name j then x else view j table)
  at_key name j table x h = elim (Bool-cases (text_eq name j)) [
    | inl p ↦ rw p (rw (sym (text_eq_sound name j p)) (h p))
    | inr p ↦ rw p refl
  ]

  pub view-insert :
      (name j : Text) (v : V) (table : List (Text × V))
      → view j (insert name v table) ≡ (if text_eq name j then observe v else view j table)
  view-insert name j v table = elim (Bool-cases (text_eq name j)) [
    | inl p ↦ rw (lookup-insert name j v table, p) refl
    | inr p ↦ rw (lookup-insert name j v table, p) refl
  ]

  pub view-delete :
      (name j : Text) (table : List (Text × V))
      → view j (delete name table) ≡ (if text_eq name j then nothing else view j table)
  view-delete name j table = elim (Bool-cases (text_eq name j)) [
    | inl p ↦ rw (lookup-delete name j table, p) refl
    | inr p ↦ rw (lookup-delete name j table, p) refl
  ]

  -- A node that is not in the table needs no deletion.
  pub view-erased :
      (name j : Text) (table : List (Text × V))
      → view j (if has_key (lookup name table) then delete name table else table)
        ≡ (if text_eq name j then nothing else view j table)
  view-erased name j table = elim (Option-cases (lookup name table)) [
    | inr (v, p) ↦ rw p (view-delete name j table)
    | inl p ↦ rw p (at_key name j table nothing (λ _. rw p refl))
  ]

  module _ (same : V → V → Bool) (is_empty : V → Bool)
      (alike : (a b : V) → same a b ≡ true → observe a ≡ observe b)
      (empty : (a : V) → is_empty a ≡ true → observe a ≡ nothing) where
    pub view-update_entry :
        (name j : Text) (new : V) (table : List (Text × V))
        → view j (update_entry same is_empty name new table).0
          ≡ (if text_eq name j then observe new else view j table)
    unfolding update_entry
    view-update_entry name j new table = elim (Bool-cases (is_empty new)) [
      | inl e ↦ elim (Option-cases (lookup name table)) [
        | inl p ↦
            rw (update_entry, p, e)
              (at_key name j table (observe new) (λ _. rw (p, empty new e) refl))
        | inr (prior, p) ↦ rw (update_entry, p, e, empty new e) (view-delete name j table)
      ]
      | inr e ↦ elim (Option-cases (lookup name table)) [
        | inl p ↦ rw (update_entry, p, e) (view-insert name j new table)
        | inr (prior, p) ↦ elim (Bool-cases (same prior new)) [
          | inl q ↦
              rw (update_entry, p, e, q)
                (at_key name j table (observe new) (λ _. rw p (alike prior new q)))
          | inr q ↦ rw (update_entry, p, e, q) (view-insert name j new table)
        ]
      ]
    ]
