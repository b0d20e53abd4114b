-- ===== src/NodeMonitor/Resources.antt =====
-- The resources that the loops of updateNoExecuteNodes and updateNoScheduleNodes collect
-- (internal/controller/appwrapper/node_health_monitor.go), against a description of them by tests.
use appwrapper.Base.{
  ℤ, pos, Bool, true, false, ◌&&◌, ◌||◌, not, Option, none, some, List, [], ◌∷◌, ◌≡◌, refl, eqb_ℤ,
  any, if◌then◌else◌, Bool-cases, inl, inr, arith, ◌∙◌, ap,
}
use appwrapper.Base.Text.{
  Text, StringMap, text_eq, text_eq_sound, text_eq_refl, lookup, lookup-insert, lookup-delete,
}
use appwrapper.Base.Tables.{member, add}
use appwrapper.Config.{Taint, TaintEffect}
use appwrapper.NodeMonitor.{
  Node, ResourceList, matches, evicts, add_evicted, add_evicted_resources, no_execute_resources,
  quantity_of, put_unless_zero, add_tainted, add_tainted_resources, tainted_resources,
  no_schedule_resources, resource_pods,
}

abbrev listed : (TaintEffect → Bool) → Text × Text → List Taint → Bool
listed p label ts = any (λ (t : Taint). matches label t && p t.effect) ts

abbrev listed_for : (TaintEffect → Bool) → Text → Text × Text → List (Text × List Taint) → Bool
listed_for p r label rts = any (λ (e : Text × List Taint). text_eq e.0 r && listed p label e.1) rts

-- A label of the node is a taint, of an effect that `p` admits, that is listed for the resource.
abbrev pub tainted : (TaintEffect → Bool) → List (Text × List Taint) → StringMap → Text → Bool
tainted p rts labels r = any (λ (label : Text × Text). listed_for p r label rts) labels

abbrev pub any_effect : TaintEffect → Bool
any_effect e = true

member-add : (r s : Text) (rs : List Text) → member r (add s rs) ≡ (member r rs || text_eq s r)
unfolding member
member-add r s rs = elim (Bool-cases (member s rs)) [
  | inl p ↦ elim (Bool-cases (text_eq s r)) [
    | inl q ↦
        let same : s ≡ r = text_eq_sound s r q in
        let in_rs : member r rs ≡ true = rw same at p in rw (p, in_rs) refl
    | inr q ↦ rw (p, q) (or_false (member r rs))
  ]
  | inr p ↦ rw p (swap (text_eq s r) (member r rs))
]
  where
    or_false : (b : Bool) → b ≡ (b || false)
    or_false b = ground arith

    swap : (a b : Bool) → (if a then true else b) ≡ (b || a)
    swap a b = ground arith

member-add_evicted :
    (label : Text × Text) (r s : Text) (ts : List Taint) (rs : List Text)
    → member r (add_evicted label s ts rs)
      ≡ (member r rs || (text_eq s r && listed evicts label ts))
unfolding add_evicted
member-add_evicted label r s [] rs = ground arith
member-add_evicted label r s (t ∷ ts) rs = elim (Bool-cases (matches label t && evicts t.effect)) [
  | inl p ↦
      rw (p, member-add_evicted label r s ts (add s rs), member-add r s rs)
        (absorb (member r rs) (text_eq s r) (listed evicts label ts))
  | inr p ↦ rw (p, member-add_evicted label r s ts rs) refl
]
  where
    absorb : (a b c : Bool) → ((a || b) || (b && c)) ≡ (a || (b && true))
    absorb a b c = ground arith

member-add_evicted_resources :
    (label : Text × Text) (r : Text) (rts : List (Text × List Taint)) (rs : List Text)
    → member r (add_evicted_resources label rts rs) ≡ (member r rs || listed_for evicts r label rts)
unfolding add_evicted_resources
member-add_evicted_resources label r [] rs = ground arith
member-add_evicted_resources label r ((s, ts) ∷ rts) rs =
    member-add_evicted_resources label r rts (add_evicted label s ts rs)
    ∙ (rw (member-add_evicted label r s ts rs) (assoc (member r rs) _ _))
  where
    assoc : (a b c : Bool) → ((a || b) || c) ≡ (a || (b || c))
    assoc a b c = ground arith

collected :
    (rts : List (Text × List Taint)) (labels : StringMap) (r : Text) (rs : List Text)
    → member r (no_execute_resources rts labels rs) ≡ (member r rs || tainted evicts rts labels r)
unfolding no_execute_resources
collected rts [] r rs = ground arith
collected rts (label ∷ labels) r rs =
    collected rts labels r (add_evicted_resources label rts rs)
    ∙ (rw (member-add_evicted_resources label r rts rs) (assoc (member r rs) _ _))
  where
    assoc : (a b c : Bool) → ((a || b) || c) ≡ (a || (b || c))
    assoc a b c = ground arith

pub member-no_execute_resources :
    (rts : List (Text × List Taint)) (labels : StringMap) (r : Text)
    → member r (no_execute_resources rts labels []) ≡ tainted evicts rts labels r
unfolding member
member-no_execute_resources rts labels r = collected rts labels r []

-- The quantity that the node loses where its labels taint the resource.
abbrev lost : Bool → ℤ → Option ℤ → Option ℤ
lost b n o = if b && not (eqb_ℤ n (pos 0)) then some n else o

lookup-put_unless_zero :
    (r s : Text) (capacity : ResourceList) (l : ResourceList)
    → lookup r (put_unless_zero s (quantity_of s capacity) l)
      ≡ lost (text_eq s r) (quantity_of r capacity) (lookup r l)
lookup-put_unless_zero r s capacity l = elim (Bool-cases (text_eq s r)) [
  | inl p ↦ let same : s ≡ r = text_eq_sound s r p in rw same (here r)
  | inr p ↦ elim (Bool-cases (eqb_ℤ (quantity_of s capacity) (pos 0))) [
    | inl z ↦ rw (z, p) refl
    | inr z ↦ rw (z, lookup-insert s r (quantity_of s capacity) l, p) refl
  ]
]
  where
    here :
        (t : Text)
        → lookup t (put_unless_zero t (quantity_of t capacity) l)
          ≡ lost (text_eq t t) (quantity_of t capacity) (lookup t l)
    here t = elim (Bool-cases (eqb_ℤ (quantity_of t capacity) (pos 0))) [
      | inl z ↦ rw (z, text_eq_refl t) refl
      | inr z ↦ rw (z, lookup-insert t t (quantity_of t capacity) l, text_eq_refl t) refl
    ]

no_loss : (a : Bool) (n : ℤ) (o : Option ℤ) → o ≡ lost (a && false) n o
no_loss a n o = go a (eqb_ℤ n (pos 0))
  where
    go : (a z : Bool) → o ≡ (if (a && false) && not z then some n else o)
    go a z = ground arith

lost-lost : (a b : Bool) (n : ℤ) (o : Option ℤ) → lost a n (lost b n o) ≡ lost (b || a) n o
lost-lost a b n o = go a b (eqb_ℤ n (pos 0))
  where
    go :
        (a b z : Bool)
        → (if a && not z then some n else if b && not z then some n else o)
          ≡ (if (b || a) && not z then some n else o)
    go a b z = ground arith

lookup-add_tainted :
    (capacity : ResourceList) (label : Text × Text) (r s : Text) (ts : List Taint)
    (l : ResourceList)
    → lookup r (add_tainted capacity label s ts l)
      ≡ lost (text_eq s r && listed any_effect label ts) (quantity_of r capacity) (lookup r l)
unfolding add_tainted
lookup-add_tainted capacity label r s [] l =
    no_loss (text_eq s r) (quantity_of r capacity) (lookup r l)
lookup-add_tainted capacity label r s (t ∷ ts) l = elim (Bool-cases (matches label t)) [
  | inl p ↦
      rw
        (
          p,
          lookup-add_tainted capacity label r s ts (put_unless_zero s (quantity_of s capacity) l),
          lookup-put_unless_zero r s capacity l,
        )
        (lost-lost (text_eq s r && listed any_effect label ts) (text_eq s r)
            (quantity_of r capacity) (lookup r l)
          ∙ ap (λ b. lost b (quantity_of r capacity) (lookup r l))
              (absorb (text_eq s r) (listed any_effect label ts)))
  | inr p ↦ rw (p, lookup-add_tainted capacity label r s ts l) refl
]
  where
    absorb : (a b : Bool) → (a || (a && b)) ≡ (a && true)
    absorb a b = ground arith

lookup-add_tainted_resources :
    (capacity : ResourceList) (label : Text × Text) (r : Text) (rts : List (Text × List Taint))
    (l : ResourceList)
    → lookup r (add_tainted_resources capacity label rts l)
      ≡ lost (listed_for any_effect r label rts) (quantity_of r capacity) (lookup r l)
unfolding add_tainted_resources
lookup-add_tainted_resources capacity label r [] l = refl
lookup-add_tainted_resources capacity label r ((s, ts) ∷ rts) l =
    lookup-add_tainted_resources capacity label r rts (add_tainted capacity label s ts l)
    ∙ (rw (lookup-add_tainted capacity label r s ts l)
        (lost-lost (listed_for any_effect r label rts) _ (quantity_of r capacity) (lookup r l)))

lookup-tainted_resources :
    (capacity : ResourceList) (rts : List (Text × List Taint)) (labels : StringMap) (r : Text)
    (l : ResourceList)
    → lookup r (tainted_resources capacity rts labels l)
      ≡ lost (tainted any_effect rts labels r) (quantity_of r capacity) (lookup r l)
unfolding tainted_resources
lookup-tainted_resources capacity rts [] r l = refl
lookup-tainted_resources capacity rts (label ∷ labels) r l =
    lookup-tainted_resources capacity rts labels r (add_tainted_resources capacity label rts l)
    ∙ (rw (lookup-add_tainted_resources capacity label r rts l)
        (lost-lost (tainted any_effect rts labels r) _ (quantity_of r capacity) (lookup r l)))

-- The unschedulable quantity of a resource on a node: all of it on a cordoned node, but for pods, and
-- on another node all of a tainted resource, if that is not zero.
abbrev pub unusable : List (Text × List Taint) → Node → Text → Option ℤ
unusable rts n r =
    if n.unschedulable
    then (if text_eq resource_pods r then none else lookup r n.capacity)
    else lost (tainted any_effect rts n.labels r) (quantity_of r n.capacity) none

lookup_empty : (r : Text) → lookup {V = ℤ} r [] ≡ none
unfolding lookup
lookup_empty r = refl

pub lookup-no_schedule_resources :
    (rts : List (Text × List Taint)) (n : Node) (r : Text)
    → lookup r (no_schedule_resources rts n) ≡ unusable rts n r
unfolding no_schedule_resources
lookup-no_schedule_resources rts n r = elim (Bool-cases n.unschedulable) [
  | inl p ↦ rw (p, no_schedule_resources) (lookup-delete resource_pods r n.capacity)
  | inr p ↦
      rw (p, no_schedule_resources)
        (lookup-tainted_resources n.capacity rts n.labels r []
          ∙ ap (lost (tainted any_effect rts n.labels r) (quantity_of r n.capacity))
              (lookup_empty r))
]
