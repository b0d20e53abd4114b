-- ===== src/Components/Render/Affinity.antt =====
-- hasResourceRequest and addNodeSelectorsToAffinity of
-- internal/controller/appwrapper/resource_management.go. The second changes the maps in place, also
-- where it fails further down: it gives the map after the call, and whether there was no error.
use appwrapper.Base.{
  ℤ, pos, Bool, true, false, not, Option, none, some, List, [], ◌∷◌, ◌++◌, ltb_ℤ, eqb_ℤ, any,
  if◌then◌else◌,
}
use appwrapper.Base.Text.{Text, codes}
use appwrapper.Base.Json.{
  Json, Fields, end, obj, arr, nil, int, str, from_items, get_field, set_field, as_map, as_array,
}
use appwrapper.Cluster.{Library}

module _ (l : Library) where
  abbrev positive_quantity : Option ℤ → Bool
  positive_quantity none = false
  positive_quantity (some q) = not (eqb_ℤ q (pos 0))

  -- The type switch on the quantity.
  abbrev requests_some : Json → Bool
  requests_some (int q) = ltb_ℤ (pos 0) q
  requests_some (str t) = positive_quantity (l.parse_quantity t)
  requests_some _ = false

  abbrev or_false : {A : Type 0} → (A → Bool) → Option A → Bool
  or_false f none = false
  or_false f (some a) = f a

  abbrev child_map : Text → Fields → Option Fields
  child_map key m = elim (get_field key m) [ none ↦ none | some v ↦ as_map v ]

  list_requests : Text → Fields → Text → Bool
  list_requests resource resources key =
      or_false (λ list. or_false requests_some (get_field resource list)) (child_map key resources)

  uses_resource : Text → Fields → Bool
  unfolding list_requests
  uses_resource resource container =
      or_false (λ rs. any (list_requests resource rs) (codes "limits" ∷ codes "requests" ∷ []))
        (child_map (codes "resources") container)

  container_uses : Text → Json → Bool
  unfolding uses_resource
  container_uses resource c = or_false (uses_resource resource) (as_map c)

  -- The containers under a key of the spec.
  containers_use : Text → Fields → Text → Bool
  unfolding container_uses
  containers_use resource spec key =
      or_false (λ v. or_false (any (container_uses resource)) (as_array v)) (get_field key spec)

  unfoldable pub has_resource_request : Fields → Text → Bool
  unfolding containers_use
  has_resource_request spec resource =
      any (containers_use resource spec) (codes "containers" ∷ codes "initContainers" ∷ [])

-- A change in place of the value under a key, which is stored first if it is missing.
with_child : Text → Json → (Json → Json × Bool) → Fields → Fields × Bool
with_child key default f m = elim (get_field key m) [
  | none ↦ (let (v, done) = f default in (set_field key v m, done))
  | some old ↦ (let (v, done) = f old in (set_field key v m, done))
]

-- The value must be a map, or an array.
abbrev in_map : (Fields → Fields × Bool) → Json → Json × Bool
in_map f v = elim (as_map v) [
  | none ↦ (v, false)
  | some m ↦ (let (m', done) = f m in (obj m', done))
]

abbrev in_array : (List Json → List Json × Bool) → Json → Json × Bool
in_array f v = elim (as_array v) [
  | none ↦ (v, false)
  | some xs ↦ (let (xs', done) = f xs in (arr (from_items xs'), done))
]

add_to_term : List Json → Json → Json × Bool
unfolding with_child
add_to_term exprs =
    in_map (with_child (codes "matchExpressions") (arr nil) (in_array (λ xs. (xs ++ exprs, true))))

-- The loop over the terms, up to the first that fails.
add_to_terms : List Json → List Json → List Json × Bool
unfolding add_to_term
add_to_terms exprs [] = ([], true)
add_to_terms exprs (t ∷ ts) =
    let (t', done) = add_to_term exprs t in
    let (ts', others) = add_to_terms exprs ts in
    if done then (t' ∷ ts', others) else (t' ∷ ts, false)

unfoldable pub add_node_selectors_to_affinity : Fields → List Json → Fields × Bool
unfolding with_child add_to_terms
add_node_selectors_to_affinity spec exprs =
    with_child (codes "affinity") (obj end)
      (in_map (
        with_child (codes "nodeAffinity") (obj end) (
          in_map (
            with_child (codes "requiredDuringSchedulingIgnoredDuringExecution") (obj end) (
              in_map (
                with_child (codes "nodeSelectorTerms") (arr (from_items (obj end ∷ [])))
                  (in_array (add_to_terms exprs))))))))
      spec
