-- ===== src/Webhook/Create/Resources.antt =====
-- Where the names that lookupResource gives come from (internal/webhook/appwrapper_webhook.go).
use appwrapper.Base.{
  ◌≡◌, ◌⊎◌, inl, inr, refl, sym, Option, none, some, List, [], ◌∷◌, Option-cases, Bool-cases,
}
use appwrapper.Base.Text.{Text, codes, text_eq, text_eq_sound, lookup, lookup-insert}
use appwrapper.Base.Result.{ok, err}
use appwrapper.Cluster.{Gvk, Reply}
use appwrapper.Webhook.{Server}
use appwrapper.Webhook.Create.{Session, find_resource, remember, discovered, lookup_resource}

abbrev pub IsIn : Text × Text → List (Text × Text) → Type 0
IsIn x [] = ⊥
IsIn x (y ∷ ys) = (y ≡ x) ⊎ IsIn x ys

find_resource-IsIn :
    (kind name : Text) (rs : List (Text × Text))
    → find_resource kind rs ≡ some name
    → IsIn (kind, name) rs
unfolding find_resource
find_resource-IsIn kind name [] h = absurd cc
find_resource-IsIn kind name ((k, n) ∷ rs) h = elim (Bool-cases (text_eq k kind)) [
  | inl p ↦
      let z : some n ≡ some name = rw (find_resource, p) at h in
      let same : k ≡ kind = text_eq_sound k kind p in
      let named : n ≡ name = cc in inl (λ i. (same i, named i))
  | inr p ↦ inr (find_resource-IsIn kind name rs (rw (find_resource, p) at h))
]

module _ {W : Type 0} (srv : Server W) where
  -- In some state of the cluster, the server lists the resource for the kind.
  abbrev pub Offers : Gvk → Text → Type 0
  Offers g name =
      (w : W) × (rs : List (Text × Text)) × ((srv.server_resources (srv.group_version_string g) w).0
        ≡ ok rs)
      × IsIn (g.kind, name) rs

  -- A name for a kind: any resource, or one that the server lists for a kind written the same.
  abbrev pub IsNameFor : Gvk → Text → Type 0
  IsNameFor g name =
      (name ≡ codes "*") ⊎ ((h : Gvk) × (srv.gvk_string h ≡ srv.gvk_string g) × Offers h name)

  -- The cache holds only names that the server has listed.
  abbrev pub Faithful : Session W → Type 0
  Faithful s =
      (key name : Text)
      → lookup key s.cache ≡ some name
      → (h : Gvk) × (srv.gvk_string h ≡ key) × Offers h name

  remember-Faithful :
      (g : Gvk) (s : Session W) (w : W) (rs : List (Text × Text))
      → Faithful s
      → (srv.server_resources (srv.group_version_string g) w).0 ≡ ok rs
      → (o : Option Text) → find_resource g.kind rs ≡ o
      → IsNameFor g (remember srv g s o).0 × Faithful (remember srv g s o).1
  unfolding remember
  remember-Faithful g s w rs f listed none e = (inl refl, f)
  remember-Faithful g s w rs f listed (some name) e =
      let offer : Offers g name = (w, rs, listed, find_resource-IsIn g.kind name rs e) in
      (
        inr (g, refl, offer),
        λ key other h. elim (Bool-cases (text_eq (srv.gvk_string g) key)) [
          | inl p ↦
              let z : some name ≡ some other =
                rw (lookup-insert (srv.gvk_string g) key name s.cache, p) at h in
              let same : name ≡ other = cc in
              (g, text_eq_sound (srv.gvk_string g) key p, rw (sym same) offer)
          | inr p ↦ f key other (rw (lookup-insert (srv.gvk_string g) key name s.cache, p) at h)
        ],
      )

  discovered-Faithful :
      (g : Gvk) (s : Session W) (w : W) (r : Reply (List (Text × Text)))
      → Faithful s
      → (srv.server_resources (srv.group_version_string g) w).0 ≡ r
      → IsNameFor g (discovered srv g s r).0 × Faithful (discovered srv g s r).1
  unfolding discovered
  discovered-Faithful g s w (err e) f h = (inl refl, f)
  discovered-Faithful g s w (ok rs) f h =
      remember-Faithful g s w rs f h (find_resource g.kind rs) refl

  -- lookupResource answers with a name for the kind, and keeps the cache so.
  pub lookup_resource-IsNameFor :
      (g : Gvk) (s : Session W)
      → Faithful s
      → IsNameFor g (lookup_resource srv g s).0 × Faithful (lookup_resource srv g s).1
  unfolding lookup_resource
  lookup_resource-IsNameFor g s f = elim (Option-cases (lookup (srv.gvk_string g) s.cache)) [
    | inr (name, p) ↦ rw (lookup_resource, p) (inr (f (srv.gvk_string g) name p), f)
    | inl p ↦
        rw (lookup_resource, p)
          (discovered-Faithful g
            (record s { world = (srv.server_resources (srv.group_version_string g) s.world).1 })
            s.world (srv.server_resources (srv.group_version_string g) s.world).0 f refl)
  ]
