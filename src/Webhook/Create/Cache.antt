-- ===== src/Webhook/Create/Cache.antt =====
-- The cache of lookupResource (internal/webhook/appwrapper_webhook.go).
use appwrapper.Base.{
  Option, none, some, List, [], ◌∷◌, ◌≡◌, ◌≢◌, refl, Option-cases, Bool-cases, inl, inr,
}
use appwrapper.Base.Text.{Text, codes, text_eq, text_eq_refl, text_eq_sound, lookup, lookup-insert}
use appwrapper.Base.Result.{ok, err}
use appwrapper.Cluster.{Gvk, Reply}
use appwrapper.Webhook.{Server}
use appwrapper.Webhook.Create.{Session, find_resource, remember, discovered, lookup_resource}

module _ {W : Type 0} (srv : Server W) where
  -- The session after some lookups.
  abbrev pub lookups : List Gvk → Session W → Session W
  lookups [] s = s
  lookups (g ∷ gs) s = lookups gs (lookup_resource srv g s).1

  lookup_known :
      (g : Gvk) (s : Session W) (name : Text)
      → lookup (srv.gvk_string g) s.cache ≡ some name
      → lookup_resource srv g s ≡ (name, s)
  unfolding lookup_resource
  lookup_known g s name h = rw (lookup_resource, h) refl

  remembered :
      (g : Gvk) (s : Session W) (o : Option Text)
      → (remember srv g s o).0 ≢ codes "*"
      → lookup (srv.gvk_string g) (remember srv g s o).1.cache ≡ some (remember srv g s o).0
  unfolding remember
  remembered g s none h = absurd (h refl)
  remembered g s (some name) h =
      rw
        (
          lookup-insert (srv.gvk_string g) (srv.gvk_string g) name s.cache,
          text_eq_refl (srv.gvk_string g),
        )
        refl

  discovered_remembered :
      (g : Gvk) (s : Session W) (r : Reply (List (Text × Text)))
      → (discovered srv g s r).0 ≢ codes "*"
      → lookup (srv.gvk_string g) (discovered srv g s r).1.cache ≡ some (discovered srv g s r).0
  unfolding discovered
  discovered_remembered g s (err e) h = absurd (h refl)
  discovered_remembered g s (ok rs) h = remembered g s (find_resource g.kind rs) h

  looked_up :
      (g : Gvk) (s : Session W)
      → (lookup_resource srv g s).0 ≢ codes "*"
      → lookup (srv.gvk_string g) (lookup_resource srv g s).1.cache
        ≡ some (lookup_resource srv g s).0
  unfolding lookup_resource
  looked_up g s h = elim (Option-cases (lookup (srv.gvk_string g) s.cache)) [
    | inr (name, p) ↦ rw (lookup_resource, p) p
    | inl p ↦
        let (resources, w) = srv.server_resources (srv.group_version_string g) s.world in
        rw (lookup_resource, p)
          (discovered_remembered g (record s { world = w }) resources
            (rw (lookup_resource, p) at h))
  ]

  remember_keeps :
      (g : Gvk) (s : Session W) (o : Option Text) (key name : Text)
      → lookup (srv.gvk_string g) s.cache ≡ none
      → lookup key s.cache ≡ some name
      → lookup key (remember srv g s o).1.cache ≡ some name
  unfolding remember
  remember_keeps g s none key name new h = h
  remember_keeps g s (some r) key name new h = elim (Bool-cases (text_eq (srv.gvk_string g) key)) [
    | inl p ↦
        let same : srv.gvk_string g ≡ key = text_eq_sound _ _ p in
        absurd (let z : lookup key s.cache ≡ none = rw same at new in cc)
    | inr p ↦ rw (lookup-insert (srv.gvk_string g) key r s.cache, p) h
  ]

  discovered_keeps :
      (g : Gvk) (s : Session W) (r : Reply (List (Text × Text))) (key name : Text)
      → lookup (srv.gvk_string g) s.cache ≡ none
      → lookup key s.cache ≡ some name
      → lookup key (discovered srv g s r).1.cache ≡ some name
  unfolding discovered
  discovered_keeps g s (err e) key name new h = h
  discovered_keeps g s (ok rs) key name new h =
      remember_keeps g s (find_resource g.kind rs) key name new h

  lookup_keeps :
      (g : Gvk) (s : Session W) (key name : Text)
      → lookup key s.cache ≡ some name
      → lookup key (lookup_resource srv g s).1.cache ≡ some name
  unfolding lookup_resource
  lookup_keeps g s key name h = elim (Option-cases (lookup (srv.gvk_string g) s.cache)) [
    | inr (r, p) ↦ rw (lookup_resource, p) h
    | inl p ↦
        let (resources, w) = srv.server_resources (srv.group_version_string g) s.world in
        rw (lookup_resource, p) (discovered_keeps g (record s { world = w }) resources key name p h)
  ]

  lookups_keep :
      (gs : List Gvk) (s : Session W) (key name : Text)
      → lookup key s.cache ≡ some name
      → lookup key (lookups gs s).cache ≡ some name
  lookups_keep [] s key name h = h
  lookups_keep (g ∷ gs) s key name h =
      lookups_keep gs (lookup_resource srv g s).1 key name (lookup_keeps g s key name h)

  -- When lookupResource answers with a name other than "*", then after any further lookups it
  -- gives the same answer for the same kind, and changes neither the cache nor the world, so it
  -- asks no server.
  pub lookup_resource-lookups :
      (g : Gvk) (gs : List Gvk) (s : Session W)
      → (lookup_resource srv g s).0 ≢ codes "*"
      → lookup_resource srv g (lookups gs (lookup_resource srv g s).1)
        ≡ ((lookup_resource srv g s).0, lookups gs (lookup_resource srv g s).1)
  lookup_resource-lookups g gs s h =
      lookup_known g (lookups gs (lookup_resource srv g s).1) (lookup_resource srv g s).0
        (lookups_keep gs (lookup_resource srv g s).1 (srv.gvk_string g) _ (looked_up g s h))
