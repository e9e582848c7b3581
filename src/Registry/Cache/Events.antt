-- ===== src/Registry/Cache/Events.antt =====
-- What an event does to the services that the registry cache (registry/cache/cache.go) keeps.
use realmicro.Common.{
  ℕ, Text, List, [], ◌∷◌, ◌++◌, Bool, true, false, not, ◌&&◌, ◌||◌, none, some, ◌==◌, teq, teq_iff,
  length, set, select, lookup, lookup-insert, lookup-delete, arith, ◌≡◌, refl, sym, ap, ◌∙◌,
  Bool-cases, inl, inr, ◌⊎◌,
}
use realmicro.Registry.{Node, Service}
use realmicro.Registry.Util.{keep_old, del_nodes, is_empty}
use realmicro.Registry.Util.Sets.{has_id, keep_old-has_id}
use realmicro.Registry.Cache.{
  RegistryCache, Action, created, updated, deleted, override, other, services_of, find_version,
  watch_event, reset_status, update, put_service, put_left, drop_nodes, drop_all, apply,
  set_services, del,
}
use realmicro.Registry.Cache.Places.{
  knows, has_node, IsKnown, At, At-or_absent, has_node-absent, find_version-absent,
  find_version_found, has_node-append, has_node-select, has_node-put, has_node-of, has_node-single,
  knows-At, place_version, del_nodes-has_id, append-IsKnown, set-IsKnown, select-IsKnown,
}

abbrev has_after : Action → Service → Text → Text → List Service → Bool
has_after created res v i ss = has_node v i ss || (teq res.version v && has_id i res.nodes)
has_after updated res v i ss = has_node v i ss || (teq res.version v && has_id i res.nodes)
has_after deleted res v i ss = has_node v i ss && not (teq res.version v && has_id i res.nodes)
has_after override res v i ss = has_node v i ss && not (knows res.version ss)
has_after other res v i ss = has_node v i ss

-- The services that are kept under a name.
abbrev pub kept : Text → RegistryCache → List Service
kept name c = services_of (lookup name c.cache)

kept-set_services :
    (now : ℕ) (name key : Text) (ss : List Service) (c : RegistryCache)
    → key ≡ name
    → kept name (set_services now key ss c) ≡ ss
unfolding set_services
kept-set_services now name key ss c e =
    rw (lookup-insert key name ss c.cache, (teq_iff key name).1 e) refl

kept-del :
    (name key : Text) (c : RegistryCache)
    → key ≡ name
    → c.status ≡ false
    → kept name (del key c) ≡ []
unfolding del
kept-del name key c e h = rw (h, lookup-delete key name c.cache, (teq_iff key name).1 e) refl

-- The services after an event: the ids of each version, and still no version twice.
abbrev pub Tells : Action → Service → List Service → List Service → Type 0
Tells action res ss after =
    ((v i : Text) → has_node v i after ≡ has_after action res v i ss) × IsKnown res.name after

module _ (now : ℕ) (res : Service) (ss : List Service) (c : RegistryCache) where
  abbrev Place : Type 0
  Place =
      (knows res.version ss ≡ false)
      ⊎ ((s : Service) × (k : ℕ) × (At res.version ss s k × (s.name ≡ res.name)))

  transfer :
      (action : Action) (after now_kept : List Service)
      → now_kept ≡ after
      → Tells action res ss after
      → Tells action res ss now_kept
  transfer action after now_kept e t = rw e t

  put_service-lem :
      Place
      → IsKnown res.name ss
      → Tells created res ss
          (kept res.name (put_service now res ss (find_version res.version 0 ss none) c))
  put_service-lem (inl new) known = rw (find_version-absent res.version 0 ss none new) (
      transfer created (ss ++ (res ∷ [])) _ (kept-set_services now res.name res.name _ c refl)
        (λ v i. has_node-append v i ss res, append-IsKnown res.name ss res refl new known))
  put_service-lem (inr (s, k, (a, e))) known = rw (find_version_found res.version ss s k a) (
      transfer created (set ss k joined) _ (kept-set_services now res.name res.name _ c refl) (
        λ v i.
            has_node-put res.version v i ss s joined k refl a
            ∙ ground
                (arith, keep_old-has_id i s.nodes res.nodes, has_node-of res.version v i ss s k a),
        set-IsKnown res.name res.version ss s joined k refl refl a known,
      ))
    where
      joined : Service
      joined = record res { nodes = keep_old s.nodes res.nodes }

  put_left-lem :
      (s : Service) (k : ℕ) (left : List Node)
      → At res.version ss s k
      → s.name ≡ res.name
      → c.status ≡ false
      → IsKnown res.name ss
      → ((i : Text) → has_id i left ≡ (has_id i s.nodes && not (has_id i res.nodes)))
      → Tells deleted res ss (kept res.name (put_left now ss s k left c))
  put_left-lem s k (n ∷ ns) a e h known l =
      transfer deleted (set ss k cut) _ (kept-set_services now res.name s.name _ c e) (
        λ v i.
            has_node-put res.version v i ss s cut k (place_version res.version ss s k a) a
            ∙ ground (arith, l i, has_node-of res.version v i ss s k a),
        set-IsKnown res.name res.version ss s cut k e (place_version res.version ss s k a) a known,
      )
    where
      cut : Service
      cut = record s { nodes = n ∷ ns }
  put_left-lem s k [] a e h known l = elim (Bool-cases (length ss == 1)) [
    | inl one ↦ rw one (
        transfer deleted [] _ (kept-del res.name s.name c e h) (
          λ v i. ground (
            arith,
            l i,
            has_node-of res.version v i ss s k a,
            has_node-single res.version v i ss s k a one,
          ),
          tt,
        ))
    | inr more ↦ rw more (
        transfer deleted (select others ss) _ (kept-set_services now res.name s.name _ c e) (
          λ v i. rw (place_version res.version ss s k a) (
              has_node-select res.version v i ss
              ∙ ground (arith, l i, has_node-of res.version v i ss s k a)),
          select-IsKnown res.name others ss known,
        ))
  ]
    where
      others : Service → Bool
      others x = not (teq x.version s.version)

  drop_nodes-lem :
      Place
      → lookup res.name c.cache ≡ some ss
      → c.status ≡ false
      → IsKnown res.name ss
      → Tells deleted res ss
          (kept res.name (drop_nodes now res ss (find_version res.version 0 ss none) c))
  drop_nodes-lem (inl new) stored h known = rw (find_version-absent res.version 0 ss none new) (
      transfer deleted ss _ (rw stored refl)
        (λ v i. unchanged v i (Bool-cases (teq res.version v)), known))
    where
      unchanged :
          (v i : Text)
          → (teq res.version v ≡ true) ⊎ (teq res.version v ≡ false)
          → has_node v i ss ≡ has_after deleted res v i ss
      unchanged v i (inl same) =
          rw
            (sym (ap (λ w. has_node w i ss) ((teq_iff res.version v).0 same))
              ∙ has_node-absent res.version i ss new)
            refl
      unchanged v i (inr differs) = rw differs (ground arith)
  drop_nodes-lem (inr (s, k, (a, e))) stored h known =
      rw (find_version_found res.version ss s k a) (
        put_left-lem s k (del_nodes s.nodes res.nodes) a e h known
          (λ i. del_nodes-has_id i s.nodes res.nodes))

  drop_all-lem :
      Place
      → lookup res.name c.cache ≡ some ss
      → c.status ≡ false
      → IsKnown res.name ss
      → Tells override res ss (kept res.name (drop_all (find_version res.version 0 ss none) c))
  drop_all-lem (inl new) stored h known =
      rw (find_version-absent res.version 0 ss none new)
        (transfer override ss _ (rw stored refl) (λ v i. rw new (ground arith), known))
  drop_all-lem (inr (s, k, (a, e))) stored h known = rw (find_version_found res.version ss s k a) (
      transfer override [] _ (kept-del res.name s.name c e h)
        (λ v i. rw (knows-At res.version ss s k a) (ground arith), tt))

  apply-lem :
      (action : Action)
      → lookup res.name c.cache ≡ some ss
      → c.status ≡ false
      → IsKnown res.name ss
      → Tells action res ss
          (kept res.name (apply now action res ss (find_version res.version 0 ss none) c))
  apply-lem created stored h known =
      put_service-lem (At-or_absent res.name res.version ss known) known
  apply-lem updated stored h known =
      put_service-lem (At-or_absent res.name res.version ss known) known
  apply-lem deleted stored h known =
      drop_nodes-lem (At-or_absent res.name res.version ss known) stored h known
  apply-lem override stored h known =
      drop_all-lem (At-or_absent res.name res.version ss known) stored h known
  apply-lem other stored h known = transfer other ss _ (rw stored refl) (λ v i. refl, known)

-- An event with nodes about a service that is watched and kept, no version of it twice, where no other
-- call comes between the reset of the status and the update: after it each version has the ids that the event tells. "create" and "update" add the nodes of the event to its
-- version, "delete" takes them away, "override" drops the name where the version is known, any other
-- action changes nothing. Still no version stands twice.
pub watch_event-Tells :
    (now : ℕ) (action : Action) (res : Service) (watch : Bool) (ss : List Service)
    (c : RegistryCache)
    → lookup res.name c.watched ≡ some watch
    → lookup res.name c.cache ≡ some ss
    → is_empty res.nodes ≡ false
    → IsKnown res.name ss
    → Tells action res ss (kept res.name (watch_event now action res c))
unfolding watch_event reset_status update
watch_event-Tells now action res watch ss c w stored full known =
    rw (w, stored, full)
      (apply-lem now res ss (record c { status = false }) action stored refl known)
