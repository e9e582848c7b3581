-- ===== src/Registry/Cache/Places.antt =====
-- The services that the registry cache (registry/cache/cache.go) keeps, by their versions: the place
-- that the loop of `update` finds, and the ids of the nodes of each version.
use realmicro.Common.{
  ℕ, zero, suc, ◌+◌, Text, List, [], ◌∷◌, ◌++◌, Bool, true, false, not, ◌&&◌, ◌||◌, Option, none,
  some, ◌==◌, teq, teq_iff, teq_refl, length, set, select, any_of, if◌then◌else◌, arith, ◌≡◌, refl,
  sym, ap, ◌∙◌, ap₂, Bool-cases, inl, inr, ◌⊎◌,
}
use realmicro.Registry.{Node, Service}
use realmicro.Registry.Util.{del_nodes}
use realmicro.Registry.Util.Sets.{has_id, same_id-has_id}
use realmicro.Registry.Cache.{find_version}

abbrev pub knows : Text → List Service → Bool
knows version ss = any_of (λ (s : Service). teq s.version version) ss

-- Whether a service of the version has a node of the id.
abbrev pub has_node : Text → Text → List Service → Bool
has_node version i ss = any_of (λ (s : Service). teq s.version version && has_id i s.nodes) ss

-- Services of the name, with no version twice.
abbrev pub IsKnown : Text → List Service → Type 0
IsKnown name [] = Unit
IsKnown name (s ∷ ss) = (s.name ≡ name) × ((knows s.version ss ≡ false) × IsKnown name ss)

-- The service stands at the place, the only one of its version.
abbrev pub At : Text → List Service → Service → ℕ → Type 0
At version [] s k = ⊥
At version (x ∷ xs) s zero = (x ≡ s) × ((s.version ≡ version) × (knows version xs ≡ false))
At version (x ∷ xs) s (suc k) = (teq x.version version ≡ false) × At version xs s k

pub has_node-absent :
    (version i : Text) (ss : List Service)
    → knows version ss ≡ false
    → has_node version i ss ≡ false
has_node-absent version i [] h = refl
has_node-absent version i (s ∷ ss) h = ground (arith, has_node-absent version i ss)

pub find_version-absent :
    (version : Text) (k : ℕ) (ss : List Service) (found : Option (Service × ℕ))
    → knows version ss ≡ false
    → find_version version k ss found ≡ found
unfolding find_version
find_version-absent version k [] found h = refl
find_version-absent version k (s ∷ ss) found h =
    rw new (find_version-absent version (k + 1) ss found (ground (arith, h)))
  where
    new : teq s.version version ≡ false
    new = ground (arith, h)

here_is :
    (version : Text) (x s : Service) → x ≡ s → s.version ≡ version → teq x.version version ≡ true
here_is version x s e h = (teq_iff x.version version).1 (ap (λ (y : Service). y.version) e ∙ h)

find_version-At :
    (version : Text) (j : ℕ) (ss : List Service) (found : Option (Service × ℕ)) (s : Service)
    (k : ℕ)
    → At version ss s k
    → find_version version j ss found ≡ some (s, j + k)
unfolding find_version
find_version-At version j [] found s k a = absurd a
find_version-At version j (x ∷ xs) found s zero a = rw (here_is version x s a.0 a.1.0) (
    find_version-absent version (j + 1) xs (some (x, j)) a.1.1
    ∙ ap₂ (λ y n. some (y, n)) a.0 (omega arith))
find_version-At version j (x ∷ xs) found s (suc k) a =
    rw (a.0)
      (find_version-At version (j + 1) xs found s k a.1 ∙ ap (λ n. some (s, n)) (omega arith))

pub find_version_found :
    (version : Text) (ss : List Service) (s : Service) (k : ℕ)
    → At version ss s k
    → find_version version 0 ss none ≡ some (s, k)
find_version_found version ss s k a =
    find_version-At version 0 ss none s k a ∙ ap (λ n. some (s, n)) (omega arith)

-- A version is absent, or it stands at one place.
pub At-or_absent :
    (name version : Text) (ss : List Service)
    → IsKnown name ss
    → (knows version ss ≡ false) ⊎ ((s : Service) × (k : ℕ) × (At version ss s k × (s.name ≡ name)))
At-or_absent name version [] h = inl refl
At-or_absent name version (x ∷ xs) h = elim (Bool-cases (teq x.version version)) [
  | inl same ↦ inr (x, 0, ((refl, (same_version same, only same)), h.0))
  | inr new ↦ elim (At-or_absent name version xs h.1.1) [
    | inl none_left ↦ inl (rw (new, none_left) refl)
    | inr (s, k, (a, e)) ↦ inr (s, suc k, ((new, a), e))
  ]
]
  where
    same_version : teq x.version version ≡ true → x.version ≡ version
    same_version same = (teq_iff x.version version).0 same

    only : teq x.version version ≡ true → knows version xs ≡ false
    only same = sym (ap (λ w. knows w xs) (same_version same)) ∙ h.1.0

has_node-At :
    (version i : Text) (ss : List Service) (s : Service) (k : ℕ)
    → At version ss s k
    → has_node version i ss ≡ has_id i s.nodes
has_node-At version i [] s k a = absurd a
has_node-At version i (x ∷ xs) s zero a =
    rw
      (
        has_node-absent version i xs a.1.1,
        ap (λ (y : Service). y.version) a.0 ∙ a.1.0,
        teq_refl version,
        a.0,
      )
      (ground arith)
has_node-At version i (x ∷ xs) s (suc k) a = rw (a.0) (has_node-At version i xs s k a.1)

set-At :
    (version : Text) (ss : List Service) (s t : Service) (k : ℕ)
    → t.version ≡ version
    → At version ss s k
    → At version (set ss k t) t k
set-At version [] s t k e a = absurd a
set-At version (x ∷ xs) s t zero e a = (refl, (e, a.1.1))
set-At version (x ∷ xs) s t (suc k) e a = (a.0, set-At version xs s t k e a.1)

has_node-set :
    (version v i : Text) (ss : List Service) (s t : Service) (k : ℕ)
    → teq version v ≡ false
    → t.version ≡ version
    → At version ss s k
    → has_node v i (set ss k t) ≡ has_node v i ss
has_node-set version v i [] s t k h e a = absurd a
has_node-set version v i (x ∷ xs) s t zero h e a =
    rw (e, ap (λ (y : Service). y.version) a.0 ∙ a.1.0, h) refl
has_node-set version v i (x ∷ xs) s t (suc k) h e a =
    ap (λ b. (teq x.version v && has_id i x.nodes) || b) (has_node-set version v i xs s t k h e a.1)

pub has_node-append :
    (v i : Text) (ss : List Service) (t : Service)
    → has_node v i (ss ++ (t ∷ [])) ≡ (has_node v i ss || (teq t.version v && has_id i t.nodes))
has_node-append v i [] t = ground arith
has_node-append v i (s ∷ ss) t = ground (arith, has_node-append v i ss t)

pub has_node-select :
    (version v i : Text) (ss : List Service)
    → has_node v i (select (λ (s : Service). not (teq s.version version)) ss)
      ≡ (if teq version v then false else has_node v i ss)
unfolding select
has_node-select version v i [] = ground arith
has_node-select version v i (s ∷ ss) = ground (
  arith,
  has_node-select version v i ss,
  teq_iff s.version version,
  teq_iff s.version v,
  teq_iff version v,
)

-- Other nodes at the place of the version.
pub has_node-put :
    (version v i : Text) (ss : List Service) (s t : Service) (k : ℕ)
    → t.version ≡ version
    → At version ss s k
    → has_node v i (set ss k t) ≡ (if teq version v then has_id i t.nodes else has_node v i ss)
has_node-put version v i ss s t k e a = elim (Bool-cases (teq version v)) [
  | inr differs ↦ rw differs (has_node-set version v i ss s t k differs e a)
  | inl same ↦ rw same (
      sym (ap (λ w. has_node w i (set ss k t)) ((teq_iff version v).0 same))
      ∙ has_node-At version i (set ss k t) t k (set-At version ss s t k e a))
]

pub place_version :
    (version : Text) (ss : List Service) (s : Service) (k : ℕ)
    → At version ss s k
    → s.version ≡ version
place_version version [] s k a = absurd a
place_version version (x ∷ xs) s zero a = a.1.0
place_version version (x ∷ xs) s (suc k) a = place_version version xs s k a.1

-- What the version at the place has.
pub has_node-of :
    (version v i : Text) (ss : List Service) (s : Service) (k : ℕ)
    → At version ss s k
    → teq version v ≡ true
    → has_node v i ss ≡ has_id i s.nodes
has_node-of version v i ss s k a same =
    sym (ap (λ w. has_node w i ss) ((teq_iff version v).0 same)) ∙ has_node-At version i ss s k a

pub knows-At :
    (version : Text) (ss : List Service) (s : Service) (k : ℕ)
    → At version ss s k
    → knows version ss ≡ true
knows-At version [] s k a = absurd a
knows-At version (x ∷ xs) s zero a =
    rw (ap (λ (y : Service). y.version) a.0 ∙ a.1.0, teq_refl version) refl
knows-At version (x ∷ xs) s (suc k) a = rw (a.0) (knows-At version xs s k a.1)

-- A list of one service has no other version.
pub has_node-single :
    (version v i : Text) (ss : List Service) (s : Service) (k : ℕ)
    → At version ss s k
    → (length ss == 1) ≡ true
    → teq version v ≡ false
    → has_node v i ss ≡ false
has_node-single version v i [] s k a h n = absurd a
has_node-single version v i (x ∷ []) s zero a h n =
    rw (ap (λ (y : Service). y.version) a.0 ∙ a.1.0, n) refl
has_node-single version v i (x ∷ []) s (suc k) a h n = absurd (a.1)
has_node-single version v i (x ∷ y ∷ xs) s k a h n = absurd (ground (arith, h))

pub del_nodes-has_id :
    (i : Text) (old dels : List Node)
    → has_id i (del_nodes old dels) ≡ (has_id i old && not (has_id i dels))
unfolding del_nodes select
del_nodes-has_id i [] dels = ground arith
del_nodes-has_id i (o ∷ os) dels = elim (Bool-cases (teq o.id i)) [
  | inl same ↦ ground (
    arith,
    del_nodes-has_id i os dels,
    same_id-has_id o dels,
    ap (λ w. has_id w dels) ((teq_iff o.id i).0 same),
  )
  | inr differs ↦ ground (arith, del_nodes-has_id i os dels, differs)
]

knows-append :
    (u : Text) (ss : List Service) (t : Service)
    → knows u (ss ++ (t ∷ [])) ≡ (knows u ss || teq t.version u)
knows-append u [] t = ground arith
knows-append u (s ∷ ss) t = ground (arith, knows-append u ss t)

pub append-IsKnown :
    (name : Text) (ss : List Service) (t : Service)
    → t.name ≡ name
    → knows t.version ss ≡ false
    → IsKnown name ss
    → IsKnown name (ss ++ (t ∷ []))
append-IsKnown name [] t e n h = (e, (refl, tt))
append-IsKnown name (s ∷ ss) t e n h = (
  h.0,
  (
    knows-append s.version ss t
        ∙ ground (arith, h.1.0, teq_iff s.version t.version, teq_iff t.version s.version),
    append-IsKnown name ss t e (ground (arith, n)) h.1.1,
  ),
)

knows-set :
    (version u : Text) (ss : List Service) (s t : Service) (k : ℕ)
    → t.version ≡ version
    → At version ss s k
    → knows u (set ss k t) ≡ knows u ss
knows-set version u [] s t k e a = absurd a
knows-set version u (x ∷ xs) s t zero e a =
    ap (λ w. teq w u || knows u xs) (e ∙ sym (ap (λ (y : Service). y.version) a.0 ∙ a.1.0))
knows-set version u (x ∷ xs) s t (suc k) e a =
    ap (λ b. teq x.version u || b) (knows-set version u xs s t k e a.1)

pub set-IsKnown :
    (name version : Text) (ss : List Service) (s t : Service) (k : ℕ)
    → t.name ≡ name
    → t.version ≡ version
    → At version ss s k
    → IsKnown name ss
    → IsKnown name (set ss k t)
set-IsKnown name version [] s t k n e a h = absurd a
set-IsKnown name version (x ∷ xs) s t zero n e a h = (n, (ap (λ w. knows w xs) e ∙ a.1.1, h.1.1))
set-IsKnown name version (x ∷ xs) s t (suc k) n e a h = (
  h.0,
  (
    knows-set version x.version xs s t k e a.1 ∙ h.1.0,
    set-IsKnown name version xs s t k n e a.1 h.1.1,
  ),
)

knows-select :
    (p : Service → Bool) (u : Text) (ss : List Service)
    → knows u ss ≡ false
    → knows u (select p ss) ≡ false
unfolding select
knows-select p u [] h = refl
knows-select p u (s ∷ ss) h = ground (arith, knows-select p u ss)

pub select-IsKnown :
    (name : Text) (p : Service → Bool) (ss : List Service)
    → IsKnown name ss
    → IsKnown name (select p ss)
unfolding select
select-IsKnown name p [] h = tt
select-IsKnown name p (s ∷ ss) h = elim (Bool-cases (p s)) [
  | inl take ↦ rw take (h.0, (knows-select p s.version ss h.1.0, select-IsKnown name p ss h.1.1))
  | inr drop ↦ rw drop (select-IsKnown name p ss h.1.1)
]
