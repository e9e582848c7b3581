-- ===== src/Pool/Owners.antt =====
-- No connection of the pool (common/util/pool/default.go) has two owners: a connection that a caller
-- holds is not in the pool, and no other caller holds it.
use realmicro.Common.{
  ℕ, ◌+◌, ◌≤◌, ◌≡◌, refl, ap, Text, List, [], ◌∷◌, ◌++◌, Bool, true, false, Option, none, some, leb,
  ◌==◌, length, Map, lookup, insert, teq, if◌then◌else◌, arith, Bool-cases, ==_iff, inl, inr, subst,
}
use realmicro.Pool.{
  PoolConn, Pool, conns_of, conns_at, Pick, pooled, close_failed, exhausted, Picked, get_loop,
  Reply, conn, conn_and_err, failed, get_reply, store_conns, get, release,
}
use realmicro.Pool.Lease.{picked_conn, Taken, get_loop-Taken}

-- How often an id stands in a list, and in the pool.
abbrev pub count : ℕ → List PoolConn → ℕ
count id [] = 0
count id (c ∷ cs) = (if c.id == id then 1 else 0) + count id cs

abbrev pub count_map : ℕ → Map (List PoolConn) → ℕ
count_map id [] = 0
count_map id ((k, cs) ∷ m) = count id cs + count_map id m

count-append : (id : ℕ) (xs ys : List PoolConn) → count id (xs ++ ys) ≡ count id xs + count id ys
count-append id [] ys = omega arith
count-append id (x ∷ xs) ys = omega (arith, count-append id xs ys)

-- Writing a list under a key replaces the one that `lookup` finds there.
count_map-insert :
    (id : ℕ) (k : Text) (cs : List PoolConn) (m : Map (List PoolConn))
    → count_map id (insert k cs m) + count id (conns_of (lookup k m)) ≡ count_map id m + count id cs
unfolding insert lookup
count_map-insert id k cs [] = omega arith
count_map-insert id k cs ((j, ds) ∷ m) = elim (Bool-cases (teq j k)) [
  | inl same ↦ rw same (omega arith)
  | inr other ↦ rw other (omega (arith, count_map-insert id k cs m))
]

-- A pool and the connections that callers hold.
pub record World : Type 0 where
  pub pool : Pool
  pub lent : List PoolConn

abbrev pub owners : ℕ → World → ℕ
owners id w = count_map id w.pool.conns + count id w.lent

abbrev pub lend : Reply → List PoolConn → List PoolConn
lend (conn c) lent = c ∷ lent
lend (conn_and_err c) lent = c ∷ lent
lend failed lent = lent

-- A connection that `Dial` returns has an id that is new.
abbrev pub IsNew : Option PoolConn → World → Type 0
IsNew none w = Unit
IsNew (some c) w = owners c.id w ≡ 0

-- A caller gets a connection, or releases one that it holds.
pub data Step (w : World) : World → Type 0 where
  gets :
      (fails : PoolConn → Bool) (addr : Text) (now : ℕ) (dialled : Option PoolConn)
      → IsNew dialled w
      → Step w (record {
        pool = (get fails addr now dialled w.pool).1;
        lent = lend (get fails addr now dialled w.pool).0 w.lent;
      })
  releases :
      (before after : List PoolConn) (c : PoolConn) (has_err : Bool)
      → w.lent ≡ before ++ (c ∷ after)
      → Step w (record { pool = (release c has_err w.pool).1; lent = before ++ after })

pub data Reach (w : World) : World → Type 0 where
  here : Reach w w
  next : {u v : World} → Reach w u → Step u v → Reach w v

abbrev pub AtMostOne : World → Type 0
AtMostOne w = (id : ℕ) → owners id w ≤ 1

-- The list of an address is in the pool.
count_conns_at-le :
    (id : ℕ) (k : Text) (m : Map (List PoolConn))
    → count id (conns_of (lookup k m)) ≤ count_map id m
unfolding lookup
count_conns_at-le id k [] = omega arith
count_conns_at-le id k ((j, ds) ∷ m) = elim (Bool-cases (teq j k)) [
  | inl same ↦ rw same (omega arith)
  | inr other ↦ rw other (omega (arith, count_conns_at-le id k m))
]

-- What is left and what is returned were in the list.
get_loop-count :
    (fails : PoolConn → Bool) (ttl now : ℕ) (cs : List PoolConn) (id : ℕ)
    → count id (picked_conn (get_loop fails ttl now cs).pick)
        + count id (get_loop fails ttl now cs).left
      ≤ count id cs
get_loop-count fails ttl now cs id =
    let t : Taken fails ttl now cs (get_loop fails ttl now cs) = get_loop-Taken fails ttl now cs in
    let p : Picked = get_loop fails ttl now cs in
    omega (
      arith,
      ap (count id) t.split,
      count-append id p.closed (picked_conn p.pick ++ p.left),
      count-append id (picked_conn p.pick) p.left,
    )

store_conns-count :
    (fails : PoolConn → Bool) (addr : Text) (now : ℕ) (p : Pool) (id : ℕ)
    → count_map id
          (store_conns addr
            (conns_at addr p)
            (get_loop fails p.ttl now (conns_at addr p)).left
            p).conns
        + count id (picked_conn (get_loop fails p.ttl now (conns_at addr p)).pick)
      ≤ count_map id p.conns
store_conns-count fails addr now p id =
    go (conns_at addr p) refl (get_loop-count fails p.ttl now (conns_at addr p) id)
  where
    go :
        (cs : List PoolConn)
        → conns_at addr p ≡ cs
        → count id (picked_conn (get_loop fails p.ttl now cs).pick)
            + count id (get_loop fails p.ttl now cs).left
          ≤ count id cs
        → count_map id (store_conns addr cs (get_loop fails p.ttl now cs).left p).conns
            + count id (picked_conn (get_loop fails p.ttl now cs).pick)
          ≤ count_map id p.conns
    go [] e l = omega (arith, l)
    go (c ∷ cs) e l =
        let found : conns_of (lookup addr p.conns) ≡ c ∷ cs = unfold conns_at in e in
        omega (
          arith,
          l,
          ap (count id) found,
          count_map-insert id addr (get_loop fails p.ttl now (c ∷ cs)).left p.conns,
        )

lend_new-count :
    (c : PoolConn) (w : World) (id : ℕ)
    → owners c.id w ≡ 0
    → AtMostOne w
    → (rest : ℕ) → rest + 0 ≤ count_map id w.pool.conns
    → rest + count id (c ∷ w.lent) ≤ 1
lend_new-count c w id new h rest l = elim (Bool-cases (c.id == id)) [
  | inl same ↦
      let e : owners id w ≡ 0 = subst (λ k. owners k w ≡ 0) ((==_iff c.id id).0 same) new in
      rw same (omega (arith, e))
  | inr other ↦ rw other (omega (arith, h id))
]

-- What a caller holds after `Get` is what the loop returned, or the new connection.
lend-count :
    (pick : Pick) (dialled : Option PoolConn) (w : World) (id : ℕ)
    → IsNew dialled w
    → AtMostOne w
    → (rest : ℕ) → rest + count id (picked_conn pick) ≤ count_map id w.pool.conns
    → rest + count id (lend (get_reply pick dialled) w.lent) ≤ 1
lend-count (pooled c) dialled w id new h rest l = omega (arith, h id)
lend-count close_failed none w id new h rest l = omega (arith, h id)
lend-count exhausted none w id new h rest l = omega (arith, h id)
lend-count close_failed (some c) w id new h rest l = lend_new-count c w id new h rest l
lend-count exhausted (some c) w id new h rest l = lend_new-count c w id new h rest l

-- A released connection is kept or closed.
release-count :
    (c : PoolConn) (has_err : Bool) (p : Pool) (id : ℕ)
    → count_map id (release c has_err p).1.conns ≤ count_map id p.conns + count id (c ∷ [])
unfolding release
release-count c true p id = omega arith
release-count c false p id = elim (Bool-cases (leb p.size (length (conns_at c.remote p)))) [
  | inl full ↦ rw full (omega arith)
  | inr room ↦
      rw room
        (omega (arith, count_map-insert id c.remote (c ∷ conns_at c.remote p) p.conns, at_remote))
]
  where
    at_remote : count id (conns_at c.remote p) ≡ count id (conns_of (lookup c.remote p.conns))
    at_remote = unfold conns_at in refl

Step-AtMostOne : {w v : World} → Step w v → AtMostOne w → AtMostOne v
Step-AtMostOne {w} (gets fails addr now dialled new) h id =
    unfold get in
    lend-count (get_loop fails w.pool.ttl now (conns_at addr w.pool)).pick dialled w id new h
      (count_map id
        (store_conns addr (conns_at addr w.pool)
          (get_loop fails w.pool.ttl now (conns_at addr w.pool)).left w.pool).conns)
      (store_conns-count fails addr now w.pool id)
Step-AtMostOne {w} (releases before after c has_err e) h id = omega (
  arith,
  release-count c has_err w.pool id,
  h id,
  ap (count id) e,
  count-append id before (c ∷ after),
  count-append id before after,
)

-- From a new pool on, whatever callers get and release, with new ids for new connections, no
-- connection has two owners: the pool and a caller, two callers, or the pool twice.
pub Reach-AtMostOne :
    {size ttl : ℕ} {w : World}
    → Reach (record { pool = record { size = size; ttl = ttl; conns = [] }; lent = [] }) w
    → AtMostOne w
Reach-AtMostOne here = λ id. omega arith
Reach-AtMostOne (next r s) = Step-AtMostOne s (Reach-AtMostOne r)
