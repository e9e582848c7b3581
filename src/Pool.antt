-- ===== src/Pool.antt =====
-- common/util/pool/default.go: transport connections kept for reuse. A list of connections has the
-- last one first. The transport is not modelled: whether closing a connection fails, or does not end
-- in time, is an argument, and so is what `Dial` returns.
pub mod Bounds
pub mod Lease
pub mod Owners
use realmicro.Common.{
  ℕ, zero, suc, ◌+◌, ◌-◌, Text, List, [], ◌∷◌, ◌++◌, Bool, true, false, Option, none, some, ltb,
  leb, length, Map, lookup, insert, if◌then◌else◌,
}

pub record PoolConn : Type 0 where
  pub id : ℕ
  pub remote : Text
  pub created : ℕ

pub record Pool : Type 0 where
  pub size : ℕ
  pub ttl : ℕ
  pub conns : Map (List PoolConn)

-- p.conns[addr], nil where there is none
abbrev pub conns_of : Option (List PoolConn) → List PoolConn
conns_of none = []
conns_of (some cs) = cs

unfoldable pub conns_at : Text → Pool → List PoolConn
unfolding lookup
conns_at addr p = conns_of (lookup addr p.conns)

-- How the loop of `Get` ends: with a pooled connection, at a connection that could not be closed, or
-- with no connection left.
pub data Pick : Type 0 where
  pooled : PoolConn → Pick
  close_failed exhausted : Pick

-- What the loop leaves, and the connections that it closed, in order.
pub record Picked : Type 0 where
  pub pick : Pick
  pub left : List PoolConn
  pub closed : List PoolConn

abbrev pub is_stale : ℕ → ℕ → PoolConn → Bool
is_stale ttl now c = ltb ttl (now - c.created)

module _ (close_fails : PoolConn → Bool) (ttl now : ℕ) where
  unfoldable pub get_loop : List PoolConn → Picked
  get_loop [] = record { pick = exhausted; left = []; closed = [] }
  get_loop (c ∷ cs) =
      let rest = get_loop cs in
      if is_stale ttl now c
      then if close_fails c
        then record { pick = close_failed; left = cs; closed = c ∷ [] }
        else record rest { closed = c ∷ rest.closed }
      else record { pick = pooled c; left = cs; closed = [] }

-- The two results of `Get`: both are given when a connection was dialled after a failed close.
pub data Reply : Type 0 where
  conn : PoolConn → Reply
  conn_and_err : PoolConn → Reply
  failed : Reply

-- `newConn`, on what `Dial` returned
abbrev pub get_reply : Pick → Option PoolConn → Reply
get_reply (pooled c) dialled = conn c
get_reply exhausted none = failed
get_reply exhausted (some c) = conn c
get_reply close_failed none = failed
get_reply close_failed (some c) = conn_and_err c

-- `p.conns[addr] = conns` is run for each connection taken: not at all for an empty list.
abbrev pub store_conns : Text → List PoolConn → List PoolConn → Pool → Pool
store_conns addr [] left p = p
store_conns addr (c ∷ cs) left p = record p { conns = insert addr left p.conns }

unfoldable pub get : (PoolConn → Bool) → Text → ℕ → Option PoolConn → Pool → Reply × Pool
unfolding get_loop conns_at insert
get close_fails addr now dialled p =
    let picked = get_loop close_fails p.ttl now (conns_at addr p) in
    (get_reply picked.pick dialled, store_conns addr (conns_at addr p) picked.left p)

-- `Release`: whether the connection is kept. One with an error is closed, and so is one too many.
unfoldable pub release : PoolConn → Bool → Pool → Bool × Pool
unfolding conns_at insert
release c has_err p =
    if has_err
    then (false, p)
    else if leb p.size (length (conns_at c.remote p))
    then (false, p)
    else (true, record p { conns = insert c.remote (c ∷ conns_at c.remote p) p.conns })

-- `Close`: every connection is closed, and the pool is empty.
unfoldable pub close_all : Map (List PoolConn) → List PoolConn
close_all [] = []
close_all ((k, cs) ∷ m) = cs ++ close_all m

unfoldable pub close : Pool → List PoolConn × Pool
unfolding close_all
close p = (close_all p.conns, record p { conns = [] })
