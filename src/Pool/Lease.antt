-- ===== src/Pool/Lease.antt =====
-- The connections of the pool (common/util/pool/default.go): what `Get` takes, closes and leaves, and
-- that a connection is never with two owners.
use realmicro.Common.{
  ℕ, ◌≡◌, refl, ap, List, [], ◌∷◌, ◌++◌, Bool, true, false, arith, Bool-cases, inl, inr, All,
}
use realmicro.Pool.{PoolConn, Pick, pooled, close_failed, exhausted, Picked, get_loop, is_stale}

abbrev pub picked_conn : Pick → List PoolConn
picked_conn (pooled c) = c ∷ []
picked_conn _ = []

abbrev pub IsFresh : ℕ → ℕ → Pick → Type 0
IsFresh ttl now (pooled c) = is_stale ttl now c ≡ false
IsFresh ttl now _ = Unit

-- The connections whose closing fails: one exactly where the loop ends at it.
abbrev pub IsFailed : (PoolConn → Bool) → Pick → List PoolConn → Type 0
IsFailed fails close_failed (c ∷ []) = fails c ≡ true
IsFailed fails close_failed _ = ⊥
IsFailed fails (pooled c) failing = failing ≡ []
IsFailed fails exhausted failing = failing ≡ []

-- What the loop of `Get` makes of a list of connections: those that it closes, of which the closing
-- of the last may fail, the one that it returns, and those that it leaves.
pub record Taken (fails : PoolConn → Bool) (ttl now : ℕ) (cs : List PoolConn) (p : Picked)
    : Type 0 where
  pub split : cs ≡ p.closed ++ (picked_conn p.pick ++ p.left)
  pub stale : All (λ c. is_stale ttl now c ≡ true) p.closed
  pub fresh : IsFresh ttl now p.pick
  pub empty : p.pick ≡ exhausted → p.left ≡ []
  pub gone : List PoolConn
  pub failing : List PoolConn
  pub closes : p.closed ≡ gone ++ failing
  pub succeeds : All (λ c. fails c ≡ false) gone
  pub fails_at : IsFailed fails p.pick failing

-- The loop of `Get` takes connections from the end of the list on: it closes those older than the
-- time to live until it finds one that is not, which it returns, until closing one fails, or until
-- none is left. It stops at a failure exactly if the last connection that it closes fails to close;
-- all the others that it closes do not fail. No connection is lost or made: those closed, the one
-- returned and those left are the list.
pub get_loop-Taken :
    (fails : PoolConn → Bool) (ttl now : ℕ) (cs : List PoolConn)
    → Taken fails ttl now cs (get_loop fails ttl now cs)
unfolding get_loop
get_loop-Taken fails ttl now [] = record {
  split = refl;
  stale = tt;
  fresh = tt;
  empty = λ _. refl;
  gone = [];
  failing = [];
  closes = refl;
  succeeds = tt;
  fails_at = refl;
}
get_loop-Taken fails ttl now (c ∷ cs) = elim (Bool-cases (is_stale ttl now c)) [
  | inr young ↦ rw young (record {
    split = refl;
    stale = tt;
    fresh = young;
    empty = λ e. absurd (ground arith);
    gone = [];
    failing = [];
    closes = refl;
    succeeds = tt;
    fails_at = refl;
  })
  | inl old ↦ rw old (elim (Bool-cases (fails c)) [
    | inl failing ↦ rw failing (record {
      split = refl;
      stale = (old, tt);
      fresh = tt;
      empty = λ e. absurd (ground arith);
      gone = [];
      failing = c ∷ [];
      closes = refl;
      succeeds = tt;
      fails_at = failing;
    })
    | inr closing ↦
        let rest : Taken fails ttl now cs (get_loop fails ttl now cs) =
          get_loop-Taken fails ttl now cs in
        rw closing (record {
          split = ap (◌∷◌ c) rest.split;
          stale = (old, rest.stale);
          fresh = rest.fresh;
          empty = rest.empty;
          gone = c ∷ rest.gone;
          failing = rest.failing;
          closes = ap (◌∷◌ c) rest.closes;
          succeeds = (closing, rest.succeeds);
          fails_at = rest.fails_at;
        })
  ])
]
