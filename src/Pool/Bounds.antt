-- ===== src/Pool/Bounds.antt =====
-- How many connections the pool (common/util/pool/default.go) keeps for an address.
use realmicro.Common.{
  ℕ, ◌≤◌, ◌≡◌, refl, ap, ◌∙◌, Text, List, [], ◌∷◌, Bool, true, false, Option, leb, length, lookup,
  insert, lookup-insert, teq, if◌then◌else◌, arith, Bool-cases, inl, inr,
}
use realmicro.Pool.{PoolConn, Pool, conns_of, conns_at, get_loop, store_conns, get, release, close}

abbrev pub IsBounded : Pool → Type 0
IsBounded p = (addr : Text) → length (conns_at addr p) ≤ p.size

pub conns_at-insert :
    (p : Pool) (k addr : Text) (cs : List PoolConn)
    → conns_at addr (record p { conns = insert k cs p.conns })
      ≡ (if teq k addr then cs else conns_at addr p)
unfolding conns_at
conns_at-insert p k addr cs =
    ap conns_of (lookup-insert k addr cs p.conns)
    ∙ elim (Bool-cases (teq k addr)) [ inl same ↦ rw same | inr other ↦ rw other ]

get_loop-length :
    (fails : PoolConn → Bool) (ttl now : ℕ) (cs : List PoolConn)
    → length (get_loop fails ttl now cs).left ≤ length cs
unfolding get_loop
get_loop-length fails ttl now [] = omega arith
get_loop-length fails ttl now (c ∷ cs) = ground (arith, get_loop-length fails ttl now cs)

insert-IsBounded :
    (p : Pool) (k : Text) (cs : List PoolConn)
    → IsBounded p
    → length cs ≤ p.size
    → IsBounded (record p { conns = insert k cs p.conns })
insert-IsBounded p k cs b h addr =
    rw (conns_at-insert p k addr cs)
      (elim (Bool-cases (teq k addr)) [ inl same ↦ rw same h | inr other ↦ rw other (b addr) ])

get-IsBounded :
    (fails : PoolConn → Bool) (addr : Text) (now : ℕ) (dialled : Option PoolConn) (p : Pool)
    → IsBounded p
    → IsBounded (get fails addr now dialled p).1
unfolding get
get-IsBounded fails addr now dialled p b =
    go (conns_at addr p) (b addr) (get_loop-length fails p.ttl now (conns_at addr p))
  where
    go :
        (cs : List PoolConn)
        → length cs ≤ p.size
        → length (get_loop fails p.ttl now cs).left ≤ length cs
        → IsBounded (store_conns addr cs (get_loop fails p.ttl now cs).left p)
    go [] h l = b
    go (c ∷ cs) h l =
        insert-IsBounded p addr (get_loop fails p.ttl now (c ∷ cs)).left b (omega arith)

release-IsBounded :
    (c : PoolConn) (has_err : Bool) (p : Pool) → IsBounded p → IsBounded (release c has_err p).1
unfolding release
release-IsBounded c true p b = b
release-IsBounded c false p b = elim (Bool-cases (leb p.size (length (conns_at c.remote p)))) [
  | inl full ↦ rw full b
  | inr room ↦ rw room (insert-IsBounded p c.remote (c ∷ conns_at c.remote p) b (ground arith))
]

-- What a client asks of a pool.
pub data Call : Type 0 where
  get_call : (PoolConn → Bool) → Text → ℕ → Option PoolConn → Call
  release_call : PoolConn → Bool → Call
  close_call : Call

pub apply : Call → Pool → Pool
apply (get_call fails addr now dialled) p = (get fails addr now dialled p).1
apply (release_call c has_err) p = (release c has_err p).1
apply close_call p = (close p).1

pub apply_all : List Call → Pool → Pool
apply_all [] p = p
apply_all (c ∷ cs) p = apply_all cs (apply c p)

apply-IsBounded : (c : Call) (p : Pool) → IsBounded p → IsBounded (apply c p)
unfolding apply
apply-IsBounded (get_call fails addr now dialled) p b = get-IsBounded fails addr now dialled p b
apply-IsBounded (release_call c has_err) p b = release-IsBounded c has_err p b
apply-IsBounded close_call p b = nothing
  where
    nothing : IsBounded (close p).1
    nothing addr = unfold close conns_at in (unfold lookup in omega arith)

size-get :
    (fails : PoolConn → Bool) (addr : Text) (now : ℕ) (dialled : Option PoolConn) (p : Pool)
    → (get fails addr now dialled p).1.size ≡ p.size
unfolding get
size-get fails addr now dialled p = go (conns_at addr p)
  where
    go :
        (cs : List PoolConn)
        → (store_conns addr cs (get_loop fails p.ttl now cs).left p).size ≡ p.size
    go [] = refl
    go (c ∷ cs) = refl

size-apply : (c : Call) (p : Pool) → (apply c p).size ≡ p.size
unfolding apply release close
size-apply (get_call fails addr now dialled) p = size-get fails addr now dialled p
size-apply (release_call c has_err) p = ground arith
size-apply close_call p = refl

apply_all-bound :
    (calls : List Call) (p : Pool)
    → IsBounded p
    → (addr : Text) → length (conns_at addr (apply_all calls p)) ≤ p.size
unfolding apply_all
apply_all-bound [] p b addr = b addr
apply_all-bound (c ∷ cs) p b addr =
    omega (arith, apply_all-bound cs (apply c p) (apply-IsBounded c p b) addr, size-apply c p)

-- Whatever a client calls, a pool that starts empty never keeps more than `size` connections for one
-- address.
pub apply_all-IsBounded :
    (calls : List Call) (size ttl : ℕ) (addr : Text)
    → length (conns_at addr (apply_all calls (record { size = size; ttl = ttl; conns = [] })))
      ≤ size
apply_all-IsBounded calls size ttl addr =
    apply_all-bound calls (record { size = size; ttl = ttl; conns = [] }) empty-IsBounded addr
  where
    empty-IsBounded : IsBounded (record { size = size; ttl = ttl; conns = [] })
    empty-IsBounded a = unfold conns_at in (unfold lookup in omega arith)
