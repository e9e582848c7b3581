-- ===== src/SingleFlight.antt =====
-- common/util/sync/singleflight.go: concurrent calls with one key share a result. A call object is its place
-- in the list of all of them, and the goroutine that made it is its stage. Each method that takes
-- the lock is one step; `V` is the pair of a value and an error.
pub mod Agreeing
pub mod Exclusive
pub mod Shared
use realmicro.Common.{
  ℕ, Text, List, [], ◌∷◌, ◌++◌, Bool, true, false, Option, none, some, Map, lookup, insert, delete,
  length, get_elem?, set,
}

-- What a goroutine that made a call is at: it runs `fn`; `fn` has returned, or has panicked and left
-- no result; the call is off the map and its waiters go on.
pub data Stage (V : Type 0) : Type 0 where
  running : Stage V
  finished : Option V → Stage V
  released : Option V → Stage V

pub record Call (V : Type 0) : Type 0 where
  pub key : Text
  pub stage : Stage V

pub record FlightGroup (V : Type 0) : Type 0 where
  pub calls : Map ℕ
  pub objects : List (Call V)

module _ {V : Type 0} where
  abbrev pub new_single_flight : FlightGroup V
  new_single_flight = record { calls = []; objects = [] }

  abbrev pub created : Text → FlightGroup V → Option ℕ → FlightGroup V × ℕ × Bool
  created key g (some c) = (g, c, true)
  created key g none = (
    record {
      calls = insert key (length g.objects) g.calls;
      objects = g.objects ++ (record { key = key; stage = running } ∷ []);
    },
    length g.objects,
    false,
  )

  -- `createCall`: the call, and whether another goroutine made it; in that case the caller waits.
  unfoldable pub create_call : Text → FlightGroup V → FlightGroup V × ℕ × Bool
  unfolding lookup insert
  create_call key g = created key g (lookup key g.calls)

  abbrev pub finish_stage : ℕ → Option V → FlightGroup V → Text → Stage V → Option (FlightGroup V)
  finish_stage c result g key running =
      some (record g { objects = set g.objects c (record { key = key; stage = finished result }) })
  finish_stage c result g key (finished r) = none
  finish_stage c result g key (released r) = none

  abbrev pub finish_object : ℕ → Option V → FlightGroup V → Option (Call V) → Option (FlightGroup V)
  finish_object c result g none = none
  finish_object c result g (some o) = finish_stage c result g o.key o.stage

  -- `c.val, c.err = fn()` with its result, or `none` for a panic. A step that cannot happen is `none`.
  unfoldable pub finish : ℕ → Option V → FlightGroup V → Option (FlightGroup V)
  finish c result g = finish_object c result g (get_elem? g.objects c)

  abbrev pub release_stage : ℕ → FlightGroup V → Text → Stage V → Option (FlightGroup V)
  release_stage c g key running = none
  release_stage c g key (finished r) = some (record {
    calls = delete key g.calls;
    objects = set g.objects c (record { key = key; stage = released r });
  })
  release_stage c g key (released r) = none

  abbrev pub release_object : ℕ → FlightGroup V → Option (Call V) → Option (FlightGroup V)
  release_object c g none = none
  release_object c g (some o) = release_stage c g o.key o.stage

  -- The deferred function of `makeCall`: the call is deleted, and its waiters go on.
  unfoldable pub release : ℕ → FlightGroup V → Option (FlightGroup V)
  unfolding delete
  release c g = release_object c g (get_elem? g.objects c)

  abbrev pub stage_result : Stage V → Option (Option V)
  stage_result running = none
  stage_result (finished r) = none
  stage_result (released r) = some r

  abbrev pub object_result : Option (Call V) → Option (Option V)
  object_result none = none
  object_result (some o) = stage_result o.stage

  -- What a goroutine that waits for a call gets from it, once it may go on: the result, or the zero
  -- values, the inner `none`, after a panic.
  unfoldable pub result : ℕ → FlightGroup V → Option (Option V)
  result c g = object_result (get_elem? g.objects c)

-- A step of a goroutine: it calls `createCall`, its `fn` ends, or it releases its call.
pub data Event (V : Type 0) : Type 0 where
  create : Text → Event V
  end : ℕ → Option V → Event V
  let_go : ℕ → Event V

module _ {V : Type 0} where
  unfoldable pub step : FlightGroup V → Event V → Option (FlightGroup V)
  unfolding create_call finish release
  step g (create key) = some (create_call key g).0
  step g (end c r) = finish c r g
  step g (let_go c) = release c g

  unfoldable pub run : List (Event V) → FlightGroup V → Option (FlightGroup V)
  unfolding step
  run [] g = some g
  run (e ∷ es) g = elim (step g e) [ none ↦ none | some g' ↦ run es g' ]
