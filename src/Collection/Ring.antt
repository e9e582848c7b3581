-- ===== src/Collection/Ring.antt =====
-- common/util/collection/ring/buffer.go: a bounded log with streams. A stream's channel `Entries` is
-- its queue of at most 128 entries; `stopping` says that a receive on `Stop` is ready. Where both
-- cases of the `select` are ready the runtime takes either: `pick` stands for its choices.
pub mod Recent
use realmicro.Common.{
  ℕ, zero, suc, ◌+◌, ◌-◌, Text, List, [], ◌∷◌, ◌++◌, Bool, true, false, Option, none, some, ◌||◌,
  ◌&&◌, not, ltb, ◌==◌, length, drop, Map, insert, if◌then◌else◌, ℤ, pos, negsuc,
}

module _ {ℓ} (A : Type ℓ) where
  pub record Entry : Type ℓ where
    pub value : A
    pub timestamp : ℕ

  pub record Stream : Type ℓ where
    pub id : Text
    pub entries : List Entry
    pub stopping : Bool

  pub record Buffer : Type ℓ where
    pub size : ℕ
    pub vals : List Entry
    pub streams : Map Stream

  unfoldable pub new : ℕ → Buffer
  new size = record { size = size; vals = []; streams = [] }

abbrev pub channel_size : ℕ
channel_size = 128

module _ {ℓ} {A : Type ℓ} where
  -- `append`, and the cut at the front.
  unfoldable pub push_val : ℕ → List (Entry A) → Entry A → List (Entry A)
  push_val size vals entry =
      let grown = vals ++ (entry ∷ []) in if ltb size (length grown) then drop 1 grown else grown

  -- The `select` on one stream: `none` when neither case is ready, and then `Put` waits with its
  -- lock; a stream that stops is deleted.
  unfoldable pub offer : Bool → Entry A → Stream A → Option (Option (Stream A))
  offer pick entry s =
      let room = ltb (length s.entries) channel_size in
      if s.stopping && (pick || not room)
      then some none
      else if room
      then some (some (record s { entries = s.entries ++ (entry ∷ []) }))
      else none

  -- What is left of the map after one stream's turn.
  abbrev pub keep :
      Text → Option (Option (Stream A)) → Option (Map (Stream A)) → Option (Map (Stream A))
  keep k none rest = none
  keep k (some s) none = none
  keep k (some none) (some m) = some m
  keep k (some (some s)) (some m) = some ((k, s) ∷ m)

  unfoldable pub offer_all : (Text → Bool) → Entry A → Map (Stream A) → Option (Map (Stream A))
  unfolding offer
  offer_all pick entry [] = some []
  offer_all pick entry ((k, s) ∷ m) = keep k (offer (pick k) entry s) (offer_all pick entry m)

  abbrev pub with_streams : Buffer A → List (Entry A) → Option (Map (Stream A)) → Option (Buffer A)
  with_streams b vals none = none
  with_streams b vals (some m) = some (record b { vals = vals; streams = m })

  -- `Put` at a clock reading; `none` when it waits for ever.
  unfoldable pub put : (Text → Bool) → A → ℕ → Buffer A → Option (Buffer A)
  unfolding push_val offer_all
  put pick v now b =
      let entry : Entry A = record { value = v; timestamp = now } in
      with_streams b (push_val b.size b.vals entry) (offer_all pick entry b.streams)

  unfoldable pub get : ℤ → Buffer A → List (Entry A)
  get (negsuc n) b = b.vals
  get (pos n) b = if ltb (length b.vals) n then b.vals else drop (length b.vals - n) b.vals

  -- The loop of `Since`.
  unfoldable pub after : ℕ → List (Entry A) → List (Entry A)
  after t [] = []
  after t (v ∷ vs) = let rest = after t vs in if ltb t v.timestamp then v ∷ vs else rest

  -- `Since`; the zero time is 0.
  unfoldable pub since : ℕ → ℕ → Buffer A → List (Entry A)
  unfolding after
  since t now b = if t == 0 then b.vals else if ltb now t then [] else after t b.vals

  -- `Stream` with a fresh id.
  unfoldable pub stream : Text → Buffer A → Buffer A
  unfolding insert
  stream id b = record b {
    streams = insert id (record { id = id; entries = []; stopping = false }) b.streams;
  }
