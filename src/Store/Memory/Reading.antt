-- ===== src/Store/Memory/Reading.antt =====
-- What store/memory.go reads is what was written last.
use realmicro.Common.{
  ℕ, zero, suc, ◌≡◌, ◌≢◌, refl, sym, ap, ap₂, ◌∙◌, Text, List, [], ◌∷◌, ◌++◌, Bool, true, false,
  Option, none, some, ℤ, pos, negsuc, teq, teq_iff, codes, ◌==◌, All, has_prefix, arith, Bool-cases,
  inl, inr, if◌then◌else◌,
}
use realmicro.Store.{
  Record, Error, not_found, Options, read_from, WriteOption, set_write, DeleteOption, set_read,
  set_delete, each,
}
use realmicro.Store.GoCache.{GoCache, is_live}
use realmicro.Store.FilePath.{join_path}
use realmicro.Store.FilePath.Plain.{IsPlain, place, join_path-place, place_injective}
use realmicro.Store.Memory.{
  StoreRecord, MemoryStore, new_store, or_default, store_prefix, trim_prefix, map_or_empty, get,
  found, add_result, expires_at, time_until, get_each, read_record, stored_record, read, write,
  delete, set, with_options, delete_key, default_options, no_write_options,
}
use realmicro.Store.Memory.Written.{
  Call, written, deleted, IsPlainPlace, IsPlainCall, same_place, latest, time_left, reply, given,
  lifetime, named, written_to, deleted_from, last_said, place_said, expiry_said, ttl_said,
  place_said_delete, each-last_said, set_write-place, set_write-expiry, set_write-ttl,
  set_delete-place, with_options-expiry,
}

abbrev HasPlainKey : {D : Type 0} → Option (ℕ × Record D) → Type 0
HasPlainKey none = Unit
HasPlainKey (some (now, r)) = IsPlain r.key

latest-HasPlainKey :
    {D : Type 0} (db t k : Text) (acc : Option (ℕ × Record D)) (cs : List (Call D))
    → All IsPlainCall cs
    → HasPlainKey acc
    → HasPlainKey (latest db t k acc cs)
unfolding latest
latest-HasPlainKey db t k acc [] plain h = h
latest-HasPlainKey db t k acc (written now r opts ∷ cs) plain h =
    elim (Bool-cases (same_place (written_to opts) r.key db t k)) [
      | inl e ↦ rw e (
          latest-HasPlainKey db t k (some (now, given now r opts)) cs plain.1
            (unfold given in plain.0.0.1.1.0))
      | inr e ↦ rw e (latest-HasPlainKey db t k acc cs plain.1 h)
    ]
latest-HasPlainKey db t k acc (deleted k' opts ∷ cs) plain h =
    elim (Bool-cases (same_place (deleted_from opts) k' db t k)) [
      | inl e ↦ rw e (latest-HasPlainKey db t k none cs plain.1 tt)
      | inr e ↦ rw e (latest-HasPlainKey db t k acc cs plain.1 h)
    ]

has_prefix-slash :
    (s p : Text) → All (λ c. (c == b'/') ≡ false) s → has_prefix s (p ++ codes "/") ≡ false
unfolding has_prefix
has_prefix-slash [] [] h = refl
has_prefix-slash [] (c ∷ p) h = refl
has_prefix-slash (c ∷ s) [] h = rw h.0 refl
has_prefix-slash (c ∷ s) (d ∷ p) h = elim (Bool-cases (c == d)) [
  | inl e ↦ rw e (has_prefix-slash s p h.1)
  | inr e ↦ rw e refl
]

trim_prefix-plain : (s p : Text) → IsPlain s → trim_prefix s (p ++ codes "/") ≡ s
unfolding trim_prefix
trim_prefix-plain s p h = rw (has_prefix-slash s p h.3) refl

-- Two plain places have one path if their names are the same.
teq-place :
    (a b c a' b' c' : Text)
    → All IsPlain (a ∷ (b ∷ (c ∷ [])))
    → All IsPlain (a' ∷ (b' ∷ (c' ∷ [])))
    → teq (place a b c) (place a' b' c') ≡ same_place (a, b) c a' b' c'
teq-place a b c a' b' c' h h' = elim (Bool-cases (teq (place a b c) (place a' b' c'))) [
  | inl e ↦
      let (ea, eb, ec) =
        place_injective a b c a' b' c' h h' ((teq_iff (place a b c) (place a' b' c')).0 e) in
      e ∙ ground (arith, teq_iff a a', teq_iff b b', teq_iff c c')
  | inr e ↦ elim (Bool-cases (same_place (a, b) c a' b' c')) [
    | inl s ↦
        let ea : a ≡ a' = ground (arith, teq_iff a a') in
        let eb : b ≡ b' = ground (arith, teq_iff b b') in
        let ec : c ≡ c' = ground (arith, teq_iff c c') in
        absurd (
          ground (
            arith,
            e,
            (teq_iff (place a b c) (place a' b' c')).1
                (ap (λ x. place x b c) ea ∙ ap (λ x. place a' x c) eb ∙ ap (place a' b') ec),
          ))
    | inr s ↦ e ∙ sym s
  ]
]

store_prefix-eq :
    (o : Options) (db t : Text) → db ≢ [] → t ≢ [] → store_prefix o db t ≡ join_path db t
unfolding store_prefix or_default
store_prefix-eq o [] t h k = absurd (h refl)
store_prefix-eq o (c ∷ db) [] h k = absurd (k refl)
store_prefix-eq o (c ∷ db) (d ∷ t) h k = refl

module _ {D : Type 0} (G : GoCache (StoreRecord D)) where
  abbrev answer : ℕ → Text → Option (StoreRecord D) → Option (List (Record D) × Option Error)
  answer later prefix none = some ([], some not_found)
  answer later prefix (some s) = some (read_record G later prefix s ∷ [], none)

  get_each-one :
      (later : ℕ) (prefix k : Text) (m : MemoryStore D G)
      → some (get_each G later prefix (k ∷ []) m)
        ≡ answer later prefix (G.get later (join_path prefix k) m.store)
  unfolding get_each get
  get_each-one later prefix k m = go (G.get later (join_path prefix k) m.store)
    where
      go :
          (o : Option (StoreRecord D))
          → some (add_result G (found G later prefix o) ([], none)) ≡ answer later prefix o
      go none = refl
      go (some s) = refl

  -- `Read` of one key asks the cache at its place.
  read-place :
      (later : ℕ) (db t k : Text) (m : MemoryStore D G)
      → All IsPlain (db ∷ (t ∷ (k ∷ [])))
      → read G later k (read_from db t ∷ []) m
        ≡ answer later (join_path db t) (G.get later (place db t k) m.store)
  unfolding read each set_read
  read-place later db t k m h =
      ap (λ p. some (get_each G later p (k ∷ []) m)) (store_prefix-eq m.options db t h.0.0 h.1.0.0)
      ∙ get_each-one later (join_path db t) k m
      ∙ ap (λ p. answer later (join_path db t) (G.get later p m.store))
          (join_path-place db t k h.0 h.1.0 h.1.1.0)

  -- The prefix that the options of `Write` and of `Delete` give.
  write-prefix :
      (opts : List WriteOption)
      → store_prefix default_options
          (each set_write no_write_options opts).database
          (each set_write no_write_options opts).table
        ≡ join_path (written_to opts).0 (written_to opts).1
  unfolding store_prefix written_to
  write-prefix opts =
      ap (λ p. join_path (named p).0 (named p).1)
        (each-last_said set_write (λ w. (w.database, w.table)) place_said set_write-place
          no_write_options opts)

  delete-prefix :
      (opts : List DeleteOption)
      → store_prefix default_options
          (each set_delete (record { database = []; table = [] }) opts).database
          (each set_delete (record { database = []; table = [] }) opts).table
        ≡ join_path (deleted_from opts).0 (deleted_from opts).1
  unfolding store_prefix deleted_from
  delete-prefix opts =
      ap (λ p. join_path (named p).0 (named p).1)
        (each-last_said set_delete (λ w. (w.database, w.table)) place_said_delete set_delete-place
          (record { database = []; table = [] }) opts)

  -- The duration that `with_options` gives.
  options-expiry :
      (now : ℕ) (r : Record D) (opts : List WriteOption)
      → (with_options G now (each set_write no_write_options opts) r).expiry
        ≡ (given now r opts).expiry
  unfolding given
  options-expiry now r opts =
      with_options-expiry G now r (each set_write no_write_options opts)
      ∙ ap₂ (lifetime now r.expiry)
          (each-last_said set_write (λ w. w.expiry) expiry_said set_write-expiry no_write_options
            opts)
          (each-last_said set_write (λ w. w.ttl) ttl_said set_write-ttl no_write_options opts)

  -- What is put into the cache for a record with a duration.
  abbrev put_at : ℕ → Text → Record D → ℤ → MemoryStore D G → G.State
  put_at now p r e m = G.put now p (stored_record G now (record r { expiry = e })) e m.store

  -- The store after `Write`, and after `Delete`.
  write-store :
      (now : ℕ) (r : Record D) (opts : List WriteOption) (m : MemoryStore D G)
      → m.options ≡ default_options
      → IsPlainPlace (written_to opts) r.key
      → (write G now r opts m).store
        ≡ put_at now
            (place (written_to opts).0 (written_to opts).1 r.key)
            r
            (given now r opts).expiry
            m
  write-store now r opts m default plain =
      options_or_none opts
      ∙ ap (λ p. put_at now (join_path p r.key) r (given now r opts).expiry m)
          (ap
              (λ o.
                store_prefix o (each set_write no_write_options opts).database
                  (each set_write no_write_options opts).table)
              default
            ∙ write-prefix opts)
      ∙ ap (λ p. put_at now p r (given now r opts).expiry m)
          (join_path-place (written_to opts).0 (written_to opts).1 r.key plain.0 plain.1.0
            plain.1.1.0)
    where
      options_or_none :
          (opts : List WriteOption)
          → (write G now r opts m).store
            ≡ put_at now
                (join_path
                  (store_prefix m.options
                    (each set_write no_write_options opts).database
                    (each set_write no_write_options opts).table)
                  r.key)
                r
                (given now r opts).expiry
                m
      options_or_none [] = unfold write set stored_record given last_said in refl
      options_or_none (x ∷ xs) =
          unfold write set stored_record with_options in
          ap
            (λ e.
              put_at now
                (join_path
                  (store_prefix m.options (each set_write no_write_options (x ∷ xs)).database
                    (each set_write no_write_options (x ∷ xs)).table)
                  r.key)
                r e m)
            (options-expiry now r (x ∷ xs))

  write-options :
      (now : ℕ) (r : Record D) (opts : List WriteOption) (m : MemoryStore D G)
      → (write G now r opts m).options ≡ m.options
  unfolding write set
  write-options now r [] m = refl
  write-options now r (x ∷ xs) m = refl

  delete-store :
      (k : Text) (opts : List DeleteOption) (m : MemoryStore D G)
      → m.options ≡ default_options
      → IsPlainPlace (deleted_from opts) k
      → (delete G k opts m).store
        ≡ G.remove (place (deleted_from opts).0 (deleted_from opts).1 k) m.store
  unfolding delete delete_key
  delete-store k opts m default plain =
      ap
        (λ o.
          G.remove
            (join_path
              (store_prefix o (each set_delete (record { database = []; table = [] }) opts).database
                (each set_delete (record { database = []; table = [] }) opts).table)
              k)
            m.store)
        default
      ∙ ap (λ p. G.remove (join_path p k) m.store) (delete-prefix opts)
      ∙ ap (λ p. G.remove p m.store)
          (join_path-place (deleted_from opts).0 (deleted_from opts).1 k plain.0 plain.1.0
            plain.1.1.0)

  -- What the cache gives for a place that a record was written to.
  abbrev held : ℕ → Option (ℕ × Record D) → Option (StoreRecord D)
  held later none = none
  held later (some (now, r)) =
      if is_live r.expiry now later then some (stored_record G now r) else none

  unfoldable pub run : List (Call D) → MemoryStore D G → MemoryStore D G
  unfolding write delete
  run [] m = m
  run (written now r opts ∷ cs) m = run cs (write G now r opts m)
  run (deleted k opts ∷ cs) m = run cs (delete G k opts m)

  run-latest :
      (cs : List (Call D)) (db t k : Text) (acc : Option (ℕ × Record D)) (m : MemoryStore D G)
      → m.options ≡ default_options
      → All IsPlainCall cs
      → IsPlainPlace (db, t) k
      → ((later : ℕ) → G.get later (place db t k) m.store ≡ held later acc)
      → (later : ℕ)
      → G.get later (place db t k) (run cs m).store ≡ held later (latest db t k acc cs)
  unfolding run latest
  run-latest [] db t k acc m default plain h before later = before later
  run-latest (written now r opts ∷ cs) db t k acc m default plain h before later =
      run-latest cs db t k _ (write G now r opts m) (write-options now r opts m ∙ default) plain.1 h
        (λ at.
          ap (G.get at (place db t k)) (write-store now r opts m default plain.0.0)
          ∙ G.get-put now at (place (written_to opts).0 (written_to opts).1 r.key) (place db t k)
              (stored_record G now (record r { expiry = (given now r opts).expiry }))
              (given now r opts).expiry m.store plain.0.1
          ∙ rw (teq-place (written_to opts).0 (written_to opts).1 r.key db t k plain.0.0 h)
              (go at (same_place (written_to opts) r.key db t k)))
        later
    where
      go :
          (at : ℕ) (b : Bool)
          → (if b
              then (if is_live (given now r opts).expiry now at
                  then some (stored_record G now (record r { expiry = (given now r opts).expiry }))
                  else none)
              else G.get at (place db t k) m.store)
            ≡ held at (if b then some (now, given now r opts) else acc)
      go at true = unfold given in refl
      go at false = before at
  run-latest (deleted k' opts ∷ cs) db t k acc m default plain h before later =
      run-latest cs db t k _ (delete G k' opts m) (unfold delete delete_key in default) plain.1 h
        (λ at.
          ap (G.get at (place db t k)) (delete-store k' opts m default plain.0)
          ∙ G.get-remove at (place (deleted_from opts).0 (deleted_from opts).1 k') (place db t k)
              m.store
          ∙ rw (teq-place (deleted_from opts).0 (deleted_from opts).1 k' db t k plain.0 h)
              (go at (same_place (deleted_from opts) k' db t k)))
        later
    where
      go :
          (at : ℕ) (b : Bool)
          → (if b then none else G.get at (place db t k) m.store)
            ≡ held at (if b then none else acc)
      go at true = refl
      go at false = before at

  read_record-eq :
      (now later : ℕ) (prefix : Text) (r : Record D)
      → IsPlain r.key
      → read_record G later prefix (stored_record G now r) ≡ record {
        metadata = some (map_or_empty r.metadata);
        key = r.key;
        value = r.value;
        expiry = time_left r.expiry now later;
      }
  unfolding read_record stored_record time_until expires_at
  read_record-eq now later prefix r h =
      ap₂
        (λ k x. record {
          metadata = some (map_or_empty r.metadata);
          key = k;
          value = r.value;
          expiry = x;
        })
        (trim_prefix-plain r.key prefix h) (go r.expiry)
    where
      go : (e : ℤ) → time_until later (expires_at now e) ≡ time_left e now later
      go (pos zero) = refl
      go (pos (suc d)) = refl
      go (negsuc d) = refl

  answer-held :
      (later : ℕ) (db t : Text) (acc : Option (ℕ × Record D))
      → HasPlainKey acc
      → IsPlain db
      → IsPlain t
      → answer later (join_path db t) (held later acc) ≡ reply later acc
  answer-held later db t none h hdb ht = refl
  answer-held later db t (some (now, r)) h hdb ht = elim (Bool-cases (is_live r.expiry now later)) [
    | inr gone ↦ rw gone refl
    | inl live ↦
        rw live (ap (λ x. some (x ∷ [], none)) (read_record-eq now later (join_path db t) r h))
  ]

  -- After any calls of `Write` and `Delete` with any options, in order, on plain names in a new store,
  -- `Read` of a plain name gives the record that was written to it last. The last option of a kind
  -- counts, and the store's own names where none are given. A record whose duration is positive
  -- (that of the options, or its own) is read until the duration is over, with the time that is
  -- left; any other one stays. ErrNotFound comes where it was deleted since, its time is over or it
  -- was never written; what is done to other names, tables and databases makes no difference. No
  -- positive duration ends later than an int of 64 bits can tell in nanoseconds.
  pub read-latest :
      (cs : List (Call D)) (later : ℕ) (db t k : Text)
      → All IsPlainCall cs
      → IsPlainPlace (db, t) k
      → read G later k (read_from db t ∷ []) (run cs (new_store G []))
        ≡ reply later (latest db t k none cs)
  read-latest cs later db t k plain h =
      read-place later db t k (run cs (new_store G [])) h
      ∙ ap (answer later (join_path db t)) (
          run-latest cs db t k none (new_store G []) (unfold new_store each in refl) plain h
            (λ at. unfold new_store in G.get-empty at (place db t k)) later)
      ∙ answer-held later db t (latest db t k none cs) (latest-HasPlainKey db t k none cs plain tt)
          h.0 h.1.0
