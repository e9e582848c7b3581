-- ===== src/Store/Memory/Written.antt =====
-- What the calls that write and delete in store/memory.go mean, by the last of their options.
use realmicro.Common.{
  ℕ, zero, suc, ◌≡◌, refl, sym, ap, ◌∙◌, Text, List, [], ◌∷◌, Bool, ◌&&◌, Option, none, some, ℤ,
  pos, negsuc, ◌+ℤ◌, ◌-ℤ◌, teq, codes, All, if◌then◌else◌,
}
use realmicro.Store.{
  Record, Error, not_found, WriteOptions, WriteOption, write_to, write_expiry, write_ttl, set_write,
  DeleteOptions, DeleteOption, delete_from, set_delete, each,
}
use realmicro.Store.GoCache.{GoCache, is_live, IsTimely}
use realmicro.Store.FilePath.Plain.{IsPlain}
use realmicro.Store.Memory.{
  StoreRecord, or_default, map_or_empty, is_zero, duration_of, with_options,
}

-- The last of the options that says a thing, and what it says.
abbrev pub or_else {ℓ} : {A : Type ℓ} → Option A → Option A → Option A
or_else none o = o
or_else (some a) o = some a

abbrev pub from {ℓ} : {A : Type ℓ} → Option A → A → A
from none x = x
from (some a) x = a

unfoldable pub last_said {ℓ κ} : {O : Type ℓ} {A : Type κ} → (O → Option A) → List O → Option A
last_said f [] = none
last_said f (o ∷ os) = or_else (last_said f os) (f o)

abbrev pub place_said : WriteOption → Option (Text × Text)
place_said (write_to db t) = some (db, t)
place_said (write_expiry t) = none
place_said (write_ttl d) = none

abbrev pub expiry_said : WriteOption → Option (Option ℤ)
expiry_said (write_to db t) = none
expiry_said (write_expiry t) = some (some t)
expiry_said (write_ttl d) = none

abbrev pub ttl_said : WriteOption → Option ℤ
ttl_said (write_to db t) = none
ttl_said (write_expiry t) = none
ttl_said (write_ttl d) = some d

abbrev pub place_said_delete : DeleteOption → Option (Text × Text)
place_said_delete (delete_from db t) = some (db, t)

-- The duration that a record is stored for: the last TTL that is not 0, the time until the last instant
-- of expiry, or its own.
abbrev pub lifetime : ℕ → ℤ → Option ℤ → ℤ → ℤ
lifetime now own none (pos zero) = own
lifetime now own (some t) (pos zero) = duration_of (t -ℤ pos now)
lifetime now own exp (pos (suc d)) = pos (suc d)
lifetime now own exp (negsuc d) = negsuc d

-- The record as its `Write` means it.
unfoldable pub given : {D : Type 0} → ℕ → Record D → List WriteOption → Record D
unfolding last_said
given now r opts = record r {
  expiry =
      lifetime now r.expiry (from (last_said expiry_said opts) none)
        (from (last_said ttl_said opts) (pos 0));
}

-- A database or table that is not named is the store's own.
abbrev pub named : Text × Text → Text × Text
named (db, t) = (or_default db (codes "realmicro"), or_default t (codes "realmicro"))

unfoldable pub written_to : List WriteOption → Text × Text
unfolding last_said or_default
written_to opts = named (from (last_said place_said opts) ([], []))

unfoldable pub deleted_from : List DeleteOption → Text × Text
unfolding last_said or_default
deleted_from opts = named (from (last_said place_said_delete opts) ([], []))

-- `Write` at a clock reading, or `Delete` of a key, with any options.
pub data Call (D : Type 0) : Type 0 where
  written : ℕ → Record D → List WriteOption → Call D
  deleted : Text → List DeleteOption → Call D

abbrev pub IsPlainPlace : Text × Text → Text → Type 0
IsPlainPlace (db, t) k = All IsPlain (db ∷ (t ∷ (k ∷ [])))

abbrev pub IsPlainCall : {D : Type 0} → Call D → Type 0
IsPlainCall (written now r opts) =
    IsPlainPlace (written_to opts) r.key × IsTimely (given now r opts).expiry now
IsPlainCall (deleted k opts) = IsPlainPlace (deleted_from opts) k

abbrev pub same_place : Text × Text → Text → Text → Text → Text → Bool
same_place (a, b) c a' b' c' = teq a a' && (teq b b' && teq c c')

-- The record that a place holds after calls in order, with the clock reading of its `Write`.
unfoldable pub latest :
    {D : Type 0}
    → Text
    → Text
    → Text
    → Option (ℕ × Record D)
    → List (Call D)
    → Option (ℕ × Record D)
latest db t k acc [] = acc
latest db t k acc (written now r opts ∷ cs) =
    latest db t k
      (if same_place (written_to opts) r.key db t k then some (now, given now r opts) else acc) cs
latest db t k acc (deleted k' opts ∷ cs) =
    latest db t k (if same_place (deleted_from opts) k' db t k then none else acc) cs

-- What is left at a later clock reading of the expiry given at an earlier one.
abbrev pub time_left : ℤ → ℕ → ℕ → ℤ
time_left (pos zero) now later = pos 0
time_left (pos (suc d)) now later = duration_of ((pos now +ℤ pos (suc d)) -ℤ pos later)
time_left (negsuc d) now later = duration_of ((pos now +ℤ negsuc d) -ℤ pos later)

-- What `Read` says of the record that a place holds.
abbrev pub reply :
    {D : Type 0} → ℕ → Option (ℕ × Record D) → Option (List (Record D) × Option Error)
reply later none = some ([], some not_found)
reply later (some (now, r)) =
    if is_live r.expiry now later
    then some (
      record {
        metadata = some (map_or_empty r.metadata);
        key = r.key;
        value = r.value;
        expiry = time_left r.expiry now later;
      }
          ∷ [],
      none,
    )
    else some ([], some not_found)

from-or_else {ℓ} : {A : Type ℓ} (l m : Option A) (x : A) → from (or_else l m) x ≡ from l (from m x)
from-or_else none m x = refl
from-or_else (some a) m x = refl

-- A field after the options is what the last option that sets it says.
pub each-last_said :
    {O S A : Type 0} (set : O → S → O) (field : O → A) (said : S → Option A)
    → ((o : O) (s : S) → field (set o s) ≡ from (said s) (field o))
    → (o : O) (ss : List S) → field (each set o ss) ≡ from (last_said said ss) (field o)
unfolding each last_said
each-last_said set field said h o [] = refl
each-last_said set field said h o (s ∷ ss) =
    each-last_said set field said h (set o s) ss
    ∙ ap (from (last_said said ss)) (h o s)
    ∙ sym (from-or_else (last_said said ss) (said s) (field o))

pub set_write-place :
    (w : WriteOptions) (o : WriteOption)
    → ((set_write w o).database, (set_write w o).table) ≡ from (place_said o) (w.database, w.table)
unfolding set_write
set_write-place w (write_to db t) = refl
set_write-place w (write_expiry t) = refl
set_write-place w (write_ttl d) = refl

pub set_write-expiry :
    (w : WriteOptions) (o : WriteOption) → (set_write w o).expiry ≡ from (expiry_said o) w.expiry
unfolding set_write
set_write-expiry w (write_to db t) = refl
set_write-expiry w (write_expiry t) = refl
set_write-expiry w (write_ttl d) = refl

pub set_write-ttl :
    (w : WriteOptions) (o : WriteOption) → (set_write w o).ttl ≡ from (ttl_said o) w.ttl
unfolding set_write
set_write-ttl w (write_to db t) = refl
set_write-ttl w (write_expiry t) = refl
set_write-ttl w (write_ttl d) = refl

pub set_delete-place :
    (w : DeleteOptions) (o : DeleteOption)
    → ((set_delete w o).database, (set_delete w o).table)
      ≡ from (place_said_delete o) (w.database, w.table)
unfolding set_delete
set_delete-place w (delete_from db t) = refl

pub with_options-expiry :
    {D : Type 0} (G : GoCache (StoreRecord D)) (now : ℕ) (r : Record D) (w : WriteOptions)
    → (with_options G now w r).expiry ≡ lifetime now r.expiry w.expiry w.ttl
unfolding with_options
with_options-expiry G now r w = go w.expiry w.ttl
  where
    go :
        (e : Option ℤ) (ttl : ℤ)
        → (if is_zero ttl
            then elim e [ none ↦ r.expiry | some t ↦ duration_of (t -ℤ pos now) ]
            else ttl)
          ≡ lifetime now r.expiry e ttl
    go none (pos zero) = refl
    go (some t) (pos zero) = refl
    go none (pos (suc d)) = refl
    go (some t) (pos (suc d)) = refl
    go none (negsuc d) = refl
    go (some t) (negsuc d) = refl
