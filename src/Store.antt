-- ===== src/Store.antt =====
-- store/store.go and store/options.go: the records of a store, and the options of its calls. An option is
-- written by what its function does; instants and durations count nanoseconds, and no instant is
-- the zero time.
pub mod GoCache
pub mod FilePath
pub mod Memory
use realmicro.Common.{ℕ, Text, List, [], ◌∷◌, Bool, true, false, Option, none, some, ℤ, pos, Map}

-- `D` is the type of what the metadata hold.
module _ (D : Type 0) where
  pub record Record : Type 0 where
    pub metadata : Option (Map D)
    pub key : Text
    pub value : Text
    pub expiry : ℤ

pub data Error : Type 0 where
  not_found : Error

pub record Options : Type 0 where
  pub database : Text
  pub table : Text

pub data Setting : Type 0 where
  database : Text → Setting
  table : Text → Setting

unfoldable pub set_option : Options → Setting → Options
set_option o (Setting.database db) = record o { database = db }
set_option o (Setting.table t) = record o { table = t }

pub record ReadOptions : Type 0 where
  pub database : Text
  pub table : Text
  pub with_prefix : Bool
  pub with_suffix : Bool
  pub limit : ℕ
  pub offset : ℕ

pub data ReadOption : Type 0 where
  read_from : Text → Text → ReadOption
  read_prefix read_suffix : ReadOption
  read_limit read_offset : ℕ → ReadOption

unfoldable pub set_read : ReadOptions → ReadOption → ReadOptions
set_read r (read_from db t) = record r { database = db; table = t }
set_read r read_prefix = record r { with_prefix = true }
set_read r read_suffix = record r { with_suffix = true }
set_read r (read_limit l) = record r { limit = l }
set_read r (read_offset o) = record r { offset = o }

pub record WriteOptions : Type 0 where
  pub database : Text
  pub table : Text
  pub expiry : Option ℤ
  pub ttl : ℤ

pub data WriteOption : Type 0 where
  write_to : Text → Text → WriteOption
  write_expiry : ℤ → WriteOption
  write_ttl : ℤ → WriteOption

unfoldable pub set_write : WriteOptions → WriteOption → WriteOptions
set_write w (write_to db t) = record w { database = db; table = t }
set_write w (write_expiry t) = record w { expiry = some t }
set_write w (write_ttl d) = record w { ttl = d }

pub record DeleteOptions : Type 0 where
  pub database : Text
  pub table : Text

pub data DeleteOption : Type 0 where
  delete_from : Text → Text → DeleteOption

unfoldable pub set_delete : DeleteOptions → DeleteOption → DeleteOptions
set_delete d (delete_from db t) = record { database = db; table = t }

pub record ListOptions : Type 0 where
  pub database : Text
  pub table : Text
  pub list_prefix : Text
  pub list_suffix : Text
  pub limit : ℕ
  pub offset : ℕ

pub data ListOption : Type 0 where
  list_from : Text → Text → ListOption
  prefixed suffixed : Text → ListOption
  list_limit list_offset : ℕ → ListOption

unfoldable pub set_list : ListOptions → ListOption → ListOptions
set_list l (list_from db t) = record l { database = db; table = t }
set_list l (prefixed p) = record l { list_prefix = p }
set_list l (suffixed s) = record l { list_suffix = s }
set_list l (list_limit n) = record l { limit = n }
set_list l (list_offset n) = record l { offset = n }

-- `for _, o := range opts { o(&options) }`
unfoldable pub each {ℓ κ} : {O : Type ℓ} {S : Type κ} → (O → S → O) → O → List S → O
each f o [] = o
each f o (s ∷ ss) = each f (f o s) ss
