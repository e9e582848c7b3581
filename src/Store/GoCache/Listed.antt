-- ===== src/Store/GoCache/Listed.antt =====
-- The laws of the third-party cache can hold: they do for an association list with the instants at
-- which its items expire.
use realmicro.Common.{
  ℕ, zero, suc, ◌+◌, ◌≡◌, refl, ap, ◌∙◌, Text, List, [], ◌∷◌, Bool, true, false, Option, none, some,
  ℤ, pos, negsuc, leb, teq, if◌then◌else◌, Map, lookup, insert, delete, lookup-insert,
  lookup-delete, Bool-cases, inl, inr,
}
use realmicro.Store.GoCache.{GoCache, is_live}

-- An item's instant of expiry, if it has one.
abbrev pub expiry_at : ℕ → ℤ → Option ℕ
expiry_at now (negsuc d) = none
expiry_at now (pos zero) = none
expiry_at now (pos (suc d)) = some (now + suc d)

abbrev pub live_at : ℕ → Option ℕ → Bool
live_at now none = true
live_at now (some t) = leb now t

live_at-expiry_at : (now later : ℕ) (d : ℤ) → live_at later (expiry_at now d) ≡ is_live d now later
live_at-expiry_at now later (negsuc d) = refl
live_at-expiry_at now later (pos zero) = refl
live_at-expiry_at now later (pos (suc d)) = refl

module _ {V : Type 0} where
  abbrev pub read_item : ℕ → Option (V × Option ℕ) → Option V
  read_item now none = none
  read_item now (some (v, e)) = if live_at now e then some v else none

  unfoldable pub live_items : ℕ → Map (V × Option ℕ) → List (Text × V)
  live_items now [] = []
  live_items now ((k, item) ∷ m) =
      let rest = live_items now m in
      let others = delete k rest in if live_at now item.1 then (k, item.0) ∷ others else others

  pub lookup-live_items :
      (now : ℕ) (k : Text) (m : Map (V × Option ℕ))
      → lookup k (live_items now m) ≡ read_item now (lookup k m)
  unfolding lookup live_items
  lookup-live_items now k [] = refl
  lookup-live_items now k ((j, item) ∷ m) = elim (Bool-cases (live_at now item.1)) [
    | inl live ↦ elim (Bool-cases (teq j k)) [
      | inl e ↦ rw live (rw e (rw live refl))
      | inr e ↦
          rw live (rw e (lookup-delete j k (live_items now m) ∙ rw e (lookup-live_items now k m)))
    ]
    | inr gone ↦ elim (Bool-cases (teq j k)) [
      | inl e ↦ rw gone (rw e (lookup-delete j k (live_items now m) ∙ rw e (rw gone refl)))
      | inr e ↦
          rw gone (rw e (lookup-delete j k (live_items now m) ∙ rw e (lookup-live_items now k m)))
    ]
  ]

  pub read_item-insert :
      (now later : ℕ) (k j : Text) (v : V) (d : ℤ) (m : Map (V × Option ℕ))
      → read_item later (lookup j (insert k (v, expiry_at now d) m)) ≡ (
          if teq k j
          then (if is_live d now later then some v else none)
          else read_item later (lookup j m))
  read_item-insert now later k j v d m =
      ap (read_item later) (lookup-insert k j (v, expiry_at now d) m) ∙ go (teq k j)
    where
      go :
          (b : Bool)
          → read_item later (if b then some (v, expiry_at now d) else lookup j m) ≡ (
              if b
              then (if is_live d now later then some v else none)
              else read_item later (lookup j m))
      go true = ap (λ b. if b then some v else none) (live_at-expiry_at now later d)
      go false = refl

  pub read_item-delete :
      (now : ℕ) (k j : Text) (m : Map (V × Option ℕ))
      → read_item now (lookup j (delete k m))
        ≡ (if teq k j then none else read_item now (lookup j m))
  read_item-delete now k j m = ap (read_item now) (lookup-delete k j m) ∙ go (teq k j)
    where
      go :
          (b : Bool)
          → read_item now (if b then none else lookup j m)
            ≡ (if b then none else read_item now (lookup j m))
      go true = refl
      go false = refl

unfoldable pub listed : (V : Type 0) → GoCache V
unfolding lookup
listed V = record {
  State = Map (V × Option ℕ);
  empty = [];
  get = λ now k m. read_item now (lookup k m);
  put = λ now k v d m. insert k (v, expiry_at now d) m;
  remove = delete;
  items = live_items;
  get-empty = λ now k. refl;
  get-put = λ now later k j v d m timely. read_item-insert now later k j v d m;
  get-remove = read_item-delete;
  items-get = λ now k m. lookup-live_items now k m;
}
