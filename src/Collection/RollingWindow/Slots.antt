-- ===== src/Collection/RollingWindow/Slots.antt =====
-- The ring of buckets (rollingwindow.go): which bucket an addition or a reset touches.
use native.Mathlib.Nat.{mod-lt, mod-eq_of_lt, mod-eq-sub-mod, mod-mod}
use native.Mathlib.Decide.{ℕ_discrete}
use realmicro.Common.{
  ℕ, zero, suc, ◌+◌, ◌-◌, ◌%◌, ◌<◌, ◌≤◌, ◌≡◌, ◌≢◌, refl, sym, ap, ◌∙◌, ◌⊎◌, inl, inr, length,
  get_or, length-modify, get_or-modify_self, get_or-modify_ne, arith, ltb, Bool-cases, ltb→lt,
}
use realmicro.Collection.RollingWindow.{
  Bucket, Buckets, new_bucket, bucket_add, bucket_reset, window_add, reset_bucket, reset_expired,
}

-- A remainder below twice the modulus.
pub mod_below_double : (x n : ℕ) → x < n + n → ((x < n) × (x % n ≡ x)) ⊎ ((n ≤ x) × (x % n ≡ x - n))
mod_below_double x n h = elim (Bool-cases (ltb x n)) [
  | inl below ↦ inl (ltb→lt x n below, mod-eq_of_lt (ltb→lt x n below))
  | inr above ↦ inr (
    ground arith,
    mod-eq-sub-mod {n = x} {m = n} (ground arith) ∙ mod-eq_of_lt {n = x - n} {m = n} (ground arith),
  )
]

-- Two places less than a turn apart are different.
pub mod-ne : (n x y : ℕ) → x < y → y < x + n → y < n + n → x % n ≢ y % n
mod-ne n x y h k l = elim (mod_below_double x n (omega arith)) [
  | inl a ↦ elim (mod_below_double y n l) [ inl b ↦ omega arith | inr b ↦ omega arith ]
  | inr a ↦ elim (mod_below_double y n l) [ inl b ↦ omega arith | inr b ↦ omega arith ]
]

abbrev pub bucket : Buckets → ℕ → Bucket
bucket w i = get_or w.buckets (i % w.size) new_bucket

abbrev pub IsRing : ℕ → Buckets → Type 0
IsRing n w = (w.size ≡ n) × (length w.buckets ≡ n) × (0 < n)

module _ (n : ℕ) (w : Buckets) (r : IsRing n w) where
  pub window_add-IsRing : (i v : ℕ) → IsRing n (window_add w i v)
  unfolding window_add
  window_add-IsRing i v = (r.0, length-modify w.buckets (i % w.size) (bucket_add v) ∙ r.1, r.2)

  pub reset_bucket-IsRing : (i : ℕ) → IsRing n (reset_bucket w i)
  unfolding reset_bucket
  reset_bucket-IsRing i = (r.0, length-modify w.buckets (i % w.size) bucket_reset ∙ r.1, r.2)

  in_ring : (i : ℕ) → i % w.size < length w.buckets
  in_ring i = omega (arith, r.0, r.1, r.2, mod-lt i {m = w.size} (omega (arith, r.0, r.2)))

  pub bucket-window_add_self : (i v : ℕ) → bucket (window_add w i v) i ≡ bucket_add v (bucket w i)
  unfolding window_add
  bucket-window_add_self i v =
      get_or-modify_self w.buckets (i % w.size) (bucket_add v) new_bucket (in_ring i)

  pub bucket-window_add_ne :
      (i j v : ℕ) → i % w.size ≢ j % w.size → bucket (window_add w i v) j ≡ bucket w j
  unfolding window_add
  bucket-window_add_ne i j v h =
      get_or-modify_ne w.buckets (i % w.size) (j % w.size) (bucket_add v) new_bucket h

  pub bucket-reset_bucket_self : (i : ℕ) → bucket (reset_bucket w i) i ≡ new_bucket
  unfolding reset_bucket
  bucket-reset_bucket_self i =
      get_or-modify_self w.buckets (i % w.size) bucket_reset new_bucket (in_ring i)

  pub bucket-reset_bucket_ne :
      (i j : ℕ) → i % w.size ≢ j % w.size → bucket (reset_bucket w i) j ≡ bucket w j
  unfolding reset_bucket
  bucket-reset_bucket_ne i j h =
      get_or-modify_ne w.buckets (i % w.size) (j % w.size) bucket_reset new_bucket h

  -- An index is read modulo the size.
  pub bucket-mod : (i : ℕ) → bucket w (i % n) ≡ bucket w i
  bucket-mod i =
      ap (λ j. get_or w.buckets j new_bucket)
        (ap (λ m. i % n % m) r.0 ∙ mod-mod i n ∙ ap (λ m. i % m) (sym r.0))

  pub bucket_congr : (i j : ℕ) → i % n ≡ j % n → bucket w i ≡ bucket w j
  bucket_congr i j e = sym (bucket-mod i) ∙ ap (bucket w) e ∙ bucket-mod j

module _ (n offset : ℕ) (w : Buckets) (r : IsRing n w) where
  pub reset_expired-IsRing : (k : ℕ) → IsRing n (reset_expired w n offset k)
  unfolding reset_expired
  reset_expired-IsRing zero = r
  reset_expired-IsRing (suc k) =
      reset_bucket-IsRing n (reset_expired w n offset k) (reset_expired-IsRing k)
        ((offset + k + 1) % n)

  distinct :
      (j k i : ℕ)
      → (offset + k + 1) % n ≢ (offset + i + 1) % n
      → (offset + k + 1) % n % (reset_expired w n offset j).size
        ≢ (offset + i + 1) % (reset_expired w n offset j).size
  distinct j k i h = rw ((reset_expired-IsRing j).0, mod-mod (offset + k + 1) n) h

  -- The buckets from `offset + 1` on, `k` of them, are empty.
  pub bucket-reset_expired_in :
      (k i : ℕ)
      → offset < n
      → k ≤ n
      → i < k
      → bucket (reset_expired w n offset k) (offset + i + 1) ≡ new_bucket
  unfolding reset_expired
  bucket-reset_expired_in zero i o h l = absurd (omega arith)
  bucket-reset_expired_in (suc k) i o h l = elim (ℕ_discrete i k) [
    | yes e ↦ rw e (
        sym (
          bucket-mod n (reset_expired w n offset (suc k)) (reset_expired-IsRing (suc k))
            (offset + k + 1))
        ∙ bucket-reset_bucket_self n (reset_expired w n offset k) (reset_expired-IsRing k)
            ((offset + k + 1) % n))
    | no ne ↦
        bucket-reset_bucket_ne n (reset_expired w n offset k) (reset_expired-IsRing k)
          ((offset + k + 1) % n) (offset + i + 1)
          (distinct k k i (λ e.
            mod-ne n (offset + i + 1) (offset + k + 1) (omega arith) (omega arith) (omega arith)
              (sym e)))
        ∙ bucket-reset_expired_in k i o (omega arith) (omega arith)
  ]

  pub bucket-reset_expired_out :
      (k i : ℕ)
      → offset < n
      → k ≤ i
      → i < n
      → bucket (reset_expired w n offset k) (offset + i + 1) ≡ bucket w (offset + i + 1)
  unfolding reset_expired
  bucket-reset_expired_out zero i o h l = refl
  bucket-reset_expired_out (suc k) i o h l =
      bucket-reset_bucket_ne n (reset_expired w n offset k) (reset_expired-IsRing k)
        ((offset + k + 1) % n) (offset + i + 1)
        (distinct k k i (λ e.
          mod-ne n (offset + k + 1) (offset + i + 1) (omega arith) (omega arith) (omega arith) e))
      ∙ bucket-reset_expired_out k i o (omega arith) l
