-- ===== src/Collection/RollingWindow/Window.antt =====
-- The rolling window (rollingwindow.go) against its specification: time is cut into slots of one
-- interval, and a window of `n` buckets shows the last `n` slots, the current one last.
use native.Mathlib.Nat.{mod-lt, mod-add-mod, div-add-mod', mul-add-div_right, add-mod_right}
use native.Mathlib.Decide.{ℕ_discrete}
use realmicro.Common.{
  ℕ, ◌+◌, ◌-◌, ◌*◌, ◌/◌, ◌%◌, ◌<◌, ◌≤◌, ◌≡◌, ◌≢◌, refl, sym, ap, ◌∙◌, inl, inr, arith, ltb, ◌==◌,
  Bool-cases, if◌then◌else◌, subst, ==_iff,
}
use realmicro.Collection.RollingWindow.{
  Bucket, RollingWindow, new_bucket, bucket_add, window_add, reset_expired, span, update_offset,
  add,
}
use realmicro.Collection.RollingWindow.Slots.{
  bucket, IsRing, window_add-IsRing, reset_expired-IsRing, bucket-window_add_self,
  bucket-window_add_ne, bucket-reset_expired_in, bucket-reset_expired_out, bucket_congr, mod-ne,
}

-- The slot of a time, for a window made at `start`; the first slot of all is `n`.
abbrev pub slot : ℕ → ℕ → ℕ → ℕ → ℕ
slot n interval start t = n + (t - start) / interval

-- `rw` was made at `start`, its last slot is `e + n`, and its buckets hold what `T` says of the slots
-- `e + 1` to `e + n`.
pub record Shows (start e : ℕ) (T : ℕ → Bucket) (rw : RollingWindow) : Type 0 where
  pub ring : IsRing rw.size rw.win
  pub interval_pos : 0 < rw.interval
  pub offset_lt : rw.offset < rw.size
  pub time : rw.last_time ≡ start + e * rw.interval
  pub shown : (i : ℕ) → i < rw.size → bucket rw.win (rw.offset + i + 1) ≡ T (e + i + 1)
  pub future : (s : ℕ) → e + rw.size < s → T s ≡ new_bucket

module _ (start e : ℕ) (T : ℕ → Bucket) (w : RollingWindow) (h : Shows start e T w) where
  -- How many slots the clock is ahead of the window.
  abbrev pub ahead : ℕ → ℕ
  ahead t = (t - w.last_time) / w.interval

  pub slot-eq : (t : ℕ) → w.last_time ≤ t → slot w.size w.interval start t ≡ e + w.size + ahead t
  slot-eq t l =
      ap (λ k. w.size + k)
        (ap (λ k. k / w.interval) cut
          ∙ mul-add-div_right {m = w.interval} h.interval_pos e (t - w.last_time))
      ∙ regroup
    where
      cut : t - start ≡ e * w.interval + (t - w.last_time)
      cut = omega (arith, h.time)

      regroup : w.size + (e + ahead t) ≡ e + w.size + ahead t
      regroup = omega arith

  span-eq :
      (t : ℕ) → w.last_time ≤ t → span w t ≡ (if ltb (ahead t) w.size then ahead t else w.size)
  unfolding span
  span-eq t l = elim (Bool-cases (ltb t w.last_time)) [
    | inl behind ↦ absurd (ground arith)
    | inr later ↦ rw later
  ]

  -- The facts about `span` that the proofs use.
  pub span_facts :
      (t : ℕ)
      → w.last_time ≤ t
      → (span w t ≤ w.size) × (span w t ≤ ahead t) × (span w t < w.size → span w t ≡ ahead t)
  span_facts t l = rw (span-eq t l) (ground arith)

  module _ (t now : ℕ) (le : w.last_time ≤ t) (later : t ≤ now) (same : ahead now ≡ ahead t) where
    -- The start of the slot of `now` is the new `lastTime`.
    aligned : now - (now - w.last_time) % w.interval ≡ start + (e + ahead t) * w.interval
    aligned =
        omega (
          arith,
          div-add-mod' (now - w.last_time) w.interval,
          h.time,
          ap (λ k. k * w.interval) same,
        )

    -- What the ring holds after the expired buckets are reset and the offset has moved.
    moved :
        (k i : ℕ)
        → k ≤ w.size
        → k ≤ ahead t
        → (k < w.size → k ≡ ahead t)
        → i < w.size
        → bucket (reset_expired w.win w.size w.offset k) ((w.offset + k) % w.size + i + 1)
          ≡ T (e + ahead t + i + 1)
    moved k i k_le k_ahead k_eq i_lt = elim (Bool-cases (ltb (k + i) w.size)) [
      | inl kept ↦
          shift
          ∙ ap at_k (omega arith)
          ∙ bucket-reset_expired_out w.size w.offset w.win h.ring k (k + i) h.offset_lt
              (omega arith) (ground arith)
          ∙ h.shown (k + i) (ground arith)
          ∙ ap T (ground (arith, k_eq))
      | inr expired ↦
          shift
          ∙ bucket_congr w.size (reset_expired w.win w.size w.offset k)
              (reset_expired-IsRing w.size w.offset w.win h.ring k) (w.offset + k + (i + 1))
              (w.offset + (k + i - w.size) + 1)
              (ap (λ j. j % w.size) (ground arith)
                ∙ add-mod_right (w.offset + (k + i - w.size) + 1) w.size)
          ∙ bucket-reset_expired_in w.size w.offset w.win h.ring k (k + i - w.size) h.offset_lt k_le
              (ground arith)
          ∙ sym (h.future (e + ahead t + i + 1) (ground (arith, k_eq)))
    ]
      where
        at_k : ℕ → Bucket
        at_k = bucket (reset_expired w.win w.size w.offset k)

        shift : at_k ((w.offset + k) % w.size + i + 1) ≡ at_k (w.offset + k + (i + 1))
        shift =
            bucket_congr w.size (reset_expired w.win w.size w.offset k)
              (reset_expired-IsRing w.size w.offset w.win h.ring k)
              ((w.offset + k) % w.size + i + 1) (w.offset + k + (i + 1))
              (ap (λ j. j % w.size) (omega arith) ∙ mod-add-mod (w.offset + k) w.size (i + 1))

  -- `updateOffset` moves the window to the slot of the clock, if both readings fall in one slot.
  pub update_offset-Shows :
      (t now : ℕ)
      → w.last_time ≤ t
      → t ≤ now
      → ahead now ≡ ahead t
      → Shows start (e + ahead t) T (update_offset w t now)
  unfolding update_offset
  update_offset-Shows t now le later same = elim (Bool-cases (span w t == 0)) [
    | inl still ↦ rw still (subst (λ k. Shows start k T w) (ground (arith, span_facts t le)) h)
    | inr past ↦ rw past (record {
      ring = reset_expired-IsRing w.size w.offset w.win h.ring (span w t);
      interval_pos = h.interval_pos;
      offset_lt = mod-lt (w.offset + span w t) {m = w.size} (omega (arith, h.offset_lt));
      time = aligned t now le later same;
      shown = λ i.
          moved t now le later same (span w t) i (span_facts t le).0 (span_facts t le).1
            (span_facts t le).2;
      future = λ s l. h.future s (omega arith);
    })
  ]

-- One more value in a slot.
abbrev pub record_at : ℕ → ℕ → (ℕ → Bucket) → ℕ → Bucket
record_at s v T j = if j == s then bucket_add v (T j) else T j

record_at_self : (s v : ℕ) (T : ℕ → Bucket) (j : ℕ) → j ≡ s → record_at s v T j ≡ bucket_add v (T j)
record_at_self s v T j e = rw ((==_iff j s).1 e)

record_at_ne : (s v : ℕ) (T : ℕ → Bucket) (j : ℕ) → j ≢ s → record_at s v T j ≡ T j
record_at_ne s v T j ne = elim (Bool-cases (j == s)) [
  | inl same ↦ absurd (ne ((==_iff j s).0 same))
  | inr other ↦ rw other
]

-- `w.win.add(w.offset, v)` counts in the last slot.
window_add-Shows :
    (start e : ℕ) (T : ℕ → Bucket) (w : RollingWindow) (v : ℕ)
    → Shows start e T w
    → Shows start e (record_at (e + w.size) v T) (record w { win = window_add w.win w.offset v })
window_add-Shows start e T w v h = record {
  ring = window_add-IsRing w.size w.win h.ring w.offset v;
  interval_pos = h.interval_pos;
  offset_lt = h.offset_lt;
  time = h.time;
  shown = λ i i_lt. elim (ℕ_discrete (i + 1) w.size) [
    | yes last ↦
        bucket_congr w.size (window_add w.win w.offset v)
          (window_add-IsRing w.size w.win h.ring w.offset v) (w.offset + i + 1) w.offset
          (ap (λ j. j % w.size) (omega arith) ∙ add-mod_right w.offset w.size)
        ∙ bucket-window_add_self w.size w.win h.ring w.offset v
        ∙ ap (bucket_add v) (
            bucket_congr w.size w.win h.ring w.offset (w.offset + i + 1)
              (sym (ap (λ j. j % w.size) (omega arith) ∙ add-mod_right w.offset w.size))
            ∙ h.shown i i_lt)
        ∙ sym (record_at_self (e + w.size) v T (e + i + 1) (omega arith))
    | no other ↦
        bucket-window_add_ne w.size w.win h.ring w.offset (w.offset + i + 1) v (
          rw h.ring.0 (
            mod-ne w.size w.offset (w.offset + i + 1) (omega arith) (omega arith)
              (omega (arith, h.offset_lt))))
        ∙ h.shown i i_lt
        ∙ sym (record_at_ne (e + w.size) v T (e + i + 1) (omega arith))
  ];
  future = λ s l. record_at_ne (e + w.size) v T s (omega arith) ∙ h.future s l;
}

-- What `updateOffset` leaves alone, and that the window is never ahead of the clock.
pub record Frame (w w' : RollingWindow) (now : ℕ) : Type 0 where
  pub size_eq : w'.size ≡ w.size
  pub interval_eq : w'.interval ≡ w.interval
  pub ignore_eq : w'.ignore_current ≡ w.ignore_current
  pub not_ahead : w'.last_time ≤ now

update_offset-Frame :
    (w : RollingWindow) (t now : ℕ) → w.last_time ≤ now → Frame w (update_offset w t now) now
unfolding update_offset
update_offset-Frame w t now le = elim (Bool-cases (span w t == 0)) [
  | inl still ↦
      rw still (record { size_eq = refl; interval_eq = refl; ignore_eq = refl; not_ahead = le })
  | inr past ↦
      rw past
        (record { size_eq = refl; interval_eq = refl; ignore_eq = refl; not_ahead = omega arith })
]

pub add-Frame : (w : RollingWindow) (t now v : ℕ) → w.last_time ≤ now → Frame w (add w t now v) now
unfolding add
add-Frame w t now v le = record {
  size_eq = f.size_eq;
  interval_eq = f.interval_eq;
  ignore_eq = f.ignore_eq;
  not_ahead = f.not_ahead;
}
  where
    f : Frame w (update_offset w t now) now
    f = update_offset-Frame w t now le

pub add-Shows :
    (start e : ℕ) (T : ℕ → Bucket) (w : RollingWindow) (t now v : ℕ)
    → Shows start e T w
    → w.last_time ≤ t
    → t ≤ now
    → (now - w.last_time) / w.interval ≡ (t - w.last_time) / w.interval
    → Shows start
        (e + (t - w.last_time) / w.interval)
        (record_at (slot w.size w.interval start t) v T)
        (add w t now v)
unfolding add
add-Shows start e T w t now v h le later same =
    subst (λ s. Shows start (e + (t - w.last_time) / w.interval) (record_at s v T) (add w t now v))
      (omega (arith, (update_offset-Frame w t now (omega arith)).size_eq)
        ∙ sym (slot-eq start e T w h t le))
      (window_add-Shows start (e + (t - w.last_time) / w.interval) T (update_offset w t now) v
        (update_offset-Shows start e T w h t now le later same))
