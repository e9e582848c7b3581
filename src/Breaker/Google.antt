-- ===== src/Breaker/Google.antt =====
-- common/util/breaker/googlebreaker.go, with `TrueOnProba` of common/util/math/proba.go. The drop
-- ratio is kept as a fraction: k = 1.5 makes its numerator and denominator whole when both are
-- doubled. A draw of the random source is a fraction too, below 1. The rounding of the source's
-- float64 division is not modelled; the test `dropRatio <= 0` is exact in both.
pub mod Healthy
use realmicro.Common.{
  ℕ, zero, suc, ◌+◌, ◌-◌, ◌*◌, List, [], ◌∷◌, Bool, true, false, Option, none, some, ltb, leb,
  if◌then◌else◌,
}
use realmicro.Collection.RollingWindow.{Bucket, RollingWindow, add, reduce, new_rolling}

-- 10 seconds in 40 buckets.
abbrev pub window : ℕ
window = 10000000000

abbrev pub buckets : ℕ
buckets = 40

abbrev pub protection : ℕ
protection = 5

-- The state is the rolling window `stat`.
abbrev pub new_google_breaker : ℕ → RollingWindow
new_google_breaker now = new_rolling buckets 250000000 false now

-- The callback of `history`: accepts and total.
abbrev pub count_bucket : Bucket → ℕ × ℕ → ℕ × ℕ
count_bucket b (accepts, total) = (accepts + b.sum, total + b.count)

unfoldable pub history : RollingWindow → ℕ → ℕ × ℕ
unfolding reduce
history stat now = reduce stat now count_bucket (0, 0)

-- A number between 0 and 1.
pub record Fraction : Type 0 where
  pub num : ℕ
  pub den : ℕ

-- `dropRatio`: the maximum with 0 is the truncated subtraction.
abbrev pub drop_ratio : ℕ × ℕ → Fraction
drop_ratio (accepts, total) = record {
  num = 2 * total - (2 * protection + 3 * accepts);
  den = 2 * (total + 1);
}

-- `p.r.Float64() < proba`
abbrev pub true_on_proba : Fraction → Fraction → Bool
true_on_proba draw proba = ltb (draw.num * proba.den) (proba.num * draw.den)

-- `err`: nil, ErrServiceUnavailable, or an error of the request.
pub data Err : Type 0 where
  nil service_unavailable : Err
  failed : ℕ → Err

-- `accept` at a clock reading and a draw; false is ErrServiceUnavailable.
unfoldable pub accept : RollingWindow → ℕ → Fraction → Bool
unfolding history
accept stat now draw =
    let ratio = drop_ratio (history stat now) in
    if leb ratio.num 0 then true else if true_on_proba draw ratio then false else true

-- A request returns, or panics.
pub data Request : Type 0 where
  returns : Err → Request
  panics : Request

-- What `doReq` does in the end: it returns, or panics again.
pub data Result : Type 0 where
  returned : Err → Result
  panicked : Result

-- The clock readings of a call: in `accept`, and the two of the `Add` that marks the outcome.
pub record Readings : Type 0 where
  pub at_accept : ℕ
  pub at_span : ℕ
  pub at_now : ℕ

unfoldable pub mark_success : RollingWindow → Readings → RollingWindow
unfolding add
mark_success stat r = add stat r.at_span r.at_now 1

unfoldable pub mark_failure : RollingWindow → Readings → RollingWindow
unfolding add
mark_failure stat r = add stat r.at_span r.at_now 0

abbrev pub refuse : Option (Err → Err) → Result
refuse none = returned service_unavailable
refuse (some fallback) = returned (fallback service_unavailable)

abbrev pub mark : (Err → Bool) → Request → RollingWindow → Readings → RollingWindow × Result
mark acceptable panics stat r = (mark_failure stat r, panicked)
mark acceptable (returns e) stat r =
    if acceptable e then (mark_success stat r, returned e) else (mark_failure stat r, returned e)

-- `doReq`
unfoldable pub do_req :
    (Err → Bool)
    → Option (Err → Err)
    → Request
    → Readings
    → Fraction
    → RollingWindow
    → RollingWindow × Result
unfolding accept mark_success mark_failure
do_req acceptable fallback req r draw stat =
    if accept stat r.at_accept draw then mark acceptable req stat r else (stat, refuse fallback)

abbrev pub default_acceptable : Err → Bool
default_acceptable nil = true
default_acceptable _ = false
