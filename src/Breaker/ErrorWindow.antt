-- ===== src/Breaker/ErrorWindow.antt =====
-- `errorWindow` of common/util/breaker/breaker.go: the last five reasons, newest first. A reason is
-- the formatted text, time stamp included.
pub mod Recent
use realmicro.Common.{
  ℕ, zero, suc, ◌+◌, ◌-◌, ◌%◌, Text, List, [], ◌∷◌, length, get_or, modify, min, replicate, codes,
  join,
}

abbrev pub num_history_reasons : ℕ
num_history_reasons = 5

pub record ErrorWindow : Type 0 where
  pub reasons : List Text
  pub index : ℕ
  pub count : ℕ

abbrev pub new_error_window : ErrorWindow
new_error_window = record { reasons = replicate num_history_reasons []; index = 0; count = 0 }

abbrev pub add : ErrorWindow → Text → ErrorWindow
add ew reason = record {
  reasons = modify ew.reasons ew.index (λ _. reason);
  index = (ew.index + 1) % num_history_reasons;
  count = min (ew.count + 1) num_history_reasons;
}

-- `for i := ew.index - 1; i >= ew.index-ew.count; i--`: the k-th round reads index - 1 - k, plus the
-- size, which is not negative.
abbrev pub reasons_loop : ErrorWindow → ℕ → ℕ → List Text
reasons_loop ew k zero = []
reasons_loop ew k (suc n) =
    get_or ew.reasons ((ew.index + num_history_reasons - (k + 1)) % num_history_reasons) []
    ∷ reasons_loop ew (k + 1) n

abbrev pub recent : ErrorWindow → List Text
recent ew = reasons_loop ew 0 ew.count

unfoldable pub error_string : ErrorWindow → Text
unfolding join
error_string ew = join (recent ew) (codes "\n")
