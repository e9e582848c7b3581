-- ===== src/Breaker/ErrorWindow/Recent.antt =====
-- The error window (breaker.go) keeps the last five reasons.
use mathlib.Core.List.{reverse-cons}
use realmicro.Common.{
  ℕ, zero, suc, ◌+◌, ◌-◌, ◌%◌, ◌<◌, ◌≤◌, ◌≡◌, refl, sym, ap, ◌∙◌, Text, List, [], ◌∷◌, take, length,
  get_or, modify, reverse, ◌++◌, ap₂, length-modify, get_or-modify_self, get_or-modify_ne,
  append-nil, append_assoc, subst, min, arith, codes, join,
}
use realmicro.Breaker.ErrorWindow.{
  num_history_reasons, ErrorWindow, new_error_window, add, reasons_loop, recent, error_string,
}

-- The ring holds `hist`, newest first, at index - 1, index - 2, ...
record Holds (ew : ErrorWindow) (hist : List Text) : Type 0 where
  five : length ew.reasons ≡ 5
  index_lt : ew.index < 5
  count_eq : ew.count ≡ min (length hist) 5
  recent_eq : recent ew ≡ take 5 hist

unfoldable pub add_all : ErrorWindow → List Text → ErrorWindow
add_all ew [] = ew
add_all ew (r ∷ rs) = add_all (add ew r) rs

take-reasons_loop :
    (ew : ErrorWindow) (m k n : ℕ) → take m (reasons_loop ew k n) ≡ reasons_loop ew k (min m n)
take-reasons_loop ew zero k n = ap (reasons_loop ew k) {x = 0} {y = min 0 n} (omega arith)
take-reasons_loop ew (suc m) k zero =
    ap (reasons_loop ew k) {x = 0} {y = min (suc m) 0} (omega arith)
take-reasons_loop ew (suc m) k (suc n) =
    ap
      (◌∷◌
        (get_or ew.reasons ((ew.index + num_history_reasons - (k + 1)) % num_history_reasons) []))
      (take-reasons_loop ew m (k + 1) n)
    ∙ ap (reasons_loop ew k) {x = suc (min m n)} {y = min (suc m) (suc n)} (omega arith)

take-take : (m n : ℕ) (xs : List Text) → m ≤ n → take m (take n xs) ≡ take m xs
take-take zero n xs h = refl
take-take (suc m) zero xs h = absurd (omega arith)
take-take (suc m) (suc n) [] h = refl
take-take (suc m) (suc n) (x ∷ xs) h = ap (◌∷◌ x) (take-take m n xs (omega arith))

-- One addition moves every older reason one place down.
reasons_loop-add :
    (ew : ErrorWindow) (r : Text) (k n : ℕ)
    → ew.index < 5
    → k + n ≤ 4
    → reasons_loop (add ew r) (k + 1) n ≡ reasons_loop ew k n
reasons_loop-add ew r k zero h l = refl
reasons_loop-add ew r k (suc n) h l =
    ap₂ ◌∷◌
      (get_or-modify_ne ew.reasons ew.index (((ew.index + 1) % 5 + 5 - (k + 1 + 1)) % 5) (λ _. r) []
          (omega arith)
        ∙ ap (λ j. get_or ew.reasons j []) (omega arith))
      (reasons_loop-add ew r (k + 1) n h (omega arith))

recent-add :
    (ew : ErrorWindow) (r : Text)
    → length ew.reasons ≡ 5
    → ew.index < 5
    → ew.count ≤ 5
    → recent (add ew r) ≡ r ∷ reasons_loop ew 0 (min 4 ew.count)
recent-add ew r five h c =
    ap (reasons_loop (add ew r) 0) {x = min (ew.count + 1) 5} {y = suc (min 4 ew.count)}
      (omega arith)
    ∙ ap₂ ◌∷◌
        (ap (λ j. get_or (modify ew.reasons ew.index (λ _. r)) j []) (omega arith)
          ∙ get_or-modify_self ew.reasons ew.index (λ _. r) [] (omega arith))
        (reasons_loop-add ew r 0 (min 4 ew.count) h (omega arith))

add-Holds :
    (ew : ErrorWindow) (hist : List Text) (r : Text) → Holds ew hist → Holds (add ew r) (r ∷ hist)
add-Holds ew hist r h = record {
  five = length-modify ew.reasons ew.index (λ _. r) ∙ h.five;
  index_lt = omega arith;
  count_eq = omega (arith, h.count_eq);
  recent_eq =
      recent-add ew r h.five h.index_lt (omega (arith, h.count_eq))
      ∙ ap (◌∷◌ r) (
          sym (take-reasons_loop ew 4 0 ew.count)
          ∙ ap (take 4) h.recent_eq
          ∙ take-take 4 5 hist (omega arith));
}

add_all-Holds :
    (ew : ErrorWindow) (hist rs : List Text)
    → Holds ew hist
    → Holds (add_all ew rs) (reverse rs ++ hist)
unfolding add_all
add_all-Holds ew hist [] h = h
add_all-Holds ew hist (r ∷ rs) h =
    subst (Holds (add_all (add ew r) rs))
      (sym (ap (λ z. z ++ hist) (reverse-cons r rs) ∙ append_assoc (reverse rs) (r ∷ []) hist))
      (add_all-Holds (add ew r) (r ∷ hist) rs (add-Holds ew hist r h))

-- After any reasons, the window's text is that of the last five, newest first, a line each.
pub error_string-recent :
    (rs : List Text)
    → error_string (add_all new_error_window rs) ≡ join (take 5 (reverse rs)) (codes "\n")
unfolding error_string
error_string-recent rs =
    ap (λ z. join z (codes "\n"))
      ((add_all-Holds new_error_window [] rs empty-Holds).recent_eq
        ∙ ap (take 5) (append-nil (reverse rs)))
  where
    empty-Holds : Holds new_error_window []
    empty-Holds = record { five = refl; index_lt = omega arith; count_eq = refl; recent_eq = refl }
