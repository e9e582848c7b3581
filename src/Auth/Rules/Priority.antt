-- ===== src/Auth/Rules/Priority.antt =====
-- `Verify` (auth/rules.go) filters, sorts and scans. It finds the verdict of one rule: of those that
-- match the resource and have something to say of the account, the first of highest priority.
use realmicro.Common.{
  ℕ, ◌≡◌, refl, sym, ap, ◌∙◌, List, [], ◌∷◌, true, false, if◌then◌else◌, Bool-cases, inl, inr,
  Option, none, some, ℤ, ltb_ℤ, ltb_ℤ_trans_ge, ltb_ℤ_asym, select,
}
use realmicro.Auth.Rules.{
  Rule, Resource, Account, Verdict, forbidden, insert_rule, sort_rules, is_candidate, check,
  first_verdict, verify,
}

-- A rule with the verdict that it gives.
abbrev pub Ruling : Type 0
Ruling = Option (ℤ × Verdict)

-- The better of a ruling and one of a later rule: the later one wins only by a higher priority.
abbrev pub over : ℤ × Verdict → Ruling → Ruling
over (k, v) none = some (k, v)
over (k, v) (some (j, w)) = if ltb_ℤ k j then some (j, w) else some (k, v)

abbrev pub verdict_of : Ruling → Verdict
verdict_of none = forbidden
verdict_of (some (k, v)) = v

module _ (fold : ℕ → ℕ) where
  abbrev rule_over : ℤ → Option Verdict → Ruling → Ruling
  rule_over k none b = b
  rule_over k (some v) b = over (k, v) b

  -- The best ruling of a list of rules on an account, with no sorting.
  unfoldable pub best : Option Account → List Rule → Ruling
  best acc [] = none
  best acc (r ∷ rs) = rule_over r.priority (check fold acc r) (best acc rs)

  unfoldable pub best_for : Option Account → Resource → List Rule → Ruling
  best_for acc res [] = none
  best_for acc res (r ∷ rs) =
      let rest = best_for acc res rs in
      if is_candidate fold res r then rule_over r.priority (check fold acc r) rest else rest

abbrev AtMost : ℤ → Ruling → Type 0
AtMost k none = Unit
AtMost k (some (j, w)) = ltb_ℤ k j ≡ false

over-AtMost :
    (k j : ℤ) (v : Verdict) (b : Ruling) → ltb_ℤ k j ≡ false → AtMost k b → AtMost k (over (j, v) b)
over-AtMost k j v none h m = h
over-AtMost k j v (some (i, w)) h m = elim (Bool-cases (ltb_ℤ j i)) [
  | inl above ↦ rw above m
  | inr below ↦ rw below h
]

over_best : (k : ℤ) (v : Verdict) (b : Ruling) → AtMost k b → over (k, v) b ≡ some (k, v)
over_best k v none m = refl
over_best k v (some (j, w)) m = rw m

module _ (fold : ℕ → ℕ) where
  rule_over-AtMost :
      (k j : ℤ) (c : Option Verdict) (b : Ruling)
      → ltb_ℤ k j ≡ false
      → AtMost k b
      → AtMost k (rule_over fold j c b)
  rule_over-AtMost k j none b h m = m
  rule_over-AtMost k j (some v) b h m = over-AtMost k j v b h m

  -- A rule of lower priority may go in front.
  rule_over_comm :
      (j k : ℤ) (c d : Option Verdict) (b : Ruling)
      → ltb_ℤ j k ≡ true
      → AtMost k b
      → rule_over fold k d (rule_over fold j c b) ≡ rule_over fold j c (rule_over fold k d b)
  rule_over_comm j k none d b h m = refl
  rule_over_comm j k (some v) none b h m = refl
  rule_over_comm j k (some v) (some w) b h m =
      over_best k w (over (j, v) b) (over-AtMost k j v b (ltb_ℤ_asym j k h) m)
      ∙ sym (rw (over_best k w b m) (rw h))

  abbrev Below : ℤ → List Rule → Type 0
  Below k [] = Unit
  Below k (x ∷ xs) = (ltb_ℤ k x.priority ≡ false) × Below k xs

  abbrev IsSorted : List Rule → Type 0
  IsSorted [] = Unit
  IsSorted (x ∷ xs) = Below x.priority xs × IsSorted xs

  Below-trans : (j k : ℤ) (xs : List Rule) → ltb_ℤ j k ≡ false → Below k xs → Below j xs
  Below-trans j k [] h b = tt
  Below-trans j k (x ∷ xs) h b = (ltb_ℤ_trans_ge j k x.priority h b.0, Below-trans j k xs h b.1)

  Below-insert_rule :
      (k : ℤ) (r : Rule) (xs : List Rule)
      → ltb_ℤ k r.priority ≡ false
      → Below k xs
      → Below k (insert_rule r xs)
  unfolding insert_rule
  Below-insert_rule k r [] h b = (h, tt)
  Below-insert_rule k r (x ∷ xs) h b = elim (Bool-cases (ltb_ℤ r.priority x.priority)) [
    | inl above ↦ rw above (b.0, Below-insert_rule k r xs h b.1)
    | inr below ↦ rw below (h, b)
  ]

  insert_rule-IsSorted : (r : Rule) (xs : List Rule) → IsSorted xs → IsSorted (insert_rule r xs)
  unfolding insert_rule
  insert_rule-IsSorted r [] s = (tt, tt)
  insert_rule-IsSorted r (x ∷ xs) s = elim (Bool-cases (ltb_ℤ r.priority x.priority)) [
    | inl above ↦ rw above (
      Below-insert_rule x.priority r xs (ltb_ℤ_asym r.priority x.priority above) s.0,
      insert_rule-IsSorted r xs s.1,
    )
    | inr below ↦ rw below ((below, Below-trans r.priority x.priority xs below s.0), s)
  ]

  sort_rules-IsSorted : (rs : List Rule) → IsSorted (sort_rules rs)
  unfolding sort_rules
  sort_rules-IsSorted [] = tt
  sort_rules-IsSorted (r ∷ rs) = insert_rule-IsSorted r (sort_rules rs) (sort_rules-IsSorted rs)

  module _ (acc : Option Account) where
    best-AtMost : (k : ℤ) (xs : List Rule) → Below k xs → AtMost k (best fold acc xs)
    unfolding best
    best-AtMost k [] b = tt
    best-AtMost k (x ∷ xs) b =
        rule_over-AtMost k x.priority (check fold acc x) (best fold acc xs) b.0
          (best-AtMost k xs b.1)

    best-insert_rule :
        (r : Rule) (xs : List Rule)
        → IsSorted xs
        → best fold acc (insert_rule r xs)
          ≡ rule_over fold r.priority (check fold acc r) (best fold acc xs)
    unfolding best insert_rule
    best-insert_rule r [] s = refl
    best-insert_rule r (x ∷ xs) s = elim (Bool-cases (ltb_ℤ r.priority x.priority)) [
      | inl above ↦ rw above (
          ap (rule_over fold x.priority (check fold acc x)) (best-insert_rule r xs s.1)
          ∙ rule_over_comm r.priority x.priority (check fold acc r) (check fold acc x)
              (best fold acc xs) above (best-AtMost x.priority xs s.0))
      | inr below ↦ rw below
    ]

    best-sort_rules : (rs : List Rule) → best fold acc (sort_rules rs) ≡ best fold acc rs
    unfolding best sort_rules
    best-sort_rules [] = refl
    best-sort_rules (r ∷ rs) =
        best-insert_rule r (sort_rules rs) (sort_rules-IsSorted rs)
        ∙ ap (rule_over fold r.priority (check fold acc r)) (best-sort_rules rs)

    first_verdict-best :
        (xs : List Rule) → IsSorted xs → first_verdict fold acc xs ≡ verdict_of (best fold acc xs)
    unfolding first_verdict best
    first_verdict-best [] s = refl
    first_verdict-best (x ∷ xs) s = go (check fold acc x) refl (first_verdict-best xs s.1)
      where
        go :
            (c : Option Verdict)
            → check fold acc x ≡ c
            → first_verdict fold acc xs ≡ verdict_of (best fold acc xs)
            → first_verdict fold acc (x ∷ xs) ≡ verdict_of (best fold acc (x ∷ xs))
        go none e ih = rw (e, first_verdict, best) ih
        go (some v) e ih =
            rw (e, first_verdict, best)
              (sym (
                ap verdict_of
                  (over_best x.priority v (best fold acc xs) (best-AtMost x.priority xs s.0))))

    best-select :
        (res : Resource) (rs : List Rule)
        → best fold acc (select (is_candidate fold res) rs) ≡ best_for fold acc res rs
    unfolding best best_for select
    best-select res [] = refl
    best-select res (r ∷ rs) = elim (Bool-cases (is_candidate fold res r)) [
      | inl candidate ↦
          rw candidate (ap (rule_over fold r.priority (check fold acc r)) (best-select res rs))
      | inr other ↦ rw other (best-select res rs)
    ]

-- `Verify` gives the verdict of one rule, found with no sorting: among the rules that match the
-- resource and rule on the account, the earliest of those of highest priority; where there is no
-- such rule it forbids.
pub verify-best :
    (fold : ℕ → ℕ) (rules : List Rule) (acc : Option Account) (res : Resource)
    → verify fold rules acc res ≡ verdict_of (best_for fold acc res rules)
unfolding verify
verify-best fold rules acc res =
    first_verdict-best fold acc (sort_rules candidates) (sort_rules-IsSorted fold candidates)
    ∙ ap verdict_of (best-sort_rules fold acc candidates ∙ best-select fold acc res rules)
  where
    candidates : List Rule
    candidates = select (is_candidate fold res) rules
