-- ===== src/Auth/Rules.antt =====
-- auth/rules.go, with the types of auth/auth.go that it reads. `fold` stands for the simple case
-- folding of a rune, by which `strings.EqualFold` compares; texts are lists of runes here.
pub mod Priority
use realmicro.Common.{
  ℕ, zero, suc, ◌+◌, Text, List, [], ◌∷◌, ◌++◌, Bool, true, false, ◌||◌, ◌&&◌, not, teq, codes, map,
  if◌then◌else◌, any_of, select, join, split, take, length, Option, none, some, ℤ, ltb_ℤ, ltb,
}

-- `Access` is an int: granted is 0, denied is 1, and nothing is made of other values.
pub data Access : Type 0 where
  access_granted access_denied access_other : Access

pub record Resource : Type 0 where
  pub name : Text
  pub kind : Text
  pub endpoint : Text

pub record Account : Type 0 where
  pub id : Text
  pub scopes : List Text

pub record Rule : Type 0 where
  pub id : Text
  pub scope : Text
  pub resource : Resource
  pub access : Access
  pub priority : ℤ

-- nil and ErrForbidden
pub data Verdict : Type 0 where
  allowed forbidden : Verdict

abbrev pub scope_public : Text
scope_public = []

abbrev pub scope_account : Text
scope_account = codes "*"

abbrev pub is_granted : Access → Bool
is_granted access_granted = true
is_granted _ = false

abbrev pub is_denied : Access → Bool
is_denied access_denied = true
is_denied _ = false

-- `comps[0:i]` for i = n, n + 1, ..., each joined and with "/*" behind it
unfoldable pub wildcards : ℕ → ℕ → List Text → List Text
unfolding join
wildcards zero i comps = []
wildcards (suc n) i comps =
    (join (take i comps) (codes "/") ++ codes "/*") ∷ wildcards n (i + 1) comps

-- `validEndpoints`
unfoldable pub valid_endpoints : Text → List Text
unfolding wildcards split
valid_endpoints endpoint =
    let comps = split b'/' endpoint in
    codes "*" ∷ (endpoint ∷ (if ltb 1 (length comps) then wildcards (length comps) 1 comps else []))

-- sort.SliceStable by descending priority: a rule goes before those that are not above it.
unfoldable pub insert_rule : Rule → List Rule → List Rule
insert_rule r [] = r ∷ []
insert_rule r (x ∷ xs) =
    let later = x ∷ insert_rule r xs in if ltb_ℤ r.priority x.priority then later else r ∷ (x ∷ xs)

unfoldable pub sort_rules : List Rule → List Rule
unfolding insert_rule
sort_rules [] = []
sort_rules (r ∷ rs) = insert_rule r (sort_rules rs)

module _ (fold : ℕ → ℕ) where
  -- strings.EqualFold
  unfoldable pub equal_fold : Text → Text → Bool
  unfolding teq
  equal_fold s t = teq (map fold s) (map fold t)

  unfoldable pub include : List Text → Text → Bool
  unfolding equal_fold
  include slice val = any_of (λ s. equal_fold s val) slice

  -- The three tests of the filter loop.
  unfoldable pub is_candidate : Resource → Rule → Bool
  unfolding include valid_endpoints
  is_candidate res rule =
      if not (include (codes "*" ∷ (res.kind ∷ [])) rule.resource.kind)
      then false
      else if not (include (codes "*" ∷ (res.name ∷ [])) rule.resource.name)
      then false
      else include (valid_endpoints res.endpoint) rule.resource.endpoint

  -- One round of the last loop: a verdict, or `none` for the next rule.
  abbrev pub check_account : Option Account → Rule → Option Verdict
  check_account none rule = none
  check_account (some acc) rule =
      if teq rule.scope scope_account && is_denied rule.access
      then some forbidden
      else if teq rule.scope scope_account && is_granted rule.access
      then some allowed
      else if include acc.scopes rule.scope && is_denied rule.access
      then some forbidden
      else if include acc.scopes rule.scope && is_granted rule.access
      then some allowed
      else none

  unfoldable pub check : Option Account → Rule → Option Verdict
  unfolding teq include
  check acc rule =
      if teq rule.scope scope_public && is_denied rule.access
      then some forbidden
      else if teq rule.scope scope_public && is_granted rule.access
      then some allowed
      else check_account acc rule

  unfoldable pub first_verdict : Option Account → List Rule → Verdict
  unfolding check
  first_verdict acc [] = forbidden
  first_verdict acc (rule ∷ rules) = elim (check acc rule) [
    | some v ↦ v
    | none ↦ first_verdict acc rules
  ]

  unfoldable pub verify : List Rule → Option Account → Resource → Verdict
  unfolding select is_candidate sort_rules first_verdict
  verify rules acc res = first_verdict acc (sort_rules (select (is_candidate res) rules))
