-- ===== src/Examples/Access.antt =====
-- Rules (auth), connections (common/util/pool) and error windows (common/util/breaker) on small
-- inputs.
use realmicro.Common.{
  ℕ, Text, codes, List, [], ◌∷◌, Bool, false, none, some, pos, ◌≡◌, refl, length, ◌≤◌, take, join,
  reverse,
}
use realmicro.Auth.Rules.{
  Rule, Resource, Account, allowed, forbidden, access_granted, access_denied, verify,
}
use realmicro.Auth.Rules.Priority.{best_for, verdict_of, verify-best}
use realmicro.Pool.{PoolConn, conns_at, pooled, get, get_loop, release}
use realmicro.Pool.Bounds.{Call, get_call, release_call, apply_all, apply_all-IsBounded}
use realmicro.Pool.Lease.{Taken, get_loop-Taken}
use realmicro.Pool.Owners.{World, Step, gets, releases, here, next, AtMostOne, Reach-AtMostOne}
use realmicro.Breaker.ErrorWindow.{new_error_window, error_string}
use realmicro.Breaker.ErrorWindow.Recent.{add_all, error_string-recent}

abbrev foo_bar : Resource
foo_bar = record { name = codes "notes"; kind = codes "service"; endpoint = codes "/foo/bar" }

-- Everyone may use what is below /foo, and an account with the scope "guest" may use nothing.
abbrev two_rules : List Rule
two_rules =
    record {
      id = codes "public";
      scope = [];
      resource = record { name = codes "*"; kind = codes "*"; endpoint = codes "/foo/*" };
      access = access_granted;
      priority = pos 1;
    }
    ∷ (record {
      id = codes "guests";
      scope = codes "guest";
      resource = record { name = codes "*"; kind = codes "service"; endpoint = codes "*" };
      access = access_denied;
      priority = pos 2;
    }
        ∷ [])

abbrev guest : Account
guest = record { id = codes "g"; scopes = codes "guest" ∷ [] }

abbrev same_rune : ℕ → ℕ
same_rune r = r

verify-guest : verify same_rune two_rules (some guest) foo_bar ≡ forbidden
unfolding verify
verify-guest = refl

verify_nobody : verify same_rune two_rules none foo_bar ≡ allowed
unfolding verify
verify_nobody = refl

verify-best_example :
    verify same_rune two_rules (some guest) foo_bar
    ≡ verdict_of (best_for same_rune (some guest) foo_bar two_rules)
verify-best_example = verify-best same_rune two_rules (some guest) foo_bar

abbrev first_conn : PoolConn
first_conn = record { id = 1; remote = codes "a:1"; created = 0 }

abbrev second_conn : PoolConn
second_conn = record { id = 2; remote = codes "a:1"; created = 50 }

abbrev closes : PoolConn → Bool
closes c = false

abbrev new_world : World
new_world = record { pool = record { size = 1; ttl = 60; conns = [] }; lent = [] }

-- One connection is dialled, released and taken again.
abbrev dialled_world : World
dialled_world = record {
  pool = (get closes (codes "a:1") 0 (some first_conn) new_world.pool).1;
  lent = first_conn ∷ [];
}

abbrev released_world : World
released_world = record { pool = (release first_conn false dialled_world.pool).1; lent = [] }

dial-Step : Step new_world dialled_world
unfolding get
dial-Step = gets closes (codes "a:1") 0 (some first_conn) refl

release-Step : Step dialled_world released_world
release-Step = releases [] [] first_conn false refl

Reach-AtMostOne_example : AtMostOne released_world
Reach-AtMostOne_example = Reach-AtMostOne (next (next here dial-Step) release-Step)

get_loop_stale :
    (get_loop closes 60 100 (second_conn ∷ (first_conn ∷ []))).pick ≡ pooled second_conn
unfolding get_loop
get_loop_stale = refl

get_loop-Taken_example :
    Taken closes 60 100
      (first_conn ∷ (second_conn ∷ []))
      (get_loop closes 60 100 (first_conn ∷ (second_conn ∷ [])))
get_loop-Taken_example = get_loop-Taken closes 60 100 (first_conn ∷ (second_conn ∷ []))

abbrev three_calls : List Call
three_calls =
    release_call first_conn false
    ∷ (release_call second_conn false ∷ (get_call closes (codes "a:1") 70 none ∷ []))

apply_all-IsBounded_example :
    length
      (conns_at (codes "a:1") (apply_all three_calls (record { size = 1; ttl = 60; conns = [] })))
    ≤ 1
apply_all-IsBounded_example = apply_all-IsBounded three_calls 1 60 (codes "a:1")

abbrev six_reasons : List Text
six_reasons = codes "a" ∷ (codes "b" ∷ (codes "c" ∷ (codes "d" ∷ (codes "e" ∷ (codes "f" ∷ [])))))

error_string_six : error_string (add_all new_error_window six_reasons) ≡ codes "f\ne\nd\nc\nb"
unfolding error_string add_all
error_string_six = refl

error_string-recent_example :
    error_string (add_all new_error_window six_reasons)
    ≡ join (take 5 (reverse six_reasons)) (codes "\n")
error_string-recent_example = error_string-recent six_reasons
