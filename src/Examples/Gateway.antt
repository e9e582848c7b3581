-- ===== src/Examples/Gateway.antt =====
-- The API's endpoints and router (api/router) on small inputs. An expression is a text here, which
-- matches itself.
use realmicro.Common.{
  Text, [], ◌∷◌, Bool, true, false, Option, none, some, ◌≡◌, ◌≢◌, ◌↔◌, refl, codes, teq, has_prefix,
  All,
}
use realmicro.Registry.{Service}
use realmicro.HttpRule.Runtime.{matched}
use realmicro.Api.Endpoints.{Endpoint, leading, encode, decode, validate, valid, endpoint_is_nil}
use realmicro.Api.Endpoints.RoundTrip.{decode-encode}
use realmicro.Api.Endpoints.Checked.{IsRoutable, validate-valid}
use realmicro.Api.Router.{Request, Router, compile_endpoint, store, new_router, endpoint}
use realmicro.Api.Router.Matching.{compiled_of, first_accepting, outcome_of}
use realmicro.Api.Router.Stored.{store_all, endpoint-first_accepting}
use realmicro.Api.Router.Total.{store_all_total}

abbrev hello : Endpoint
hello = record {
  name = codes "G.Hi";
  description = [];
  handler = codes "rpc";
  host = codes "*" ∷ [];
  method = codes "GET" ∷ [];
  path = codes "/hi" ∷ [];
  stream = false;
}

abbrev any_text : Text → Bool
any_text t = true

decode-encode_example : decode (encode (some hello)) ≡ some (record hello { stream = false })
unfolding leading
decode-encode_example =
    decode-encode hello ((λ e. cc, (refl, tt), refl, refl), tt)
      ((λ e. cc, (refl, (refl, (refl, tt))), refl, refl), tt)
      ((λ e. cc, (refl, (refl, (refl, tt))), refl, refl), tt)

validate-valid_example :
    (validate any_text none ≡ endpoint_is_nil)
    × ((validate any_text (some hello) ≡ valid)
        ↔ ((hello.name ≢ []) × (hello.handler ≢ []) × All (IsRoutable any_text) hello.path))
validate-valid_example = validate-valid any_text hello

abbrev greeter : Service
greeter = record {
  name = codes "g";
  version = [];
  metadata = [];
  endpoints =
      record {
        name = codes "Hi";
        request = none;
        response = none;
        metadata =
            (codes "endpoint", codes "G.Hi")
            ∷ (codes "handler", codes "rpc")
            ∷ (codes "method", codes "GET")
            ∷ (codes "path", codes "/hi")
            ∷ [];
      }
      ∷ [];
  nodes = [];
}

abbrev compile_any : Text → Option Text
compile_any t = some t

abbrev request : Request
request = record { method = codes "GET"; url_host = codes "h"; url_path = codes "/hi" }

store_all_total_example :
    (r : Router Text) × (store_all Text compile_any teq
        ((greeter ∷ []) ∷ [])
        (new_router Text compile_any)
      ≡ some r)
store_all_total_example =
    store_all_total Text compile_any teq ((greeter ∷ []) ∷ []) (new_router Text compile_any)

abbrev hi : Endpoint
hi = record {
  name = codes "G.Hi";
  description = [];
  handler = codes "rpc";
  host = [];
  method = codes "GET" ∷ [];
  path = codes "/hi" ∷ [];
  stream = false;
}

abbrev served : Router Text
served = record {
  eps = (codes "g.Hi", record { service = codes "g"; endpoint = hi; versions = greeter ∷ [] }) ∷ [];
  ceps = (codes "g.Hi", compiled_of Text compile_any teq hi) ∷ [];
}

store_greeter :
    store_all Text compile_any teq ((greeter ∷ []) ∷ []) (new_router Text compile_any) ≡ some served
unfolding store_all store compile_endpoint compiled_of
store_greeter = refl

endpoint-first_accepting_example :
    endpoint Text teq request served
    ≡ outcome_of Text compile_any teq (first_accepting Text compile_any teq request served.eps)
endpoint-first_accepting_example =
    endpoint-first_accepting Text compile_any teq ((greeter ∷ []) ∷ []) request served store_greeter
      (tt, tt)

-- The template "/hi" matches, with no fields.
endpoint_hi :
    endpoint Text teq request served
    ≡ matched (record { service = codes "g"; endpoint = hi; versions = greeter ∷ [] }, some [])
unfolding endpoint teq compiled_of compile_endpoint has_prefix
endpoint_hi = refl
