-- ===== src/Gateway/Tests.antt =====
-- The client of the services at concrete replies.
use architect.Common.{ℕ, zero, suc, ◌≡◌, refl, true, [], ◌∷◌, ◌++◌}
use architect.Common.Text.{codes}
use architect.Ledger.Json.{Object, object, number, field, no_fields}
use architect.Common.Result.{ok}
use architect.Gateway.ServiceClient.{
  Reply, json, connect_error, status_error, requested, slept, World, base_url, timeout_for_service,
  on_reply, attempt_all, request,
}
use architect.Gateway.ServiceClient.Retry.{IsFirst, conclusion, trace, request-IsFirst}

abbrev respond : ℕ → Reply
respond zero = connect_error (codes "refused")
respond (suc zero) = status_error 503
respond (suc (suc n)) = json (codes "{}")

abbrev world : World
world = record { getattr = λ attr. codes "http://" ++ codes attr; respond = respond }

-- `params={"limit": 5}`
abbrev asked : Object
asked =
    field (codes "params")
      (object
        (field (codes "limit") (number (record { plus = 5; minus = 0; shift = 0 })) no_fields))
      no_fields

known : base_url world (codes "router") ≡ ok (codes "http://multi_model_router_url")
unfolding base_url
known = refl

sent : request world true (codes "router") (codes "GET") (codes "/stats") asked [] ≡ (
  ok (codes "{}"),
  requested (codes "GET") (codes "http://multi_model_router_url/stats") 120 asked
      ∷ slept 1_000
      ∷ requested (codes "GET") (codes "http://multi_model_router_url/stats") 120 asked
      ∷ slept 500
      ∷ requested (codes "GET") (codes "http://multi_model_router_url/stats") 120 asked
      ∷ [],
)
unfolding request base_url attempt_all on_reply timeout_for_service
sent = refl

request-IsFirst_example :
    (n : ℕ) × IsFirst respond n
    × (request world true (codes "router") (codes "GET") (codes "/stats") asked [] ≡ (
      conclusion (respond n),
      trace
          (requested
            (codes "GET")
            (codes "http://multi_model_router_url" ++ codes "/stats")
            (timeout_for_service (codes "router"))
            asked)
          n,
    ))
request-IsFirst_example =
    request-IsFirst world (codes "router") (codes "GET") (codes "/stats")
      (codes "http://multi_model_router_url") asked known
