-- ===== src/Ingress/Cluster/Tests.antt =====
-- A cluster of two ingresses, one of which prepares a challenge that the other serves.
use drawbridge_ingress.Prelude.{
  Option, ℕ, ◌≡◌, refl, sym, ap, none, some, List, [], ◌∷◌, ◌++◌, ◌⊎◌, inl, inr, Among, true,
}
use drawbridge_ingress.Prelude.Maps.{String, lookup, insert, pair_eq, string_eq}
use drawbridge_ingress.Prelude.Action.{ok, ◌>>=◌, for_each}
use drawbridge_ingress.Prelude.Http.{visible}
use drawbridge_ingress.Congress.Types.{Senator, leader, follower}
use drawbridge_ingress.Ingress.Certificates.{
  Http01Challenge, CertKey, resolved, resolve_server_config, apply_challenge, handle_if_challenge,
}
use drawbridge_ingress.Ingress.Generator.{
  Holding, entries_of, get_certs, check_for_new_certificates,
}
use drawbridge_ingress.Ingress.Generator.Storing.{ReadsBack}
use drawbridge_ingress.Ingress.Generator.Tests.{
  Cluster as Secrets, cluster as secrets, cluster-IsSecretsApi as secrets-IsSecretsApi, lib, issue,
  hosts, to_json, from_slice, in_unary, read_unary,
}
use drawbridge_ingress.Ingress.Leadership.{Views, challenge, handle_change}
use drawbridge_ingress.Ingress.Leadership.Certified.{check}
use drawbridge_ingress.Ingress.Routing.{RegexApi, new as no_routes}
use drawbridge_ingress.Ingress.Proxy.{
  Request, challenge_answer, HyperApi, host_of, upgrade_to, request_to, proxy_request,
}
use drawbridge_ingress.Ingress.Cluster.{
  change, changes, Sent, Cluster, init, prepare, deliver, put, moves, prepares, delivers, Reachable,
  begins, next,
}
use drawbridge_ingress.Ingress.Cluster.Kept.{Onward, stays, goes}
use drawbridge_ingress.Ingress.Cluster.Issued.{resolve_server_config-IsKnown}
use drawbridge_ingress.Ingress.Generator.Hosts.{IsIssued}
use drawbridge_ingress.Ingress.Cluster.Served.{
  proxy_request-prepared, delivered-proxied, Reachable-get_certs,
}

abbrev a_challenge : Http01Challenge
a_challenge = record { path = "/c"; contents = "token"; challenge_url = "u"; domain = "a.com" }

abbrev senator_of : ℕ → Senator
senator_of i = record {
  id = i;
  role = follower;
  term = 2;
  voted_for = none;
  next_timeout = 0;
  current_leader = none;
  on_role = [];
  on_message = [];
}

-- The worlds in which the secret is read.
abbrev ReadIn : Secrets → Type 0
ReadIn w = w ≡ []

abbrev name_of : ℕ → String
name_of i = "ingress"

abbrev at_first : Cluster (List ℕ)
at_first = init name_of senator_of

-- The ingress 1 prepares the challenge, and 2 takes it and becomes the leader.
abbrev prepared : Cluster (List ℕ)
prepared = prepare (2 ∷ []) 1 a_challenge at_first

abbrev sent : Sent (List ℕ)
sent = record { to = 2; term = 2; msg = challenge a_challenge }

-- What the ingress `i` reads, when nothing changes.
abbrev views_of : ℕ → Views
views_of i _ = record { members = 1 ∷ 2 ∷ []; senator = senator_of i }

abbrev delivered : Cluster (List ℕ)
delivered = deliver (views_of 2) sent (record prepared { wire = [] })

abbrev elected : Cluster (List ℕ)
elected =
    put 2 (record (delivered.node 2) { senator = record (senator_of 2) { role = leader } }) []
      delivered

abbrev Run : Cluster (List ℕ) → Type 0
Run = Reachable lib secrets issue ReadIn name_of senator_of

run_prepared : Run prepared
run_prepared = next begins (prepares (2 ∷ []) 1 a_challenge)

on_wire : prepared.wire ≡ [] ++ sent ∷ []
unfolding prepare put init
on_wire = refl

run_elected : Run elected
run_elected =
    next (next run_prepared (delivers (views_of 2) sent [] [] on_wire))
      (moves 2 (record (senator_of 2) { role = leader }))

onward : Onward lib secrets issue ReadIn 2 delivered elected
onward = goes stays (moves 2 (record (senator_of 2) { role = leader })) tt

-- No pattern is a regular expression here.
abbrev no_regex : RegexApi String
no_regex = record { new = λ s. none; escape = λ s. s; as_str = λ s. s; is_match = λ s t. true }

abbrev http : HyperApi ℕ String String
http = record {
  uri_from_str = λ s. some s;
  to_lowercase = λ s. s;
  request = λ f. elim f [ upgrade_to u r ↦ some u | request_to u r ↦ some u ];
}

abbrev a_request : Request ℕ
a_request = record {
  host = some (visible "a.com");
  upgrade = none;
  authority_host = none;
  path = "/c";
  query = none;
  rest = 0;
}

answers :
    proxy_request http no_regex a_request no_routes (elected.node 2).certificate_state
    ≡ some (challenge_answer "token")
unfolding proxy_request prepare put init deliver lookup insert handle_if_challenge apply_challenge
answers = refl

proxy_request-prepared_example :
    (ch : Http01Challenge) × Among ch elected.prepared
    × (host_of a_request ≡ inr ch.domain)
    × ("/c" ≡ ch.path)
    × (ch.contents ≡ "token")
proxy_request-prepared_example =
    proxy_request-prepared lib secrets issue ReadIn http no_regex name_of senator_of elected 2
      a_request no_routes "token" run_elected answers

delivered-proxied_example :
    proxy_request http no_regex a_request no_routes (elected.node 2).certificate_state
    ≡ some (challenge_answer "token")
unfolding host_of prepare put init deliver
delivered-proxied_example =
    delivered-proxied lib secrets issue ReadIn http no_regex name_of senator_of prepared elected
      (views_of 2) 2 2 a_challenge [] [] a_request no_routes run_prepared on_wire onward
      (λ other among at_domain at_path. elim among [
        | inl same ↦ ap (λ c. c.contents) (sym same)
        | inr none_ ↦ absurd none_
      ])
      refl refl

abbrev after : Holding (List ℕ) Secrets
after =
    (check_for_new_certificates lib secrets issue hosts
      (record { certs = (elected.node 2).certificate_state.certs; world = [] })).1

went_through :
    check_for_new_certificates lib secrets issue hosts
      (record { certs = (elected.node 2).certificate_state.certs; world = [] })
    ≡ (ok tt, after)
unfolding check_for_new_certificates lookup insert in_unary to_json read_unary from_slice ◌>>=◌
    for_each prepare put init deliver apply_challenge
went_through = refl

read_back : ReadsBack lib (entries_of after.certs)
unfolding check_for_new_certificates lookup insert in_unary to_json read_unary from_slice ◌>>=◌
    for_each prepare put init deliver apply_challenge
read_back = record { from_slice-to_json = refl; byte_string-encode = refl }

Reachable-get_certs_example : get_certs lib secrets after.world ≡ some after.certs
Reachable-get_certs_example =
    Reachable-get_certs lib secrets issue ReadIn name_of senator_of elected 2 hosts [] after
      run_elected secrets-IsSecretsApi went_through read_back

-- The ingress 2 looks for certificates.
abbrev certified : Cluster (List ℕ)
certified =
    change lib secrets issue (views_of 2) 2 [] hosts [] (record (senator_of 2) { role = leader })
      elected

no_secret : get_certs lib secrets [] ≡ some []
unfolding get_certs lookup
no_secret = refl

run_certified : Run certified
run_certified = next run_elected (
    changes (views_of 2) 2 [] hosts [] [] (record (senator_of 2) { role = leader })
      (inr (refl, no_secret)))

-- A configuration is the private key.
abbrev config : List (List ℕ) → List ℕ → Option (List ℕ)
config certs key = some key

configured :
    resolve_server_config config (certified.node 2).certificate_state (some "b.com")
    ≡ resolved (3 ∷ [])
unfolding resolve_server_config change handle_change check check_for_new_certificates lookup insert
    in_unary to_json read_unary from_slice ◌>>=◌ for_each prepare put init deliver apply_challenge
configured = refl

resolve_server_config-IsKnown_example :
    (k : CertKey (List ℕ)) × (config k.certs k.private_key ≡ some (3 ∷ []))
    × (((w : Secrets) × (m : List (String × CertKey (List ℕ))) × ReadIn w
          × (get_certs lib secrets w ≡ some m)
          × (lookup "b.com" m ≡ some k))
        ⊎ IsIssued lib secrets issue "b.com" k.certs k.private_key)
resolve_server_config-IsKnown_example =
    resolve_server_config-IsKnown lib secrets issue ReadIn config name_of senator_of certified 2
      "b.com" (3 ∷ []) run_certified configured
