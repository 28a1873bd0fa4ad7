-- ===== src/Ingress/Tests.antt =====
-- Small ingresses, resources and requests, and what the theorems say of them.
use mathlib.Core.Path.{subst}
use Prim.Native.String.{◌++◌ as concat}
use text.Mathlib.Text.{starts_with}
use text.Mathlib.TextBridge.{IsPrefix}
use text.Mathlib.TextEquality.{starts_with_iff}
use text.Mathlib.TextLemmas.{append_cancel_left, append_assoc}
use drawbridge_ingress.Prelude.{
  ℕ, zero, suc, ◌≡◌, refl, sym, ap, ◌∙◌, ◌↔◌, true, false, Option, none, some, List, [], ◌∷◌, inl,
  inr, arith, Among, Bool,
}
use drawbridge_ingress.Prelude.Maps.{String, lookup, insert, string_eq, pair_eq}
use drawbridge_ingress.Congress.Types.{leader, custom, Senator, follower, spawn_send}
use drawbridge_ingress.Ingress.Certificates.{
  CertificateState, Http01Challenge, CertKey, handle_if_challenge,
}
use drawbridge_ingress.Ingress.Leadership.{
  Views, LeadershipSystem, share_state, on_message, prepare_challenge, request_state, handle_change,
}
use drawbridge_ingress.Ingress.Leadership.CatchUp.{handle_change-catches_up}
use drawbridge_ingress.Ingress.Leadership.Replication.{
  count, SeesOnce, take_all, answer, share_state-replicates,
}
use drawbridge_ingress.Ingress.Routing.{
  RegexApi, Backend, IngressResource, IngressRule, IngressPath, supported, handle_ingress,
  handle_all, get_backend, backends_of, new as new_table,
}
use drawbridge_ingress.Ingress.Routing.Table.{IsRegex}
use drawbridge_ingress.Ingress.Routing.Requests.{
  new-IsSound, handle_ingress-routes, handle_ingress-keeps_routes, get_backend-IsPrefix,
}
use drawbridge_ingress.Prelude.Http.{opaque, visible}
use drawbridge_ingress.Ingress.Proxy.{
  Request, Response, challenge_answer, relayed, HyperApi, host_of, path_and_query, request_to,
  upgrade_to, proxy_request,
}
use drawbridge_ingress.Ingress.Proxy.Answers.{
  prepare_challenge-proxied, proxy_request_total, relayed-get_backend,
}

-- Certificates, whose certified key is the private key.
abbrev sign : List (List ℕ) → List ℕ → Option (List ℕ)
sign certs key = some key

abbrev cert : CertKey (List ℕ)
cert = record { certs = (1 ∷ []) ∷ []; private_key = 7 ∷ []; certified_key = 7 ∷ [] }

-- A leader with one challenge and one certificate, and a follower with none.
abbrev a_challenge : Http01Challenge
a_challenge = record { path = "/c"; contents = "token"; challenge_url = "u"; domain = "a.com" }

abbrev leading : Senator
leading = record {
  id = 1;
  role = leader;
  term = 2;
  voted_for = none;
  next_timeout = 0;
  current_leader = none;
  on_role = [];
  on_message = [];
}

abbrev the_leader : LeadershipSystem (List ℕ)
the_leader = record {
  certificate_state = record {
    certs = ("a.com", cert) ∷ [];
    challenges = (("a.com", "/c"), a_challenge) ∷ [];
  };
  current_pod_name = "one";
  senator = leading;
  cert_generator = true;
}

abbrev a_follower : LeadershipSystem (List ℕ)
a_follower = record {
  certificate_state = record { certs = []; challenges = [] };
  current_pod_name = "two";
  senator = leading;
  cert_generator = false;
}

nothing : lookup {K = String × String} {V = Http01Challenge} ("a.com", "/c") [] ≡ none
unfolding lookup
nothing = refl

-- The peers of the leader, one of which comes later, and its term, which has moved on by then.
abbrev two_peers : Views
two_peers zero = record { members = 2 ∷ []; senator = leading }
two_peers (suc n) = record { members = 3 ∷ 2 ∷ []; senator = record leading { term = 3 } }

a_peer : SeesOnce 2 two_peers
unfolding count
a_peer zero = refl
a_peer (suc n) = refl

share_state-replicates_example :
    ((take_all 2 (share_state two_peers the_leader) a_follower).certificate_state.certs
      ≡ ("a.com", cert) ∷ [])
    × (handle_if_challenge "a.com" "/c"
          (take_all 2 (share_state two_peers the_leader) a_follower).certificate_state
        ≡ answer
            (lookup ("a.com", "/c") the_leader.certificate_state.challenges)
            (handle_if_challenge "a.com" "/c" a_follower.certificate_state))
share_state-replicates_example =
    share_state-replicates 2 two_peers the_leader a_follower "a.com" "/c" a_peer refl
      ((refl, tt), (nothing, tt))

abbrev asking : LeadershipSystem (List ℕ)
asking = record a_follower { senator = record leading { id = 2; role = follower } }

abbrev no_check : CertificateState (List ℕ) → CertificateState (List ℕ) × Bool
no_check s = (s, true)

-- What the follower reads.
abbrev asked : Views
asked n = record { members = 3 ∷ 1 ∷ []; senator = asking.senator }

handle_change-catches_up_example :
    (handle_change (λ s. s) no_check leading asked asking ≡ (
      asking,
      spawn_send 3 2 (custom request_state) ∷ spawn_send 1 2 (custom request_state) ∷ [],
      true,
    ))
    × ((take_all 2
          (on_message two_peers 2 (custom request_state) the_leader).1
          asking).certificate_state.certs
        ≡ ("a.com", cert) ∷ [])
    × (handle_if_challenge "a.com" "/c"
          (take_all 2
            (on_message two_peers 2 (custom request_state) the_leader).1
            asking).certificate_state
        ≡ answer
            (lookup ("a.com", "/c") the_leader.certificate_state.challenges)
            (handle_if_challenge "a.com" "/c" asking.certificate_state))
handle_change-catches_up_example =
    handle_change-catches_up (λ s. s) no_check leading asked two_peers 2 the_leader asking "a.com"
      "/c" refl a_peer refl (omega arith) ((refl, tt), (nothing, tt))

-- Regular expressions that are compared with `^` and the path.
abbrev pub regex : RegexApi String
regex = record {
  new = λ p. some p;
  escape = λ p. p;
  as_str = λ r. r;
  is_match = λ r path. starts_with (concat "^" path) r;
}

regex_begins :
    (p path : String) → (starts_with (concat "^" path) (concat "^" p) ≡ true) ↔ IsPrefix p path
regex_begins p path = (
  λ h.
      let (u, e) = (starts_with_iff (concat "^" path) (concat "^" p)).0 h in
      (u, append_cancel_left "^" (concat p u) path (sym (append_assoc "^" p u) ∙ e)),
  λ h.
      let (u, e) = h in
      (starts_with_iff (concat "^" path) (concat "^" p)).1
        (u, append_assoc "^" p u ∙ ap (concat "^") e),
)

pub regex-IsRegex : IsRegex regex
regex-IsRegex = record {
  as_str_new = λ p r made. let e : some p ≡ some r = made in let f : p ≡ r = cc in sym f;
  match_iff = λ p path r made.
      let e : some (concat "^" p) ≡ some r = made in
      let f : concat "^" p ≡ r = cc in
      subst (λ x. (starts_with (concat "^" path) x ≡ true) ↔ IsPrefix p path) f
        (regex_begins p path);
}

abbrev pub the_path : IngressPath
the_path = record {
  path = some "/api";
  path_type = some "Prefix";
  service = some (record { name = "api"; port = some (record { number = some 80 }) });
}

abbrev the_rule : IngressRule
the_rule = record { host = some "a.com"; http = some (the_path ∷ []) }

abbrev the_resource : IngressResource
the_resource = record { namespace = some "web"; spec = some (some (the_rule ∷ [])) }

the_path-supported :
    supported the_path
    ≡ some (record { path_prefix = "/api"; service_name = "api"; service_port = 80 })
unfolding supported
the_path-supported = refl

handled : (handle_ingress regex the_resource new_table).1 ≡ true
unfolding handle_ingress new_table
handled = refl

routed :
    get_backend regex "a.com" "/api/x" (handle_all regex (the_resource ∷ []) new_table)
    ≡ inr "api.web"
unfolding get_backend handle_all new_table lookup insert
routed = refl

begins : IsPrefix "/api" "/api/x"
begins = ("/x", refl)

handle_ingress-routes_example :
    (name : String) × (get_backend regex "a.com" "/api/x"
        (handle_ingress regex the_resource new_table).0
      ≡ inr name)
handle_ingress-routes_example =
    handle_ingress-routes regex regex-IsRegex "a.com" "/api/x" the_resource (the_rule ∷ []) the_rule
      (the_path ∷ []) the_path
      (record { path_prefix = "/api"; service_name = "api"; service_port = 80 }) new_table
      (new-IsSound regex) refl (inl refl) refl refl (inl refl) the_path-supported begins handled

handle_ingress-keeps_routes_example :
    (later : String) × (get_backend regex "a.com" "/api/x"
        (handle_ingress regex the_resource (handle_all regex (the_resource ∷ []) new_table)).0
      ≡ inr later)
handle_ingress-keeps_routes_example =
    handle_ingress-keeps_routes regex "a.com" "/api/x" "api.web" the_resource
      (handle_all regex (the_resource ∷ []) new_table) routed

get_backend-IsPrefix_example :
    (b : Backend String) × Among b
      (backends_of "a.com" (handle_all regex (the_resource ∷ []) new_table))
    × (b.host ≡ "a.com")
    × (b.service_name ≡ "api.web")
    × ((p : String) × (regex.new (concat "^" (regex.escape p)) ≡ some b.path_regex)
        × IsPrefix p "/api/x")
get_backend-IsPrefix_example =
    get_backend-IsPrefix regex regex-IsRegex "a.com" "/api/x" "api.web" (the_resource ∷ []) routed

-- A server that answers with the backend it was asked for.
abbrev http : HyperApi ℕ String String
http = record {
  uri_from_str = λ s. some s;
  to_lowercase = λ s. s;
  request = λ f. elim f [ upgrade_to u r ↦ some u | request_to u r ↦ some u ];
}

abbrev a_request : String → Request ℕ
a_request path = record {
  host = some (visible "a.com");
  upgrade = none;
  authority_host = none;
  path = path;
  query = some "q";
  rest = 0;
}

of_host : (path : String) → host_of (a_request path) ≡ inr "a.com"
unfolding host_of
of_host path = refl

prepare_challenge-proxied_example :
    proxy_request http regex
      (a_request "/c")
      new_table
      (prepare_challenge (2 ∷ []) a_challenge a_follower).0.certificate_state
    ≡ some (challenge_answer "token")
prepare_challenge-proxied_example =
    prepare_challenge-proxied http regex (2 ∷ []) a_challenge a_follower (a_request "/c") new_table
      (of_host "/c") refl

proxy_request_total_example :
    (response : Response String) × (proxy_request http regex
        (a_request "/c")
        new_table
        the_leader.certificate_state
      ≡ some response)
proxy_request_total_example =
    proxy_request_total http regex (a_request "/c") new_table the_leader.certificate_state
      (λ e. let f : none ≡ some opaque = e in cc)

relayed_body :
    proxy_request http regex
      (a_request "/api/x")
      (handle_all regex (the_resource ∷ []) new_table)
      a_follower.certificate_state
    ≡ some (relayed "http://api.web/api/x?q")
unfolding proxy_request handle_all new_table handle_if_challenge lookup get_backend insert
relayed_body = refl

relayed-get_backend_example :
    (host backend : String) × (uri : String) × (host_of (a_request "/api/x") ≡ inr host)
    × (get_backend regex host "/api/x" (handle_all regex (the_resource ∷ []) new_table)
        ≡ inr backend)
    × (http.uri_from_str (concat (concat "http://" backend) (path_and_query (a_request "/api/x")))
        ≡ some uri)
    × (http.request (request_to uri 0) ≡ some "http://api.web/api/x?q")
relayed-get_backend_example =
    relayed-get_backend http regex (a_request "/api/x")
      (handle_all regex (the_resource ∷ []) new_table) a_follower.certificate_state
      "http://api.web/api/x?q" relayed_body
