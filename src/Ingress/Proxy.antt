-- ===== src/Ingress/Proxy.antt =====
-- drawbridge_ingress/src/proxy.rs: how a request is answered or forwarded. `hyper` is a parameter:
-- the client that sends a request on, the parser of URIs, and what it reads of headers. The texts
-- of errors are left out where `hyper` makes them; logging is left out.
pub mod Answers
use Prim.Native.String.{◌++◌ as concat}
use drawbridge_ingress.Prelude.{
  ℕ, Bool, true, false, Option, none, some, List, ◌⊎◌, inl, inr, if◌then◌else◌,
}
use drawbridge_ingress.Prelude.Maps.{String, str_eq}
use drawbridge_ingress.Prelude.Http.{HeaderValue, opaque, visible}
use drawbridge_ingress.Ingress.Error.{
  Code, non_existent_host, IngressLoadBalancerError, general, other, hyper_error,
}
use drawbridge_ingress.Ingress.Certificates.{CertificateState, handle_if_challenge}
use drawbridge_ingress.Ingress.Routing.{RegexApi, RoutingTable, get_backend}

-- What the code reads of a request: its headers `Host` and `Upgrade`, and its URI's parts. `rest`
-- is what is sent on as it is.
pub record Request (Rest : Type 0) : Type 0 where
  pub host : Option HeaderValue
  pub upgrade : Option HeaderValue
  pub authority_host : Option String
  pub path : String
  pub query : Option String
  pub rest : Rest

-- What is sent on. A request for an upgrade goes on with its method and headers, and no body; any
-- other as it is, in version 1.1.
pub data Forward (Rest Uri : Type 0) : Type 0 where
  upgrade_to : Uri → Rest → Forward Rest Uri
  request_to : Uri → Rest → Forward Rest Uri

-- `tunnel` is the response to an upgrade, with which the two streams are copied onto each other.
pub data Response (Body : Type 0) : Type 0 where
  challenge_answer : String → Response Body
  healthy : Response Body
  relayed : Body → Response Body
  tunnel : Body → Response Body
  bad_gateway : IngressLoadBalancerError → Response Body

-- `from_str` of `Uri`, `to_lowercase`, and the answer of the client's `request`.
pub record HyperApi (Rest Uri Body : Type 0) : Type 0 where
  pub uri_from_str : String → Option Uri
  pub to_lowercase : String → String
  pub request : Forward Rest Uri → Option Body

unfoldable pub path_and_query : {Rest : Type 0} → Request Rest → String
path_and_query r = elim r.query [ none ↦ r.path | some query ↦ concat (concat r.path "?") query ]

-- The host of the request: its header comes first.
unfoldable pub host_parts : Option HeaderValue → Option String → IngressLoadBalancerError ⊎ String
host_parts (some opaque) authority = inl (general non_existent_host "Could not parse host header")
host_parts (some (visible host)) authority = inr host
host_parts none (some host) = inr host
host_parts none none = inl (general non_existent_host "no host or authority header found")

unfoldable pub host_of : {Rest : Type 0} → Request Rest → IngressLoadBalancerError ⊎ String
unfolding host_parts
host_of r = host_parts r.host r.authority_host

module _ {Rest Uri Body : Type 0} (hyper : HyperApi Rest Uri Body) where
  unfoldable pub forward_uri : String → Request Rest → IngressLoadBalancerError ⊎ Uri
  unfolding path_and_query
  forward_uri forward_url r = elim (hyper.uri_from_str (concat forward_url (path_and_query r))) [
    | none ↦ inl (other "")
    | some uri ↦ inr uri
  ]

  -- `none` is the panic of `unwrap` on an opaque header.
  unfoldable pub is_websocket_upgrade : Option HeaderValue → Option Bool
  is_websocket_upgrade none = some false
  is_websocket_upgrade (some opaque) = none
  is_websocket_upgrade (some (visible t)) = some (str_eq (hyper.to_lowercase t) "websocket")

  unfoldable pub send_on :
      (Body → Response Body) → Forward Rest Uri → IngressLoadBalancerError ⊎ Response Body
  send_on respond f = elim (hyper.request f) [
    | none ↦ inl hyper_error
    | some body ↦ inr (respond body)
  ]

  unfoldable pub forward_to :
      Bool → String → Request Rest → IngressLoadBalancerError ⊎ Response Body
  unfolding forward_uri send_on
  forward_to websocket backend r = elim (forward_uri (concat "http://" backend) r) [
    | inl e ↦ inl e
    | inr uri ↦
        if websocket
        then send_on tunnel (upgrade_to uri r.rest)
        else send_on relayed (request_to uri r.rest)
  ]

  -- A request that is no challenge, of a host that was read.
  module _ {Regex : Type 0} (re : RegexApi Regex) where
    unfoldable pub proxy_host :
        String
        → Request Rest
        → RoutingTable Regex
        → Option (IngressLoadBalancerError ⊎ Response Body)
    unfolding is_websocket_upgrade forward_to
    proxy_host host r rt =
        if str_eq r.path "/health-check"
        then some (inr healthy)
        else elim (get_backend re host r.path rt) [
          | inl e ↦ some (inl e)
          | inr backend ↦ elim (is_websocket_upgrade r.upgrade) [
            | none ↦ none
            | some websocket ↦ some (forward_to websocket backend r)
          ]
        ]

  module _ {Regex Key : Type 0} (re : RegexApi Regex) where
    -- `none` is a panic.
    unfoldable pub call_proxy :
        Request Rest
        → RoutingTable Regex
        → CertificateState Key
        → Option (IngressLoadBalancerError ⊎ Response Body)
    unfolding host_of proxy_host
    call_proxy r rt certs = elim (host_of r) [
      | inl e ↦ some (inl e)
      | inr host ↦ elim (handle_if_challenge host r.path certs) [
        | some contents ↦ some (inr (challenge_answer contents))
        | none ↦ proxy_host re host r rt
      ]
    ]

    unfoldable pub proxy_request :
        Request Rest → RoutingTable Regex → CertificateState Key → Option (Response Body)
    unfolding call_proxy
    proxy_request r rt certs = elim (call_proxy r rt certs) [
      | none ↦ none
      | some result ↦ elim result [ inl e ↦ some (bad_gateway e) | inr response ↦ some response ]
    ]
