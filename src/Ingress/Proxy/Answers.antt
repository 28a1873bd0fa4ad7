-- ===== src/Ingress/Proxy/Answers.antt =====
-- What the proxy answers (drawbridge_ingress/src/proxy.rs).
use Prim.Native.String.{◌++◌ as concat}
use drawbridge_ingress.Prelude.{
  ◌≡◌, ◌≢◌, refl, false, Option, none, some, List, ◌⊎◌, inl, inr, arith, Bool-cases, Option-cases,
  Sum-cases, Bool,
}
use drawbridge_ingress.Prelude.Maps.{String, str_eq, beq_refl, pair_eq}
use drawbridge_ingress.Congress.Types.{NodeId}
use drawbridge_ingress.Ingress.Error.{IngressLoadBalancerError}
use drawbridge_ingress.Ingress.Certificates.{
  Http01Challenge, CertificateState, apply_challenge, handle_if_challenge,
}
use drawbridge_ingress.Ingress.Certificates.Serving.{handle-apply_challenge}
use drawbridge_ingress.Ingress.Leadership.{LeadershipSystem, prepare_challenge}
use drawbridge_ingress.Ingress.Routing.{RegexApi, RoutingTable, get_backend}
use drawbridge_ingress.Prelude.Http.{HeaderValue, opaque, visible}
use drawbridge_ingress.Ingress.Proxy.{
  Request, request_to, Response, challenge_answer, healthy, relayed, bad_gateway, HyperApi,
  path_and_query, host_of, forward_uri, is_websocket_upgrade, send_on, forward_to, proxy_host,
  call_proxy, proxy_request,
}

module _ {Rest Uri Body : Type 0} (hyper : HyperApi Rest Uri Body) where
  legible_upgrade :
      (u : Option HeaderValue)
      → u ≢ some opaque
      → (websocket : Bool) × (is_websocket_upgrade hyper u ≡ some websocket)
  unfolding is_websocket_upgrade
  legible_upgrade none legible = (false, refl)
  legible_upgrade (some opaque) legible = absurd (legible refl)
  legible_upgrade (some (visible t)) legible = (str_eq (hyper.to_lowercase t) "websocket", refl)

  forward_to-relayed :
      (websocket : Bool) (backend : String) (r : Request Rest) (body : Body)
      → forward_to hyper websocket backend r ≡ inr (relayed body)
      → (uri : Uri) × (hyper.uri_from_str (concat (concat "http://" backend) (path_and_query r))
          ≡ some uri)
        × (hyper.request (request_to uri r.rest) ≡ some body)
  unfolding forward_to forward_uri send_on
  forward_to-relayed websocket backend r body got =
      elim (Option-cases
        (hyper.uri_from_str (concat (concat "http://" backend) (path_and_query r)))) [
          | inl bad ↦ ground (arith, bad)
          | inr (uri, parsed) ↦ (uri, parsed, ground (arith, parsed))
        ]

module _ {Rest Uri Body Regex : Type 0} (hyper : HyperApi Rest Uri Body) (re : RegexApi Regex) where
  proxy_host_total :
      (host : String) (r : Request Rest) (rt : RoutingTable Regex)
      → r.upgrade ≢ some opaque
      → (result : IngressLoadBalancerError ⊎ Response Body) × (proxy_host hyper re host r rt
          ≡ some result)
  unfolding proxy_host
  proxy_host_total host r rt legible = elim (Bool-cases (str_eq r.path "/health-check")) [
    | inl health ↦ (inr healthy, rw (proxy_host, health) refl)
    | inr other ↦ elim (Sum-cases (get_backend re host r.path rt)) [
      | inl (e, missing) ↦ (inl e, rw (proxy_host, other, missing) refl)
      | inr (backend, found) ↦
          let (websocket, read) = legible_upgrade hyper r.upgrade legible in
          (forward_to hyper websocket backend r, rw (proxy_host, other, found, read) refl)
    ]
  ]

  proxy_host-relayed :
      (host : String) (r : Request Rest) (rt : RoutingTable Regex) (body : Body)
      → proxy_host hyper re host r rt ≡ some (inr (relayed body))
      → (backend : String) × (uri : Uri) × (get_backend re host r.path rt ≡ inr backend)
        × (hyper.uri_from_str (concat (concat "http://" backend) (path_and_query r)) ≡ some uri)
        × (hyper.request (request_to uri r.rest) ≡ some body)
  unfolding proxy_host
  proxy_host-relayed host r rt body got = elim (Bool-cases (str_eq r.path "/health-check")) [
    | inl health ↦
        let no : some (inr healthy) ≡ some (inr (relayed body)) = rw (proxy_host, health) at got in
        cc
    | inr plain ↦ elim (Sum-cases (get_backend re host r.path rt)) [
      | inl (e, missing) ↦
          let no : some (inl e) ≡ some (inr (relayed body)) =
            rw (proxy_host, plain, missing) at got in
          cc
      | inr (backend, found) ↦ elim (Option-cases (is_websocket_upgrade hyper r.upgrade)) [
        | inl illegible ↦
            let no : none ≡ some (inr (relayed body)) =
              rw (proxy_host, plain, found, illegible) at got in
            cc
        | inr (websocket, read) ↦
            let sent : some (forward_to hyper websocket backend r) ≡ some (inr (relayed body)) =
              rw (proxy_host, plain, found, read) at got in
            let (uri, parsed, answered) = forward_to-relayed hyper websocket backend r body cc in
            (backend, uri, found, parsed, answered)
      ]
    ]
  ]

module _ {Rest Uri Body Regex Key : Type 0} (hyper : HyperApi Rest Uri Body)
    (re : RegexApi Regex) where
  -- Once the ingress prepared a challenge, it answers a request for the challenge's domain and path
  -- by the challenge's contents, whatever the routing table holds.
  pub prepare_challenge-proxied :
      (members : List NodeId) (c : Http01Challenge) (l : LeadershipSystem Key) (r : Request Rest)
      (rt : RoutingTable Regex)
      → host_of r ≡ inr c.domain
      → r.path ≡ c.path
      → proxy_request hyper re r rt (prepare_challenge members c l).0.certificate_state
        ≡ some (challenge_answer c.contents)
  unfolding prepare_challenge proxy_request
  prepare_challenge-proxied members c l r rt hosted path =
      let s = apply_challenge c l.certificate_state in
      let served : handle_if_challenge c.domain r.path s ≡ some c.contents =
        rw
          (
            path,
            handle-apply_challenge c l.certificate_state c.domain c.path,
            beq_refl {K = String × String} (c.domain, c.path),
          )
          refl in
      rw (proxy_request, call_proxy, hosted, served) refl

  call_proxy_total :
      (r : Request Rest) (rt : RoutingTable Regex) (s : CertificateState Key)
      → r.upgrade ≢ some opaque
      → (result : IngressLoadBalancerError ⊎ Response Body) × (call_proxy hyper re r rt s
          ≡ some result)
  unfolding call_proxy
  call_proxy_total r rt s legible = elim (Sum-cases (host_of r)) [
    | inl (e, bad) ↦ (inl e, rw (call_proxy, bad) refl)
    | inr (host, read) ↦ elim (Option-cases (handle_if_challenge host r.path s)) [
      | inr (contents, served) ↦
          (inr (challenge_answer contents), rw (call_proxy, read, served) refl)
      | inl plain ↦
          let (result, e) = proxy_host_total hyper re host r rt legible in
          (result, rw (call_proxy, read, plain) e)
    ]
  ]

  -- Every request whose header `Upgrade` is absent or visible text gets a response.
  pub proxy_request_total :
      (r : Request Rest) (rt : RoutingTable Regex) (s : CertificateState Key)
      → r.upgrade ≢ some opaque
      → (response : Response Body) × (proxy_request hyper re r rt s ≡ some response)
  unfolding proxy_request
  proxy_request_total r rt s legible =
      let (result, e) = call_proxy_total r rt s legible in
      elim (Sum-cases result) [
        | inl (error, failed) ↦ (bad_gateway error, rw (proxy_request, e, failed) refl)
        | inr (response, went) ↦ (response, rw (proxy_request, e, went) refl)
      ]

  call_proxy-relayed :
      (r : Request Rest) (rt : RoutingTable Regex) (s : CertificateState Key) (body : Body)
      → proxy_request hyper re r rt s ≡ some (relayed body)
      → call_proxy hyper re r rt s ≡ some (inr (relayed body))
  unfolding proxy_request
  call_proxy-relayed r rt s body got = elim (Option-cases (call_proxy hyper re r rt s)) [
    | inl panics ↦ let no : none ≡ some (relayed body) = rw (proxy_request, panics) at got in cc
    | inr (result, e) ↦ elim (Sum-cases result) [
      | inl (error, failed) ↦
          let no : some (bad_gateway error) ≡ some (relayed body) =
            rw (proxy_request, e, failed) at got in
          cc
      | inr (response, went) ↦
          let same : some response ≡ some (relayed body) = rw (proxy_request, e, went) at got in cc
    ]
  ]

  -- A response that was relayed came from a backend that the routing table has for the request's
  -- host and path, and was asked for with the request's path and query.
  pub relayed-get_backend :
      (r : Request Rest) (rt : RoutingTable Regex) (s : CertificateState Key) (body : Body)
      → proxy_request hyper re r rt s ≡ some (relayed body)
      → (host backend : String) × (uri : Uri) × (host_of r ≡ inr host)
        × (get_backend re host r.path rt ≡ inr backend)
        × (hyper.uri_from_str (concat (concat "http://" backend) (path_and_query r)) ≡ some uri)
        × (hyper.request (request_to uri r.rest) ≡ some body)
  unfolding proxy_request call_proxy
  relayed-get_backend r rt s body got =
      let asked = call_proxy-relayed r rt s body got in
      elim (Sum-cases (host_of r)) [
        | inl (e, bad) ↦
            let no : some (inl e) ≡ some (inr (relayed body)) = rw (call_proxy, bad) at asked in cc
        | inr (host, read) ↦ elim (Option-cases (handle_if_challenge host r.path s)) [
          | inr (contents, served) ↦
              let no : some (inr (challenge_answer contents)) ≡ some (inr (relayed body)) =
                rw (call_proxy, read, served) at asked in
              cc
          | inl plain ↦
              let (backend, uri, found, parsed, answered) =
                proxy_host-relayed hyper re host r rt body
                  (rw (call_proxy, read, plain) at asked) in
              (host, backend, uri, read, found, parsed, answered)
        ]
      ]
