-- ===== src/Ingress/Cluster/Served.antt =====
-- What the ingresses of a cluster answer to the certificate authority, and what they store
-- (drawbridge_ingress/src/proxy.rs, leadership_system.rs and lets_encrypt.rs).
use mathlib.Core.Path.{subst}
use drawbridge_ingress.Prelude.{
  ℕ, ◌≡◌, ◌≢◌, refl, sym, ap, ◌∙◌, Bool, none, some, List, ◌∷◌, ◌++◌, inl, inr, arith, Among,
  Option-cases, Sum-cases, ==_iff,
}
use drawbridge_ingress.Prelude.Maps.{String, lookup, pair_eq, All-lookup, beq_refl}
use drawbridge_ingress.Prelude.Action.{Action, ok}
use drawbridge_ingress.Congress.Types.{NodeId, Senator}
use drawbridge_ingress.Letsencrypt.{LetsEncryptError}
use drawbridge_ingress.Letsencrypt.Certificate.{Certificate}
use drawbridge_ingress.Ingress.Certificates.{
  Http01Challenge, CertKey, CertificateState, handle_if_challenge,
}
use drawbridge_ingress.Ingress.Certificates.Serving.{handle-apply_challenge}
use drawbridge_ingress.Ingress.Generator.{
  Libraries, SecretsApi, Holding, entries_of, get_certs, check_for_new_certificates,
}
use drawbridge_ingress.Ingress.Generator.Storing.{
  IsSecretsApi, ReadsBack, IsStorable, get_certs-IsStorable, check_for_new_certificates-IsStorable,
  get_certs-check_for_new_certificates,
}
use drawbridge_ingress.Ingress.Leadership.{Views, challenge, on_message}
use drawbridge_ingress.Ingress.Routing.{RegexApi, RoutingTable}
use drawbridge_ingress.Ingress.Proxy.{
  Request, challenge_answer, bad_gateway, HyperApi, host_of, send_on, forward_to, proxy_host,
  call_proxy, proxy_request,
}
use drawbridge_ingress.Ingress.Cluster.{Sent, Cluster, put, deliver, Reachable, delivers, next}
use drawbridge_ingress.Ingress.Cluster.Invariant.{Sound}
use drawbridge_ingress.Ingress.Cluster.Steps.{KeepsCerts, Reachable-IsSound}
use drawbridge_ingress.Ingress.Cluster.Kept.{Answered, Onward, Onward-Answered, Onward-Reachable}

-- An answer to a challenge comes from the challenges that the ingress holds, and from nowhere else.
module _ {Rest Uri Body Regex : Type 0} (hyper : HyperApi Rest Uri Body) (re : RegexApi Regex) where
  no_answer_sent :
      (websocket : Bool) (backend text : String) (r : Request Rest)
      → forward_to hyper websocket backend r ≢ inr (challenge_answer text)
  unfolding forward_to send_on
  no_answer_sent websocket backend text r got = ground arith

  proxy_host-no_answer :
      (host text : String) (r : Request Rest) (rt : RoutingTable Regex)
      → proxy_host hyper re host r rt ≢ some (inr (challenge_answer text))
  unfolding proxy_host
  proxy_host-no_answer host text r rt got =
      ground
        (arith, λ (websocket : Bool) (backend : String). no_answer_sent websocket backend text r)

module _ {Rest Uri Body Regex Key : Type 0} (hyper : HyperApi Rest Uri Body)
    (re : RegexApi Regex) where
  handle_if_challenge-proxied :
      (host text : String) (r : Request Rest) (rt : RoutingTable Regex) (s : CertificateState Key)
      → host_of r ≡ inr host
      → handle_if_challenge host r.path s ≡ some text
      → proxy_request hyper re r rt s ≡ some (challenge_answer text)
  unfolding proxy_request
  handle_if_challenge-proxied host text r rt s hosted served =
      rw (proxy_request, call_proxy, hosted, served) refl

  call_proxy-answer :
      (text : String) (r : Request Rest) (rt : RoutingTable Regex) (s : CertificateState Key)
      → call_proxy hyper re r rt s ≡ some (inr (challenge_answer text))
      → (host : String) × (host_of r ≡ inr host) × (handle_if_challenge host r.path s ≡ some text)
  unfolding call_proxy
  call_proxy-answer text r rt s got = elim (Sum-cases (host_of r)) [
    | inl (e, bad) ↦
        let no : some (inl e) ≡ some (inr (challenge_answer text)) = rw (call_proxy, bad) at got in
        cc
    | inr (host, read) ↦ elim (Option-cases (handle_if_challenge host r.path s)) [
      | inl plain ↦
          absurd
            (proxy_host-no_answer hyper re host text r rt (rw (call_proxy, read, plain) at got))
      | inr (contents, served) ↦
          let same : some (inr (challenge_answer contents)) ≡ some (inr (challenge_answer text)) =
            rw (call_proxy, read, served) at got in
          (host, read, served ∙ cc)
    ]
  ]

  proxy_request-answer :
      (text : String) (r : Request Rest) (rt : RoutingTable Regex) (s : CertificateState Key)
      → proxy_request hyper re r rt s ≡ some (challenge_answer text)
      → call_proxy hyper re r rt s ≡ some (inr (challenge_answer text))
  unfolding proxy_request
  proxy_request-answer text r rt s got = elim (Option-cases (call_proxy hyper re r rt s)) [
    | inl panics ↦
        let no : none ≡ some (challenge_answer text) = rw (proxy_request, panics) at got in cc
    | inr (result, e) ↦ elim (Sum-cases result) [
      | inl (error, failed) ↦
          let no : some (bad_gateway error) ≡ some (challenge_answer text) =
            rw (proxy_request, e, failed) at got in
          cc
      | inr (response, went) ↦
          let same : some response ≡ some (challenge_answer text) =
            rw (proxy_request, e, went) at got in
          cc
    ]
  ]

-- What the certificates of an ingress are made of can be stored.
storable :
    {Key W : Type 0} (lib : Libraries Key) (secrets : SecretsApi W)
    (issue : String → Action W LetsEncryptError Certificate) (ReadIn : W → Type 0)
    → KeepsCerts lib secrets issue ReadIn (IsStorable lib secrets)
storable lib secrets issue ReadIn = record {
  none_yet = (tt, tt);
  read = λ w m _ found. get_certs-IsStorable lib secrets w m found;
  checked = check_for_new_certificates-IsStorable lib secrets issue;
}

-- A challenge of some list that has the domain, the path and the contents.
abbrev FromOne : List Http01Challenge → String → String → String → Type 0
FromOne prepared domain path text =
    (ch : Http01Challenge) × Among ch prepared
    × (ch.domain ≡ domain)
    × (ch.path ≡ path)
    × (ch.contents ≡ text)

handle_if_challenge-FromOne :
    {Key : Type 0} (Q : List (String × CertKey Key) → Type 0) (prepared : List Http01Challenge)
    (domain path text : String) (s : CertificateState Key)
    → Sound Q prepared s
    → handle_if_challenge domain path s ≡ some text
    → FromOne prepared domain path text
unfolding handle_if_challenge
handle_if_challenge-FromOne Q prepared domain path text s (_, (keyed, _), known) served =
    elim (Option-cases (lookup (domain, path) s.challenges)) [
      | inl missing ↦ let no : none ≡ some text = rw (handle_if_challenge, missing) at served in cc
      | inr (ch, found) ↦
          let same : some ch.contents ≡ some text = rw (handle_if_challenge, found) at served in
          let at : (ch.domain, ch.path) ≡ (domain, path) =
            All-lookup (λ entry. (entry.1.domain, entry.1.path) ≡ entry.0) (domain, path) ch
              s.challenges keyed found in
          let same_text : ch.contents ≡ text = cc in
          (
            ch,
            All-lookup (λ entry. Among entry.1 prepared) (domain, path) ch s.challenges known found,
            ap (λ q. q.0) at,
            ap (λ q. q.1) at,
            same_text,
          )
    ]

module _ {Key W Rest Uri Body Regex : Type 0} (lib : Libraries Key) (secrets : SecretsApi W)
    (issue : String → Action W LetsEncryptError Certificate) (ReadIn : W → Type 0)
    (hyper : HyperApi Rest Uri Body) (re : RegexApi Regex) where
  -- At any time in any run of a cluster of ingresses that begins with no messages: when an ingress
  -- answers a request as a challenge, then the answer is the contents of a challenge that some
  -- ingress prepared, and the request is for the domain and the path of that challenge.
  pub proxy_request-prepared :
      (name : ℕ → String) (senator : ℕ → Senator) (c : Cluster Key) (i : ℕ) (r : Request Rest)
      (rt : RoutingTable Regex) (text : String)
      → Reachable lib secrets issue ReadIn name senator c
      → proxy_request hyper re r rt (c.node i).certificate_state ≡ some (challenge_answer text)
      → (ch : Http01Challenge) × Among ch c.prepared
        × (host_of r ≡ inr ch.domain)
        × (r.path ≡ ch.path)
        × (ch.contents ≡ text)
  proxy_request-prepared name senator c i r rt text reached got =
      let s = (c.node i).certificate_state in
      let (host, read, served) =
        call_proxy-answer hyper re text r rt s (proxy_request-answer hyper re text r rt s got) in
      let (ch, among, at_host, at_path, same) =
        handle_if_challenge-FromOne (IsStorable lib secrets) c.prepared host r.path text s
          ((Reachable-IsSound lib secrets issue ReadIn (IsStorable lib secrets)
              (storable lib secrets issue ReadIn) reached).0
            i)
          served in
      (ch, among, read ∙ ap inr (sym at_host), sym at_path, same)

  delivered-Answered :
      (views : Views) (to : NodeId) (term : ℕ) (ch : Http01Challenge) (c : Cluster Key)
      → Answered ch.domain ch.path
          ((deliver views (record { to = to; term = term; msg = challenge ch }) c).node
            to).certificate_state
  unfolding deliver put on_message
  delivered-Answered views to term ch c = rw ((==_iff to to).1 refl) (
    ch.contents,
    handle-apply_challenge ch (c.node to).certificate_state ch.domain ch.path
        ∙ rw (beq_refl {K = String × String} (ch.domain, ch.path)) refl,
  )

  -- A message with a challenge is delivered to an ingress of a cluster, in any term and whatever was
  -- delivered before. Then, after any further steps of the cluster among which the ingress is not
  -- started again, it answers a request for the domain and path of the challenge by its contents,
  -- whatever the routing table holds, if no challenge with other contents was prepared for the same
  -- domain and path.
  pub delivered-proxied :
      (name : ℕ → String) (senator : ℕ → Senator) (c d : Cluster Key) (views : Views) (to : NodeId)
      (term : ℕ) (ch : Http01Challenge) (before after : List (Sent Key)) (r : Request Rest)
      (rt : RoutingTable Regex)
      → Reachable lib secrets issue ReadIn name senator c
      → c.wire ≡ before ++ record { to = to; term = term; msg = challenge ch } ∷ after
      → Onward lib secrets issue ReadIn to
          (deliver views
            (record { to = to; term = term; msg = challenge ch })
            (record c { wire = before ++ after }))
          d
      → ((other : Http01Challenge)
          → Among other d.prepared
          → other.domain ≡ ch.domain
          → other.path ≡ ch.path
          → other.contents ≡ ch.contents)
      → host_of r ≡ inr ch.domain
      → r.path ≡ ch.path
      → proxy_request hyper re r rt (d.node to).certificate_state
        ≡ some (challenge_answer ch.contents)
  delivered-proxied name senator c d views to term ch before after r rt reached at onward agree
        hosted path =
      let m : Sent Key = record { to = to; term = term; msg = challenge ch } in
      let s = (d.node to).certificate_state in
      let later =
        Onward-Reachable lib secrets issue ReadIn onward
          (next reached (delivers views m before after at)) in
      let (text, served) =
        Onward-Answered lib secrets issue ReadIn ch.domain ch.path onward
          (delivered-Answered views to term ch (record c { wire = before ++ after })) in
      let (other, among, at_domain, at_path, contents) =
        handle_if_challenge-FromOne (IsStorable lib secrets) d.prepared ch.domain ch.path text s
          ((Reachable-IsSound lib secrets issue ReadIn (IsStorable lib secrets)
              (storable lib secrets issue ReadIn) later).0
            to)
          served in
      let same : text ≡ ch.contents = sym contents ∙ agree other among at_domain at_path in
      handle_if_challenge-proxied hyper re ch.domain ch.contents r rt s hosted (
        subst (λ p. handle_if_challenge ch.domain p s ≡ some ch.contents) (sym path)
          (served ∙ ap some same))

-- At any time in any run of a cluster of ingresses that begins with no messages: when a check for
-- new certificates goes through at an ingress, from the certificates that it holds then, the
-- certificates that are read from the secret afterwards are those of that ingress, in their order,
-- if Kubernetes keeps what is written, and what `serde_json` and `base64` make of these
-- certificates is read back.
pub Reachable-get_certs :
    {Key W : Type 0} (lib : Libraries Key) (secrets : SecretsApi W)
    (issue : String → Action W LetsEncryptError Certificate) (ReadIn : W → Type 0)
    (name : ℕ → String) (senator : ℕ → Senator) (c : Cluster Key) (i : ℕ) (hosts : List String)
    (w : W) (s' : Holding Key W)
    → Reachable lib secrets issue ReadIn name senator c
    → IsSecretsApi secrets
    → check_for_new_certificates lib secrets issue hosts
        (record { certs = (c.node i).certificate_state.certs; world = w })
      ≡ (ok tt, s')
    → ReadsBack lib (entries_of s'.certs)
    → get_certs lib secrets s'.world ≡ some s'.certs
Reachable-get_certs lib secrets issue ReadIn name senator c i hosts w s' reached law done coded =
    get_certs-check_for_new_certificates lib secrets issue hosts
      (record { certs = (c.node i).certificate_state.certs; world = w }) s' law
      ((Reachable-IsSound lib secrets issue ReadIn (IsStorable lib secrets)
          (storable lib secrets issue ReadIn) reached).0
        i).0
      done coded
