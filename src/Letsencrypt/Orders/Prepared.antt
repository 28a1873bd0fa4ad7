-- ===== src/Letsencrypt/Orders/Prepared.antt =====
-- Challenges that are prepared, and requests to validate them (letsencrypt/src/order.rs).
use mathlib.Core.Path.{subst}
use drawbridge_ingress.Prelude.{
  ◌≡◌, refl, ap, true, Option, none, some, List, [], ◌∷◌, ◌⊎◌, inl, inr, All, Among, Bool-cases,
  Option-cases,
}
use drawbridge_ingress.Prelude.Maps.{String}
use drawbridge_ingress.Prelude.Action.{
  ok, err, Action, fail, for_each, Keeps, pure-Keeps, or_fail-Keeps, >>=-Keeps, >>=-eq-ok,
  for_each-ok,
}
use drawbridge_ingress.Letsencrypt.{LetsEncryptError, could_not_validate_challenge, Http01Challenge}
use drawbridge_ingress.Letsencrypt.Jwt.{Payload, JwsProtected, Crypto, get_jwt}
use drawbridge_ingress.Letsencrypt.Client.{
  Method, post, HttpRequest, HttpResponse, Directory, Formats, Account, send, build, get_nonce,
  send_request, get_signing_key, request_as,
}
use drawbridge_ingress.Letsencrypt.Orders.{Messages, report, await_validation, validate}
use drawbridge_ingress.Letsencrypt.Orders.Nonces.{
  Event, exchanged, prepared, Server, traced, send-same,
}
use drawbridge_ingress.Letsencrypt.Orders.Kept.{await_validation-Keeps, validate-Keeps}

-- A successful answer from the challenge's URL, after the challenge was prepared.
abbrev pub ServedFirst : Http01Challenge → List Event → Type 0
ServedFirst c [] = ⊥
ServedFirst c (exchanged req (some response) ∷ h) =
    ((req.url ≡ c.challenge_url) × (response.is_success ≡ true) × Among (prepared c) h)
    ⊎ ServedFirst c h
ServedFirst c (exchanged req none ∷ h) = ServedFirst c h
ServedFirst c (prepared d ∷ h) = ServedFirst c h

ServedFirst-grows :
    (c : Http01Challenge) (e : Event) (h : List Event) → ServedFirst c h → ServedFirst c (e ∷ h)
ServedFirst-grows c (exchanged req (some response)) h served = inr served
ServedFirst-grows c (exchanged req none) h served = served
ServedFirst-grows c (prepared d) h served = served

module _ {SigningKey : Type 0} (crypto : Crypto SigningKey) (server : Server)
    (formats : Formats) where
  -- What stays true as more happens outside.
  module _ (P : List Event → Type 0) (grows : (e : Event) (h : List Event) → P h → P (e ∷ h)) where
    send-grows : (req : HttpRequest) → Keeps P (send (traced server) formats req)
    unfolding send traced
    send-grows req = record {
      at_world = λ h p. elim (Option-cases (server h req)) [
        | inl failed ↦ rw (send, failed) (grows (exchanged req (server h req)) h p)
        | inr (response, answered) ↦ rw (send, answered) (grows (exchanged req (server h req)) h p)
      ];
    }

    build-grows : (url : String) → Keeps P (build (traced server) formats url)
    unfolding build
    build-grows url = record {
      at_world = λ h p. elim (Bool-cases (formats.is_uri url)) [
        | inl fine ↦ rw (build, fine) p
        | inr bad ↦ rw (build, bad) p
      ];
    }

    get_nonce-grows :
        (directory : Directory) → Keeps P (get_nonce (traced server) formats directory)
    unfolding get_nonce
    get_nonce-grows directory = >>=-Keeps (build-grows directory.new_nonce) λ _.
        >>=-Keeps (send-grows _)
          λ response. >>=-Keeps (or_fail-Keeps _ _) λ value. or_fail-Keeps _ _

    get_jwt-grows :
        (key : SigningKey) (header : JwsProtected) (payload : Payload)
        → Keeps P (get_jwt crypto key header payload)
    unfolding get_jwt
    get_jwt-grows key header payload =
        >>=-Keeps (or_fail-Keeps _ _) λ json. >>=-Keeps (or_fail-Keeps _ _) λ body. pure-Keeps _

    send_request-grows :
        (method : Method) (directory : Directory) (url : String) (key : SigningKey)
        (kid : Option String) (payload : Payload)
        → Keeps P (send_request (traced server) formats crypto method directory url key kid payload)
    unfolding send_request
    send_request-grows method directory url key kid payload =
        >>=-Keeps (get_nonce-grows directory) λ nonce.
          >>=-Keeps (get_jwt-grows _ _ _) λ jws. >>=-Keeps (build-grows url) λ _. send-grows _

    after :
        {A : Type 0} (m : Action (List Event) LetsEncryptError A) (a : A) (h h' : List Event)
        → Keeps P m
        → m h ≡ (ok a, h')
        → P h
        → P h'
    after m a h h' kept ran p = subst (λ r. P r.1) ran (kept.at_world h p)

  -- A failed request that is reported ends in an error.
  report-fails :
      (response : HttpResponse) (e : LetsEncryptError) (u : Unit {0}) (h h' : List Event)
      → report (traced server) formats response e h ≡ (ok u, h')
      → ⊥
  unfolding report fail
  report-fails response e u h h' done =
      let (text, h1, read, then1) = >>=-eq-ok _ _ h done in
      let no : (err e, h1) ≡ (ok u, h') = then1 in cc

  module _ {PKey : Type 0} (account : Account PKey) where
    -- What held before a request that was answered holds before its exchange.
    request_as-sent :
        (P : List Event → Type 0)
        → ((e : Event) (h : List Event) → P h → P (e ∷ h))
        → (url : String) (payload : Payload) (h h' : List Event) (response : HttpResponse) → P h
        → request_as (traced server) formats crypto account url payload h ≡ (ok response, h')
        → (req : HttpRequest) × (h1 : List Event) × (req.url ≡ url)
          × (exchanged req (some response) ∷ h1 ≡ h')
          × P h1
    unfolding request_as send_request get_signing_key
    request_as-sent P grows url payload h h' response p done =
        let (key, h1, got, then1) = >>=-eq-ok _ _ h done in
        let (nonce, h2, fetched, then2) = >>=-eq-ok _ _ h1 then1 in
        let (jws, h3, signed, then3) = >>=-eq-ok _ _ h2 then2 in
        let (u, h4, built, then4) = >>=-eq-ok _ _ h3 then3 in
        let p1 = after P grows _ key h h1 (or_fail-Keeps _ _) got p in
        let p2 =
          after P grows _ nonce h1 h2 (get_nonce-grows P grows account.directory) fetched p1 in
        let p3 = after P grows _ jws h2 h3 (get_jwt-grows P grows _ _ _) signed p2 in
        let p4 = after P grows _ u h3 h4 (build-grows P grows url) built p3 in
        (_, h4, refl, send-same crypto account.directory server formats _ h4 h' response then4, p4)

    module _ (message : Messages) where
      validate-ServedFirst :
          (auth : String × Http01Challenge) (h h' : List Event)
          → validate (traced server) formats crypto message account auth h ≡ (ok tt, h')
          → ServedFirst auth.1 h'
      unfolding validate traced
      validate-ServedFirst (authorization, c) h h' done =
          let P = ServedFirst c in
          let grows = ServedFirst-grows c in
          let (u, h1, made, then1) = >>=-eq-ok _ _ h done in
          let (response, h2, asked, then2) = >>=-eq-ok _ _ h1 then1 in
          let ready : Among (prepared c) h1 =
            subst (Among (prepared c)) (ap (λ r. r.1) made) (inl refl) in
          let (req, h3, at_url, sent, first) =
            request_as-sent (Among (prepared c)) (λ e w. inr) c.challenge_url _ h1 h2 response ready
              asked in
          elim (Bool-cases response.is_success) [
            | inl success ↦
                let ran : await_validation (traced server) formats crypto message account
                      authorization c 5 1 h2
                    ≡ (ok tt, h') =
                  rw (success) at then2 in
                after P grows
                  (await_validation (traced server) formats crypto message account authorization c 5
                    1)
                  tt h2 h'
                  (await_validation-Keeps (traced server) formats crypto account P
                    (λ url key kid payload.
                      send_request-grows P grows post account.directory url key kid payload)
                    (λ d w. grows (prepared d) w) message authorization c 5 1)
                  ran (subst P sent (inl (at_url, success, first)))
            | inr failed ↦
                let ran : report (traced server) formats response
                      (could_not_validate_challenge (message c none)) h2
                    ≡ (ok tt, h') =
                  rw (failed) at then2 in
                let no : ⊥ = report-fails response _ tt h2 h' ran in absurd no
          ]

      -- When the loop of `new_order` over the challenges went through, each challenge was prepared
      -- before its URL was asked to validate it, and the server answered that with success.
      pub for_each-validate-ServedFirst :
          (auths : List (String × Http01Challenge)) (h h' : List Event)
          → for_each (validate (traced server) formats crypto message account) auths h ≡ (ok tt, h')
          → All (λ auth. ServedFirst auth.1 h') auths
      unfolding traced
      for_each-validate-ServedFirst auths h h' done =
          for_each-ok (validate (traced server) formats crypto message account)
            (λ auth. ServedFirst auth.1) validate-ServedFirst
            (λ auth other.
              validate-Keeps (traced server) formats crypto account (ServedFirst auth.1)
                (λ url key kid payload.
                  send_request-grows (ServedFirst auth.1) (ServedFirst-grows auth.1) post
                    account.directory url key kid payload)
                (λ d w. ServedFirst-grows auth.1 (prepared d) w) message other)
            auths h h' done
