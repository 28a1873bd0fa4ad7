-- ===== src/Letsencrypt/Orders/Nonces.antt =====
-- Signed requests, their URLs and their nonces (letsencrypt/src/account.rs, jwt.rs and nonce.rs),
-- with any server and a record of what was sent.
use mathlib.Core.Path.{subst}
use drawbridge_ingress.Prelude.{
  ◌≡◌, refl, ◌∙◌, sym, ap, Option, none, some, List, [], ◌∷◌, inl, inr, arith, Bool-cases,
  Option-cases,
}
use drawbridge_ingress.Prelude.Maps.{String}
use drawbridge_ingress.Prelude.Http.{HeaderValue, to_str}
use drawbridge_ingress.Prelude.Action.{
  ok, err, panic, pure, or_fail, Keeps, pure-Keeps, or_fail-Keeps, expect-Keeps, >>=-then,
  >>=-Keeps, >>=-eq-ok,
}
use drawbridge_ingress.Letsencrypt.{LetsEncryptError, hyper_error, Http01Challenge}
use drawbridge_ingress.Letsencrypt.Jwt.{Jws, JwsProtected, Payload, Crypto, get_jwt}
use drawbridge_ingress.Letsencrypt.Client.{
  Method, head, HttpRequest, HttpResponse, Outside, Directory, Formats, send, build, read_body,
  response_debug_string, get_nonce, location_of, send_request,
}

-- What happened outside, the latest first.
pub data Event : Type 0 where
  exchanged : HttpRequest → Option HttpResponse → Event
  prepared : Http01Challenge → Event

-- Any server: its answer may depend on all that happened before.
abbrev pub Server : Type 0
Server = List Event → HttpRequest → Option HttpResponse

unfoldable pub traced : Server → Outside (List Event)
traced server = record {
  request = λ req h. (server h req, exchanged req (server h req) ∷ h);
  prepare_challenge = λ c h. prepared c ∷ h;
}

-- The latest event is the server's answer `nonce` to a request for one.
abbrev pub Fetched : Directory → String → List Event → Type 0
Fetched directory nonce (exchanged req (some response) ∷ h) =
    (req.method ≡ head)
    × (req.url ≡ directory.new_nonce)
    × ((value : HeaderValue) × (response.replay_nonce ≡ some value) × (to_str value ≡ some nonce))
Fetched directory nonce (exchanged req none ∷ h) = ⊥
Fetched directory nonce (prepared c ∷ h) = ⊥
Fetched directory nonce [] = ⊥

module _ {SigningKey : Type 0} (crypto : Crypto SigningKey) (directory : Directory) where
  -- A signed body names the URL that it is sent to, and the nonce that was fetched just before.
  abbrev pub IsFresh : Option Jws → String → List Event → Type 0
  IsFresh none url h = Unit
  IsFresh (some jws) url h =
      (header : JwsProtected) × (json : String) × (crypto.protected_json header ≡ some json)
      × (jws.protected ≡ crypto.base64_url (crypto.as_bytes json))
      × (header.url ≡ url)
      × Fetched directory header.nonce h

  abbrev pub AllFresh : List Event → Type 0
  AllFresh [] = Unit
  AllFresh (exchanged req r ∷ h) = IsFresh req.body req.url h × AllFresh h
  AllFresh (prepared c ∷ h) = AllFresh h

  module _ (server : Server) (formats : Formats) where
    send-fresh :
        (req : HttpRequest) (h : List Event)
        → IsFresh req.body req.url h
        → AllFresh h
        → AllFresh (send (traced server) formats req h).1
    unfolding send traced
    send-fresh req h fresh all = elim (Option-cases (server h req)) [
      | inl failed ↦ rw (send, failed) (fresh, all)
      | inr (response, answered) ↦ rw (send, answered) (fresh, all)
    ]

    build-Keeps : (url : String) → Keeps AllFresh (build (traced server) formats url)
    unfolding build
    build-Keeps url = record { at_world = λ h all. ground (arith, Bool-cases (formats.is_uri url)) }

    get_nonce-Keeps : Keeps AllFresh (get_nonce (traced server) formats directory)
    unfolding get_nonce
    get_nonce-Keeps = >>=-Keeps (build-Keeps directory.new_nonce) λ _.
        >>=-Keeps
          (record {
            at_world = λ h all.
                send-fresh
                  (record {
                    method = head;
                    url = directory.new_nonce;
                    content_type = none;
                    body = none;
                  })
                  h tt all;
          })
          λ response. >>=-Keeps (or_fail-Keeps _ _) λ value. or_fail-Keeps _ _

    pub or_fail-same :
        {A : Type 0} (o : Option A) (e : LetsEncryptError) (h h' : List Event) (a : A)
        → or_fail o e h ≡ (ok a, h')
        → (o ≡ some a) × (h ≡ h')
    unfolding or_fail
    or_fail-same none e h h' a done = cc
    or_fail-same (some b) e h h' a done = (cc, ap (λ r. r.1) done)

    pure-same :
        {A : Type 0} (a b : A) (h h' : List Event)
        → pure {E = LetsEncryptError} a h ≡ (ok b, h')
        → (a ≡ b) × (h ≡ h')
    unfolding pure
    pure-same a b h h' done = (cc, ap (λ r. r.1) done)

    build-same :
        (url : String) (h h' : List Event) (u : Unit {0})
        → build (traced server) formats url h ≡ (ok u, h')
        → h ≡ h'
    unfolding build
    build-same url h h' u done = elim (Bool-cases (formats.is_uri url)) [
      | inl fine ↦ ap (λ r. r.1) (rw (build, fine) at done)
      | inr bad ↦ let no : (panic, h) ≡ (ok u, h') = rw (build, bad) at done in cc
    ]

    pub send-same :
        (req : HttpRequest) (h h' : List Event) (response : HttpResponse)
        → send (traced server) formats req h ≡ (ok response, h')
        → exchanged req (some response) ∷ h ≡ h'
    unfolding send traced
    send-same req h h' response done = elim (Option-cases (server h req)) [
      | inl failed ↦
          let no : (err hyper_error, exchanged req (server h req) ∷ h) ≡ (ok response, h') =
            rw (send, failed) at done in
          cc
      | inr (r, answered) ↦
          let yes : (ok r, exchanged req (server h req) ∷ h) ≡ (ok response, h') =
            rw (send, answered) at done in
          cc
    ]

    -- The nonce that `get_nonce` returns is the one that was fetched last.
    get_nonce-Fetched :
        (h h' : List Event) (nonce : String)
        → get_nonce (traced server) formats directory h ≡ (ok nonce, h')
        → Fetched directory nonce h'
    unfolding get_nonce
    get_nonce-Fetched h h' nonce done =
        let (u, h1, built, then1) = >>=-eq-ok _ _ h done in
        let (response, h2, sent, then2) = >>=-eq-ok _ _ h1 then1 in
        let (value, h3, found, then3) = >>=-eq-ok _ _ h2 then2 in
        let (has_value, same) = or_fail-same _ _ h2 h3 value found in
        let (is_text, same') = or_fail-same _ _ h3 h' nonce then3 in
        let latest = send-same _ h1 h2 response sent in
        subst (Fetched directory nonce) (latest ∙ same ∙ same')
          (refl, refl, (value, has_value, is_text))

    get_jwt-signs :
        (key : SigningKey) (header : JwsProtected) (payload : Payload) (h h' : List Event)
        (jws : Jws)
        → get_jwt crypto key header payload h ≡ (ok jws, h')
        → (h ≡ h')
          × ((json : String) × (crypto.protected_json header ≡ some json)
              × (jws.protected ≡ crypto.base64_url (crypto.as_bytes json)))
    unfolding get_jwt
    get_jwt-signs key header payload h h' jws done =
        let (json, h1, written, then1) = >>=-eq-ok _ _ h done in
        let (body, h2, written', then2) = >>=-eq-ok _ _ h1 then1 in
        let (has_json, same) = or_fail-same _ _ h h1 json written in
        let (has_body, same') = or_fail-same _ _ h1 h2 body written' in
        let (made, same'') = pure-same _ jws h2 h' then2 in
        (same ∙ same' ∙ same'', (json, has_json, sym (ap (λ j. j.protected) made)))

    get_jwt-Keeps :
        (key : SigningKey) (header : JwsProtected) (payload : Payload)
        → Keeps AllFresh (get_jwt crypto key header payload)
    unfolding get_jwt
    get_jwt-Keeps key header payload =
        >>=-Keeps (or_fail-Keeps _ _) λ json. >>=-Keeps (or_fail-Keeps _ _) λ body. pure-Keeps _

    pub send_request-Keeps :
        (method : Method) (url : String) (key : SigningKey) (kid : Option String)
        (payload : Payload)
        → Keeps AllFresh
            (send_request (traced server) formats crypto method directory url key kid payload)
    unfolding send_request
    send_request-Keeps method url key kid payload = record {
      at_world = λ h all.
          >>=-then AllFresh (get_nonce (traced server) formats directory) _ h
            (get_nonce-Keeps.at_world h all)
            λ nonce h1 got.
              let fetched = get_nonce-Fetched h h1 nonce got in
              let all1 = subst (λ r. AllFresh r.1) got (get_nonce-Keeps.at_world h all) in
              >>=-then AllFresh _ _ h1 ((get_jwt-Keeps key _ payload).at_world h1 all1)
                λ jws h2 signed.
                  let (same, (json, has_json, protected)) =
                    get_jwt-signs key _ payload h1 h2 jws signed in
                  >>=-then AllFresh (build (traced server) formats url) _ h2
                    ((build-Keeps url).at_world h2 (subst AllFresh same all1))
                    λ u h3 built.
                      let same' = same ∙ build-same url h2 h3 u built in
                      send-fresh _ h3
                        (
                          _,
                          json,
                          has_json,
                          protected,
                          refl,
                          subst (Fetched directory nonce) same' fetched,
                        )
                        (subst AllFresh same' all1);
    }

    pub read_body-Keeps :
        (response : HttpResponse) → Keeps AllFresh (read_body (traced server) formats response)
    unfolding read_body
    read_body-Keeps response = or_fail-Keeps _ _

    pub response_debug_string-Keeps :
        (response : HttpResponse)
        → Keeps AllFresh (response_debug_string (traced server) formats response)
    unfolding response_debug_string
    response_debug_string-Keeps response = >>=-Keeps (read_body-Keeps response) λ body. pure-Keeps _

    pub location_of-Keeps :
        (response : HttpResponse) → Keeps AllFresh (location_of (traced server) formats response)
    unfolding location_of
    location_of-Keeps response = >>=-Keeps (or_fail-Keeps _ _) λ location. expect-Keeps _
