-- ===== src/Letsencrypt/Orders/Kept.antt =====
-- What an order keeps of the outside world, if signed requests and prepared challenges keep it
-- (letsencrypt/src/order.rs, challenge.rs and account.rs).
use drawbridge_ingress.Prelude.{
  ℕ, zero, suc, ◌+◌, Option, none, some, List, [], ◌∷◌, ◌⊎◌, inl, inr, Bool-cases, ltb,
  if◌then◌else◌,
}
use drawbridge_ingress.Prelude.Maps.{String, str_eq}
use drawbridge_ingress.Prelude.Action.{
  panic, Action, pure, fail, or_fail, ◌>>=◌, Keeps, pure-Keeps, fail-Keeps, or_fail-Keeps,
  expect-Keeps, if-Keeps, >>=-Keeps, for_each-Keeps,
}
use drawbridge_ingress.Letsencrypt.{LetsEncryptError, csr_error, Http01Challenge}
use drawbridge_ingress.Letsencrypt.Jwt.{Payload, Crypto}
use drawbridge_ingress.Letsencrypt.Client.{
  post, Outside, send_request, response_debug_string, location_of, HttpResponse, ChallengeEntry,
  Formats, Account, read_body, get_signing_key, request_as, thumbprint,
}
use drawbridge_ingress.Letsencrypt.Orders.{
  find_http_01, Messages, report, Openssl, get_order, get_authorisation, new_http_01_challenge,
  fetch_challenges, await_validation, validate, new_order, await_certificate, generate_csr,
  generate_certificate,
}

-- The branches at an entry, by the type that it has.
at_kind-Keeps :
    {W : Type 0} {P : W → Type 0} (c : ChallengeEntry)
    (rest : Action W LetsEncryptError ChallengeEntry) (kind : Option (Option String))
    → Keeps P rest
    → Keeps P (elim kind [
      | none ↦ λ w. (panic, w)
      | some k ↦ elim k [ none ↦ rest | some text ↦ if str_eq text "http-01" then pure c else rest ]
    ])
at_kind-Keeps c rest none kept = record { at_world = λ h all. all }
at_kind-Keeps c rest (some none) kept = kept
at_kind-Keeps c rest (some (some text)) kept = if-Keeps _ (pure-Keeps c) kept

find_http_01-Keeps :
    {W : Type 0} {P : W → Type 0} (cs : List ChallengeEntry) → Keeps P (find_http_01 cs)
unfolding find_http_01
find_http_01-Keeps [] = fail-Keeps _
find_http_01-Keeps (c ∷ cs) = at_kind-Keeps c _ c.kind (find_http_01-Keeps cs)

module _ {W SigningKey PKey : Type 0} (outside : Outside W) (formats : Formats)
    (crypto : Crypto SigningKey) (account : Account PKey) (P : W → Type 0)
    (sends : (url : String) (key : SigningKey) (kid : Option String) (payload : Payload)
      → Keeps P (send_request outside formats crypto post account.directory url key kid payload))
    (prepares : (c : Http01Challenge) (w : W) → P w → P (outside.prepare_challenge c w)) where
  abbrev Kept : {A : Type 0} → Action W LetsEncryptError A → Type 0
  Kept m = Keeps P m

  read_body-Keeps : (response : HttpResponse) → Kept (read_body outside formats response)
  unfolding read_body
  read_body-Keeps response = or_fail-Keeps _ _

  response_debug_string-Keeps :
      (response : HttpResponse) → Kept (response_debug_string outside formats response)
  unfolding response_debug_string
  response_debug_string-Keeps response = >>=-Keeps (read_body-Keeps response) λ body. pure-Keeps _

  location_of-Keeps : (response : HttpResponse) → Kept (location_of outside formats response)
  unfolding location_of
  location_of-Keeps response = >>=-Keeps (or_fail-Keeps _ _) λ location. expect-Keeps _

  get_signing_key-Keeps : Kept (get_signing_key outside formats crypto account)
  unfolding get_signing_key
  get_signing_key-Keeps = or_fail-Keeps _ _

  request_as-Keeps :
      (url : String) (payload : Payload)
      → Kept (request_as outside formats crypto account url payload)
  unfolding request_as
  request_as-Keeps url payload = >>=-Keeps get_signing_key-Keeps λ key. sends _ _ _ _

  thumbprint-Keeps : (token : String) → Kept (thumbprint outside formats crypto account token)
  unfolding thumbprint
  thumbprint-Keeps token =
      >>=-Keeps get_signing_key-Keeps λ key. >>=-Keeps (or_fail-Keeps _ _) λ json. pure-Keeps _

  report-Keeps :
      (A : Type 0) (response : HttpResponse) (e : LetsEncryptError)
      → Kept {A = A} (report outside formats response e)
  unfolding report
  report-Keeps A response e = >>=-Keeps (response_debug_string-Keeps response) λ text. fail-Keeps _

  asked-Keeps :
      {A : Type 0} (url : String) (payload : Payload) (read : List ℕ → Option A)
      (e : LetsEncryptError)
      → Kept (
          request_as outside formats crypto account url payload >>= λ response.
          read_body outside formats response >>= λ body. or_fail (read body) e)
  asked-Keeps url payload read e =
      >>=-Keeps (request_as-Keeps url payload)
        λ response. >>=-Keeps (read_body-Keeps response) λ body. or_fail-Keeps _ _

  get_order-Keeps : (url : String) → Kept (get_order outside formats crypto account url)
  unfolding get_order
  get_order-Keeps url = asked-Keeps url _ _ _

  get_authorisation-Keeps :
      (url : String) → Kept (get_authorisation outside formats crypto account url)
  unfolding get_authorisation
  get_authorisation-Keeps url = asked-Keeps url _ _ _

  new_http_01_challenge-Keeps :
      (authorization : String)
      → Kept (new_http_01_challenge outside formats crypto account authorization)
  unfolding new_http_01_challenge
  new_http_01_challenge-Keeps authorization =
      >>=-Keeps (get_authorisation-Keeps authorization) λ response.
        >>=-Keeps (find_http_01-Keeps response.challenges) λ challenge.
          >>=-Keeps (or_fail-Keeps _ _) λ token.
            >>=-Keeps (or_fail-Keeps _ _)
              λ url. >>=-Keeps (thumbprint-Keeps token) λ key_authorization. pure-Keeps _

  fetch_challenges-Keeps :
      (authorizations : List String)
      → Kept (fetch_challenges outside formats crypto account authorizations)
  unfolding fetch_challenges
  fetch_challenges-Keeps [] = pure-Keeps _
  fetch_challenges-Keeps (a ∷ as') =
      >>=-Keeps (new_http_01_challenge-Keeps a)
        λ challenge. >>=-Keeps (fetch_challenges-Keeps as') λ rest. pure-Keeps _

  module _ (message : Messages) where
    pub await_validation-Keeps :
        (authorization : String) (challenge : Http01Challenge) (left i : ℕ)
        → Kept
            (await_validation outside formats crypto message account authorization challenge left i)
    unfolding await_validation
    await_validation-Keeps authorization challenge zero i = pure-Keeps _
    await_validation-Keeps authorization challenge (suc left) i =
        >>=-Keeps (get_authorisation-Keeps authorization) λ a.
          if-Keeps _ (await_validation-Keeps authorization challenge left (i + 1))
            (if-Keeps _ (pure-Keeps _) (fail-Keeps _))

    pub validate-Keeps :
        (auth : String × Http01Challenge)
        → Kept (validate outside formats crypto message account auth)
    unfolding validate
    validate-Keeps (authorization, challenge) =
        >>=-Keeps (record { at_world = prepares challenge })
          λ u. >>=-Keeps (request_as-Keeps challenge.challenge_url _) λ response.
            if-Keeps _ (await_validation-Keeps authorization challenge 5 1)
              (report-Keeps _ response _)

    new_order-Keeps :
        (domains : List String) → Kept (new_order outside formats crypto message account domains)
    unfolding new_order
    new_order-Keeps domains = >>=-Keeps (request_as-Keeps _ _) λ response.
        >>=-Keeps (if-Keeps _ (pure-Keeps _) (report-Keeps _ response _)) λ u.
          >>=-Keeps (location_of-Keeps response) λ order_url.
            >>=-Keeps (get_order-Keeps order_url) λ order.
              >>=-Keeps (fetch_challenges-Keeps order.authorizations) λ auths.
                >>=-Keeps (for_each-Keeps _ validate-Keeps auths)
                  λ u'. >>=-Keeps (get_order-Keeps order_url) λ final. pure-Keeps _

    await_certificate-Keeps :
        (order_url : String) (i fuel : ℕ)
        → Kept (await_certificate outside formats crypto message account order_url i fuel)
    unfolding await_certificate
    await_certificate-Keeps order_url i zero = record { at_world = λ h all. all }
    await_certificate-Keeps order_url i (suc fuel) =
        let round = >>=-Keeps (get_order-Keeps order_url) λ order.
          if-Keeps (str_eq order.status "valid") (or_fail-Keeps _ _)
            (await_certificate-Keeps order_url i fuel) in
        record {
          at_world = λ h all. elim (Bool-cases (ltb 6 i)) [
            | inl high ↦ rw (high) all
            | inr low ↦ rw (low) (round.at_world h all)
          ];
        }

    made-Keeps :
        (made : String ⊎ List ℕ)
        → Kept {A = String} (elim made [
          | inl text ↦ fail (csr_error text)
          | inr der ↦ pure (crypto.base64_url der)
        ])
    made-Keeps (inl text) = fail-Keeps _
    made-Keeps (inr der) = pure-Keeps _

    module _ (openssl : Openssl PKey) where
      generate_csr-Keeps :
          (domains : List String)
          → Kept (generate_csr outside formats crypto message openssl account domains)
      unfolding generate_csr
      generate_csr-Keeps domains =
          >>=-Keeps (expect-Keeps _) λ names. >>=-Keeps (expect-Keeps _) λ made. made-Keeps made

      pub generate_certificate-Keeps :
          (fuel : ℕ) (domains : List String)
          → Kept (generate_certificate outside formats crypto message openssl fuel account domains)
      unfolding generate_certificate
      generate_certificate-Keeps fuel domains = >>=-Keeps (generate_csr-Keeps domains) λ csr.
          >>=-Keeps (new_order-Keeps domains) λ urls.
            >>=-Keeps (request_as-Keeps urls.1 _) λ response.
              >>=-Keeps (if-Keeps _ (pure-Keeps _) (report-Keeps _ response _)) λ u.
                >>=-Keeps (await_certificate-Keeps urls.0 1 fuel) λ cert_url.
                  >>=-Keeps (request_as-Keeps cert_url _) λ cert_data.
                    >>=-Keeps (if-Keeps _ (pure-Keeps _) (report-Keeps _ cert_data _)) λ u'.
                      >>=-Keeps (read_body-Keeps cert_data)
                        λ cert. >>=-Keeps (or_fail-Keeps _ _) λ pem. pure-Keeps _
