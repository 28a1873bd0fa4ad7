-- ===== src/Letsencrypt/Orders.antt =====
-- letsencrypt/src/order.rs, challenge.rs and account.rs: an order for a certificate, from its
-- challenges to the certificate. `openssl` is a parameter; sleeps and logging are left out.
pub mod Nonces
pub mod Kept
pub mod Prepared
pub mod Fresh
pub mod Waiting
mod Tests
use Prim.Native.String.{◌++◌ as concat}
use drawbridge_ingress.Prelude.{
  ℕ, zero, suc, ◌+◌, Bool, true, false, ◌||◌, Option, none, some, List, [], ◌∷◌, ◌⊎◌, inl, inr, ltb,
  if◌then◌else◌,
}
use drawbridge_ingress.Prelude.Maps.{String, str_eq}
use drawbridge_ingress.Prelude.Action.{
  Outcome, ok, err, panic, unfinished, Action, pure, fail, or_fail, expect, ◌>>=◌, ◌>>◌, for_each,
}
use drawbridge_ingress.Letsencrypt.{
  LetsEncryptError, could_not_create_order, could_not_get_challenge, could_not_validate_challenge,
  could_not_finalise_order, could_not_get_order, csr_error, private_key_error, OrderResponse,
  Http01Challenge,
}
use drawbridge_ingress.Letsencrypt.Certificate.{Certificate}
use drawbridge_ingress.Letsencrypt.Jwt.{
  Payload, new_order_of, certificate_request, empty_string, empty_object, Crypto,
}
use drawbridge_ingress.Letsencrypt.Client.{
  HttpResponse, Outside, Formats, ChallengeEntry, AuthorizationResponse, Account, read_body,
  response_debug_string, location_of, request_as, thumbprint,
}

-- The names of a signing request: `"DNS:a, DNS:b"` without its first four bytes, for which there
-- must be a domain.
unfoldable pub more_names : List String → String
more_names [] = ""
more_names (domain ∷ domains) = concat (concat ", DNS:" domain) (more_names domains)

unfoldable pub csr_names : List String → Option String
unfolding more_names
csr_names [] = none
csr_names (domain ∷ domains) = some (concat domain (more_names domains))

-- `create` makes a signing request for names, in DER or the text of an error; `expect` panics on
-- what `openssl` refuses. `to_pem` writes a private key.
pub record Openssl (PKey : Type 0) : Type 0 where
  pub create : PKey → String → Option (String ⊎ List ℕ)
  pub to_pem : PKey → Option (List ℕ)

-- The texts that `format!` makes of a challenge that failed at an attempt.
abbrev pub Messages : Type 0
Messages = Http01Challenge → Option ℕ → String

module _ {W : Type 0} where
  -- The first challenge of the type `http-01`; an entry without a type panics.
  unfoldable pub find_http_01 : List ChallengeEntry → Action W LetsEncryptError ChallengeEntry
  find_http_01 [] = fail could_not_get_challenge
  find_http_01 (c ∷ cs) =
      let rest = find_http_01 cs in
      elim c.kind [
        | none ↦ λ w. (panic, w)
        | some kind ↦ elim kind [
          | none ↦ rest
          | some text ↦ if str_eq text "http-01" then pure c else rest
        ]
      ]

  -- What an answer about the order brings: the certificate's URL, or another round.
  unfoldable pub certificate_of :
      OrderResponse → Action W LetsEncryptError String → Action W LetsEncryptError String
  certificate_of order rest =
      if str_eq order.status "valid"
      then or_fail order.certificate could_not_finalise_order
      else rest

module _ {W : Type 0} (message : Messages) where
  -- What an attempt's status brings: another attempt, the end of the loop, or an error.
  unfoldable pub settle :
      Http01Challenge
      → ℕ
      → String
      → Action W LetsEncryptError (Unit {0})
      → Action W LetsEncryptError (Unit {0})
  settle challenge i status rest =
      if str_eq status "pending"
      then rest
      else if str_eq status "valid" || str_eq status "ready"
      then pure tt
      else fail (could_not_validate_challenge (message challenge (some i)))

module _ {W : Type 0} (outside : Outside W) (formats : Formats) where
  -- A failed request: its text is read for the log, and the error is returned.
  unfoldable pub report :
      {A : Type 0} → HttpResponse → LetsEncryptError → Action W LetsEncryptError A
  unfolding response_debug_string
  report response e = do _ ← response_debug_string outside formats response; fail e

module _ {W SigningKey PKey : Type 0} (outside : Outside W) (formats : Formats)
    (crypto : Crypto SigningKey) where
  unfoldable pub get_order : Account PKey → String → Action W LetsEncryptError OrderResponse
  unfolding request_as read_body
  get_order account order_url = do
    response ← request_as outside formats crypto account order_url empty_string
    body ← read_body outside formats response
    or_fail (formats.order body) could_not_get_order

  unfoldable pub get_authorisation :
      Account PKey → String → Action W LetsEncryptError AuthorizationResponse
  unfolding request_as read_body
  get_authorisation account authorization_url = do
    response ← request_as outside formats crypto account authorization_url empty_string
    body ← read_body outside formats response
    or_fail (formats.authorization body) could_not_get_challenge

  unfoldable pub new_http_01_challenge :
      Account PKey → String → Action W LetsEncryptError Http01Challenge
  unfolding get_authorisation find_http_01 thumbprint
  new_http_01_challenge account authorization = do
    response ← get_authorisation account authorization
    challenge ← find_http_01 response.challenges
    token ← or_fail challenge.token could_not_get_challenge
    url ← or_fail challenge.url could_not_get_challenge
    key_authorization ← thumbprint outside formats crypto account token
    pure (record {
      path = concat "/.well-known/acme-challenge/" token;
      domain = response.identifier;
      contents = key_authorization;
      challenge_url = url;
    })

  unfoldable pub fetch_challenges :
      Account PKey → List String → Action W LetsEncryptError (List (String × Http01Challenge))
  unfolding new_http_01_challenge
  fetch_challenges account [] = pure []
  fetch_challenges account (authorization ∷ authorizations) = do
    challenge ← new_http_01_challenge account authorization
    rest ← fetch_challenges account authorizations
    pure ((authorization, challenge) ∷ rest)

  module _ (message : Messages) where
    -- The loop `for i in 1..6`, with `left` attempts left.
    unfoldable pub await_validation :
        Account PKey
        → String
        → Http01Challenge
        → (left i : ℕ) → Action W LetsEncryptError (Unit {0})
    unfolding get_authorisation settle
    await_validation account authorization challenge zero i = pure tt
    await_validation account authorization challenge (suc left) i =
        get_authorisation account authorization >>= λ a.
        settle message challenge i a.status
          (await_validation account authorization challenge left (i + 1))

    -- The challenge is prepared, and only then is the server asked to validate it.
    unfoldable pub validate :
        Account PKey → String × Http01Challenge → Action W LetsEncryptError (Unit {0})
    unfolding request_as await_validation report
    validate account (authorization, challenge) = do
      λ w. (ok tt, outside.prepare_challenge challenge w)
      response ← request_as outside formats crypto account challenge.challenge_url empty_object
      if response.is_success
          then await_validation account authorization challenge 5 1
          else report outside formats response
              (could_not_validate_challenge (message challenge none))

    -- The URLs of the order and of its finalization.
    unfoldable pub new_order :
        Account PKey → List String → Action W LetsEncryptError (String × String)
    unfolding request_as location_of get_order fetch_challenges validate report
    new_order account domains = do
      response ←
          request_as outside formats crypto account account.directory.new_order
            (new_order_of domains)
      if response.is_success
          then pure tt
          else report outside formats response could_not_create_order
      order_url ← location_of outside formats response
      order ← get_order account order_url
      auths ← fetch_challenges account order.authorizations
      for_each (validate account) auths
      final ← get_order account order_url
      pure (order_url, final.finalize)

    -- The loop that waits for the certificate, on fuel; its counter `i` stays as it is.
    unfoldable pub await_certificate :
        Account PKey → String → (i fuel : ℕ) → Action W LetsEncryptError String
    unfolding get_order certificate_of
    await_certificate account order_url i zero w = (unfinished, w)
    await_certificate account order_url i (suc fuel) w =
        let round = get_order account order_url >>= λ order.
        certificate_of order (await_certificate account order_url i fuel) in
        if ltb 6 i then (err could_not_finalise_order, w) else round w

    module _ (openssl : Openssl PKey) where
      unfoldable pub generate_csr : Account PKey → List String → Action W LetsEncryptError String
      unfolding csr_names
      generate_csr account domains = do
        names ← expect (csr_names domains)
        made ← expect (openssl.create account.private_key names)
        elim made [ inl text ↦ fail (csr_error text) | inr der ↦ pure (crypto.base64_url der) ]

      unfoldable pub generate_certificate :
          ℕ → Account PKey → List String → Action W LetsEncryptError Certificate
      unfolding generate_csr new_order request_as await_certificate read_body report
      generate_certificate fuel account domains = do
        csr ← generate_csr account domains
        urls ← new_order account domains
        response ← request_as outside formats crypto account urls.1 (certificate_request csr)
        if response.is_success
            then pure tt
            else report outside formats response could_not_finalise_order
        cert_url ← await_certificate account urls.0 1 fuel
        cert_data ← request_as outside formats crypto account cert_url empty_string
        if cert_data.is_success
            then pure tt
            else report outside formats cert_data could_not_finalise_order
        cert ← read_body outside formats cert_data
        priv_key_pem ← or_fail (openssl.to_pem account.private_key) private_key_error
        pure (record { private_key = priv_key_pem; certificate = cert })
