-- ===== src/Letsencrypt/Client.antt =====
-- letsencrypt/src/account.rs, nonce.rs and directory.rs: requests to an ACME server, and accounts.
-- `hyper`, `serde_json` and `openssl` are parameters; what is random is an argument.
use drawbridge_ingress.Prelude.{ℕ, Bool, Option, none, some, List, if◌then◌else◌}
use drawbridge_ingress.Prelude.Maps.{String, str_eq}
use drawbridge_ingress.Prelude.Http.{HeaderValue, to_str}
use drawbridge_ingress.Prelude.Action.{
  ok, err, panic, Action, pure, fail, or_fail, expect, ◌>>=◌, ◌>>◌,
}
use drawbridge_ingress.Letsencrypt.{
  LetsEncryptError, hyper_error, serde_json_error, no_nonce, could_not_create_account,
  unexpected_response, missing_account_location_header, signing_key_error, private_key_error,
  OrderResponse, Http01Challenge,
}
use drawbridge_ingress.Letsencrypt.Jwt.{
  Jws, EsJwk, Payload, new_account_for, Crypto, to_jwk, to_thumbprint, to_key_authorization,
  get_jwt,
}

pub data Method : Type 0 where
  head get post : Method

pub record HttpRequest : Type 0 where
  pub method : Method
  pub url : String
  pub content_type : Option String
  pub body : Option Jws

-- What is read of a response: whether its status is a success, two headers, its body, which may
-- fail to arrive, and the text that `response_debug_string` makes of it.
pub record HttpResponse : Type 0 where
  pub is_success : Bool
  pub location : Option HeaderValue
  pub replay_nonce : Option HeaderValue
  pub body : Option (List ℕ)
  pub debug_string : String

-- The outside world: a request is answered or fails, and a challenge is prepared by whoever serves
-- it (`ServesChallenge`).
pub record Outside (W : Type 0) : Type 0 where
  pub request : HttpRequest → W → Option HttpResponse × W
  pub prepare_challenge : Http01Challenge → W → W

pub record Directory : Type 0 where
  pub new_account : String
  pub new_nonce : String
  pub new_order : String

-- A challenge of an authorization, as JSON: `kind` is its `type`, which may be missing or no text;
-- `token` and `url` are there if they are texts.
pub record ChallengeEntry : Type 0 where
  pub kind : Option (Option String)
  pub token : Option String
  pub url : Option String

pub record AuthorizationResponse : Type 0 where
  pub status : String
  pub challenges : List ChallengeEntry
  pub identifier : String

-- What `serde_json` reads of a body, and whether `hyper` takes a text for a URI. `account_status`
-- is the status of an account.
pub record Formats : Type 0 where
  pub is_uri : String → Bool
  pub directory : List ℕ → Option Directory
  pub account_status : List ℕ → Option String
  pub order : List ℕ → Option OrderResponse
  pub authorization : List ℕ → Option AuthorizationResponse

pub record Account (PKey : Type 0) : Type 0 where
  pub es_key : List ℕ
  pub location : String
  pub directory : Directory
  pub private_key : PKey

module _ {W : Type 0} (outside : Outside W) (formats : Formats) where
  unfoldable pub send : HttpRequest → Action W LetsEncryptError HttpResponse
  send req w =
      let (r, w') = outside.request req w in
      elim r [ none ↦ (err hyper_error, w') | some response ↦ (ok response, w') ]

  -- `unwrap` of the builder of a request.
  unfoldable pub build : String → Action W LetsEncryptError (Unit {0})
  build url w = if formats.is_uri url then (ok tt, w) else (panic, w)

  unfoldable pub read_body : HttpResponse → Action W LetsEncryptError (List ℕ)
  read_body response = or_fail response.body hyper_error

  -- `response_debug_string`, for which the body is read.
  unfoldable pub response_debug_string : HttpResponse → Action W LetsEncryptError String
  unfolding read_body
  response_debug_string response = do _ ← read_body response; pure response.debug_string

  unfoldable pub get_nonce : Directory → Action W LetsEncryptError String
  unfolding send build
  get_nonce directory = do
    build directory.new_nonce
    response ←
        send (record { method = head; url = directory.new_nonce; content_type = none; body = none })
    nonce ← or_fail response.replay_nonce no_nonce
    or_fail (to_str nonce) no_nonce

  -- `Directory::from_url`
  unfoldable pub from_url : String → Action W LetsEncryptError Directory
  unfolding send build read_body
  from_url url = do
    build url
    response ← send (record { method = get; url = url; content_type = none; body = none })
    body ← read_body response
    or_fail (formats.directory body) serde_json_error

  -- A header `Location`, whose `unwrap` may panic.
  unfoldable pub location_of : HttpResponse → Action W LetsEncryptError String
  location_of response = do
    location ← or_fail response.location missing_account_location_header
    expect (to_str location)

  module _ {SigningKey : Type 0} (crypto : Crypto SigningKey) where
    -- The key itself is sent only where there is no account yet.
    unfoldable pub jwk_of : SigningKey → Option String → Option EsJwk
    unfolding to_jwk
    jwk_of es_key none = some (to_jwk crypto es_key)
    jwk_of es_key (some kid) = none

    unfoldable pub send_request :
        Method
        → Directory
        → String
        → SigningKey
        → Option String
        → Payload
        → Action W LetsEncryptError HttpResponse
    unfolding get_nonce get_jwt jwk_of build send
    send_request method directory url es_key kid payload = do
      nonce ← get_nonce directory
      jws ←
          get_jwt crypto es_key
            (record { alg = "ES256"; jwk = jwk_of es_key kid; nonce = nonce; url = url; kid = kid })
            payload
      build url
      send (record {
        method = method;
        url = url;
        content_type = some "application/jose+json";
        body = some jws;
      })

    module _ {PKey : Type 0} where
      -- The checks of the answer to `new_account`.
      unfoldable pub account_of :
          Directory → SigningKey → PKey → HttpResponse → Action W LetsEncryptError (Account PKey)
      unfolding location_of read_body
      account_of directory es_key private_key response = do
        location ← location_of response
        body ← read_body response
        status ← or_fail (formats.account_status body) serde_json_error
        if str_eq status "valid"
            then pure (record {
              es_key = crypto.to_bytes es_key;
              location = location;
              directory = directory;
              private_key = private_key;
            })
            else fail could_not_create_account

      unfoldable pub get_account :
          Directory → String → SigningKey → PKey → Action W LetsEncryptError (Account PKey)
      unfolding send_request account_of response_debug_string
      get_account directory email es_key private_key = do
        response ←
            send_request post directory directory.new_account es_key none (new_account_for email)
        if response.is_success
            then account_of directory es_key private_key response
            else (do text ← response_debug_string response; fail (unexpected_response text))

      -- `from_pem` reads a private key.
      unfoldable pub account_from :
          (List ℕ → Option PKey)
          → Directory
          → String
          → List ℕ
          → List ℕ
          → Action W LetsEncryptError (Account PKey)
      unfolding get_account
      account_from from_pem directory email es_key private_key = do
        key ← or_fail (from_pem private_key) private_key_error
        signing_key ← or_fail (crypto.from_bytes es_key) signing_key_error
        get_account directory email signing_key key

      unfoldable pub get_signing_key : Account PKey → Action W LetsEncryptError SigningKey
      get_signing_key account = or_fail (crypto.from_bytes account.es_key) signing_key_error

      -- `send_request` of an account.
      unfoldable pub request_as :
          Account PKey → String → Payload → Action W LetsEncryptError HttpResponse
      unfolding get_signing_key send_request
      request_as account url payload = do
        key ← get_signing_key account
        send_request post account.directory url key (some account.location) payload

      unfoldable pub thumbprint : Account PKey → String → Action W LetsEncryptError String
      unfolding get_signing_key to_jwk to_thumbprint to_key_authorization
      thumbprint account token = do
        key ← get_signing_key account
        to_key_authorization crypto (to_thumbprint (to_jwk crypto key)) token
