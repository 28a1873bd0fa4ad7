-- ===== src/Letsencrypt/Jwt.antt =====
-- letsencrypt/src/jwt.rs: signed requests and key authorizations. The crates `p256`, `sha2`,
-- `base64_url` and `serde_json` are parameters.
use Prim.Native.String.{◌++◌ as concat}
use drawbridge_ingress.Prelude.{ℕ, Option, List, ◌++◌, if◌then◌else◌}
use drawbridge_ingress.Prelude.Maps.{String, str_eq}
use drawbridge_ingress.Prelude.Action.{Action, pure, or_fail, ◌>>=◌}
use drawbridge_ingress.Letsencrypt.{LetsEncryptError, serde_json_error}

-- What a signed request carries. `protected` is the text that was signed first.
pub record Jws : Type 0 where
  pub protected : String
  pub payload : String
  pub signature : String

pub record EsJwk : Type 0 where
  pub crv : String
  pub kty : String
  pub x : String
  pub y : String

pub record JwsProtected : Type 0 where
  pub alg : String
  pub jwk : Option EsJwk
  pub nonce : String
  pub url : String
  pub kid : Option String

pub record JwkThumbprint : Type 0 where
  pub crv : String
  pub kty : String
  pub x : String
  pub y : String

-- The payloads of the requests, as the JSON values that the code writes down.
pub data Payload : Type 0 where
  new_account_for : (email : String) → Payload
  new_order_of : (domains : List String) → Payload
  certificate_request : (csr : String) → Payload
  empty_string empty_object : Payload

-- A signing key gives its public point, signs bytes (the signature in two parts), and is read from
-- bytes and written to them. The texts of JSON may fail to be made. `as_bytes` is of a text.
pub record Crypto (SigningKey : Type 0) : Type 0 where
  pub from_bytes : List ℕ → Option SigningKey
  pub to_bytes : SigningKey → List ℕ
  pub point_x : SigningKey → List ℕ
  pub point_y : SigningKey → List ℕ
  pub sign_r : SigningKey → List ℕ → List ℕ
  pub sign_s : SigningKey → List ℕ → List ℕ
  pub sha256 : List ℕ → List ℕ
  pub base64_url : List ℕ → String
  pub as_bytes : String → List ℕ
  pub protected_json : JwsProtected → Option String
  pub thumbprint_json : JwkThumbprint → Option String
  pub payload_json : Payload → Option String

unfoldable pub to_thumbprint : EsJwk → JwkThumbprint
to_thumbprint jwk = record { crv = jwk.crv; kty = jwk.kty; x = jwk.x; y = jwk.y }

module _ {SigningKey : Type 0} (crypto : Crypto SigningKey) where
  open crypto use {
    point_x, point_y, sign_r, sign_s, sha256, base64_url, as_bytes, protected_json, thumbprint_json,
    payload_json,
  }

  unfoldable pub to_jwk : SigningKey → EsJwk
  to_jwk key = record {
    crv = "P-256";
    kty = "EC";
    x = base64_url (point_x key);
    y = base64_url (point_y key);
  }

  unfoldable pub to_key_authorization :
      {W : Type 0} → JwkThumbprint → String → Action W LetsEncryptError String
  to_key_authorization thumbprint token = do
    jwk_json ← or_fail (thumbprint_json thumbprint) serde_json_error
    pure (concat (concat token ".") (base64_url (sha256 (as_bytes jwk_json))))

  -- The payload of a request that only reads is the empty text.
  unfoldable pub encode_payload : String → String
  encode_payload json = if str_eq json "\"\"" then "" else base64_url (as_bytes json)

  unfoldable pub sign_parts : SigningKey → String → String → Jws
  sign_parts key protected payload =
      let to_sign = as_bytes (concat (concat protected ".") payload) in
      record {
        protected = protected;
        payload = payload;
        signature = base64_url (sign_r key to_sign ++ sign_s key to_sign);
      }

  unfoldable pub get_jwt :
      {W : Type 0} → SigningKey → JwsProtected → Payload → Action W LetsEncryptError Jws
  unfolding encode_payload sign_parts
  get_jwt key header payload = do
    protected ← or_fail (protected_json header) serde_json_error
    json ← or_fail (payload_json payload) serde_json_error
    pure (sign_parts key (base64_url (as_bytes protected)) (encode_payload json))
