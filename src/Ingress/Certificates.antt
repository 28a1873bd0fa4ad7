-- ===== src/Ingress/Certificates.antt =====
-- drawbridge_ingress/src/certificate_state.rs: the certificates and the ACME challenges that an
-- ingress serves. `rustls` is not part of the repository: what it makes of a certificate is a
-- parameter.
pub mod Serving
pub use drawbridge_ingress.Letsencrypt.{Http01Challenge}
use drawbridge_ingress.Prelude.{ℕ, Option, none, some, List, []}
use drawbridge_ingress.Prelude.Maps.{String, lookup, insert, string_eq, pair_eq}

-- A certificate with its key: `Key` is the certified key that `rustls` makes of the two.
pub record CertKey (Key : Type 0) : Type 0 where
  pub certs : List (List ℕ)
  pub private_key : List ℕ
  pub certified_key : Key

pub record CertificateState (Key : Type 0) : Type 0 where
  pub certs : List (String × CertKey Key)
  pub challenges : List ((String × String) × Http01Challenge)

unfoldable pub new : {Key : Type 0} → CertificateState Key
new = record { certs = []; challenges = [] }

module _ {Key : Type 0} where
  unfoldable pub apply_challenge : Http01Challenge → CertificateState Key → CertificateState Key
  apply_challenge c s = record s { challenges = insert (c.domain, c.path) c s.challenges }

  -- The body of the response, if there is one.
  unfoldable pub handle_if_challenge : String → String → CertificateState Key → Option String
  handle_if_challenge host path s = elim (lookup (host, path) s.challenges) [
    | none ↦ none
    | some c ↦ some c.contents
  ]

-- `cert_key_from`: the signing key of `rustls` may refuse the private key, and then the `unwrap`
-- panics, which is `none` here.
unfoldable pub cert_key_from :
    {Key : Type 0}
    → (List (List ℕ) → List ℕ → Option Key)
    → List (List ℕ)
    → List ℕ
    → Option (CertKey Key)
cert_key_from sign certs private_key = elim (sign certs private_key) [
  | none ↦ none
  | some key ↦ some (record { certs = certs; private_key = private_key; certified_key = key })
]

-- What `CertKey` serializes to, and back.
pub record CertKeyMinimal : Type 0 where
  pub certs : List (List ℕ)
  pub private_key : List ℕ

unfoldable pub serialize : {Key : Type 0} → CertKey Key → CertKeyMinimal
serialize k = record { certs = k.certs; private_key = k.private_key }

unfoldable pub deserialize :
    {Key : Type 0} → (List (List ℕ) → List ℕ → Option Key) → CertKeyMinimal → Option (CertKey Key)
unfolding cert_key_from
deserialize sign m = cert_key_from sign m.certs m.private_key

-- `resolve_server_config`, of the server name that the client sent. `config` is the configuration
-- that `rustls` builds; it may refuse the certificate, and then the `unwrap` panics (`panic`).
pub data Resolved (Config : Type 0) : Type 0 where
  resolved : Config → Resolved Config
  unknown panic : Resolved Config

unfoldable pub resolve_server_config :
    {Key Config : Type 0}
    → (List (List ℕ) → List ℕ → Option Config)
    → CertificateState Key
    → Option String
    → Resolved Config
resolve_server_config config s none = unknown
resolve_server_config config s (some name) = elim (lookup name s.certs) [
  | none ↦ unknown
  | some cert ↦ elim (config cert.certs cert.private_key) [ none ↦ panic | some cfg ↦ resolved cfg ]
]
