-- ===== src/Ingress/Generator.antt =====
-- drawbridge_ingress/src/lets_encrypt.rs: the certificates of the routing table's hosts, which the
-- leader obtains and keeps in a secret of the cluster. The secrets of Kubernetes, `serde_json`,
-- `base64`, `rustls` and `openssl` are parameters, and so is the ACME client, which the crate
-- letsencrypt fills.
pub mod Hosts
pub mod Storing
pub mod Accounts
pub mod Tests
use Prim.Native.String.{◌++◌ as concat}
use drawbridge_ingress.Prelude.{
  ℕ, Bool, true, false, Option, none, some, List, [], ◌∷◌, ◌⊎◌, inl, inr, map,
}
use drawbridge_ingress.Prelude.Maps.{String, lookup, insert, string_eq}
use drawbridge_ingress.Prelude.Action.{
  Outcome, ok, err, panic, unfinished, Action, pure, fail, or_fail, expect, ◌>>=◌, ◌>>◌, for_each,
}
use drawbridge_ingress.Letsencrypt.{LetsEncryptError}
use drawbridge_ingress.Letsencrypt.Certificate.{Certificate}
use drawbridge_ingress.Ingress.Error.{
  IngressLoadBalancerError, general, could_not_generate_certificate,
}
use drawbridge_ingress.Ingress.Certificates.{CertKey, cert_key_from}

abbrev pub namespace : String
namespace = "drawbridge-ingress"

pub data Environment : Type 0 where
  production staging : Environment

unfoldable pub to_name : Environment → String
to_name production = "production"
to_name staging = "staging"

-- `PRODUCTON` and `STAGING` of letsencrypt/src/directory.rs.
unfoldable pub to_url : Environment → String
to_url production = "https://acme-v02.api.letsencrypt.org/directory"
to_url staging = "https://acme-staging-v02.api.letsencrypt.org/directory"

abbrev pub env : Environment
env = production

unfoldable pub certs_name : String
unfolding to_name
certs_name = concat "letsencrypt-certs-" (to_name env)

unfoldable pub account_name : String
unfolding to_name
account_name = concat "letsencrypt-account-" (to_name env)

-- What is stored of a certificate.
pub record CertData : Type 0 where
  pub certs : List (List ℕ)
  pub private_key : List ℕ

-- A secret of Kubernetes; `contents` is its field `data`, by key.
pub record Secret : Type 0 where
  pub name : String
  pub namespace : String
  pub resource_version : Option String
  pub contents : Option (List (String × List ℕ))

-- What the code calls of the secrets in its namespace: `get`, where an error is as good as none,
-- `replace` and `create`, which may fail.
pub record SecretsApi (W : Type 0) : Type 0 where
  pub get : String → W → Option Secret
  pub replace : String → Secret → W → Option W
  pub create : Secret → W → Option W

-- What the code calls of `serde_json`, `base64`, `rustls_pemfile`, `openssl` and `rustls`.
-- `byte_string` is how a secret's value is read from JSON, `pem_certs` gives the certificates or
-- the text of an error, and `debug` is the text of an error of the ACME client.
pub record Libraries (Key : Type 0) : Type 0 where
  pub entries_to_json : List (String × CertData) → List ℕ
  pub entries_from_slice : List ℕ → Option (List (String × CertData))
  pub encode : List ℕ → String
  pub byte_string : String → Option (List ℕ)
  pub pem_certs : List ℕ → String ⊎ List (List ℕ)
  pub der_from_pem : List ℕ → Option (List ℕ)
  pub sign : List (List ℕ) → List ℕ → Option Key
  pub debug : LetsEncryptError → String

-- The certificates of the ingress, with the world outside.
pub record Holding (Key W : Type 0) : Type 0 where
  pub certs : List (String × CertKey Key)
  pub world : W

-- What is stored of the certificates, in their order.
unfoldable pub entries_of : {Key : Type 0} → List (String × CertKey Key) → List (String × CertData)
entries_of [] = []
entries_of ((host, k) ∷ m) =
    (host, record { certs = k.certs; private_key = k.private_key }) ∷ entries_of m

abbrev pub certs_secret : List ℕ → Secret
certs_secret value = record {
  name = certs_name;
  namespace = namespace;
  resource_version = none;
  contents = some (("certs", value) ∷ []);
}

module _ {Key W : Type 0} (lib : Libraries Key) (secrets : SecretsApi W) where
  open lib use {
    entries_to_json, entries_from_slice, encode, byte_string, pem_certs, der_from_pem, sign, debug,
  }
  open secrets use {get, replace, create}

  -- The loop of `get_certs`, over the entries of the secret.
  unfoldable pub load_entries :
      List (String × CertData) → List (String × CertKey Key) → Option (List (String × CertKey Key))
  unfolding cert_key_from
  load_entries [] m = some m
  load_entries ((host, d) ∷ entries) m = elim (cert_key_from sign d.certs d.private_key) [
    | none ↦ none
    | some k ↦ load_entries entries (insert host k m)
  ]

  unfoldable pub get_certs : W → Option (List (String × CertKey Key))
  unfolding load_entries certs_name
  get_certs w = elim (get certs_name w) [
    | none ↦ some []
    | some secret ↦ elim secret.contents [
      | none ↦ some []
      | some values ↦ elim (lookup "certs" values) [
        | none ↦ none
        | some bytes ↦ elim (entries_from_slice bytes) [
          | none ↦ none
          | some entries ↦ load_entries entries []
        ]
      ]
    ]
  ]

  -- The certificates of a file in PEM.
  unfoldable pub certs_vec :
      Certificate → Action (Holding Key W) IngressLoadBalancerError (List (List ℕ))
  certs_vec cert = elim (pem_certs cert.certificate) [
    | inl text ↦ fail (general could_not_generate_certificate text)
    | inr certs ↦ pure certs
  ]

  unfoldable pub add_cert :
      String → Certificate → Action (Holding Key W) IngressLoadBalancerError (Unit {0})
  unfolding certs_vec cert_key_from
  add_cert host cert = do
    certs ← certs_vec cert
    der ← expect (der_from_pem cert.private_key)
    key ← expect (cert_key_from sign certs der)
    λ s. (ok tt, record s { certs = insert host key s.certs })

  unfoldable pub write_secret : Secret → W → Option W
  unfolding certs_name
  write_secret secret w = elim (get certs_name w) [
    | some old ↦ replace certs_name (record secret { resource_version = old.resource_version }) w
    | none ↦ create secret w
  ]

  unfoldable pub store_certs : Action (Holding Key W) IngressLoadBalancerError (Unit {0})
  unfolding entries_of write_secret
  store_certs s = elim (byte_string (encode (entries_to_json (entries_of s.certs)))) [
    | none ↦ (panic, s)
    | some value ↦ elim (write_secret (certs_secret value) s.world) [
      | none ↦ (panic, s)
      | some w ↦ (ok tt, record s { world = w })
    ]
  ]

  -- `issue` is `generate_certificate` of the account.
  module _ (issue : String → Action W LetsEncryptError Certificate) where
    unfoldable pub request_cert :
        String → Action (Holding Key W) IngressLoadBalancerError Certificate
    request_cert host s =
        let (r, w) = issue host s.world in
        elim r [
          | ok cert ↦ (ok cert, record s { world = w })
          | err e ↦ (err (general could_not_generate_certificate (debug e)), record s { world = w })
          | panic ↦ (panic, record s { world = w })
          | unfinished ↦ (unfinished, record s { world = w })
        ]

    -- A host that has a certificate is passed over.
    unfoldable pub obtain : String → Action (Holding Key W) IngressLoadBalancerError (Unit {0})
    unfolding request_cert add_cert
    obtain host s = elim (lookup host s.certs) [
      | some _ ↦ (ok tt, s)
      | none ↦ (request_cert host >>= add_cert host) s
    ]

    -- `hosts` are the hosts of the routing table.
    unfoldable pub check_for_new_certificates :
        List String → Action (Holding Key W) IngressLoadBalancerError (Unit {0})
    unfolding obtain store_certs
    check_for_new_certificates hosts = for_each obtain hosts >> store_certs
