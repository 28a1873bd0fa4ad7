-- ===== src/Letsencrypt/Certificate/Der.antt =====
-- The conversions of letsencrypt/src/cert.rs between PEM and DER, which `openssl` makes; where it
-- fails, the code panics, which is `none`.
use drawbridge_ingress.Prelude.{ℕ, ◌≡◌, Option, none, some, List}
use drawbridge_ingress.Letsencrypt.Certificate.{Certificate}

pub record DerApi (PKey X509 : Type 0) : Type 0 where
  pub private_key_from_pem : List ℕ → Option PKey
  pub private_key_der : PKey → Option (List ℕ)
  pub x509_from_pem : List ℕ → Option X509
  pub x509_der : X509 → Option (List ℕ)

unfoldable new : List ℕ → List ℕ → Certificate
new private_key certificate = record { private_key = private_key; certificate = certificate }

unfoldable private_key_to_pem : Certificate → List ℕ
private_key_to_pem c = c.private_key

unfoldable certificate_to_pem : Certificate → List ℕ
certificate_to_pem c = c.certificate

module _ {PKey X509 : Type 0} (api : DerApi PKey X509) where
  unfoldable private_key_to_der : Certificate → Option (List ℕ)
  private_key_to_der c = elim (api.private_key_from_pem c.private_key) [
    | none ↦ none
    | some pkey ↦ api.private_key_der pkey
  ]

  unfoldable certificate_to_der : Certificate → Option (List ℕ)
  certificate_to_der c = elim (api.x509_from_pem c.certificate) [
    | none ↦ none
    | some x509 ↦ api.x509_der x509
  ]

  -- A certificate that was made of PEM has both in DER, if `openssl` reads both and writes what it
  -- read.
  new-to_der :
      (private_key certificate : List ℕ) (pkey : PKey) (x509 : X509) (key_der cert_der : List ℕ)
      → api.private_key_from_pem private_key ≡ some pkey
      → api.private_key_der pkey ≡ some key_der
      → api.x509_from_pem certificate ≡ some x509
      → api.x509_der x509 ≡ some cert_der
      → (private_key_to_der (new private_key certificate) ≡ some key_der)
        × (certificate_to_der (new private_key certificate) ≡ some cert_der)
  unfolding private_key_to_der certificate_to_der new
  new-to_der private_key certificate pkey x509 key_der cert_der read_key key read_cert cert =
      (rw (private_key_to_der, read_key) key, rw (certificate_to_der, read_cert) cert)
