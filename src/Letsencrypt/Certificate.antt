-- ===== src/Letsencrypt/Certificate.antt =====
-- letsencrypt/src/cert.rs: what an order brings, and how long it is valid.
pub mod Expiry
pub mod Der
use drawbridge_ingress.Prelude.{
  ℕ, ◌+◌, ◌*◌, ◌-◌, ◌%◌, ◌/◌, ◌^◌, Option, none, some, List, ltb, if◌then◌else◌,
}
use drawbridge_ingress.Prelude.Action.{Outcome, ok, err, panic, unfinished}
use drawbridge_ingress.Letsencrypt.{LetsEncryptError, invalid_certificate}

-- Both parts are in PEM.
pub record Certificate : Type 0 where
  pub private_key : List ℕ
  pub certificate : List ℕ

-- What the code calls of `openssl`: reading a certificate, and the days and seconds from the epoch to
-- its end, as 64-bit patterns; both may fail.
pub record X509Api (X509 : Type 0) : Type 0 where
  pub from_pem : List ℕ → Option X509
  pub since_epoch : X509 → Option (ℕ × ℕ)

module _ {X509 : Type 0} (api : X509Api X509) where
  -- The time that many seconds after the epoch; a `SystemTime` has 63 bits for them.
  unfoldable pub after_epoch : ℕ → Outcome LetsEncryptError ℕ
  after_epoch secs = if ltb secs (2 ^ 63) then ok secs else panic

  unfoldable pub expiry : Certificate → Outcome LetsEncryptError ℕ
  unfolding after_epoch
  expiry cert = elim (api.from_pem cert.certificate) [
    | none ↦ err invalid_certificate
    | some x509 ↦ elim (api.since_epoch x509) [
      | none ↦ err invalid_certificate
      | some diff ↦ after_epoch ((diff.0 * 86400 + diff.1) % 2 ^ 64)
    ]
  ]

  -- The days from `now`, in nanoseconds, to an end in seconds: `duration_since` fails where the end
  -- has passed.
  unfoldable pub days_until : ℕ → ℕ → Outcome LetsEncryptError ℕ
  days_until now secs =
      if ltb (secs * 1000000000) now
      then err invalid_certificate
      else ok ((secs * 1000000000 - now) / 1000000000 / 86400)

  unfoldable pub valid_days_left : ℕ → Certificate → Outcome LetsEncryptError ℕ
  unfolding expiry days_until
  valid_days_left now cert = elim (expiry cert) [
    | ok secs ↦ days_until now secs
    | err e ↦ err e
    | panic ↦ panic
    | unfinished ↦ unfinished
  ]
