-- ===== src/Letsencrypt/Certificate/Expiry.antt =====
-- How many days a certificate is still valid (letsencrypt/src/cert.rs).
use drawbridge_ingress.Prelude.{
  ℕ, ◌+◌, ◌*◌, ◌-◌, ◌/◌, ◌≤◌, ◌<◌, ◌≡◌, refl, ◌⊎◌, inl, inr, arith, Bool-cases, ltb,
}
use drawbridge_ingress.Prelude.Action.{ok, err}
use drawbridge_ingress.Letsencrypt.{invalid_certificate}
use drawbridge_ingress.Letsencrypt.Certificate.{
  Certificate, X509Api, expiry, days_until, valid_days_left,
}

module _ {X509 : Type 0} (api : X509Api X509) where
  -- For a certificate whose end is known, the result is the number of whole days until then, or the
  -- error for an invalid certificate if the end has passed.
  pub valid_days_left_lem :
      (now secs : ℕ) (cert : Certificate)
      → expiry api cert ≡ ok secs
      → ((days : ℕ) × (valid_days_left api now cert ≡ ok days)
          × (now + days * 86400 * 1000000000 ≤ secs * 1000000000)
          × (secs * 1000000000 < now + (days + 1) * 86400 * 1000000000))
        ⊎ ((secs * 1000000000 < now) × (valid_days_left api now cert ≡ err invalid_certificate))
  unfolding valid_days_left days_until
  valid_days_left_lem now secs cert ends = elim (Bool-cases (ltb (secs * 1000000000) now)) [
    | inl passed ↦ inr (ground arith, rw (valid_days_left, ends, passed) refl)
    | inr later ↦
        let not_yet : now ≤ secs * 1000000000 = ground arith in
        let days = (secs * 1000000000 - now) / 1000000000 / 86400 in
        inl (days, rw (valid_days_left, ends, later) refl, omega arith, omega arith)
  ]
