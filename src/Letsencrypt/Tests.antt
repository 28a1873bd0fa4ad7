-- ===== src/Letsencrypt/Tests.antt =====
-- A server that is slow, and one that never ends an order.
use drawbridge_ingress.Prelude.{
  ℕ, zero, suc, ◌+◌, ◌*◌, ◌≤◌, ◌⊎◌, ◌≡◌, ◌<◌, refl, false, none, some, [], inl, inr, arith,
}
use drawbridge_ingress.Prelude.Maps.{String, str_eq}
use drawbridge_ingress.Letsencrypt.{OrderResponse, wait_for_validation, wait_for_certificate}
use drawbridge_ingress.Prelude.Action.{ok, err}
use drawbridge_ingress.Letsencrypt.{invalid_certificate}
use drawbridge_ingress.Letsencrypt.Certificate.{Certificate, X509Api, expiry, valid_days_left}
use drawbridge_ingress.Letsencrypt.Certificate.Expiry.{valid_days_left_lem}
use drawbridge_ingress.Letsencrypt.Polling.{
  wait_for_certificate-never_ends, wait_for_certificate-valid, wait_for_validation-passes,
}

abbrev order_with : String → OrderResponse
order_with status = record {
  status = status;
  authorizations = [];
  finalize = "f";
  certificate = some "url";
}

-- Valid at the third answer.
abbrev slow : ℕ → OrderResponse
slow zero = order_with "processing"
slow (suc zero) = order_with "processing"
slow (suc (suc n)) = order_with "valid"

slow-before : (m : ℕ) → m < 2 → str_eq (slow m).status "valid" ≡ false
slow-before zero h = refl
slow-before (suc zero) h = refl
slow-before (suc (suc m)) h = let no : ⊥ = omega arith in absurd no

wait_for_certificate-never_ends_example :
    wait_for_certificate 1000 (λ n. inr (order_with "invalid")) ≡ none
wait_for_certificate-never_ends_example =
    wait_for_certificate-never_ends (λ n. order_with "invalid") 1000 (λ n. refl)

wait_for_certificate-valid_example : wait_for_certificate 3 (λ n. inr (slow n)) ≡ some (inr "url")
wait_for_certificate-valid_example =
    wait_for_certificate-valid slow "url" 2 3 slow-before refl refl (omega arith)

wait_for_validation-passes_example : wait_for_validation (λ i. "") (λ j. inr "pending") ≡ none
wait_for_validation-passes_example =
    wait_for_validation-passes (λ i. "") (λ j. "pending") 5 (λ j h. refl) (inl refl)

-- Certificates that all end five seconds into the eleventh day.
abbrev x509 : X509Api (ℕ × ℕ)
x509 = record { from_pem = λ pem. some (10, 5); since_epoch = λ x. some x }

abbrev a_cert : Certificate
a_cert = record { private_key = []; certificate = [] }

ends : expiry x509 a_cert ≡ ok 864005
unfolding expiry
ends = refl

valid_days_left_lem_example :
    ((days : ℕ) × (valid_days_left x509 86400000000000 a_cert ≡ ok days)
      × (86400000000000 + days * 86400 * 1000000000 ≤ 864005 * 1000000000)
      × (864005 * 1000000000 < 86400000000000 + (days + 1) * 86400 * 1000000000))
    ⊎ ((864005 * 1000000000 < 86400000000000)
        × (valid_days_left x509 86400000000000 a_cert ≡ err invalid_certificate))
valid_days_left_lem_example = valid_days_left_lem x509 86400000000000 864005 a_cert ends
