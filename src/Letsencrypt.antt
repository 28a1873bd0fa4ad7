-- ===== src/Letsencrypt.antt =====
-- The crate letsencrypt: the loops that wait for an ACME server (letsencrypt/src/order.rs and
-- letsencrypt/src/account.rs). The server is the sequence of its answers, or of the errors in
-- their place; sleeps are left out. The answers are numbered as they are asked for.
pub mod Certificate
pub mod Jwt
pub mod Client
pub mod Orders
pub mod Polling
mod Tests
use drawbridge_ingress.Prelude.{
  ℕ, zero, suc, ◌+◌, Bool, true, false, ◌||◌, Option, none, some, List, ◌⊎◌, inl, inr, ltb,
  if◌then◌else◌,
}
use drawbridge_ingress.Prelude.Maps.{String, str_eq}

-- The errors of other crates are told apart by their kind only.
pub data LetsEncryptError : Type 0 where
  hyper_error std_error utf8_error serde_json_error no_nonce : LetsEncryptError
  could_not_generate_private_key could_not_create_account : LetsEncryptError
  unexpected_response : String → LetsEncryptError
  missing_account_location_header signing_key_error could_not_create_order : LetsEncryptError
  could_not_get_challenge : LetsEncryptError
  could_not_validate_challenge : String → LetsEncryptError
  could_not_finalise_order invalid_certificate : LetsEncryptError
  csr_error : String → LetsEncryptError
  private_key_error could_not_get_order : LetsEncryptError

pub record OrderResponse : Type 0 where
  pub status : String
  pub authorizations : List String
  pub finalize : String
  pub certificate : Option String

-- A challenge that is served under its domain and path: letsencrypt/src/challenge.rs.
pub record Http01Challenge : Type 0 where
  pub path : String
  pub contents : String
  pub challenge_url : String
  pub domain : String

-- The loop `for i in 1..6` over the status of an authorization, from attempt `i` on with `left`
-- attempts left: the error that it returns, or `none` where the order goes on. `message` is the
-- text of the error at an attempt.
unfoldable pub poll_authorisation :
    (ℕ → String) → (ℕ → LetsEncryptError ⊎ String) → (left i : ℕ) → Option LetsEncryptError
poll_authorisation message answers zero i = none
poll_authorisation message answers (suc left) i =
    let rest = poll_authorisation message answers left (i + 1) in
    elim (answers i) [
      | inl e ↦ some e
      | inr status ↦
          if str_eq status "pending"
          then rest
          else if str_eq status "valid" || str_eq status "ready"
          then none
          else some (could_not_validate_challenge (message i))
    ]

unfoldable pub wait_for_validation :
    (ℕ → String) → (ℕ → LetsEncryptError ⊎ String) → Option LetsEncryptError
unfolding poll_authorisation
wait_for_validation message answers = poll_authorisation message answers 5 1

-- The loop that waits for the certificate of an order, whose counter `i` stays as it is; `n` is the
-- number of the next answer. The result is the URL of the certificate. `none` means that the fuel
-- ran out.
unfoldable pub poll_order :
    (ℕ → LetsEncryptError ⊎ OrderResponse) → (i fuel n : ℕ) → Option (LetsEncryptError ⊎ String)
poll_order answers i zero n = none
poll_order answers i (suc fuel) n =
    let rest = poll_order answers i fuel (n + 1) in
    if ltb 6 i then some (inl could_not_finalise_order) else elim (answers n) [
      | inl e ↦ some (inl e)
      | inr order ↦
          if str_eq order.status "valid"
          then elim order.certificate [
            | none ↦ some (inl could_not_finalise_order)
            | some url ↦ some (inr url)
          ]
          else rest
    ]

unfoldable pub wait_for_certificate :
    ℕ → (ℕ → LetsEncryptError ⊎ OrderResponse) → Option (LetsEncryptError ⊎ String)
unfolding poll_order
wait_for_certificate fuel answers = poll_order answers 1 fuel 0
