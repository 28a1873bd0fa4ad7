-- ===== src/Ingress/Certificates/Serving.antt =====
-- What an ingress serves after a challenge or a certificate came in
-- (drawbridge_ingress/src/certificate_state.rs).
use drawbridge_ingress.Prelude.{ℕ, ◌≡◌, Option, some, List, arith, if◌then◌else◌}
use drawbridge_ingress.Prelude.Maps.{String, string_eq, pair_eq, pair_beq, lookup-insert}
use drawbridge_ingress.Ingress.Certificates.{
  Http01Challenge, CertKey, CertificateState, apply_challenge, handle_if_challenge, cert_key_from,
  serialize, deserialize,
}

-- After a challenge was applied, a request for its host and path is answered by its contents, and
-- every other request as before.
pub handle-apply_challenge :
    {Key : Type 0} (c : Http01Challenge) (s : CertificateState Key) (host path : String)
    → handle_if_challenge host path (apply_challenge c s) ≡ (
        if pair_beq (c.domain, c.path) (host, path)
        then some c.contents
        else handle_if_challenge host path s)
unfolding handle_if_challenge apply_challenge
handle-apply_challenge c s host path =
    ground (arith, lookup-insert (c.domain, c.path) (host, path) c s.challenges)

-- A certificate that was made by `cert_key_from` comes back from its serialized form.
pub deserialize-serialize :
    {Key : Type 0} (sign : List (List ℕ) → List ℕ → Option Key) (certs : List (List ℕ))
    (private_key : List ℕ) (k : CertKey Key)
    → cert_key_from sign certs private_key ≡ some k
    → deserialize sign (serialize k) ≡ some k
unfolding deserialize serialize cert_key_from
deserialize-serialize sign certs private_key k made = ground arith
