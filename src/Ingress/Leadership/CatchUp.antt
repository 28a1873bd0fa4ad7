-- ===== src/Ingress/Leadership/CatchUp.antt =====
-- How a follower comes to the state of its leader (drawbridge_ingress/src/leadership_system.rs).
use drawbridge_ingress.Prelude.{ap, ◌∙◌, ℕ, ◌≤◌, ◌≡◌, refl, true, Bool, map, leb, le→leb}
use drawbridge_ingress.Prelude.Maps.{String, lookup, pair_eq}
use drawbridge_ingress.Congress.Types.{NodeId, leader, follower, custom, Senator, spawn_send}
use drawbridge_ingress.Congress.Senator.{broadcast_message}
use drawbridge_ingress.Ingress.Certificates.{CertificateState, handle_if_challenge}
use drawbridge_ingress.Ingress.Leadership.{
  Views, request_state, LeadershipSystem, share_state, on_message, change_as, handle_change,
}
use drawbridge_ingress.Ingress.Leadership.Replication.{
  SeesOnce, take_all, answer, IsKept, share_state-replicates,
}

request_state-shares :
    {Key : Type 0} (views : Views) (term : ℕ) (l : LeadershipSystem Key)
    → leb term l.senator.term ≡ true
    → on_message views term (custom request_state) l ≡ (l, share_state views l)
unfolding on_message
request_state-shares views term l no_lower = rw (no_lower) refl

module _ {Key : Type 0} (create : CertificateState Key → CertificateState Key)
    (check : CertificateState Key → CertificateState Key × Bool) where
  change_as_follower :
      (later : Senator) (views : Views) (f : LeadershipSystem Key)
      → change_as create check later follower views f ≡ (
        f,
        map (λ q. spawn_send q (views 0).senator.term (custom request_state)) (views 0).members,
        true,
      )
  unfolding change_as broadcast_message
  change_as_follower later views f = refl

  -- A change at a follower makes it ask every one of its peers, in the term that it reads, for the
  -- state. If one of them is in no lower term and reads its role as that of a leader, has the
  -- follower once among its members each time it reads them, and its challenges stand under their own
  -- domains and paths, no two under the same, then the follower that takes the whole reply, in order,
  -- has the leader's certificates, and answers a request for a challenge of the leader by the
  -- leader's contents, and any other as before.
  pub handle_change-catches_up :
      (later : Senator) (asked views : Views) (p : NodeId) (l f : LeadershipSystem Key)
      (host path : String)
      → f.senator.role ≡ follower
      → SeesOnce p views
      → (views 0).senator.role ≡ leader
      → (asked 0).senator.term ≤ l.senator.term
      → IsKept l.certificate_state
      → (handle_change create check later asked f ≡ (
        f,
        map (λ q. spawn_send q (asked 0).senator.term (custom request_state)) (asked 0).members,
        true,
      ))
        × ((take_all p
              (on_message views (asked 0).senator.term (custom request_state) l).1
              f).certificate_state.certs
            ≡ l.certificate_state.certs)
        × (handle_if_challenge host path
              (take_all p
                (on_message views (asked 0).senator.term (custom request_state) l).1
                f).certificate_state
            ≡ answer
                (lookup (host, path) l.certificate_state.challenges)
                (handle_if_challenge host path f.certificate_state))
  unfolding handle_change
  handle_change-catches_up later asked views p l f host path follows once leads no_lower kept =
      let replied : on_message views (asked 0).senator.term (custom request_state) l
          ≡ (l, share_state views l) =
        request_state-shares views (asked 0).senator.term l
          (le→leb (asked 0).senator.term l.senator.term no_lower) in
      let (same, answers) = share_state-replicates p views l f host path once leads kept in
      let asks : handle_change create check later asked f
          ≡ change_as create check later follower asked f =
        ap (λ r. change_as create check later r asked f) follows in
      (
        asks ∙ change_as_follower later asked f,
        ap (λ r. (take_all p r.1 f).certificate_state.certs) replied ∙ same,
        ap (λ r. handle_if_challenge host path (take_all p r.1 f).certificate_state) replied
            ∙ answers,
      )
