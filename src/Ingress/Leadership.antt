-- ===== src/Ingress/Leadership.antt =====
-- drawbridge_ingress/src/leadership_system.rs and the subscriber of main.rs: what an ingress does
-- with its role, with messages of its peers and with changes of the cluster.
-- A step that the code spawns is taken at once; the sleeps are left out.
pub mod Replication
pub mod CatchUp
pub mod Certified
use drawbridge_ingress.Prelude.{
  ℕ, suc, ◌≤◌, Bool, true, false, not, Option, none, some, List, [], ◌∷◌, ◌++◌, leb, if◌then◌else◌,
  to_be_bytes, from_be_bytes, read_exact,
}
use drawbridge_ingress.Prelude.Maps.{String, lookup, insert, string_eq, pair_eq, str_eq}
use drawbridge_ingress.Congress.Types.{
  NodeId, Role, leader, follower, candidate, MessageType, leader_heartbeat, vote_request,
  vote_granted, custom, Message, Senator, Effect,
}
use drawbridge_ingress.Congress.Senator.{broadcast_message}
use drawbridge_ingress.Congress.Peer.{Peer}
use drawbridge_ingress.Ingress.Certificates.{
  Http01Challenge, CertKey, CertificateState, apply_challenge,
}

pub data IngressMessage (Key : Type 0) : Type 0 where
  request_state : IngressMessage Key
  challenge : Http01Challenge → IngressMessage Key
  certs : List (String × CertKey Key) → IngressMessage Key

-- `cert_generator` says whether there is one.
pub record LeadershipSystem (Key : Type 0) : Type 0 where
  pub certificate_state : CertificateState Key
  pub current_pod_name : String
  pub senator : Senator
  pub cert_generator : Bool

-- What a read of the members and of the senator finds, and what such reads find one after the other,
-- between which both may change.
pub record View : Type 0 where
  pub members : List NodeId
  pub senator : Senator

abbrev pub Views : Type 0
Views = ℕ → View

abbrev pub later_views : Views → Views
later_views views n = views (suc n)

abbrev pub broadcast : {Msg : Type 0} → MessageType Msg → View → List (Effect Msg)
broadcast m view = broadcast_message m view.members view.senator

module _ {Key : Type 0} where
  -- One broadcast for each challenge.
  unfoldable pub share_challenges :
      List ((String × String) × Http01Challenge) → Views → List (Effect (IngressMessage Key))
  unfolding broadcast_message
  share_challenges [] views = []
  share_challenges ((k, c) ∷ cs) views =
      broadcast (custom (challenge c)) (views 0) ++ share_challenges cs (later_views views)

module _ {Key : Type 0} where
  unfoldable pub share_as : Role → Views → LeadershipSystem Key → List (Effect (IngressMessage Key))
  unfolding share_challenges broadcast_message
  share_as leader views l =
      broadcast (custom (certs l.certificate_state.certs)) (views 0)
      ++ share_challenges l.certificate_state.challenges (later_views views)
  share_as follower views l = []
  share_as candidate views l = []

  -- The role is read first, and each broadcast reads the members and the term for itself.
  unfoldable pub share_state : Views → LeadershipSystem Key → List (Effect (IngressMessage Key))
  unfolding share_as
  share_state views l = share_as (views 0).senator.role (later_views views) l

-- The listener for messages, by what the message is.
module _ {Key : Type 0} where
  unfoldable pub handle_custom :
      Views
      → ℕ
      → IngressMessage Key
      → LeadershipSystem Key
      → LeadershipSystem Key × List (Effect (IngressMessage Key))
  unfolding share_state
  handle_custom views term (challenge c) l =
      (record l { certificate_state = apply_challenge c l.certificate_state }, [])
  handle_custom views term (certs m) l =
      (record l { certificate_state = record l.certificate_state { certs = m } }, [])
  handle_custom views term request_state l =
      if leb term l.senator.term then (l, share_state views l) else (l, [])

  unfoldable pub on_message :
      Views
      → ℕ
      → MessageType (IngressMessage Key)
      → LeadershipSystem Key
      → LeadershipSystem Key × List (Effect (IngressMessage Key))
  unfolding handle_custom
  on_message views term (custom m) l = handle_custom views term m l
  on_message views term leader_heartbeat l = (l, [])
  on_message views term vote_request l = (l, [])
  on_message views term vote_granted l = (l, [])

-- `prepare_challenge`: the challenge is applied here and sent to the peers.
unfoldable pub prepare_challenge :
    {Key : Type 0}
    → List NodeId
    → Http01Challenge
    → LeadershipSystem Key
    → LeadershipSystem Key × List (Effect (IngressMessage Key))
unfolding broadcast_message
prepare_challenge members c l = (
  record l { certificate_state = apply_challenge c l.certificate_state },
  broadcast_message (custom (challenge c)) members l.senator,
)

-- `handle_change`. `create` is `CertGenerator::create`, which reads the certificates of the
-- cluster; `check` is `check_for_new_certificates`, which may fail; `later` is the senator when the
-- check is over.
module _ {Key : Type 0} (create : CertificateState Key → CertificateState Key)
    (check : CertificateState Key → CertificateState Key × Bool) (later : Senator) where
  unfoldable pub lead_change :
      Views
      → LeadershipSystem Key
      → LeadershipSystem Key × List (Effect (IngressMessage Key)) × Bool
  unfolding share_state
  lead_change views l =
      let start = if l.cert_generator then l.certificate_state else create l.certificate_state in
      let (state, done) = check start in
      let l' = record l { certificate_state = state; senator = later; cert_generator = true } in
      if done then (l', share_state views l', true) else (l', [], false)

  unfoldable pub change_as :
      Role
      → Views
      → LeadershipSystem Key
      → LeadershipSystem Key × List (Effect (IngressMessage Key)) × Bool
  unfolding lead_change broadcast_message
  change_as leader views l = lead_change views l
  change_as follower views l = (l, broadcast (custom request_state) (views 0), true)
  change_as candidate views l = (l, [], true)

  unfoldable pub handle_change :
      Views
      → LeadershipSystem Key
      → LeadershipSystem Key × List (Effect (IngressMessage Key)) × Bool
  unfolding change_as
  handle_change views l = change_as l.senator.role views l

-- The id that is sent first on a connection, and the peer that the other end makes of it.
unfoldable pub hello : NodeId → List ℕ
hello our_id = to_be_bytes 8 our_id

unfoldable pub handle_connection : List ℕ → Option (Peer × List ℕ)
handle_connection input = elim (read_exact 8 input) [
  | none ↦ none
  | some (buf, rest) ↦
      let peer_id = from_be_bytes buf in
      some (record { established_by = peer_id; peer_id = peer_id }, rest)
]

-- The peer that `add_peer` makes, where `name_to_hash` is the hash of the standard library.
unfoldable pub dial : (String → NodeId) → String → String → Peer
dial name_to_hash current_pod_name peer_name = record {
  established_by = name_to_hash current_pod_name;
  peer_id = name_to_hash peer_name;
}
