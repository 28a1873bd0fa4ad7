-- ===== src/Congress/Network/Agreement.antt =====
-- Two nodes that each hold a connection to the other: whether they hold the same one
-- (`add_peer` of congress/src/senator.rs).
use drawbridge_ingress.Prelude.{
  ◌<◌, ◌≡◌, inl, inr, Option, none, some, List, [], ◌∷◌, arith, ◌∙◌, ◌||◌, ◌==◌, ==_iff,
  if◌then◌else◌, Option-cases,
}
use drawbridge_ingress.Prelude.Maps.{lookup, insert, remove, nat_eq}
use drawbridge_ingress.Congress.Types.{NodeId}
use drawbridge_ingress.Congress.Peer.{Peer}
use drawbridge_ingress.Congress.Network.{Conn, closed, ended, Network, add_peer, new}
use drawbridge_ingress.Congress.Network.Invariant.{our_id-remove}
use drawbridge_ingress.Congress.Network.Duplicates.{add_peer_lem}

-- Who established a connection.
abbrev pub established : Option Conn → Option NodeId
established none = none
established (some c) = some c.established_by

abbrev pub connection : NodeId → NodeId → Peer
connection by peer_id = record { established_by = by; peer_id = peer_id }

-- Connections to one peer are added, given by the end that established each.
unfoldable pub add_all {ℓ} : {Msg : Type ℓ} → NodeId → List NodeId → Network Msg → Network Msg
add_all peer_id [] n = n
add_all peer_id (by ∷ rest) n = add_all peer_id rest (add_peer (connection by peer_id) n).0

module _ {ℓ} {Msg : Type ℓ} (p : Peer) (n : Network Msg) where
  our_id-add_peer : (add_peer p n).0.our_id ≡ n.our_id
  unfolding add_peer
  our_id-add_peer = ground (arith, our_id-remove p.peer_id n)

  -- After the call the peer's connection was established by the end that the new one names, if
  -- that is an end.
  pub established-add_peer : established (lookup p.peer_id (add_peer p n).0.peers) ≡ (
      if p.established_by == n.our_id || p.established_by == p.peer_id
      then some p.established_by
      else established (lookup p.peer_id n.peers))
  established-add_peer =
      let (verdict_part, entries) = add_peer_lem p n in
      elim (Option-cases (lookup p.peer_id n.peers)) [
        | inl absent ↦ ground (arith, entries p.peer_id)
        | inr (c, found) ↦
            ground (arith, entries p.peer_id, ==_iff p.established_by c.established_by)
      ]

module _ {ℓ} {Msg : Type ℓ} (a b : NodeId) where
  -- Two nodes add the same connections between them in the same order: they then hold connections
  -- that the same end established, if they did before.
  pub same_order_agrees :
      (by : List NodeId) (at_a at_b : Network Msg)
      → at_a.our_id ≡ a
      → at_b.our_id ≡ b
      → established (lookup b at_a.peers) ≡ established (lookup a at_b.peers)
      → established (lookup b (add_all b by at_a).peers)
        ≡ established (lookup a (add_all a by at_b).peers)
  unfolding add_all
  same_order_agrees [] at_a at_b ours theirs same = same
  same_order_agrees (e ∷ rest) at_a at_b ours theirs same =
      same_order_agrees rest (add_peer (connection e b) at_a).0 (add_peer (connection e a) at_b).0
        (our_id-add_peer (connection e b) at_a ∙ ours)
        (our_id-add_peer (connection e a) at_b ∙ theirs)
        (ground (
          arith,
          established-add_peer (connection e b) at_a,
          established-add_peer (connection e a) at_b,
        ))

-- Two new nodes with a connection from each end between them, where each node adds the connection
-- that it established and then the other's, keep different ones, and each has stopped the reader of
-- the connection that the other keeps.
pub crossed_order_splits {ℓ} :
    (Msg : Type ℓ) (a b : NodeId)
    → a < b
    → (established (lookup b (add_all b (a ∷ b ∷ []) (new {Msg = Msg} a)).peers) ≡ some b)
      × (established (lookup a (add_all a (b ∷ a ∷ []) (new {Msg = Msg} b)).peers) ≡ some a)
      × ((add_all b (a ∷ b ∷ []) (new {Msg = Msg} a)).reader 0 ≡ closed)
      × ((add_all a (b ∷ a ∷ []) (new {Msg = Msg} b)).reader 0 ≡ ended)
unfolding add_all new add_peer lookup insert remove
crossed_order_splits Msg a b lt = (ground arith, ground arith, ground arith, ground arith)
