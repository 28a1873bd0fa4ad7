-- ===== src/Congress/Network/Tests.antt =====
-- Small networks, and the theorems of `RPCNetwork` at them.
use drawbridge_ingress.Prelude.{ℕ, ◌≡◌, ◌≢◌, refl, inl, some, [], ◌∷◌, arith, ◌==◌, if◌then◌else◌}
use drawbridge_ingress.Prelude.Maps.{lookup, insert, remove, nat_eq}
use drawbridge_ingress.Congress.Types.{NodeId, Message, leader, leader_heartbeat}
use drawbridge_ingress.Congress.Peer.{Peer}
use drawbridge_ingress.Congress.Network.{
  running, closed, ended, Network, Added, added, add, fails, perform_all, perform, add_peer,
  reader_fails, members, new,
}
use drawbridge_ingress.Congress.Network.Invariant.{IsValid, network-IsValid}
use drawbridge_ingress.Congress.Network.Duplicates.{
  entered, verdict, is_added, add_peer_lem, lower_replaces,
}
use drawbridge_ingress.Congress.Network.Agreement.{
  established, connection, add_all, same_order_agrees, crossed_order_splits,
}
use drawbridge_ingress.Congress.Network.Readers.{failed_reader_blocks}

abbrev mine : Peer
mine = connection 1 2

abbrev theirs : Peer
theirs = connection 2 2

-- Node 1, with the connection to node 2 that node 2 established.
abbrev joined : Network ℕ
joined = perform_all (add theirs ∷ []) (new 1)

joined_members : members joined ≡ 2 ∷ []
unfolding members perform_all perform new insert lookup
joined_members = refl

-- The tests of congress/tests/senator.rs: the duplicate is resolved to one member.
resolves : members (perform_all {Msg = ℕ} (add mine ∷ add theirs ∷ []) (new 1)) ≡ 2 ∷ []
unfolding members perform_all perform new insert lookup remove
resolves = refl

stranger : (add_peer {Msg = ℕ} (connection 3 2) (new 1)).1 ≡ Added.not_ours
unfolding add_peer new
stranger = refl

joined-IsValid : IsValid joined
joined-IsValid = network-IsValid 1 (add theirs ∷ [])

network-IsValid_example :
    IsValid (perform_all {Msg = ℕ} (add mine ∷ add theirs ∷ fails 1 ∷ []) (new 1))
network-IsValid_example = network-IsValid 1 (add mine ∷ add theirs ∷ fails 1 ∷ [])

add_peer_lem_example :
    ((add_peer mine joined).1 ≡ verdict mine joined.our_id (lookup 2 joined.peers))
    × ((j : NodeId)
        → lookup j (add_peer mine joined).0.peers ≡ (
            if is_added (add_peer mine joined).1
            then (if 2 == j then some (entered mine joined) else lookup j joined.peers)
            else lookup j joined.peers))
add_peer_lem_example = add_peer_lem mine joined

lower_replaces_example :
    ((add_peer mine joined).1 ≡ added)
    × (lookup 2 (add_peer mine joined).0.peers ≡ some (entered mine joined))
    × ((add_peer mine joined).0.reader 0 ≢ running)
unfolding perform_all perform new insert lookup
lower_replaces_example =
    lower_replaces mine joined (record { peer = theirs; serial = 0 }) (inl refl) joined-IsValid refl
      (omega arith)

same_order_agrees_example :
    established (lookup 2 (add_all 2 (1 ∷ 2 ∷ []) (new {Msg = ℕ} 1)).peers)
    ≡ established (lookup 1 (add_all 1 (1 ∷ 2 ∷ []) (new {Msg = ℕ} 2)).peers)
unfolding new lookup
same_order_agrees_example = same_order_agrees 1 2 (1 ∷ 2 ∷ []) (new 1) (new 2) refl refl refl

crossed_order_splits_example :
    (established (lookup 2 (add_all 2 (1 ∷ 2 ∷ []) (new {Msg = ℕ} 1)).peers) ≡ some 2)
    × (established (lookup 1 (add_all 1 (2 ∷ 1 ∷ []) (new {Msg = ℕ} 2)).peers) ≡ some 1)
    × ((add_all 2 (1 ∷ 2 ∷ []) (new {Msg = ℕ} 1)).reader 0 ≡ closed)
    × ((add_all 1 (2 ∷ 1 ∷ []) (new {Msg = ℕ} 2)).reader 0 ≡ ended)
crossed_order_splits_example = crossed_order_splits ℕ 1 2 (omega arith)

-- The same node after the reader of its connection has failed.
abbrev failed : Network ℕ
failed = perform_all (add theirs ∷ fails 0 ∷ []) (new 1)

failed_reader_blocks_example :
    (lookup 2 failed.peers ≡ some (record { peer = theirs; serial = 0 }))
    × (failed.reader 0 ≡ ended)
    × ((add_peer theirs failed).1 ≢ added)
    × ((add_peer theirs failed).0 ≡ failed)
unfolding perform_all perform new insert lookup reader_fails
failed_reader_blocks_example =
    failed_reader_blocks joined failed theirs (record { peer = theirs; serial = 0 }) refl refl refl

abbrev beat : Message ℕ
beat = record { from = 1; from_role = leader; to = 2; term = 1; msg = leader_heartbeat }
