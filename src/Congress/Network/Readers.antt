-- ===== src/Congress/Network/Readers.antt =====
-- The reader tasks of congress/src/senator.rs, and sending.
use drawbridge_ingress.Prelude.{◌≡◌, ◌≢◌, Bool, true, false, none, some, arith, ◌==◌, if◌then◌else◌}
use drawbridge_ingress.Prelude.Maps.{lookup, nat_eq}
use drawbridge_ingress.Congress.Types.{NodeId, Message}
use drawbridge_ingress.Congress.Peer.{Peer}
use drawbridge_ingress.Congress.Network.{
  Conn, ended, Network, added, add_peer, reader_fails, send_msg,
}
use drawbridge_ingress.Congress.Network.Duplicates.{lookup-remove_peer}

module _ {ℓ} {Msg : Type ℓ} (n : Network Msg) where
  -- A connection whose reader has failed stays in the map, so that a new connection of the peer
  -- which the same end established is refused, and nothing changes.
  pub failed_reader_blocks :
      (n' : Network Msg) (p : Peer) (c : Conn)
      → lookup p.peer_id n.peers ≡ some c
      → reader_fails c.serial n ≡ some n'
      → p.established_by ≡ c.established_by
      → (lookup p.peer_id n'.peers ≡ some c)
        × (n'.reader c.serial ≡ ended)
        × ((add_peer p n').1 ≢ added)
        × ((add_peer p n').0 ≡ n')
  unfolding reader_fails add_peer
  failed_reader_blocks n' p c found failed same =
      let still : lookup p.peer_id n'.peers ≡ some c = ground arith in
      (
        still,
        ground arith,
        rw (still, add_peer) (ground arith),
        rw (still, add_peer) (ground arith),
      )

  -- A send that fails, or finds no peer, takes the peer off the map, and no other; one that
  -- succeeds changes nothing.
  send_msg_lem :
      (m : Message Msg) (written : Bool) (j : NodeId)
      → ((send_msg m written n).1 ≡ true → (send_msg m written n).0 ≡ n)
        × ((send_msg m written n).1 ≡ false
            → lookup j (send_msg m written n).0.peers
              ≡ (if m.to == j then none else lookup j n.peers))
  unfolding send_msg
  send_msg_lem m written j = ground (arith, lookup-remove_peer m.to n j)
