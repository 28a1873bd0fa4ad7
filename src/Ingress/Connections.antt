-- ===== src/Ingress/Connections.antt =====
-- How the ingresses connect: `new`, the loop of `start`, `handle_connection` and `add_peer` of
-- drawbridge_ingress/src/leadership_system.rs, with the network of congress/src/senator.rs. The
-- sockets of `tokio` and the retries of `tokio_retry` are parameters; the texts of errors are left
-- out.
pub mod Handshake
mod Tests
use Prim.Native.String.{◌++◌ as concat}
use drawbridge_ingress.Prelude.{ℕ, Bool, Option, none, some, List, [], ◌∷◌, if◌then◌else◌}
use drawbridge_ingress.Prelude.Maps.{String}
use drawbridge_ingress.Prelude.Action.{Outcome, ok, err, Action, pure, fail, ◌>>=◌, ◌>>◌}
use drawbridge_ingress.Congress.Types.{NodeId}
use drawbridge_ingress.Congress.Peer.{Peer}
use drawbridge_ingress.Congress.Network.{
  Network, Added, added, not_ours, duplicate, add_peer, new as new_network,
}
use drawbridge_ingress.Ingress.Error.{IngressLoadBalancerError, other}
use drawbridge_ingress.Ingress.Leadership.{hello, handle_connection, dial}

-- `TcpStream::connect`, `Retry::spawn` with the strategy of the code, and `write_all`.
pub record Sockets (Stream W : Type 0) : Type 0 where
  pub connect : String → W → Option Stream × W
  pub retry : (W → Option Stream × W) → W → Option Stream × W
  pub write_all : Stream → List ℕ → W → Bool × W

-- The network of an ingress, with the world outside.
pub record Rpc (Msg W : Type 0) : Type 0 where
  pub network : Network Msg
  pub world : W

-- `rpc.add_peer` with its error wrapped.
unfoldable pub added_as : Added → Outcome IngressLoadBalancerError (Unit {0})
added_as added = ok tt
added_as not_ours = err (other "")
added_as duplicate = err (other "")

module _ {Msg W : Type 0} where
  -- `new`, as far as it is about the network.
  unfoldable pub new_rpc : (String → NodeId) → String → W → Rpc Msg W
  unfolding new_network
  new_rpc name_to_hash current w = record {
    network = new_network (name_to_hash current);
    world = w;
  }

module _ {Msg W : Type 0} where
  unfoldable pub add_to_network : Peer → Action (Rpc Msg W) IngressLoadBalancerError (Unit {0})
  unfolding added_as add_peer
  add_to_network p s = let (n, r) = add_peer p s.network in (added_as r, record s { network = n })

-- A connection from a peer, by the bytes that it brings. What the reader task then reads is
-- returned.
module _ {Msg W : Type 0} where
  unfoldable pub accept_connection : List ℕ → Action (Rpc Msg W) IngressLoadBalancerError (List ℕ)
  unfolding handle_connection add_to_network
  accept_connection input = elim (handle_connection input) [
    | none ↦ fail (other "")
    | some (peer, rest) ↦ add_to_network peer >> pure rest
  ]

  -- The loop of `start`, over what `accept` gives: a connection, or an error, which ends it. Each
  -- connection has a task of its own, which only prints its error.
  unfoldable pub accept_all :
      List (Option (List ℕ)) → Action (Rpc Msg W) IngressLoadBalancerError (Unit {0})
  unfolding accept_connection
  accept_all [] = pure tt
  accept_all (none ∷ inputs) = fail (other "")
  accept_all (some input ∷ inputs) = λ s. accept_all inputs (accept_connection input s).1

unfoldable pub setup_stream :
    {Stream W : Type 0} → Sockets Stream W → String → W → Option Stream × W
setup_stream sockets addr = sockets.connect addr

module _ {Msg Stream W : Type 0} (sockets : Sockets Stream W) where
  unfoldable pub open_stream : String → Action (Rpc Msg W) IngressLoadBalancerError Stream
  unfolding setup_stream
  open_stream addr s =
      let (r, w) = sockets.retry (setup_stream sockets (concat addr ":8000")) s.world in
      (elim r [ none ↦ err (other "") | some stream ↦ ok stream ], record s { world = w })

  unfoldable pub write_hello : Stream → Action (Rpc Msg W) IngressLoadBalancerError (Unit {0})
  unfolding hello
  write_hello stream s =
      let (done, w) = sockets.write_all stream (hello s.network.our_id) s.world in
      (if done then ok tt else err (other ""), record s { world = w })

  -- `add_peer`. The stream that the peer is made of is returned.
  unfoldable pub connect_peer :
      (String → NodeId)
      → String
      → (addr peer_name : String) → Action (Rpc Msg W) IngressLoadBalancerError Stream
  unfolding open_stream write_hello add_to_network dial
  connect_peer name_to_hash current addr peer_name = do
    stream ← open_stream addr
    write_hello stream
    add_to_network (dial name_to_hash current peer_name)
    pure stream
