-- ===== src/Congress/Network.antt =====
-- congress/src/senator.rs (`RPCNetwork`): the peers of a node, the reader task of each connection,
-- and the channel of received messages.
pub mod Invariant
pub mod Duplicates
pub mod Readers
pub mod Agreement
mod Tests
use drawbridge_ingress.Prelude.{
  ℕ, ◌+◌, Bool, true, false, not, ◌&&◌, Option, none, some, List, [], ◌∷◌, ◌++◌, map, ltb, ◌==◌,
  if◌then◌else◌,
}
use drawbridge_ingress.Prelude.Maps.{lookup, insert, remove, nat_eq}
use drawbridge_ingress.Congress.Types.{NodeId, Message}
use drawbridge_ingress.Congress.Peer.{Peer}

-- A connection that was added. The serial number stands for the identity of the `Arc<Peer>` and of
-- the reader task that was spawned for it.
pub record Conn : Type 0 where
  pub peer : Peer
  pub open peer use *
  pub serial : ℕ

-- A reader task reads, or was stopped by a close signal, or has ended with an error.
pub data Reader : Type 0 where
  running closed ended : Reader

pub record Network {ℓ} (Msg : Type ℓ) : Type ℓ where
  pub our_id : NodeId
  pub peers : List (NodeId × Conn)
  pub reader : ℕ → Reader
  pub channel : List (Message Msg)
  pub next : ℕ

-- The result of `add_peer`: `Ok(())`, or one of its two errors.
pub data Added : Type 0 where
  added not_ours duplicate : Added

abbrev pub set_reader : (ℕ → Reader) → ℕ → Reader → ℕ → Reader
set_reader f i r j = if i == j then r else f j

-- A task stops only while it runs.
abbrev pub stop : Reader → Reader → Reader
stop running r = r
stop closed r = closed
stop ended r = ended

module _ {ℓ} {Msg : Type ℓ} where
  -- The reader task of a connection stops with the outcome `r`.
  unfoldable pub stop_reader : Conn → Reader → Network Msg → Network Msg
  stop_reader c r n = record n {
    reader = set_reader n.reader c.serial (stop (n.reader c.serial) r);
  }

module _ {ℓ} {Msg : Type ℓ} where
  -- The entry goes, and its reader gets the close signal, if it still runs.
  unfoldable pub remove_peer_with_peers : NodeId → Network Msg → Network Msg
  unfolding stop_reader
  remove_peer_with_peers id n = elim (lookup id n.peers) [
    | none ↦ n
    | some c ↦ stop_reader c closed (record n { peers = remove id n.peers })
  ]

  -- The close sender of an entry that `insert` replaces is dropped, which ends its reader.
  unfoldable pub drop_replaced : NodeId → Network Msg → Network Msg
  unfolding stop_reader
  drop_replaced id n = elim (lookup id n.peers) [ none ↦ n | some c ↦ stop_reader c ended n ]

module _ {ℓ} {Msg : Type ℓ} where
  unfoldable pub remove_peer : NodeId → Network Msg → Network Msg
  unfolding remove_peer_with_peers
  remove_peer id n = remove_peer_with_peers id n

  -- `peers.insert`, and the spawned reader.
  unfoldable pub insert_peer : Peer → Network Msg → Network Msg
  unfolding drop_replaced
  insert_peer p n =
      let n' = drop_replaced p.peer_id n in
      record n' {
        peers = insert p.peer_id (record { peer = p; serial = n.next }) n'.peers;
        reader = set_reader n'.reader n.next running;
        next = n.next + 1;
      }

module _ {ℓ} {Msg : Type ℓ} where
  -- What `add_peer` does beside an entry of the same peer. In its last branch `Ok(())?` has the
  -- value `()`: the function does not return there, and the new connection is inserted.
  unfoldable pub add_beside : Peer → Conn → Network Msg → Network Msg × Added
  unfolding insert_peer remove_peer_with_peers
  add_beside p existing n =
      if p.established_by == existing.established_by
      then (n, duplicate)
      else if ltb existing.established_by p.established_by
      then (insert_peer p (remove_peer_with_peers p.peer_id n), added)
      else (insert_peer p n, added)

  unfoldable pub add_peer : Peer → Network Msg → Network Msg × Added
  unfolding add_beside insert_peer
  add_peer p n =
      if not (p.established_by == n.our_id) && not (p.established_by == p.peer_id)
      then (n, not_ours)
      else elim (lookup p.peer_id n.peers) [
        | none ↦ (insert_peer p n, added)
        | some existing ↦ add_beside p existing n
      ]

  -- The reader of `serial` has read a message: it goes to the channel.
  unfoldable pub reader_reads : ℕ → Message Msg → Network Msg → Option (Network Msg)
  reader_reads serial m n = elim (n.reader serial) [
    | running ↦ some (record n { channel = n.channel ++ m ∷ [] })
    | closed ↦ none
    | ended ↦ none
  ]

  -- The reader of `serial` could not read: the task prints the error and ends. The entry stays.
  unfoldable pub reader_fails : ℕ → Network Msg → Option (Network Msg)
  reader_fails serial n = elim (n.reader serial) [
    | running ↦ some (record n { reader = set_reader n.reader serial ended })
    | closed ↦ none
    | ended ↦ none
  ]

  -- `recv_msg` takes the first message of the channel, and waits where there is none.
  unfoldable pub recv_msg : Network Msg → Option (Message Msg × Network Msg)
  recv_msg n = elim n.channel [ [] ↦ none | m ∷ rest ↦ some (m, record n { channel = rest }) ]

  -- `send_msg`, where `written` says whether the peer's stream took the message. The result says
  -- whether the message was sent.
  unfoldable pub send_msg : Message Msg → Bool → Network Msg → Network Msg × Bool
  unfolding remove_peer
  send_msg m written n = elim (lookup m.to n.peers) [
    | none ↦ (remove_peer m.to n, false)
    | some c ↦ if written then (n, true) else (remove_peer m.to n, false)
  ]

  unfoldable pub members : Network Msg → List NodeId
  members n = map (λ (entry : NodeId × Conn). entry.0) n.peers

unfoldable pub new {ℓ} : {Msg : Type ℓ} → NodeId → Network Msg
new our_id = record {
  our_id = our_id;
  peers = [];
  reader = λ serial. ended;
  channel = [];
  next = 0;
}

-- What happens to a network: its operations, and what its reader tasks do.
pub data Operation {ℓ} (Msg : Type ℓ) : Type ℓ where
  add : Peer → Operation Msg
  drop : NodeId → Operation Msg
  sends : Message Msg → Bool → Operation Msg
  reads : ℕ → Message Msg → Operation Msg
  fails : ℕ → Operation Msg
  receive : Operation Msg

abbrev pub or_same {ℓ} : {A : Type ℓ} → A → Option A → A
or_same a none = a
or_same a (some b) = b

module _ {ℓ} {Msg : Type ℓ} where
  -- A task that does not run, or a channel that is empty, changes nothing.
  unfoldable pub perform : Operation Msg → Network Msg → Network Msg
  unfolding add_peer remove_peer send_msg reader_reads reader_fails recv_msg
  perform (add p) n = (add_peer p n).0
  perform (drop id) n = remove_peer id n
  perform (sends m written) n = (send_msg m written n).0
  perform (reads s m) n = or_same n (reader_reads s m n)
  perform (fails s) n = or_same n (reader_fails s n)
  perform receive n = elim (recv_msg n) [ none ↦ n | some (m, n') ↦ n' ]

module _ {ℓ} {Msg : Type ℓ} where
  unfoldable pub perform_all : List (Operation Msg) → Network Msg → Network Msg
  perform_all [] n = n
  perform_all (o ∷ os) n = perform_all os (perform o n)
