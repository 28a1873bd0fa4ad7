-- ===== src/Congress/Network/Invariant.antt =====
-- The invariant of `RPCNetwork` (congress/src/senator.rs), kept by every operation.
use drawbridge_ingress.Prelude.{
  ℕ, ◌+◌, ◌<◌, ◌≡◌, refl, ◌⊎◌, inl, inr, Bool, some, List, [], ◌∷◌, arith, All, All-mono, not, ◌&&◌,
  ltb, ◌==◌, ==_iff, Bool-cases, Option-cases,
}
use drawbridge_ingress.Prelude.Maps.{
  lookup, insert, remove, nat_eq, lookup-remove, lookup-insert, All-remove, All-insert,
}
use drawbridge_ingress.Congress.Types.{NodeId, Message}
use drawbridge_ingress.Congress.Peer.{Peer}
use drawbridge_ingress.Congress.Network.{
  Conn, Reader, running, closed, ended, Network, stop, set_reader, remove_peer_with_peers,
  drop_replaced, remove_peer, insert_peer, add_beside, add_peer, reader_reads, reader_fails,
  recv_msg, send_msg, new, Operation, add, drop, sends, reads, fails, receive, perform, perform_all,
}

-- An entry stands under its peer's id, and its connection was established by one of the two ends.
abbrev pub IsEntry : NodeId → ℕ → NodeId × Conn → Type 0
IsEntry our_id next (k, c) =
    (c.peer_id ≡ k) × ((c.established_by ≡ our_id) ⊎ (c.established_by ≡ k)) × (c.serial < next)

pub record IsValid {ℓ} {Msg : Type ℓ} (n : Network Msg) : Type 0 where
  pub entries : All (IsEntry n.our_id n.next) n.peers
  -- no task reads from a connection that is not in the map
  pub owned :
      (s : ℕ)
      → n.reader s ≡ running
      → (k : NodeId) × (c : Conn) × (lookup k n.peers ≡ some c) × (c.serial ≡ s)

module _ {ℓ} {Msg : Type ℓ} {n : Network Msg} (v : IsValid n) where
  remove_found-owned :
      (id : NodeId) (c : Conn)
      → lookup id n.peers ≡ some c
      → (s : ℕ) → set_reader n.reader c.serial (stop (n.reader c.serial) closed) s ≡ running
      → (k : NodeId) × (d : Conn) × (lookup k (remove id n.peers) ≡ some d) × (d.serial ≡ s)
  remove_found-owned id c found s run =
      let (k, d, at_k, ser) = v.owned s (ground arith) in
      (k, d, ground (arith, lookup-remove id k n.peers, ==_iff id k), ser)

  pub remove_peer_with_peers-IsValid : (id : NodeId) → IsValid (remove_peer_with_peers id n)
  unfolding remove_peer_with_peers
  remove_peer_with_peers-IsValid id = elim (Option-cases (lookup id n.peers)) [
    | inl absent ↦ rw (absent, remove_peer_with_peers) v
    | inr (c, found) ↦
        rw (found, remove_peer_with_peers)
          (record {
            entries = All-remove (IsEntry n.our_id n.next) id n.peers v.entries;
            owned = remove_found-owned id c found;
          })
  ]

  -- The entries after an insertion; its serial number is fresh.
  inserted-entries :
      (p : Peer)
      → ((p.established_by ≡ n.our_id) ⊎ (p.established_by ≡ p.peer_id))
      → All
          (IsEntry n.our_id (n.next + 1))
          (insert p.peer_id (record { peer = p; serial = n.next }) n.peers)
  inserted-entries p by =
      All-insert (IsEntry n.our_id (n.next + 1)) p.peer_id (record { peer = p; serial = n.next })
        n.peers (refl, by, omega arith)
        (All-mono (IsEntry n.our_id n.next) (IsEntry n.our_id (n.next + 1))
          (λ entry h. (h.0, h.1, omega arith)) n.peers v.entries)

  -- A reader that runs after an insertion: the new one, or one whose entry is not replaced.
  inserted-owned :
      (p : Peer) (reader : ℕ → Reader)
      → ((s : ℕ)
          → reader s ≡ running
          → (n.reader s ≡ running)
            × ((c : Conn) → lookup p.peer_id n.peers ≡ some c → c.serial ≡ s → ⊥))
      → (s : ℕ) → set_reader reader n.next running s ≡ running
      → (k : NodeId) × (d : Conn) × (lookup k
            (insert p.peer_id (record { peer = p; serial = n.next }) n.peers)
          ≡ some d)
        × (d.serial ≡ s)
  inserted-owned p reader kept s run = elim (Bool-cases (n.next == s)) [
    | inl fresh ↦ (
      p.peer_id,
      record { peer = p; serial = n.next },
      ground
          (arith, lookup-insert p.peer_id p.peer_id (record { peer = p; serial = n.next }) n.peers),
      ground arith,
    )
    | inr old ↦
        let run' : reader s ≡ running = rw old at run in
        let (alive, other) = kept s run' in
        let (k, d, at_k, ser) = v.owned s alive in
        (
          k,
          d,
          ground (
            arith,
            lookup-insert p.peer_id k (record { peer = p; serial = n.next }) n.peers,
            ==_iff p.peer_id k,
            other d,
          ),
          ser,
        )
  ]

  pub insert_peer-IsValid :
      (p : Peer)
      → ((p.established_by ≡ n.our_id) ⊎ (p.established_by ≡ p.peer_id))
      → IsValid (insert_peer p n)
  unfolding insert_peer
  insert_peer-IsValid p by = elim (Option-cases (lookup p.peer_id n.peers)) [
    | inl absent ↦
        rw (absent, insert_peer, drop_replaced)
          (record {
            entries = inserted-entries p by;
            owned = inserted-owned p n.reader (λ s run. (run, λ c found ser. cc));
          })
    | inr (c, found) ↦
        rw (found, insert_peer, drop_replaced)
          (record {
            entries = inserted-entries p by;
            owned =
                inserted-owned p (set_reader n.reader c.serial (stop (n.reader c.serial) ended))
                  (λ s run. (ground arith, λ d found' ser. ground arith));
          })
  ]

pub our_id-remove {ℓ} :
    {Msg : Type ℓ} (id : NodeId) (n : Network Msg) → (remove_peer_with_peers id n).our_id ≡ n.our_id
unfolding remove_peer_with_peers
our_id-remove id n = ground arith

module _ {ℓ} {Msg : Type ℓ} {n : Network Msg} (v : IsValid n) where
  add_beside-IsValid :
      (p : Peer) (existing : Conn)
      → ((p.established_by ≡ n.our_id) ⊎ (p.established_by ≡ p.peer_id))
      → IsValid (add_beside p existing n).0
  unfolding add_beside
  add_beside-IsValid p existing by =
      elim (Bool-cases (p.established_by == existing.established_by)) [
        | inl same ↦ rw same v
        | inr other ↦ elim (Bool-cases (ltb existing.established_by p.established_by)) [
          | inl higher ↦
              rw (other, higher)
                (insert_peer-IsValid (remove_peer_with_peers-IsValid v p.peer_id) p
                  (rw our_id-remove by))
          | inr lower ↦ rw (other, lower) (insert_peer-IsValid v p by)
        ]
      ]

  -- Whatever is added, and whether it is accepted or not.
  pub add_peer-IsValid : (p : Peer) → IsValid (add_peer p n).0
  unfolding add_peer
  add_peer-IsValid p =
      elim (Bool-cases
        (not (p.established_by == n.our_id) && not (p.established_by == p.peer_id))) [
          | inl bad ↦ rw bad v
          | inr good ↦
              let by : (p.established_by ≡ n.our_id) ⊎ (p.established_by ≡ p.peer_id) =
                ground arith in
              elim (Option-cases (lookup p.peer_id n.peers)) [
                | inl absent ↦ rw (good, absent, add_peer) (insert_peer-IsValid v p by)
                | inr (c, found) ↦ rw (good, found, add_peer) (add_beside-IsValid p c by)
              ]
        ]

  pub send_msg-IsValid : (m : Message Msg) (written : Bool) → IsValid (send_msg m written n).0
  unfolding send_msg
  send_msg-IsValid m written = elim (Option-cases (lookup m.to n.peers)) [
    | inl absent ↦ rw (absent, send_msg) (remove_peer_with_peers-IsValid v m.to)
    | inr (c, found) ↦ elim (Bool-cases written) [
      | inl sent ↦ rw (found, sent, send_msg) v
      | inr failed ↦ rw (found, failed, send_msg) (remove_peer_with_peers-IsValid v m.to)
    ]
  ]

  -- A reader that reads, or fails, leaves the map alone.
  reads-IsValid :
      (s : ℕ) (m : Message Msg) (r : Reader) → n.reader s ≡ r → IsValid (perform (reads s m) n)
  unfolding perform
  reads-IsValid s m running e =
      rw (e, perform, reader_reads) (record { entries = v.entries; owned = v.owned })
  reads-IsValid s m closed e = rw (e, perform, reader_reads) v
  reads-IsValid s m ended e = rw (e, perform, reader_reads) v

  fails-IsValid : (s : ℕ) (r : Reader) → n.reader s ≡ r → IsValid (perform {Msg = Msg} (fails s) n)
  unfolding perform
  fails-IsValid s running e =
      rw (e, perform, reader_fails)
        (record { entries = v.entries; owned = λ t run. v.owned t (ground arith) })
  fails-IsValid s closed e = rw (e, perform, reader_fails) v
  fails-IsValid s ended e = rw (e, perform, reader_fails) v

  receive-IsValid :
      (ms : List (Message Msg)) → n.channel ≡ ms → IsValid (perform {Msg = Msg} receive n)
  unfolding perform
  receive-IsValid [] e = rw (e, perform, recv_msg) v
  receive-IsValid (m ∷ ms) e =
      rw (e, perform, recv_msg) (record { entries = v.entries; owned = v.owned })

  perform-IsValid : (o : Operation Msg) → IsValid (perform o n)
  unfolding perform
  perform-IsValid (add p) = add_peer-IsValid p
  perform-IsValid (drop id) = unfold remove_peer in remove_peer_with_peers-IsValid v id
  perform-IsValid (sends m written) = send_msg-IsValid m written
  perform-IsValid (reads s m) = reads-IsValid s m (n.reader s) refl
  perform-IsValid (fails s) = fails-IsValid s (n.reader s) refl
  perform-IsValid receive = receive-IsValid n.channel refl

perform_all-IsValid {ℓ} :
    {Msg : Type ℓ} (os : List (Operation Msg)) {n : Network Msg}
    → IsValid n
    → IsValid (perform_all os n)
unfolding perform_all
perform_all-IsValid [] v = v
perform_all-IsValid (o ∷ os) v = perform_all-IsValid os (perform-IsValid v o)

-- After any operations on a new network, every entry stands under its peer's id and was established
-- by one of its two ends, and every reader task that runs reads from a connection in the map.
pub network-IsValid {ℓ} :
    {Msg : Type ℓ} (our_id : NodeId) (os : List (Operation Msg))
    → IsValid (perform_all os (new our_id))
unfolding new
network-IsValid our_id os = perform_all-IsValid os (record { entries = tt; owned = λ s run. cc })
