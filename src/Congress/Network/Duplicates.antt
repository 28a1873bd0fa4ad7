-- ===== src/Congress/Network/Duplicates.antt =====
-- Duplicate connections to one peer: `add_peer` of congress/src/senator.rs.
use drawbridge_ingress.Prelude.{
  ◌<◌, ◌≡◌, refl, ◌≢◌, ◌⊎◌, inl, inr, none, some, arith, Bool, true, false, ◌||◌, ltb, ◌==◌, ==_iff,
  if◌then◌else◌, Bool-cases, Option-cases, Option,
}
use drawbridge_ingress.Prelude.Maps.{lookup, nat_eq, lookup-remove, lookup-insert, All-lookup}
use drawbridge_ingress.Congress.Types.{NodeId}
use drawbridge_ingress.Congress.Peer.{Peer}
use drawbridge_ingress.Congress.Network.Invariant.{IsValid, IsEntry}
use drawbridge_ingress.Congress.Network.{
  Conn, running, Network, Added, added, not_ours, duplicate, insert_peer, remove_peer_with_peers,
  add_beside, add_peer,
}

module _ {ℓ} {Msg : Type ℓ} (p : Peer) (n : Network Msg) where
  -- The connection that an accepted call enters.
  abbrev pub entered : Conn
  entered = record { peer = p; serial = n.next }

  lookup-insert_peer :
      (j : NodeId)
      → lookup j (insert_peer p n).peers
        ≡ (if p.peer_id == j then some entered else lookup j n.peers)
  unfolding insert_peer
  lookup-insert_peer j = ground (arith, lookup-insert p.peer_id j entered n.peers)

module _ {ℓ} {Msg : Type ℓ} (id : NodeId) (n : Network Msg) where
  pub lookup-remove_peer :
      (j : NodeId)
      → lookup j (remove_peer_with_peers id n).peers ≡ (if id == j then none else lookup j n.peers)
  unfolding remove_peer_with_peers
  lookup-remove_peer j = ground (arith, lookup-remove id j n.peers, ==_iff id j)

  next-remove_peer : (remove_peer_with_peers id n).next ≡ n.next
  unfolding remove_peer_with_peers
  next-remove_peer = ground arith

-- Whether a connection is accepted beside the entry that is there.
abbrev pub verdict : Peer → NodeId → Option Conn → Added
verdict p our_id existing =
    if p.established_by == our_id || p.established_by == p.peer_id
    then elim existing [
      | none ↦ added
      | some c ↦ if p.established_by == c.established_by then duplicate else added
    ]
    else not_ours

abbrev pub is_added : Added → Bool
is_added added = true
is_added not_ours = false
is_added duplicate = false

module _ {ℓ} {Msg : Type ℓ} (p : Peer) (n : Network Msg) where
  add_beside-lookup :
      (c : Conn) (j : NodeId)
      → lookup j (add_beside p c n).0.peers ≡ (
          if p.established_by == c.established_by
          then lookup j n.peers
          else (if p.peer_id == j then some (entered p n) else lookup j n.peers))
  unfolding add_beside
  add_beside-lookup c j = elim (Bool-cases (p.established_by == c.established_by)) [
    | inl same ↦ rw same refl
    | inr other ↦ elim (Bool-cases (ltb c.established_by p.established_by)) [
      | inl higher ↦
          rw (other, higher, lookup-insert_peer, lookup-remove_peer, next-remove_peer)
            (ground (arith, ==_iff p.peer_id j))
      | inr lower ↦ rw (other, lower, lookup-insert_peer) refl
    ]
  ]

  add_beside-verdict :
      (c : Conn)
      → (add_beside p c n).1 ≡ (if p.established_by == c.established_by then duplicate else added)
  unfolding add_beside
  add_beside-verdict c = ground arith

  -- `add_peer` accepts a connection that one of the two ends established, unless the entry of the
  -- peer was established by the same end. An accepted connection becomes the entry of its peer,
  -- also if the entry that it replaces has the higher `established_by`; the other entries stay,
  -- and a refused connection leaves all of them.
  pub add_peer_lem :
      ((add_peer p n).1 ≡ verdict p n.our_id (lookup p.peer_id n.peers))
      × ((j : NodeId)
          → lookup j (add_peer p n).0.peers ≡ (
              if is_added (add_peer p n).1
              then (if p.peer_id == j then some (entered p n) else lookup j n.peers)
              else lookup j n.peers))
  unfolding add_peer
  add_peer_lem = elim (Option-cases (lookup p.peer_id n.peers)) [
    | inl absent ↦ (ground arith, λ j. ground (arith, lookup-insert_peer p n j))
    | inr (c, found) ↦ (
      rw (found, add_peer) (unfold add_beside in ground arith),
      λ j. rw (found, add_peer) (ground (arith, add_beside-lookup c j, add_beside-verdict c)),
    )
  ]

-- A lower `established_by` does not lose: the connection that is there is replaced by it, and its
-- reader task ends.
pub lower_replaces {ℓ} :
    {Msg : Type ℓ} (p : Peer) (n : Network Msg) (c : Conn)
    → (p.established_by ≡ n.our_id) ⊎ (p.established_by ≡ p.peer_id)
    → IsValid n
    → lookup p.peer_id n.peers ≡ some c
    → p.established_by < c.established_by
    → ((add_peer p n).1 ≡ added)
      × (lookup p.peer_id (add_peer p n).0.peers ≡ some (entered p n))
      × ((add_peer p n).0.reader c.serial ≢ running)
unfolding add_peer
lower_replaces p n c by v found lower =
    let old = (All-lookup (IsEntry n.our_id n.next) p.peer_id c n.peers v.entries found).2 in
    (
      rw (found, add_peer) (ground arith),
      rw (found, add_peer)
          (ground (arith, lookup-insert p.peer_id p.peer_id (entered p n) n.peers)),
      rw (found, add_peer) (λ run. ground arith),
    )
