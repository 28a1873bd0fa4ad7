-- ===== src/Ingress/Connections/Handshake.antt =====
-- What both ends of a connection hold after it was made (drawbridge_ingress/src/leadership_system.rs).
use mathlib.Core.Path.{subst}
use Prim.Native.String.{◌++◌ as concat}
use drawbridge_ingress.Prelude.{
  ℕ, ◌^◌, ◌<◌, ◌≡◌, ◌≢◌, refl, sym, ap, ◌∙◌, true, Option, some, List, [], ◌++◌, ◌⊎◌, inl, inr,
  arith, ==_iff, Bool-cases, Option-cases,
}
use drawbridge_ingress.Prelude.Maps.{String, lookup, nat_eq}
use drawbridge_ingress.Prelude.Action.{Outcome, ok, err, pure, ◌>>=◌, ◌>>◌, >>=-eq-ok}
use drawbridge_ingress.Congress.Types.{NodeId}
use drawbridge_ingress.Congress.Peer.{Peer}
use drawbridge_ingress.Congress.Network.Duplicates.{add_peer_lem}
use drawbridge_ingress.Congress.Network.Agreement.{established, established-add_peer}
use drawbridge_ingress.Ingress.Error.{IngressLoadBalancerError, other}
use drawbridge_ingress.Ingress.Leadership.{hello, dial}
use drawbridge_ingress.Ingress.Leadership.Replication.{handle_connection-hello}
use drawbridge_ingress.Ingress.Connections.{
  Sockets, Rpc, added_as, add_to_network, accept_connection, setup_stream, open_stream, write_hello,
  connect_peer,
}

-- What is relied on of TCP: `sent` are the bytes that were written to a stream so far, which its
-- other end reads, in order.
pub record IsSockets {Stream W : Type 0} (sockets : Sockets Stream W) : Type 0 where
  pub sent : Stream → W → List ℕ
  pub sent-connect :
      (addr : String) (stream : Stream) (w w' : W)
      → sockets.retry (sockets.connect addr) w ≡ (some stream, w')
      → sent stream w' ≡ []
  pub sent-write_all :
      (stream : Stream) (bytes : List ℕ) (w w' : W)
      → sockets.write_all stream bytes w ≡ (true, w')
      → sent stream w' ≡ sent stream w ++ bytes

module _ {Msg W : Type 0} where
  -- The connection to `id` that an ingress holds, by who established it.
  abbrev held : NodeId → Rpc Msg W → Option NodeId
  held id s = established (lookup id s.network.peers)

  add_to_network-held :
      (p : Peer) (s : Rpc Msg W)
      → (p.established_by ≡ s.network.our_id) ⊎ (p.established_by ≡ p.peer_id)
      → held p.peer_id (add_to_network p s).1 ≡ some p.established_by
  unfolding add_to_network
  add_to_network-held p s by = ground (
    arith,
    established-add_peer p s.network,
    ==_iff p.established_by s.network.our_id,
    ==_iff p.established_by p.peer_id,
  )

  add_to_network-fresh :
      (p : Peer) (s : Rpc Msg W)
      → p.established_by ≡ p.peer_id
      → held p.peer_id s ≢ some p.established_by
      → (add_to_network p s).0 ≡ ok tt
  unfolding add_to_network added_as
  add_to_network-fresh p s theirs fresh = elim (Option-cases (lookup p.peer_id s.network.peers)) [
    | inl absent ↦ ground (arith, (add_peer_lem p s.network).0, ==_iff p.established_by p.peer_id)
    | inr (c, found) ↦ ground (
      arith,
      (add_peer_lem p s.network).0,
      ==_iff p.established_by p.peer_id,
      ==_iff p.established_by c.established_by,
    )
  ]

  -- The bytes of a peer with the id `id`: it is held then as one that it established itself.
  accept_connection-hello :
      (id : NodeId) (rest : List ℕ) (s : Rpc Msg W)
      → id < 256 ^ 8
      → held id s ≢ some id
      → ((accept_connection (hello id ++ rest) s).0 ≡ ok rest)
        × (held id (accept_connection (hello id ++ rest) s).1 ≡ some id)
  unfolding accept_connection ◌>>=◌ pure
  accept_connection-hello id rest s small fresh =
      let p : Peer = record { established_by = id; peer_id = id } in
      let ran : accept_connection (hello id ++ rest) s ≡ (add_to_network p >> pure rest) s =
        rw (accept_connection, handle_connection-hello id rest small) refl in
      let through = add_to_network-fresh p s refl fresh in
      subst (λ r. (r.0 ≡ ok rest) × (held id r.1 ≡ some id)) (sym ran)
        (rw (through) (refl, add_to_network-held p s (inr refl)))

module _ {Msg Stream W : Type 0} (sockets : Sockets Stream W) (law : IsSockets sockets) where
  opened :
      (addr : String) (stream : Stream) (s s' : Rpc Msg W)
      → open_stream sockets addr s ≡ (ok stream, s')
      → (law.sent stream s'.world ≡ []) × (s'.network ≡ s.network)
  unfolding open_stream setup_stream
  opened addr stream s s' done =
      let run = sockets.retry (setup_stream sockets (concat addr ":8000")) s.world in
      elim (Option-cases run.0) [
        | inl failed ↦
            let no : (err (other ""), record s { world = run.1 }) ≡ (ok stream, s') =
              rw (open_stream, failed) at done in
            cc
        | inr (st, came) ↦
            let e : (ok st, record s { world = run.1 }) ≡ (ok stream, s') =
              rw (open_stream, came) at done in
            let outcome : ◌≡◌ {A = Outcome IngressLoadBalancerError Stream} (ok st) (ok stream) =
              ap (λ r. r.0) e in
            let same : st ≡ stream = cc in
            subst (λ x. (law.sent stream x.world ≡ []) × (x.network ≡ s.network)) (ap (λ r. r.1) e)
              (
                law.sent-connect (concat addr ":8000") stream s.world run.1
                    (ap (λ o. (o, run.1)) (came ∙ ap some same)),
                refl,
              )
      ]

  wrote :
      (stream : Stream) (s s' : Rpc Msg W)
      → write_hello sockets stream s ≡ (ok tt, s')
      → (law.sent stream s'.world ≡ law.sent stream s.world ++ hello s.network.our_id)
        × (s'.network ≡ s.network)
  unfolding write_hello
  wrote stream s s' done =
      elim (Bool-cases (sockets.write_all stream (hello s.network.our_id) s.world).0) [
        | inr failed ↦
            let no : (
              err (other ""),
              record s { world = (sockets.write_all stream (hello s.network.our_id) s.world).1 },
            )
                ≡ (ok tt, s') =
              rw (write_hello, failed) at done in
            cc
        | inl through ↦
            let run = sockets.write_all stream (hello s.network.our_id) s.world in
            let e : (ok tt, record s { world = run.1 }) ≡ (ok tt, s') =
              rw (write_hello, through) at done in
            subst
              (λ x.
                (law.sent stream x.world ≡ law.sent stream s.world ++ hello s.network.our_id)
                × (x.network ≡ s.network))
              (ap (λ r. r.1) e)
              (
                law.sent-write_all stream (hello s.network.our_id) s.world run.1
                    (ap (λ t. (t, run.1)) through),
                refl,
              )
      ]

  -- When an ingress, whose id is the hash of its name, has dialled a peer and its `add_peer` went
  -- through, the ingress holds, under the hash of the peer's name, a connection that it established
  -- itself. The other end, which reads what was written to the stream and then some `rest`, and holds
  -- no connection that this ingress established, takes the connection and leaves just the `rest` to
  -- its reader task, and holds, under the hash of the ingress's name, a connection that the same end
  -- established. This is so if a hash has 64 bits, nothing is on a stream that was connected just
  -- now, and what is written to a stream comes after what was written before.
  pub connect_peer-accept_connection :
      (name_to_hash : String → NodeId) (ours addr theirs : String) (stream : Stream) (rest : List ℕ)
      (a a' b : Rpc Msg W)
      → a.network.our_id ≡ name_to_hash ours
      → name_to_hash ours < 256 ^ 8
      → connect_peer sockets name_to_hash ours addr theirs a ≡ (ok stream, a')
      → held (name_to_hash ours) b ≢ some (name_to_hash ours)
      → (established (lookup (name_to_hash theirs) a'.network.peers) ≡ some (name_to_hash ours))
        × ((accept_connection (law.sent stream a'.world ++ rest) b).0 ≡ ok rest)
        × (established (
              lookup
                (name_to_hash ours)
                (accept_connection (law.sent stream a'.world ++ rest) b).1.network.peers)
            ≡ some (name_to_hash ours))
  unfolding connect_peer add_to_network dial pure
  connect_peer-accept_connection name_to_hash ours addr theirs stream rest a a' b own small done
        fresh =
      let p = dial name_to_hash ours theirs in
      let (stream', s1, open_, later) =
        >>=-eq-ok (open_stream sockets addr)
          (λ st. write_hello sockets st >> (add_to_network p >> pure st)) a done in
      let (_, s2, wrote_, last_) =
        >>=-eq-ok (write_hello sockets stream') (λ _. add_to_network p >> pure stream') s1 later in
      let (_, s3, added_, returned) = >>=-eq-ok (add_to_network p) (λ _. pure stream') s2 last_ in
      let (nothing_sent, same1) = opened addr stream' a s1 open_ in
      let (hello_sent, same2) = wrote stream' s1 s2 wrote_ in
      let outcome : ◌≡◌ {A = Outcome IngressLoadBalancerError Stream} (ok stream') (ok stream) =
        ap (λ r. r.0) returned in
      let same_stream : stream' ≡ stream = cc in
      let through : (add_to_network p s2).1 ≡ a' = ap (λ r. r.1) added_ ∙ ap (λ r. r.1) returned in
      let our_id : s1.network.our_id ≡ name_to_hash ours = ap (λ n. n.our_id) same1 ∙ own in
      let bytes : law.sent stream a'.world ≡ hello (name_to_hash ours) =
        ap (λ st. law.sent st a'.world) (sym same_stream)
        ∙ ap (λ x. law.sent stream' x.world) (sym through)
        ∙ hello_sent
        ∙ ap (λ bs. bs ++ hello s1.network.our_id) nothing_sent
        ∙ ap hello our_id in
      let at_a : held p.peer_id (add_to_network p s2).1 ≡ some p.established_by =
        add_to_network-held p s2 (inl (sym (ap (λ n. n.our_id) same2 ∙ our_id))) in
      let (result, there_) =
        subst
          (λ bs.
            ((accept_connection (bs ++ rest) b).0 ≡ ok rest)
            × (held (name_to_hash ours) (accept_connection (bs ++ rest) b).1
                ≡ some (name_to_hash ours)))
          (sym bytes) (accept_connection-hello (name_to_hash ours) rest b small fresh) in
      (subst (λ x. held p.peer_id x ≡ some p.established_by) through at_a, result, there_)
