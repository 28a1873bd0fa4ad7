-- ===== src/Ingress/Leadership/Replication.antt =====
-- The state that the leader shares, and what its peers make of it
-- (drawbridge_ingress/src/leadership_system.rs).
use mathlib.Core.Path.{subst}
use drawbridge_ingress.Prelude.{
  ℕ, suc, ◌^◌, ◌+◌, ◌<◌, ◌==◌, inl, inr, ◌≡◌, refl, true, false, Option, none, some, ◌∙◌, ap, Bool,
  Bool-cases, List, [], ◌∷◌, ◌++◌, arith, All, if◌then◌else◌, leb, to_be_bytes, from_be_bytes,
  read_exact, read_exact-append, length-to_be_bytes, from_be_bytes-to_be_bytes,
}
use drawbridge_ingress.Prelude.Maps.{
  String, lookup, string_eq, pair_eq, pair_beq, pair_beq_iff, Distinct, Distinct-insert, All-insert,
}
use drawbridge_ingress.Congress.Types.{
  NodeId, leader, MessageType, custom, leader_heartbeat, vote_request, vote_granted, Senator,
  Effect, send, spawn_send, call_role, call_message,
}
use drawbridge_ingress.Congress.Senator.{broadcast_message}
use drawbridge_ingress.Ingress.Certificates.{
  Http01Challenge, CertificateState, apply_challenge, handle_if_challenge,
}
use drawbridge_ingress.Ingress.Certificates.Serving.{handle-apply_challenge}
use drawbridge_ingress.Ingress.Leadership.{
  View, Views, later_views, IngressMessage, request_state, challenge, certs, LeadershipSystem,
  share_challenges, share_as, share_state, on_message, hello, handle_connection,
}

-- What a peer answers for a challenge of the leader, or as before.
abbrev pub answer : Option Http01Challenge → Option String → Option String
answer none old = old
answer (some c) old = some c.contents

-- A challenge stands under its domain and path.
abbrev pub IsKeyed : (String × String) × Http01Challenge → Type 0
IsKeyed (k, c) = (c.domain, c.path) ≡ k

-- The first challenge's answer is not changed by the later ones.
answer_first :
    (this : Bool) (c : Http01Challenge) (later : Option Http01Challenge) (old : Option String)
    → (this ≡ true → later ≡ none)
    → answer later (if this then some c.contents else old)
      ≡ answer (if this then some c else later) old
answer_first true c later old absent = rw (absent refl) refl
answer_first false c later old absent = refl

-- How often a peer is among the members.
unfoldable pub count : NodeId → List NodeId → ℕ
count p [] = 0
count p (id ∷ members) = if id == p then 1 + count p members else count p members

-- A peer is once among the members, whenever they are read.
abbrev pub SeesOnce : NodeId → Views → Type 0
SeesOnce p views = (n : ℕ) → count p (views n).members ≡ 1

module _ {Key : Type 0} where
  -- What a peer answers is not looked at.
  abbrev unseen : LeadershipSystem Key → View
  unseen l = record { members = []; senator = l.senator }

  -- Peer `p` takes what is broadcast to it, in order.
  unfoldable pub take_all :
      NodeId → List (Effect (IngressMessage Key)) → LeadershipSystem Key → LeadershipSystem Key
  take_all p [] l = l
  take_all p (spawn_send to t m ∷ es) l =
      take_all p es (if to == p then (on_message (λ _. unseen l) t m l).0 else l)
  take_all p (send m ∷ es) l = take_all p es l
  take_all p (call_role f r ∷ es) l = take_all p es l
  take_all p (call_message f m ∷ es) l = take_all p es l

  module _ (p : NodeId) (m : MessageType (IngressMessage Key)) (s : Senator)
      (es : List (Effect (IngressMessage Key))) where
    take_all-others :
        (members : List NodeId) (l : LeadershipSystem Key)
        → count p members ≡ 0
        → take_all p (broadcast_message m members s ++ es) l ≡ take_all p es l
    unfolding take_all broadcast_message count
    take_all-others [] l absent = refl
    take_all-others (id ∷ members) l absent = elim (Bool-cases (id == p)) [
      | inl this ↦
          let no : 1 + count p members ≡ 0 = rw (count, this) at absent in
          absurd (omega (arith, no))
      | inr other ↦
          let absent' : count p members ≡ 0 = rw (count, other) at absent in
          rw (take_all, other) (take_all-others members l absent')
    ]

    -- A member takes a broadcast once, whoever else gets it.
    pub take_all-broadcast_message :
        (members : List NodeId) (l : LeadershipSystem Key)
        → count p members ≡ 1
        → take_all p (broadcast_message m members s ++ es) l
          ≡ take_all p es (on_message (λ _. unseen l) s.term m l).0
    unfolding take_all broadcast_message count
    take_all-broadcast_message [] l once = absurd (omega (arith, once))
    take_all-broadcast_message (id ∷ members) l once = elim (Bool-cases (id == p)) [
      | inl this ↦
          let once' : 1 + count p members ≡ 1 = rw (count, this) at once in
          rw (take_all, this)
            (take_all-others members (on_message (λ _. unseen l) s.term m l).0
              (omega (arith, once')))
      | inr other ↦
          let once' : count p members ≡ 1 = rw (count, other) at once in
          rw (take_all, other) (take_all-broadcast_message members l once')
    ]

  pub take_challenges :
      (cs : List ((String × String) × Http01Challenge)) (p : NodeId) (views : Views)
      (l : LeadershipSystem Key)
      → SeesOnce p views
      → All IsKeyed cs
      → Distinct cs
      → (host path : String)
      → (handle_if_challenge host path (take_all p (share_challenges cs views) l).certificate_state
          ≡ answer (lookup (host, path) cs) (handle_if_challenge host path l.certificate_state))
        × ((take_all p (share_challenges cs views) l).certificate_state.certs
            ≡ l.certificate_state.certs)
  unfolding take_all share_challenges on_message lookup apply_challenge
  take_challenges [] p views l once keyed distinct host path = (refl, refl)
  take_challenges ((k, c) ∷ cs) p views l once keyed distinct host path =
      let l' = record l { certificate_state = apply_challenge c l.certificate_state } in
      let took =
        take_all-broadcast_message p (custom (challenge c)) (views 0).senator
          (share_challenges cs (later_views views)) (views 0).members l (once 0) in
      let (answers, same) =
        take_challenges cs p (later_views views) l' (λ n. once (suc n)) keyed.1 distinct.1 host
          path in
      let first : handle_if_challenge host path l'.certificate_state ≡ (
          if pair_beq k (host, path)
          then some c.contents
          else handle_if_challenge host path l.certificate_state) =
        subst
          (λ i. handle_if_challenge host path (apply_challenge c l.certificate_state) ≡ (
            if pair_beq i (host, path)
            then some c.contents
            else handle_if_challenge host path l.certificate_state))
          keyed.0 (handle-apply_challenge c l.certificate_state host path) in
      let absent : (pair_beq k (host, path) ≡ true → lookup (host, path) cs ≡ none) =
        λ this. subst (λ i. lookup i cs ≡ none) ((pair_beq_iff k (host, path)).0 this) distinct.0 in
      (
        ap (λ f. handle_if_challenge host path f.certificate_state) took
            ∙ answers
            ∙ ap (answer (lookup (host, path) cs)) first
            ∙ answer_first (pair_beq k (host, path)) c (lookup (host, path) cs)
                (handle_if_challenge host path l.certificate_state) absent,
        ap (λ f. f.certificate_state.certs) took ∙ same,
      )

  -- Every challenge stands under its own domain and path, once.
  abbrev pub IsKept : CertificateState Key → Type 0
  IsKept s = All IsKeyed s.challenges × Distinct s.challenges

  pub apply_challenge-IsKept :
      (c : Http01Challenge) (s : CertificateState Key) → IsKept s → IsKept (apply_challenge c s)
  unfolding apply_challenge
  apply_challenge-IsKept c s (keyed, distinct) = (
    All-insert IsKeyed (c.domain, c.path) c s.challenges refl keyed,
    Distinct-insert (c.domain, c.path) c s.challenges distinct,
  )

-- Whatever a peer sends, every challenge of the ingress stands under its own domain and path, and
-- no two under the same, if that was so before.
on_message-IsKept :
    {Key : Type 0} (views : Views) (term : ℕ) (m : MessageType (IngressMessage Key))
    (l : LeadershipSystem Key)
    → IsKept l.certificate_state
    → IsKept (on_message views term m l).0.certificate_state
unfolding on_message
on_message-IsKept views term (custom (challenge c)) l kept =
    apply_challenge-IsKept c l.certificate_state kept
on_message-IsKept views term (custom (certs m)) l kept = kept
on_message-IsKept views term (custom request_state) l kept =
    ground (arith, Bool-cases (leb term l.senator.term))
on_message-IsKept views term leader_heartbeat l kept = kept
on_message-IsKept views term vote_request l kept = kept
on_message-IsKept views term vote_granted l kept = kept

-- Each of the leader's peers, however many they are: if it takes, in order, everything that the
-- leader's `share_state` sends it, it has the leader's certificates; a request for a challenge of the
-- leader is answered by the leader's contents, and every other request as before. The role is read as
-- that of a leader, and the members and the term may change before each broadcast, but the peer is
-- once among the members each time. The leader's challenges stand under their own domains and paths,
-- no two under the same.
pub share_state-replicates :
    {Key : Type 0} (p : NodeId) (views : Views) (l f : LeadershipSystem Key) (host path : String)
    → SeesOnce p views
    → (views 0).senator.role ≡ leader
    → IsKept l.certificate_state
    → ((take_all p (share_state views l) f).certificate_state.certs ≡ l.certificate_state.certs)
      × (handle_if_challenge host path (take_all p (share_state views l) f).certificate_state
          ≡ answer
              (lookup (host, path) l.certificate_state.challenges)
              (handle_if_challenge host path f.certificate_state))
unfolding share_state share_as on_message handle_if_challenge
share_state-replicates p views l f host path once leads (keyed, distinct) =
    let f' = record f {
      certificate_state = record f.certificate_state { certs = l.certificate_state.certs };
    } in
    let rest = later_views (later_views views) in
    let (answers, same) =
      take_challenges l.certificate_state.challenges p rest f' (λ n. once (suc (suc n))) keyed
        distinct host path in
    let took : take_all p (share_state views l) f
        ≡ take_all p (share_challenges l.certificate_state.challenges rest) f' =
      ap (λ r. take_all p (share_as r (later_views views) l) f) leads
      ∙ take_all-broadcast_message p (custom (certs l.certificate_state.certs)) (views 1).senator
          (share_challenges l.certificate_state.challenges rest) (views 1).members f (once 1) in
    (
      ap (λ g. g.certificate_state.certs) took ∙ same,
      ap (λ g. handle_if_challenge host path g.certificate_state) took ∙ answers,
    )

connection_read :
    (input buf rest : List ℕ)
    → read_exact 8 input ≡ some (buf, rest)
    → handle_connection input
      ≡ some (record { established_by = from_be_bytes buf; peer_id = from_be_bytes buf }, rest)
unfolding handle_connection
connection_read input buf rest read = ground (arith, read)

-- The other end of a connection takes the id that is sent first for the peer's, and reads on after
-- it, for every id of 64 bits.
pub handle_connection-hello :
    (our_id : NodeId) (rest : List ℕ)
    → our_id < 256 ^ 8
    → handle_connection (hello our_id ++ rest)
      ≡ some (record { established_by = our_id; peer_id = our_id }, rest)
unfolding hello
handle_connection-hello our_id rest small =
    let read =
      subst (λ n. read_exact n (to_be_bytes 8 our_id ++ rest) ≡ some (to_be_bytes 8 our_id, rest))
        (length-to_be_bytes 8 our_id) (read_exact-append (to_be_bytes 8 our_id) rest) in
    subst
      (λ id.
        handle_connection (hello our_id ++ rest)
        ≡ some (record { established_by = id; peer_id = id }, rest))
      (from_be_bytes-to_be_bytes 8 our_id small)
      (connection_read (hello our_id ++ rest) (to_be_bytes 8 our_id) rest read)
