-- ===== src/Ingress/Cluster/Invariant.antt =====
-- What holds of every ingress of a cluster and of every message between them
-- (drawbridge_ingress/src/leadership_system.rs and lets_encrypt.rs).
use drawbridge_ingress.Prelude.{
  ℕ, List, [], ◌∷◌, ◌++◌, inl, inr, All, All-append, All-left, All-right, Among, Bool-cases, leb,
  ◌==◌,
}
use drawbridge_ingress.Prelude.Maps.{String, pair_eq, string_eq, All-insert}
use drawbridge_ingress.Congress.Types.{
  NodeId, Role, leader, follower, candidate, Senator, custom, Effect,
}
use drawbridge_ingress.Congress.Senator.{broadcast_message}
use drawbridge_ingress.Ingress.Certificates.{
  Http01Challenge, CertKey, CertificateState, apply_challenge,
}
use drawbridge_ingress.Ingress.Leadership.{
  Views, later_views, broadcast, IngressMessage, request_state, challenge, certs, LeadershipSystem,
  share_challenges, share_as, share_state, on_message,
}
use drawbridge_ingress.Ingress.Leadership.Replication.{IsKept, apply_challenge-IsKept}
use drawbridge_ingress.Ingress.Cluster.{Sent, Cluster, sent_by, sent_of, put}

-- A property of every message among effects.
module _ {Key : Type 0} (P : IngressMessage Key → Type 0) where
  abbrev pub AllSent : List (Sent Key) → Type 0
  AllSent ss = All (λ s. P s.msg) ss

  sent_of-append :
      (es fs : List (Effect (IngressMessage Key)))
      → AllSent (sent_of es)
      → AllSent (sent_of fs)
      → AllSent (sent_of (es ++ fs))
  unfolding sent_of
  sent_of-append [] fs he hf = hf
  sent_of-append (e ∷ es) fs he hf =
      All-append (λ s. P s.msg) (sent_by e) (sent_of (es ++ fs))
        (All-left (λ s. P s.msg) (sent_by e) (sent_of es) he)
        (sent_of-append es fs (All-right (λ s. P s.msg) (sent_by e) (sent_of es) he) hf)

  pub broadcast_message-sent :
      (m : IngressMessage Key) (members : List NodeId) (s : Senator)
      → P m
      → AllSent (sent_of (broadcast_message (custom m) members s))
  unfolding broadcast_message sent_of
  broadcast_message-sent m [] s p = tt
  broadcast_message-sent m (id ∷ members) s p = (p, broadcast_message-sent m members s p)

  share_challenges-sent :
      (cs : List ((String × String) × Http01Challenge)) (views : Views)
      → All (λ entry. P (challenge entry.1)) cs
      → AllSent (sent_of (share_challenges cs views))
  unfolding share_challenges sent_of
  share_challenges-sent [] views h = tt
  share_challenges-sent ((k, c) ∷ cs) views h =
      sent_of-append (broadcast (custom (challenge c)) (views 0))
        (share_challenges cs (later_views views))
        (broadcast_message-sent (challenge c) (views 0).members (views 0).senator h.0)
        (share_challenges-sent cs (later_views views) h.1)

  share_as-sent :
      (role : Role) (views : Views) (l : LeadershipSystem Key)
      → P (certs l.certificate_state.certs)
      → All (λ entry. P (challenge entry.1)) l.certificate_state.challenges
      → AllSent (sent_of (share_as role views l))
  unfolding share_as sent_of
  share_as-sent leader views l p h =
      sent_of-append (broadcast (custom (certs l.certificate_state.certs)) (views 0))
        (share_challenges l.certificate_state.challenges (later_views views))
        (broadcast_message-sent (certs l.certificate_state.certs) (views 0).members
          (views 0).senator p)
        (share_challenges-sent l.certificate_state.challenges (later_views views) h)
  share_as-sent follower views l p h = tt
  share_as-sent candidate views l p h = tt

module _ {Key : Type 0} (Q : List (String × CertKey Key) → Type 0) where
  -- `Q` holds of the certificates, and the challenges are prepared ones under their own domains
  -- and paths.
  abbrev pub Sound : List Http01Challenge → CertificateState Key → Type 0
  Sound prepared s = Q s.certs × IsKept s × All (λ entry. Among entry.1 prepared) s.challenges

  abbrev pub SoundMessage : List Http01Challenge → IngressMessage Key → Type 0
  SoundMessage prepared request_state = Unit
  SoundMessage prepared (challenge c) = Among c prepared
  SoundMessage prepared (certs m) = Q m

  abbrev pub IsSound : Cluster Key → Type 0
  IsSound c =
      ((i : ℕ) → Sound c.prepared (c.node i).certificate_state)
      × All (λ s. SoundMessage c.prepared s.msg) c.wire

  pub share_state-sent :
      (prepared : List Http01Challenge) (views : Views) (l : LeadershipSystem Key)
      → Sound prepared l.certificate_state
      → AllSent (SoundMessage prepared) (sent_of (share_state views l))
  unfolding share_state
  share_state-sent prepared views l (certified, kept, known) =
      share_as-sent (SoundMessage prepared) (views 0).senator.role (later_views views) l certified
        known

  pub put-IsSound :
      (i : ℕ) (l : LeadershipSystem Key) (es : List (Effect (IngressMessage Key))) (c : Cluster Key)
      → Sound c.prepared l.certificate_state
      → AllSent (SoundMessage c.prepared) (sent_of es)
      → IsSound c
      → IsSound (put i l es c)
  unfolding put
  put-IsSound i l es c sound sent (nodes, wire) = (
    λ j. elim (Bool-cases (i == j)) [
      | inl this ↦ rw (this) sound
      | inr other_ ↦ rw (other_) (nodes j)
    ],
    All-append (λ s. SoundMessage c.prepared s.msg) c.wire (sent_of es) wire sent,
  )

  pub apply_challenge-Sound :
      (prepared : List Http01Challenge) (ch : Http01Challenge) (s : CertificateState Key)
      → Among ch prepared
      → Sound prepared s
      → Sound prepared (apply_challenge ch s)
  unfolding apply_challenge
  apply_challenge-Sound prepared ch s known (certified, kept, all) = (
    certified,
    apply_challenge-IsKept ch s kept,
    All-insert (λ entry. Among entry.1 prepared) (ch.domain, ch.path) ch s.challenges known all,
  )

  pub on_message-Sound :
      (prepared : List Http01Challenge) (views : Views) (term : ℕ) (m : IngressMessage Key)
      (l : LeadershipSystem Key)
      → SoundMessage prepared m
      → Sound prepared l.certificate_state
      → Sound prepared (on_message views term (custom m) l).0.certificate_state
        × AllSent (SoundMessage prepared) (sent_of (on_message views term (custom m) l).1)
  unfolding on_message sent_of
  on_message-Sound prepared views term (challenge ch) l known sound =
      (apply_challenge-Sound prepared ch l.certificate_state known sound, tt)
  on_message-Sound prepared views term (certs m) l certified (_, kept, all) =
      ((certified, kept, all), tt)
  on_message-Sound prepared views term request_state l _ sound =
      elim (Bool-cases (leb term l.senator.term)) [
        | inl answers ↦ rw (on_message, answers) (sound, share_state-sent prepared views l sound)
        | inr ignores ↦ rw (on_message, ignores) (sound, tt)
      ]
