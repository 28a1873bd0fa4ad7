-- ===== src/Ingress/Cluster/Messages.antt =====
-- The challenges and the messages of a cluster of ingresses keep what holds of its parts
-- (drawbridge_ingress/src/leadership_system.rs).
use mathlib.Core.Path.{subst}
use drawbridge_ingress.Prelude.{
  ℕ, ◌≡◌, refl, List, ◌∷◌, ◌++◌, inl, inr, All, All-append, All-left, All-right, All-mono, Among,
}
use drawbridge_ingress.Prelude.Maps.{String, pair_eq, string_eq}
use drawbridge_ingress.Congress.Types.{NodeId, custom}
use drawbridge_ingress.Ingress.Certificates.{Http01Challenge, CertKey, CertificateState}
use drawbridge_ingress.Ingress.Leadership.{
  Views, IngressMessage, request_state, challenge, certs, on_message, prepare_challenge,
}
use drawbridge_ingress.Ingress.Cluster.{Sent, Cluster, deliver, prepare}
use drawbridge_ingress.Ingress.Cluster.Invariant.{
  broadcast_message-sent, Sound, SoundMessage, IsSound, put-IsSound, apply_challenge-Sound,
  on_message-Sound,
}

module _ {Key : Type 0} (Q : List (String × CertKey Key) → Type 0) where
  -- More challenges may have been prepared.
  later_state :
      (ch : Http01Challenge) (prepared : List Http01Challenge) (s : CertificateState Key)
      → Sound Q prepared s
      → Sound Q (ch ∷ prepared) s
  later_state ch prepared s (certified, kept, all) = (
    certified,
    kept,
    All-mono (λ entry. Among entry.1 prepared) (λ entry. Among entry.1 (ch ∷ prepared))
        (λ entry known. inr known) s.challenges all,
  )

  later_message :
      (ch : Http01Challenge) (prepared : List Http01Challenge) (m : IngressMessage Key)
      → SoundMessage Q prepared m
      → SoundMessage Q (ch ∷ prepared) m
  later_message ch prepared request_state h = tt
  later_message ch prepared (challenge c) h = inr h
  later_message ch prepared (certs m) h = h

  later-IsSound :
      (ch : Http01Challenge) (c : Cluster Key)
      → IsSound Q c
      → IsSound Q (record c { prepared = ch ∷ c.prepared })
  later-IsSound ch c (nodes, wire) = (
    λ i. later_state ch c.prepared (c.node i).certificate_state (nodes i),
    All-mono (λ s. SoundMessage Q c.prepared s.msg) (λ s. SoundMessage Q (ch ∷ c.prepared) s.msg)
        (λ s. later_message ch c.prepared s.msg) c.wire wire,
  )

  pub prepare-IsSound :
      (members : List NodeId) (i : ℕ) (ch : Http01Challenge) (c : Cluster Key)
      → IsSound Q c
      → IsSound Q (prepare members i ch c)
  unfolding prepare
  prepare-IsSound members i ch c sound =
      let c' = record c { prepared = ch ∷ c.prepared } in
      let (nodes, wire) = later-IsSound ch c sound in
      put-IsSound Q i (prepare_challenge members ch (c.node i)).0
        (prepare_challenge members ch (c.node i)).1 c'
        (apply_challenge-Sound Q c'.prepared ch (c.node i).certificate_state (inl refl) (nodes i))
        (broadcast_message-sent (SoundMessage Q c'.prepared) (challenge ch) members
          (c.node i).senator (inl refl))
        (nodes, wire)

  pub deliver-IsSound :
      (views : Views) (m : Sent Key) (c : Cluster Key)
      → SoundMessage Q c.prepared m.msg
      → IsSound Q c
      → IsSound Q (deliver views m c)
  unfolding deliver
  deliver-IsSound views m c known (nodes, wire) =
      let (sound, sent) =
        on_message-Sound Q c.prepared views m.term m.msg (c.node m.to) known (nodes m.to) in
      put-IsSound Q m.to (on_message views m.term (custom m.msg) (c.node m.to)).0
        (on_message views m.term (custom m.msg) (c.node m.to)).1 c sound sent (nodes, wire)

  -- A message that is taken off the wire, and the wire without it.
  pub taken-IsSound :
      (m : Sent Key) (before after : List (Sent Key)) (c : Cluster Key)
      → c.wire ≡ before ++ m ∷ after
      → IsSound Q c
      → SoundMessage Q c.prepared m.msg × IsSound Q (record c { wire = before ++ after })
  taken-IsSound m before after c at (nodes, wire) =
      let P = λ (s : Sent Key). SoundMessage Q c.prepared s.msg in
      let all = subst (All P) at wire in
      let rest = All-right P before (m ∷ after) all in
      (rest.0, (nodes, All-append P before after (All-left P before (m ∷ after) all) rest.1))
