-- ===== src/Ingress/Cluster/Steps.antt =====
-- Every step of a cluster of ingresses keeps what holds of its parts
-- (drawbridge_ingress/src/leadership_system.rs and lets_encrypt.rs).
use mathlib.Core.Path.{subst}
use drawbridge_ingress.Prelude.{
  ℕ, ◌≡◌, refl, sym, ◌∙◌, Bool, true, false, some, List, [], ◌++◌, ◌⊎◌, inl, inr, Bool-cases,
  if◌then◌else◌,
}
use drawbridge_ingress.Prelude.Maps.{String, pair_eq, string_eq}
use drawbridge_ingress.Prelude.Action.{Action}
use drawbridge_ingress.Congress.Types.{Role, leader, follower, candidate, Senator, Effect}
use drawbridge_ingress.Letsencrypt.{LetsEncryptError}
use drawbridge_ingress.Letsencrypt.Certificate.{Certificate}
use drawbridge_ingress.Ingress.Certificates.{
  Http01Challenge, CertKey, CertificateState, new as no_state,
}
use drawbridge_ingress.Ingress.Generator.{
  Libraries, SecretsApi, Holding, get_certs, check_for_new_certificates,
}
use drawbridge_ingress.Ingress.Leadership.{
  Views, IngressMessage, request_state, LeadershipSystem, share_state, lead_change, change_as,
  handle_change,
}
use drawbridge_ingress.Ingress.Leadership.Certified.{check}
use drawbridge_ingress.Ingress.Cluster.{
  Cluster, sent_of, new, start, init, change, Step, moves, starts, prepares, changes, delivers,
  loses, Reachable, begins, next,
}
use drawbridge_ingress.Ingress.Cluster.Messages.{prepare-IsSound, deliver-IsSound, taken-IsSound}
use drawbridge_ingress.Ingress.Cluster.Invariant.{
  AllSent, broadcast_message-sent, Sound, SoundMessage, IsSound, share_state-sent, put-IsSound,
}

-- A property that the certificates of an ingress have at first, when they are read from the
-- cluster's secret, and after a check for new ones.
module _ {Key W : Type 0} (lib : Libraries Key) (secrets : SecretsApi W)
    (issue : String → Action W LetsEncryptError Certificate) (ReadIn : W → Type 0)
    (Q : List (String × CertKey Key) → Type 0) where
  pub record KeepsCerts : Type 0 where
    pub none_yet : Q []
    pub read :
        (w : W) (m : List (String × CertKey Key))
        → ReadIn w
        → get_certs lib secrets w ≡ some m
        → Q m
    pub checked :
        (hosts : List String) (s : Holding Key W)
        → Q s.certs
        → Q (check_for_new_certificates lib secrets issue hosts s).1.certs

module _ {Key W : Type 0} (lib : Libraries Key) (secrets : SecretsApi W)
    (issue : String → Action W LetsEncryptError Certificate) (ReadIn : W → Type 0)
    (Q : List (String × CertKey Key) → Type 0) (law : KeepsCerts lib secrets issue ReadIn Q) where
  check-Sound :
      (prepared : List Http01Challenge) (hosts : List String) (w : W)
      (kept start : CertificateState Key)
      → Sound Q prepared kept
      → Q start.certs
      → Sound Q prepared (check lib secrets issue (λ _. kept.challenges) hosts w start).0
  unfolding check
  check-Sound prepared hosts w kept start (_, under, known) certified =
      (law.checked hosts (record { certs = start.certs; world = w }) certified, under, known)

  module _ (prepared : List Http01Challenge) (views : Views) (m : List (String × CertKey Key))
      (hosts : List String) (w : W) (later : Senator) (l : LeadershipSystem Key) where
    create : CertificateState Key → CertificateState Key
    create s = record s { certs = m }

    checks : CertificateState Key → CertificateState Key × Bool
    unfolding check
    checks = check lib secrets issue (λ _. l.certificate_state.challenges) hosts w

    SoundChange : LeadershipSystem Key × List (Effect (IngressMessage Key)) × Bool → Type 0
    SoundChange r =
        Sound Q prepared r.0.certificate_state × AllSent (SoundMessage Q prepared) (sent_of r.1)

    -- What the check starts from.
    started : CertificateState Key
    started = if l.cert_generator then l.certificate_state else create l.certificate_state

    started-certified :
        (l.cert_generator ≡ true) ⊎ Q m → Sound Q prepared l.certificate_state → Q started.certs
    unfolding started create
    started-certified created (certified, _, _) = elim (Bool-cases l.cert_generator) [
      | inl made ↦ rw (made) certified
      | inr fresh ↦ rw (fresh) (elim created [
        | inl made ↦ let no : true ≡ false = sym made ∙ fresh in cc
        | inr new_ones ↦ new_ones
      ])
    ]

    lead_change-Sound :
        (l.cert_generator ≡ true) ⊎ Q m
        → Sound Q prepared l.certificate_state
        → SoundChange (lead_change create checks later views l)
    unfolding lead_change SoundChange sent_of started checks
    lead_change-Sound created sound =
        let l' = record l {
          certificate_state = (checks started).0;
          senator = later;
          cert_generator = true;
        } in
        let checked : Sound Q prepared l'.certificate_state =
          check-Sound prepared hosts w l.certificate_state started sound
            (started-certified created sound) in
        elim (Bool-cases (checks started).1) [
          | inl done ↦
              let ran : lead_change create checks later views l ≡ (l', share_state views l', true) =
                rw (lead_change, done) refl in
              subst SoundChange (sym ran) (checked, share_state-sent Q prepared views l' checked)
          | inr failed ↦
              let ran : lead_change create checks later views l ≡ (l', [], false) =
                rw (lead_change, failed) refl in
              subst SoundChange (sym ran) (checked, tt)
        ]

    change_as-Sound :
        (role : Role)
        → (l.cert_generator ≡ true) ⊎ Q m
        → Sound Q prepared l.certificate_state
        → SoundChange (change_as create checks later role views l)
    unfolding change_as SoundChange sent_of
    change_as-Sound candidate created sound = (sound, tt)
    change_as-Sound follower created sound = (
      sound,
      broadcast_message-sent (SoundMessage Q prepared) request_state (views 0).members
          (views 0).senator tt,
    )
    change_as-Sound leader created sound = lead_change-Sound created sound

  change-IsSound :
      (views : Views) (i : ℕ) (m : List (String × CertKey Key)) (hosts : List String) (w : W)
      (later : Senator) (c : Cluster Key)
      → ((c.node i).cert_generator ≡ true) ⊎ Q m
      → IsSound Q c
      → IsSound Q (change lib secrets issue views i m hosts w later c)
  unfolding change handle_change SoundChange create checks
  change-IsSound views i m hosts w later c created sound =
      let l = c.node i in
      let r =
        handle_change (create c.prepared views m hosts w later l)
          (checks c.prepared views m hosts w later l) later views l in
      let (state, sent) =
        change_as-Sound c.prepared views m hosts w later l l.senator.role created (sound.0 i) in
      put-IsSound Q i r.0 r.1 c state sent sound

  pub Step-IsSound :
      (c : Cluster Key) {d : Cluster Key}
      → Step lib secrets issue ReadIn c d
      → IsSound Q c
      → IsSound Q d
  unfolding sent_of start new no_state
  Step-IsSound c (moves i senator) sound =
      put-IsSound Q i (record (c.node i) { senator = senator }) [] c (sound.0 i) tt sound
  Step-IsSound c (starts i name senator w m occurs read) sound =
      put-IsSound Q i (start m (new name senator)) [] c (law.read w m occurs read, (tt, tt), tt) tt
        sound
  Step-IsSound c (prepares members i ch) sound = prepare-IsSound Q members i ch c sound
  Step-IsSound c (changes views i m hosts read w later created) sound =
      change-IsSound views i m hosts w later c
        (elim created [
          | inl made ↦ inl made
          | inr (occurs, found) ↦ inr (law.read read m occurs found)
        ])
        sound
  Step-IsSound c (delivers views m before after at) sound =
      let (known, rest) = taken-IsSound Q m before after c at sound in
      deliver-IsSound Q views m (record c { wire = before ++ after }) known rest
  Step-IsSound c (loses m before after at) sound = (taken-IsSound Q m before after c at sound).1

  pub Reachable-IsSound :
      {name : ℕ → String} {senator : ℕ → Senator} {c : Cluster Key}
      → Reachable lib secrets issue ReadIn name senator c
      → IsSound Q c
  unfolding init new no_state
  Reachable-IsSound begins = (λ _. (law.none_yet, (tt, tt), tt), tt)
  Reachable-IsSound (next {c} reached step) = Step-IsSound c step (Reachable-IsSound reached)
