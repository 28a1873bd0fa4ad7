-- ===== src/Ingress/Cluster/Kept.antt =====
-- What an ingress of a cluster does not forget until it starts again
-- (drawbridge_ingress/src/leadership_system.rs and certificate_state.rs).
use mathlib.Core.Path.{subst}
use drawbridge_ingress.Prelude.{
  ℕ, ◌≡◌, ◌≢◌, refl, sym, ◌∙◌, some, List, [], ◌∷◌, ◌++◌, inl, inr, Bool-cases, leb, ◌==◌, ==_iff,
  if◌then◌else◌,
}
use drawbridge_ingress.Prelude.Maps.{String, pair_beq, pair_eq}
use drawbridge_ingress.Prelude.Action.{Action}
use drawbridge_ingress.Congress.Types.{Role, leader, follower, candidate, Senator, custom, Effect}
use drawbridge_ingress.Letsencrypt.{LetsEncryptError}
use drawbridge_ingress.Letsencrypt.Certificate.{Certificate}
use drawbridge_ingress.Ingress.Certificates.{
  Http01Challenge, CertificateState, apply_challenge, handle_if_challenge,
}
use drawbridge_ingress.Ingress.Certificates.Serving.{handle-apply_challenge}
use drawbridge_ingress.Ingress.Generator.{Libraries, SecretsApi}
use drawbridge_ingress.Ingress.Leadership.{
  Views, IngressMessage, request_state, challenge, certs, LeadershipSystem, on_message,
  prepare_challenge, lead_change, change_as, handle_change,
}
use drawbridge_ingress.Ingress.Leadership.Certified.{check}
use drawbridge_ingress.Ingress.Cluster.{
  Cluster, put, deliver, prepare, change, new, start, Step, moves, starts, prepares, changes,
  delivers, loses, Reachable, next,
}

module _ {Key : Type 0} (host path : String) where
  -- A request for the path at the host is answered as a challenge.
  abbrev pub Answered : CertificateState Key → Type 0
  Answered s = (text : String) × (handle_if_challenge host path s ≡ some text)

  pub apply_challenge-Answered :
      (ch : Http01Challenge) (s : CertificateState Key)
      → Answered s
      → Answered (apply_challenge ch s)
  apply_challenge-Answered ch s (text, answers) =
      elim (Bool-cases (pair_beq (ch.domain, ch.path) (host, path))) [
        | inl this ↦ (ch.contents, handle-apply_challenge ch s host path ∙ rw (this) refl)
        | inr other ↦ (text, handle-apply_challenge ch s host path ∙ rw (other) answers)
      ]

  on_message-Answered :
      (views : Views) (term : ℕ) (m : IngressMessage Key) (l : LeadershipSystem Key)
      → Answered l.certificate_state
      → Answered (on_message views term (custom m) l).0.certificate_state
  unfolding on_message handle_if_challenge
  on_message-Answered views term (challenge ch) l h =
      apply_challenge-Answered ch l.certificate_state h
  on_message-Answered views term (certs m) l h = h
  on_message-Answered views term request_state l h = elim (Bool-cases (leb term l.senator.term)) [
    | inl answers ↦ rw (on_message, answers) h
    | inr ignores ↦ rw (on_message, ignores) h
  ]

  put-Answered :
      (i j : ℕ) (l : LeadershipSystem Key) (es : List (Effect (IngressMessage Key)))
      (c : Cluster Key)
      → (j ≡ i → Answered l.certificate_state)
      → Answered (c.node i).certificate_state
      → Answered ((put j l es c).node i).certificate_state
  unfolding put
  put-Answered i j l es c changed h = elim (Bool-cases (j == i)) [
    | inl same ↦ rw (same) (changed ((==_iff j i).0 same))
    | inr other ↦ rw (other) h
  ]

module _ {Key W : Type 0} (lib : Libraries Key) (secrets : SecretsApi W)
    (issue : String → Action W LetsEncryptError Certificate) (ReadIn : W → Type 0) where
  -- The step is no start of the ingress `i`.
  abbrev pub NoStart : ℕ → {c d : Cluster Key} → Step lib secrets issue ReadIn c d → Type 0
  NoStart i (moves j s) = Unit
  NoStart i (starts j name s w m occurs read) = j ≢ i
  NoStart i (prepares members j ch) = Unit
  NoStart i (changes views j m hosts read w later created) = Unit
  NoStart i (delivers views m before after at) = Unit
  NoStart i (loses m before after at) = Unit

module _ {Key W : Type 0} (lib : Libraries Key) (secrets : SecretsApi W)
    (issue : String → Action W LetsEncryptError Certificate) (ReadIn : W → Type 0)
    (host path : String) where
  change_as-Answered :
      (role : Role) (create : CertificateState Key → CertificateState Key) (hosts : List String)
      (w : W) (later : Senator) (views : Views) (l : LeadershipSystem Key)
      → Answered host path l.certificate_state
      → Answered host path
          (change_as create
            (check lib secrets issue (λ _. l.certificate_state.challenges) hosts w)
            later
            role
            views
            l).0.certificate_state
  unfolding change_as lead_change check handle_if_challenge
  change_as-Answered candidate create hosts w later views l h = h
  change_as-Answered follower create hosts w later views l h = h
  change_as-Answered leader create hosts w later views l h =
      let checks = check lib secrets issue (λ _. l.certificate_state.challenges) hosts w in
      let ran =
        checks (if l.cert_generator then l.certificate_state else create l.certificate_state) in
      elim (Bool-cases ran.1) [
        | inl done ↦ rw (lead_change, done) h
        | inr failed ↦ rw (lead_change, failed) h
      ]

  here :
      (i j : ℕ) (c : Cluster Key)
      → Answered host path (c.node i).certificate_state
      → j ≡ i
      → Answered host path (c.node j).certificate_state
  here i j c h same = subst (λ k. Answered host path (c.node k).certificate_state) (sym same) h

  Step-Answered :
      (i : ℕ) (c : Cluster Key) {d : Cluster Key} (step : Step lib secrets issue ReadIn c d)
      → NoStart lib secrets issue ReadIn i step
      → Answered host path (c.node i).certificate_state
      → Answered host path (d.node i).certificate_state
  unfolding prepare prepare_challenge change handle_change deliver
  Step-Answered i c (moves j s) stays h =
      put-Answered host path i j (record (c.node j) { senator = s }) [] c (here i j c h) h
  Step-Answered i c (starts j name s w m occurs read) stays h =
      put-Answered host path i j (start m (new name s)) [] c (λ same. absurd (stays same)) h
  Step-Answered i c (prepares members j ch) stays h =
      put-Answered host path i j (prepare_challenge members ch (c.node j)).0
        (prepare_challenge members ch (c.node j)).1 (record c { prepared = ch ∷ c.prepared })
        (λ same.
          apply_challenge-Answered host path ch (c.node j).certificate_state (here i j c h same))
        h
  Step-Answered i c (changes views j m hosts read w later created) stays h =
      let l = c.node j in
      let r =
        handle_change (λ s. record s { certs = m })
          (check lib secrets issue (λ _. l.certificate_state.challenges) hosts w) later views l in
      put-Answered host path i j r.0 r.1 c
        (λ same.
          change_as-Answered l.senator.role (λ s. record s { certs = m }) hosts w later views l
            (here i j c h same))
        h
  Step-Answered i c (delivers views m before after at) stays h =
      let r = on_message views m.term (custom m.msg) (c.node m.to) in
      put-Answered host path i m.to r.0 r.1 (record c { wire = before ++ after })
        (λ same.
          on_message-Answered host path views m.term m.msg (c.node m.to) (here i m.to c h same))
        h
  Step-Answered i c (loses m before after at) stays h = h

-- What follows on a cluster by steps none of which starts the ingress `i`.
module _ {Key W : Type 0} (lib : Libraries Key) (secrets : SecretsApi W)
    (issue : String → Action W LetsEncryptError Certificate) (ReadIn : W → Type 0) (i : ℕ) where
  pub data Onward (c : Cluster Key) : Cluster Key → Type 0 where
    stays : Onward c c
    goes :
        {d e : Cluster Key}
        → Onward c d
        → (step : Step lib secrets issue ReadIn d e) → NoStart lib secrets issue ReadIn i step
        → Onward c e

module _ {Key W : Type 0} (lib : Libraries Key) (secrets : SecretsApi W)
    (issue : String → Action W LetsEncryptError Certificate) (ReadIn : W → Type 0) where
  pub Onward-Answered :
      (host path : String) {i : ℕ} {c d : Cluster Key}
      → Onward lib secrets issue ReadIn i c d
      → Answered host path (c.node i).certificate_state
      → Answered host path (d.node i).certificate_state
  Onward-Answered host path stays h = h
  Onward-Answered host path {i} (goes {d} onward step other) h =
      Step-Answered lib secrets issue ReadIn host path i d step other
        (Onward-Answered host path onward h)

  pub Onward-Reachable :
      {name : ℕ → String} {senator : ℕ → Senator} {i : ℕ} {c d : Cluster Key}
      → Onward lib secrets issue ReadIn i c d
      → Reachable lib secrets issue ReadIn name senator c
      → Reachable lib secrets issue ReadIn name senator d
  Onward-Reachable stays reached = reached
  Onward-Reachable (goes onward step other) reached = next (Onward-Reachable onward reached) step
