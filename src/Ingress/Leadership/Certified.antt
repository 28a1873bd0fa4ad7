-- ===== src/Ingress/Leadership/Certified.antt =====
-- What the peers have after a change at the leader: drawbridge_ingress/src/leadership_system.rs with
-- drawbridge_ingress/src/lets_encrypt.rs.
use mathlib.Core.Path.{subst}
use drawbridge_ingress.Prelude.{
  suc, ◌≡◌, refl, sym, ap, ◌∙◌, Bool, true, false, some, List, [], ◌∷◌, inl, inr, All, Bool-cases,
  if◌then◌else◌,
}
use drawbridge_ingress.Prelude.Maps.{String, lookup, string_eq}
use drawbridge_ingress.Prelude.Action.{Outcome, Outcome-cases, ok, err, panic, unfinished, Action}
use drawbridge_ingress.Congress.Types.{NodeId, leader, custom, Senator}
use drawbridge_ingress.Letsencrypt.{LetsEncryptError}
use drawbridge_ingress.Letsencrypt.Certificate.{Certificate}
use drawbridge_ingress.Ingress.Certificates.{
  Http01Challenge, CertKey, CertificateState, apply_challenge,
}
use drawbridge_ingress.Ingress.Generator.{
  Libraries, SecretsApi, Holding, check_for_new_certificates,
}
use drawbridge_ingress.Ingress.Generator.Hosts.{check_for_new_certificates-covers}
use drawbridge_ingress.Ingress.Leadership.{
  Views, later_views, challenge, certs, LeadershipSystem, share_challenges, share_as, share_state,
  on_message, lead_change, change_as, handle_change,
}
use drawbridge_ingress.Ingress.Leadership.Replication.{
  SeesOnce, take_all, take_all-broadcast_message,
}

-- Challenges leave the certificates of a peer alone.
take_challenges-certs :
    {Key : Type 0} (cs : List ((String × String) × Http01Challenge)) (p : NodeId) (views : Views)
    (l : LeadershipSystem Key)
    → SeesOnce p views
    → (take_all p (share_challenges cs views) l).certificate_state.certs ≡ l.certificate_state.certs
unfolding take_all share_challenges on_message apply_challenge
take_challenges-certs [] p views l once = refl
take_challenges-certs ((k, c) ∷ cs) p views l once =
    ap (λ f. f.certificate_state.certs)
      (take_all-broadcast_message p (custom (challenge c)) (views 0).senator
        (share_challenges cs (later_views views)) (views 0).members l (once 0))
    ∙ take_challenges-certs cs p (later_views views)
        (record l { certificate_state = apply_challenge c l.certificate_state }) (λ n. once (suc n))

share_state-certs :
    {Key : Type 0} (p : NodeId) (views : Views) (l f : LeadershipSystem Key)
    → SeesOnce p views
    → (views 0).senator.role ≡ leader
    → (take_all p (share_state views l) f).certificate_state.certs ≡ l.certificate_state.certs
unfolding share_state share_as on_message
share_state-certs p views l f once leads =
    let rest = later_views (later_views views) in
    ap (λ r. (take_all p (share_as r (later_views views) l) f).certificate_state.certs) leads
    ∙ ap (λ g. g.certificate_state.certs)
        (take_all-broadcast_message p (custom (certs l.certificate_state.certs)) (views 1).senator
          (share_challenges l.certificate_state.challenges rest) (views 1).members f (once 1))
    ∙ take_challenges-certs l.certificate_state.challenges p rest _ (λ n. once (suc (suc n)))

abbrev pub is_ok : {E A : Type 0} → Outcome E A → Bool
is_ok (ok a) = true
is_ok (err e) = false
is_ok panic = false
is_ok unfinished = false

-- `check_for_new_certificates` on the state of the certificates; the challenges that it prepares
-- stand in the world, where `challenges_in` finds them.
module _ {Key W : Type 0} (lib : Libraries Key) (secrets : SecretsApi W)
    (issue : String → Action W LetsEncryptError Certificate)
    (challenges_in : W → List ((String × String) × Http01Challenge)) where
  unfoldable pub check : List String → W → CertificateState Key → CertificateState Key × Bool
  unfolding check_for_new_certificates
  check hosts w state =
      let (r, s) =
        check_for_new_certificates lib secrets issue hosts
          (record { certs = state.certs; world = w }) in
      (record { certs = s.certs; challenges = challenges_in s.world }, is_ok r)

  abbrev Covers : List String → List (String × CertKey Key) → Type 0
  Covers hosts m = All (λ host. (k : CertKey Key) × (lookup host m ≡ some k)) hosts

  check-Covers :
      (hosts : List String) (w : W) (state : CertificateState Key)
      → (check hosts w state).1 ≡ true
      → Covers hosts (check hosts w state).0.certs
  unfolding check
  check-Covers hosts w state done =
      let s0 : Holding Key W = record { certs = state.certs; world = w } in
      let ran = check_for_new_certificates lib secrets issue hosts s0 in
      elim (Outcome-cases ran.0) [
        | inl (_, e) ↦
            check_for_new_certificates-covers lib secrets issue hosts s0 ran.1
              (ap (λ r. (r, ran.1)) e)
        | inr (inl (_, e)) ↦ let no : false ≡ true = ap is_ok (sym e) ∙ done in cc
        | inr (inr (inl e)) ↦ let no : false ≡ true = ap is_ok (sym e) ∙ done in cc
        | inr (inr (inr e)) ↦ let no : false ≡ true = ap is_ok (sym e) ∙ done in cc
      ]

  lead_change-certifies :
      (create : CertificateState Key → CertificateState Key) (later : Senator) (hosts : List String)
      (w : W) (p : NodeId) (views : Views) (l f : LeadershipSystem Key)
      → SeesOnce p views
      → (views 0).senator.role ≡ leader
      → (lead_change create (check hosts w) later views l).2 ≡ true
      → Covers hosts
          (take_all p
            (lead_change create (check hosts w) later views l).1
            f).certificate_state.certs
  unfolding lead_change
  lead_change-certifies create later hosts w p views l f once still through =
      let start = if l.cert_generator then l.certificate_state else create l.certificate_state in
      let state = (check hosts w start).0 in
      let l' = record l { certificate_state = state; senator = later; cert_generator = true } in
      elim (Bool-cases (check hosts w start).1) [
        | inl done ↦
            let ran : lead_change create (check hosts w) later views l
                ≡ (l', share_state views l', true) =
              rw (lead_change, done) refl in
            subst (λ r. Covers hosts (take_all p r.1 f).certificate_state.certs) (sym ran)
              (subst (Covers hosts) (sym (share_state-certs p views l' f once still))
                (check-Covers hosts w start done))
        | inr failed ↦ let no : false ≡ true = rw (lead_change, failed) at through in cc
      ]

  -- When a change at the leader goes through and it reads its role still as that of a leader, then
  -- each of its peers, however many they are, that takes, in order, everything that is sent to it has
  -- a certificate for every host of the routing table. The members and the term may change before
  -- each broadcast, but the peer is once among the members each time.
  pub handle_change-certifies :
      (create : CertificateState Key → CertificateState Key) (later : Senator) (hosts : List String)
      (w : W) (p : NodeId) (views : Views) (l f : LeadershipSystem Key)
      → SeesOnce p views
      → l.senator.role ≡ leader
      → (views 0).senator.role ≡ leader
      → (handle_change create (check hosts w) later views l).2 ≡ true
      → All
          (λ host.
            (k : CertKey Key) × (lookup host
                (take_all p
                  (handle_change create (check hosts w) later views l).1
                  f).certificate_state.certs
              ≡ some k))
          hosts
  unfolding handle_change change_as
  handle_change-certifies create later hosts w p views l f once leads still through =
      let led : handle_change create (check hosts w) later views l
          ≡ lead_change create (check hosts w) later views l =
        ap (λ r. change_as create (check hosts w) later r views l) leads in
      subst (λ r. Covers hosts (take_all p r.1 f).certificate_state.certs) (sym led)
        (lead_change-certifies create later hosts w p views l f once still
          (sym (ap (λ r. r.2) led) ∙ through))
