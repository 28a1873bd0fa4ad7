-- ===== src/Ingress/Cluster/Issued.antt =====
-- Where the certificates of the ingresses of a cluster come from
-- (drawbridge_ingress/src/lets_encrypt.rs, leadership_system.rs and certificate_state.rs).
use mathlib.Core.Path.{subst}
use drawbridge_ingress.Prelude.{
  ℕ, ◌≡◌, sym, ap, ◌∙◌, Option, none, some, List, ◌⊎◌, inl, inr, Bool-cases, Option-cases,
}
use drawbridge_ingress.Prelude.Maps.{
  String, str_eq, eq_iff, lookup, insert, string_eq, lookup-insert,
}
use drawbridge_ingress.Prelude.Action.{Action, >>=-Keeps, for_each-Keeps}
use drawbridge_ingress.Congress.Types.{Senator}
use drawbridge_ingress.Letsencrypt.{LetsEncryptError}
use drawbridge_ingress.Letsencrypt.Certificate.{Certificate}
use drawbridge_ingress.Ingress.Certificates.{
  CertKey, cert_key_from, resolved, unknown, panic, resolve_server_config,
}
use drawbridge_ingress.Ingress.Generator.{
  Libraries, SecretsApi, get_certs, obtain, check_for_new_certificates,
}
use drawbridge_ingress.Ingress.Generator.Hosts.{IsIssued, obtain-Keeps, store_certs-Keeps}
use drawbridge_ingress.Ingress.Cluster.{Cluster, Reachable}
use drawbridge_ingress.Ingress.Cluster.Steps.{KeepsCerts, Reachable-IsSound}

module _ {Key W : Type 0} (lib : Libraries Key) (secrets : SecretsApi W)
    (issue : String → Action W LetsEncryptError Certificate) (ReadIn : W → Type 0) where
  -- The certificate of the host was in the cluster's secret once, or was issued for the host.
  abbrev pub IsKnown : String → CertKey Key → Type 0
  IsKnown host k =
      ((w : W) × (m : List (String × CertKey Key)) × ReadIn w
        × (get_certs lib secrets w ≡ some m)
        × (lookup host m ≡ some k))
      ⊎ IsIssued lib secrets issue host k.certs k.private_key

  AllKnown : List (String × CertKey Key) → Type 0
  AllKnown m = (host : String) (k : CertKey Key) → lookup host m ≡ some k → IsKnown host k

  cert_key_from-parts :
      (certs : List (List ℕ)) (der : List ℕ) (k : CertKey Key)
      → cert_key_from lib.sign certs der ≡ some k
      → (certs ≡ k.certs) × (der ≡ k.private_key)
  unfolding cert_key_from
  cert_key_from-parts certs der k made = elim (Option-cases (lib.sign certs der)) [
    | inl refused ↦ let no : none ≡ some k = rw (cert_key_from, refused) at made in cc
    | inr (key, signed) ↦
        let e : some (record { certs = certs; private_key = der; certified_key = key }) ≡ some k =
          rw (cert_key_from, signed) at made in
        let same : record { certs = certs; private_key = der; certified_key = key } ≡ k = cc in
        (ap (λ x. x.certs) same, ap (λ x. x.private_key) same)
  ]

  insert-AllKnown :
      (host : String) (certs : List (List ℕ)) (der : List ℕ) (k : CertKey Key)
      (m : List (String × CertKey Key))
      → IsIssued lib secrets issue host certs der
      → cert_key_from lib.sign certs der ≡ some k
      → AllKnown m
      → AllKnown (insert host k m)
  unfolding AllKnown
  insert-AllKnown host certs der k m issued made known j k' found =
      elim (Bool-cases (str_eq host j)) [
        | inl this ↦
            let e : some k ≡ some k' = rw this at (sym (lookup-insert host j k m) ∙ found) in
            let same : k ≡ k' = cc in
            let (same_certs, same_key) = cert_key_from-parts certs der k made in
            inr (
              subst (λ x. IsIssued lib secrets issue j x.certs x.private_key) same
                (subst (λ h. IsIssued lib secrets issue h k.certs k.private_key)
                  ((eq_iff host j).0 this)
                  (subst (λ d. IsIssued lib secrets issue host k.certs d) same_key
                    (subst (λ c. IsIssued lib secrets issue host c der) same_certs issued))))
        | inr other ↦ known j k' (rw other at (sym (lookup-insert host j k m) ∙ found))
      ]

  AllKnown-kept : KeepsCerts lib secrets issue ReadIn AllKnown
  unfolding AllKnown check_for_new_certificates lookup
  AllKnown-kept = record {
    none_yet = λ host k found. cc;
    read = λ w m occurs e host k found. inl (w, m, occurs, e, found);
    checked = λ hosts.
        (>>=-Keeps
          (for_each-Keeps {P = λ r. AllKnown r.certs} (obtain lib secrets issue)
            (obtain-Keeps lib secrets issue AllKnown λ host certs der k m _ issued made h.
              insert-AllKnown host certs der k m issued made h)
            hosts)
          λ _. store_certs-Keeps lib secrets issue AllKnown).at_world;
  }

  -- At any time in any run of a cluster of ingresses that begins with no messages: when an ingress
  -- has a TLS configuration for the server name that a client sent, then `rustls` made it of a
  -- certificate that stands under just that name in the cluster's secret, in a world in which an
  -- ingress of the run reads the secret when it starts or becomes the leader, or of one that the ACME
  -- client gives, in some world, for a request for just that name.
  pub resolve_server_config-IsKnown :
      {Config : Type 0} (config : List (List ℕ) → List ℕ → Option Config) (name : ℕ → String)
      (senator : ℕ → Senator) (c : Cluster Key) (i : ℕ) (host : String) (answer : Config)
      → Reachable lib secrets issue ReadIn name senator c
      → resolve_server_config config (c.node i).certificate_state (some host) ≡ resolved answer
      → (k : CertKey Key) × (config k.certs k.private_key ≡ some answer)
        × (((w : W) × (m : List (String × CertKey Key)) × ReadIn w
              × (get_certs lib secrets w ≡ some m)
              × (lookup host m ≡ some k))
            ⊎ IsIssued lib secrets issue host k.certs k.private_key)
  unfolding resolve_server_config AllKnown
  resolve_server_config-IsKnown config name senator c i host answer reached got =
      let s = (c.node i).certificate_state in
      elim (Option-cases (lookup host s.certs)) [
        | inl missing ↦
            let no : unknown ≡ resolved answer = rw (resolve_server_config, missing) at got in cc
        | inr (k, found) ↦ elim (Option-cases (config k.certs k.private_key)) [
          | inl refused ↦
              let no : panic ≡ resolved answer =
                rw (resolve_server_config, found, refused) at got in
              cc
          | inr (cfg, made) ↦
              let e : resolved cfg ≡ resolved answer =
                rw (resolve_server_config, found, made) at got in
              let same : cfg ≡ answer = cc in
              (
                k,
                made ∙ ap some same,
                ((Reachable-IsSound lib secrets issue ReadIn AllKnown AllKnown-kept reached).0 i).0
                    host k found,
              )
        ]
      ]
