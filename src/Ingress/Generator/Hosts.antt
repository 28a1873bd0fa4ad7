-- ===== src/Ingress/Generator/Hosts.antt =====
-- Which hosts have a certificate after the leader looked for new ones
-- (drawbridge_ingress/src/lets_encrypt.rs).
use mathlib.Core.Path.{subst}
use drawbridge_ingress.Prelude.{
  ℕ, ◌≡◌, refl, sym, ap, ◌∙◌, none, some, List, ◌⊎◌, inl, inr, All, Bool-cases, Option-cases,
  Sum-cases,
}
use drawbridge_ingress.Prelude.Maps.{
  String, str_eq, eq_iff, lookup, insert, string_eq, beq_refl, lookup-insert,
}
use drawbridge_ingress.Prelude.Action.{
  Outcome-cases, ok, err, panic, unfinished, Action, expect, ◌>>=◌, for_each, Keeps, >>=-Keeps,
  >>=-eq-ok, for_each-Keeps, for_each-ok, >>=-at,
}
use drawbridge_ingress.Letsencrypt.{LetsEncryptError}
use drawbridge_ingress.Letsencrypt.Certificate.{Certificate}
use drawbridge_ingress.Ingress.Error.{general, could_not_generate_certificate}
use drawbridge_ingress.Ingress.Certificates.{CertKey, cert_key_from}
use drawbridge_ingress.Ingress.Generator.{
  Libraries, SecretsApi, Holding, certs_vec, add_cert, request_cert, obtain, store_certs,
  write_secret, certs_secret, entries_of, check_for_new_certificates,
}

module _ {Key W : Type 0} (lib : Libraries Key) (secrets : SecretsApi W)
    (issue : String → Action W LetsEncryptError Certificate) where
  -- Some request for the host was answered by a certificate of these contents.
  abbrev pub IsIssued : String → List (List ℕ) → List ℕ → Type 0
  IsIssued host certs der =
      (cert : Certificate) × (w : W) × ((issue host w).0 ≡ ok cert)
      × (lib.pem_certs cert.certificate ≡ inr certs)
      × (lib.der_from_pem cert.private_key ≡ some der)

  -- A new certificate for the host comes in, made by `cert_key_from` of what was issued, or nothing
  -- changes.
  Added : String → List (String × CertKey Key) → List (String × CertKey Key) → Type 0
  Added host m m' =
      (m' ≡ m)
      ⊎ ((certs : List (List ℕ)) × (der : List ℕ) × (k : CertKey Key) × IsIssued host certs der
          × (cert_key_from lib.sign certs der ≡ some k)
          × (m' ≡ insert host k m))

  add_cert-Added :
      (host : String) (cert : Certificate) (w : W) (s : Holding Key W)
      → (issue host w).0 ≡ ok cert
      → Added host s.certs (add_cert lib secrets host cert s).1.certs
  unfolding add_cert Added ◌>>=◌
  add_cert-Added host cert w s e = elim (Sum-cases (lib.pem_certs cert.certificate)) [
    | inl (text, bad) ↦ inl (rw (add_cert, ◌>>=◌, certs_vec, bad) refl)
    | inr (certs, good) ↦ elim (Option-cases (lib.der_from_pem cert.private_key)) [
      | inl bad ↦ inl (rw (add_cert, ◌>>=◌, certs_vec, good, bad) refl)
      | inr (der, read) ↦ elim (Option-cases (cert_key_from lib.sign certs der)) [
        | inl refused ↦ inl (rw (add_cert, ◌>>=◌, certs_vec, good, read, refused) refl)
        | inr (k, made) ↦ inr (
          certs,
          der,
          k,
          (cert, w, e, good, read),
          made,
          rw (add_cert, ◌>>=◌, certs_vec, good, read, made) refl,
        )
      ]
    ]
  ]

  same : (m : List (String × CertKey Key)) (host : String) → Added host m m
  unfolding Added
  same m host = inl refl

  -- A host without a certificate; one that has a certificate is passed over.
  obtain-Added :
      (host : String) (s : Holding Key W)
      → lookup host s.certs ≡ none
      → Added host s.certs (obtain lib secrets issue host s).1.certs
  unfolding obtain
  obtain-Added host s lacks = elim (Outcome-cases (issue host s.world).0) [
    | inl (cert, e) ↦
        let s1 = record s { world = (issue host s.world).1 } in
        let issued : request_cert lib secrets issue host s ≡ (ok cert, s1) =
          rw (request_cert, e) refl in
        rw (obtain, lacks)
          (subst (λ r. Added host s.certs r.1.certs)
            (sym
              (>>=-at (request_cert lib secrets issue host) (add_cert lib secrets host) s issued))
            (add_cert-Added host cert s.world s1 e))
    | inr (inl (error, e)) ↦
        let s1 = record s { world = (issue host s.world).1 } in
        let issued : request_cert lib secrets issue host s
            ≡ (err (general could_not_generate_certificate (lib.debug error)), s1) =
          rw (request_cert, e) refl in
        rw (obtain, lacks)
          (subst (λ r. Added host s.certs r.1.certs)
            (sym
              (>>=-at (request_cert lib secrets issue host) (add_cert lib secrets host) s issued))
            (same s.certs host))
    | inr (inr (inl e)) ↦
        let s1 = record s { world = (issue host s.world).1 } in
        let issued : request_cert lib secrets issue host s ≡ (panic, s1) =
          rw (request_cert, e) refl in
        rw (obtain, lacks)
          (subst (λ r. Added host s.certs r.1.certs)
            (sym
              (>>=-at (request_cert lib secrets issue host) (add_cert lib secrets host) s issued))
            (same s.certs host))
    | inr (inr (inr e)) ↦
        let s1 = record s { world = (issue host s.world).1 } in
        let issued : request_cert lib secrets issue host s ≡ (unfinished, s1) =
          rw (request_cert, e) refl in
        rw (obtain, lacks)
          (subst (λ r. Added host s.certs r.1.certs)
            (sym
              (>>=-at (request_cert lib secrets issue host) (add_cert lib secrets host) s issued))
            (same s.certs host))
  ]

  -- A property of a map that a certificate for a host without one keeps.
  pub obtain-Keeps :
      (P : List (String × CertKey Key) → Type 0)
      → ((host : String) (certs : List (List ℕ)) (der : List ℕ) (k : CertKey Key)
            (m : List (String × CertKey Key))
          → lookup host m ≡ none
          → IsIssued host certs der
          → cert_key_from lib.sign certs der ≡ some k
          → P m
          → P (insert host k m))
      → (host : String) → Keeps (λ s. P s.certs) (obtain lib secrets issue host)
  unfolding Added obtain
  obtain-Keeps P kept host = record {
    at_world = λ s h. elim (Option-cases (lookup host s.certs)) [
      | inr (k, has) ↦ rw (obtain, has) h
      | inl lacks ↦ elim (obtain-Added host s lacks) [
        | inl unchanged ↦ subst P (sym unchanged) h
        | inr (certs, der, k, issued, made, added) ↦
            subst P (sym added) (kept host certs der k s.certs lacks issued made h)
      ]
    ];
  }

  add_cert-has :
      (host : String) (cert : Certificate) (s s' : Holding Key W)
      → add_cert lib secrets host cert s ≡ (ok tt, s')
      → (k : CertKey Key) × (lookup host s'.certs ≡ some k)
  unfolding add_cert
  add_cert-has host cert s s' h =
      let (certs, s1, _, h1) =
        >>=-eq-ok (certs_vec lib secrets cert)
          (λ certs. do
            der ← expect (lib.der_from_pem cert.private_key)
            key ← expect (cert_key_from lib.sign certs der)
            λ s. (ok tt, record s { certs = insert host key s.certs }))
          s h in
      let (der, s2, _, h2) =
        >>=-eq-ok (expect (lib.der_from_pem cert.private_key))
          (λ der. do
            key ← expect (cert_key_from lib.sign certs der)
            λ s. (ok tt, record s { certs = insert host key s.certs }))
          s1 h1 in
      let (key, s3, _, h3) =
        >>=-eq-ok (expect (cert_key_from lib.sign certs der))
          (λ key s. (ok tt, record s { certs = insert host key s.certs })) s2 h2 in
      let stored : insert host key s3.certs ≡ s'.certs = ap (λ r. r.1.certs) h3 in
      (
        key,
        subst (λ m. lookup host m ≡ some key) stored
            (lookup-insert host host key s3.certs ∙ rw (beq_refl host) refl),
      )

  -- A host that was looked after without an error has a certificate.
  obtain-has :
      (host : String) (s s' : Holding Key W)
      → obtain lib secrets issue host s ≡ (ok tt, s')
      → (k : CertKey Key) × (lookup host s'.certs ≡ some k)
  unfolding obtain
  obtain-has host s s' h = elim (Option-cases (lookup host s.certs)) [
    | inr (k, has) ↦
        let kept : (ok tt, s) ≡ (ok tt, s') = rw (obtain, has) at h in
        (k, subst (λ r. lookup host r.certs ≡ some k) (ap (λ r. r.1) kept) has)
    | inl lacks ↦
        let (cert, s1, _, h1) =
          >>=-eq-ok (request_cert lib secrets issue host) (add_cert lib secrets host) s
            (rw (obtain, lacks) at h) in
        add_cert-has host cert s1 s' h1
  ]

  pub store_certs-same : (s : Holding Key W) → (store_certs lib secrets s).1.certs ≡ s.certs
  unfolding store_certs
  store_certs-same s =
      elim (Option-cases
        (lib.byte_string (lib.encode (lib.entries_to_json (entries_of s.certs))))) [
          | inl bad ↦ rw (store_certs, bad) refl
          | inr (value, read) ↦
              elim (Option-cases (write_secret lib secrets (certs_secret value) s.world)) [
                | inl failed ↦ rw (store_certs, read, failed) refl
                | inr (w, written) ↦ rw (store_certs, read, written) refl
              ]
        ]

  pub store_certs-Keeps :
      (P : List (String × CertKey Key) → Type 0) → Keeps (λ s. P s.certs) (store_certs lib secrets)
  store_certs-Keeps P = record { at_world = λ s h. subst P (sym (store_certs-same s)) h }

  -- A host that has a certificate keeps it, while one comes in for a host without.
  insert-keeps :
      (host : String) (k : CertKey Key) (other : String) (certs : List (List ℕ)) (der : List ℕ)
      (k' : CertKey Key) (m : List (String × CertKey Key))
      → lookup other m ≡ none
      → IsIssued other certs der
      → cert_key_from lib.sign certs der ≡ some k'
      → lookup host m ≡ some k
      → lookup host (insert other k' m) ≡ some k
  insert-keeps host k other certs der k' m lacks issued made has =
      elim (Bool-cases (str_eq other host)) [
        | inl this ↦
            let no : none ≡ some k =
              sym lacks
              ∙ (subst (λ h. lookup h m ≡ some k) (sym ((eq_iff other host).0 this)) has) in
            cc
        | inr differs ↦ lookup-insert other host k' m ∙ rw differs has
      ]

  -- However the check for new certificates ends, a host that had a certificate has the same one.
  pub check_for_new_certificates-keeps :
      (hosts : List String) (host : String) (k : CertKey Key) (s : Holding Key W)
      → lookup host s.certs ≡ some k
      → lookup host (check_for_new_certificates lib secrets issue hosts s).1.certs ≡ some k
  unfolding check_for_new_certificates
  check_for_new_certificates-keeps hosts host k s has =
      let checked : Keeps (λ r. lookup host r.certs ≡ some k)
          (check_for_new_certificates lib secrets issue hosts) =
        >>=-Keeps
          (for_each-Keeps (obtain lib secrets issue)
            (obtain-Keeps (λ m. lookup host m ≡ some k) (insert-keeps host k)) hosts)
          (λ _. store_certs-Keeps (λ m. lookup host m ≡ some k)) in
      checked.at_world s has

  -- When the check for new certificates goes through, every host of the routing table has a
  -- certificate.
  pub check_for_new_certificates-covers :
      (hosts : List String) (s s' : Holding Key W)
      → check_for_new_certificates lib secrets issue hosts s ≡ (ok tt, s')
      → All (λ host. (k : CertKey Key) × (lookup host s'.certs ≡ some k)) hosts
  unfolding check_for_new_certificates
  check_for_new_certificates-covers hosts s s' done =
      let (_, s1, obtained, stored) =
        >>=-eq-ok (for_each (obtain lib secrets issue) hosts) (λ _. store_certs lib secrets) s
          done in
      let all =
        for_each-ok (obtain lib secrets issue)
          (λ host r. (k : CertKey Key) × (lookup host r.certs ≡ some k)) obtain-has
          (λ host other. record {
            at_world = λ r (k, has). (
              k,
              (obtain-Keeps (λ m. lookup host m ≡ some k) (insert-keeps host k) other).at_world r
                  has,
            );
          })
          hosts s s1 obtained in
      subst (λ m. All (λ host. (k : CertKey Key) × (lookup host m ≡ some k)) hosts)
        (sym (store_certs-same s1) ∙ ap (λ r. r.1.certs) stored) all
