-- ===== src/Ingress/Generator/Storing.antt =====
-- The secret that the certificates are stored in (drawbridge_ingress/src/lets_encrypt.rs).
use mathlib.Core.Path.{subst}
use mathlib.Core.List.{append_assoc, append-nil}
use drawbridge_ingress.Prelude.{
  ℕ, ◌≡◌, refl, sym, ap, ◌∙◌, false, Option, none, some, List, [], ◌∷◌, ◌++◌, inl, inr, All,
  Option-cases,
}
use drawbridge_ingress.Prelude.Maps.{
  String, str_eq, lookup, insert, string_eq, lookup-insert, insert-absent, lookup-absent, Distinct,
  All-insert, Distinct-insert,
}
use drawbridge_ingress.Prelude.Action.{
  Action, ok, panic, for_each, Keeps, >>=-Keeps, >>=-eq-ok, for_each-Keeps,
}
use drawbridge_ingress.Letsencrypt.{LetsEncryptError}
use drawbridge_ingress.Letsencrypt.Certificate.{Certificate}
use drawbridge_ingress.Ingress.Certificates.{CertKey, cert_key_from, serialize, deserialize}
use drawbridge_ingress.Ingress.Certificates.Serving.{deserialize-serialize}
use drawbridge_ingress.Ingress.Generator.{
  Libraries, SecretsApi, Secret, Holding, CertData, certs_name, certs_secret, entries_of,
  load_entries, get_certs, write_secret, obtain, store_certs, check_for_new_certificates,
}
use drawbridge_ingress.Ingress.Generator.Hosts.{obtain-Keeps, store_certs-Keeps, store_certs-same}

-- What is relied on of `serde_json` and `base64` at some entries: their encoding is read back.
pub record ReadsBack {Key : Type 0} (lib : Libraries Key) (entries : List (String × CertData))
    : Type 0 where
  pub from_slice-to_json : lib.entries_from_slice (lib.entries_to_json entries) ≡ some entries
  pub byte_string-encode :
      lib.byte_string (lib.encode (lib.entries_to_json entries))
      ≡ some (lib.entries_to_json entries)

-- What is relied on of Kubernetes: a secret that was written is read with the same contents.
pub record IsSecretsApi {W : Type 0} (secrets : SecretsApi W) : Type 0 where
  pub get-replace :
      (name : String) (secret : Secret) (w w' : W)
      → secrets.replace name secret w ≡ some w'
      → (found : Secret) × (secrets.get name w' ≡ some found) × (found.contents ≡ secret.contents)
  pub get-create :
      (secret : Secret) (w w' : W)
      → secrets.create secret w ≡ some w'
      → (found : Secret) × (secrets.get secret.name w' ≡ some found)
        × (found.contents ≡ secret.contents)

All-both :
    {A : Type 0} (P Q R : A → Type 0)
    → ((a : A) → P a → Q a → R a)
    → (as' : List A) → All P as'
    → All Q as'
    → All R as'
All-both P Q R f [] p q = tt
All-both P Q R f (a ∷ as') p q = (f a p.0 q.0, All-both P Q R f as' p.1 q.1)

module _ {Key W : Type 0} (lib : Libraries Key) (secrets : SecretsApi W) where
  -- The certified key of an entry is the one that `rustls` makes of the rest.
  abbrev pub IsMade : String × CertKey Key → Type 0
  IsMade (host, k) = cert_key_from lib.sign k.certs k.private_key ≡ some k

  load_entries-entries_of :
      (m acc : List (String × CertKey Key))
      → All IsMade m
      → Distinct m
      → All (λ entry. lookup entry.0 acc ≡ none) m
      → load_entries lib secrets (entries_of m) acc ≡ some (acc ++ m)
  unfolding load_entries entries_of
  load_entries-entries_of [] acc made distinct absent = ap some (sym (append-nil acc))
  load_entries-entries_of ((host, k) ∷ m) acc made distinct absent =
      let later : All (λ entry. lookup entry.0 (insert host k acc) ≡ none) m =
        All-both (λ entry. lookup entry.0 acc ≡ none) (λ entry. str_eq host entry.0 ≡ false)
          (λ entry. lookup entry.0 (insert host k acc) ≡ none)
          (λ entry free differs. lookup-insert host entry.0 k acc ∙ rw differs free) m absent.1
          (lookup-absent host m distinct.0) in
      rw (load_entries, made.0)
        (load_entries-entries_of m (insert host k acc) made.1 distinct.1 later
          ∙ ap some (
              ap (λ front. front ++ m) (insert-absent host k acc absent.0)
              ∙ append_assoc acc ((host, k) ∷ []) m))

  none_yet :
      (m : List (String × CertKey Key))
      → All (λ entry. lookup {V = CertKey Key} entry.0 [] ≡ none) m
  unfolding lookup
  none_yet [] = tt
  none_yet (entry ∷ m) = (refl, none_yet m)

  write_secret-get :
      IsSecretsApi secrets
      → (value : List ℕ) (w w' : W) → write_secret lib secrets (certs_secret value) w ≡ some w'
      → (found : Secret) × (secrets.get certs_name w' ≡ some found)
        × (found.contents ≡ some (("certs", value) ∷ []))
  unfolding write_secret
  write_secret-get law value w w' written = elim (Option-cases (secrets.get certs_name w)) [
    | inl fresh ↦ law.get-create (certs_secret value) w w' (rw (write_secret, fresh) at written)
    | inr (old, there_) ↦
        law.get-replace certs_name
          (record (certs_secret value) { resource_version = old.resource_version }) w w'
          (rw (write_secret, there_) at written)
  ]

  -- Every certificate was made by `cert_key_from`, and no host has two.
  abbrev pub IsStorable : List (String × CertKey Key) → Type 0
  IsStorable m = All IsMade m × Distinct m

  store_certs-get_certs :
      IsSecretsApi secrets
      → (s s' : Holding Key W) → ReadsBack lib (entries_of s.certs)
      → IsStorable s.certs
      → store_certs lib secrets s ≡ (ok tt, s')
      → get_certs lib secrets s'.world ≡ some s.certs
  unfolding get_certs store_certs lookup
  store_certs-get_certs law s s' coded (made, distinct) done =
      let value = lib.entries_to_json (entries_of s.certs) in
      let read = coded.byte_string-encode in
      elim (Option-cases (write_secret lib secrets (certs_secret value) s.world)) [
        | inl failed ↦
            let no : (panic, s) ≡ (ok tt, s') = rw (store_certs, read, failed) at done in cc
        | inr (w, written) ↦
            let e : (ok tt, record s { world = w }) ≡ (ok tt, s') =
              rw (store_certs, read, written) at done in
            let (found, at_name, contents) = write_secret-get law value s.world w written in
            subst (λ r. get_certs lib secrets r.1.world ≡ some s.certs) e
              (rw (get_certs, at_name, contents, coded.from_slice-to_json)
                (load_entries-entries_of s.certs [] made distinct (none_yet s.certs)))
      ]

  insert-IsStorable :
      (host : String) (certs : List (List ℕ)) (der : List ℕ) (k : CertKey Key)
      (m : List (String × CertKey Key))
      → cert_key_from lib.sign certs der ≡ some k
      → IsStorable m
      → IsStorable (insert host k m)
  unfolding deserialize serialize
  insert-IsStorable host certs der k m made (all, distinct) = (
    All-insert IsMade host k m (deserialize-serialize lib.sign certs der k made) all,
    Distinct-insert host k m distinct,
  )

  load_entries-IsStorable :
      (entries : List (String × CertData)) (acc m : List (String × CertKey Key))
      → IsStorable acc
      → load_entries lib secrets entries acc ≡ some m
      → IsStorable m
  unfolding load_entries
  load_entries-IsStorable [] acc m stored loaded = subst IsStorable (cc) stored
  load_entries-IsStorable ((host, d) ∷ entries) acc m stored loaded =
      elim (Option-cases (cert_key_from lib.sign d.certs d.private_key)) [
        | inl refused ↦ let no : none ≡ some m = rw (load_entries, refused) at loaded in cc
        | inr (k, made) ↦
            load_entries-IsStorable entries (insert host k acc) m
              (insert-IsStorable host d.certs d.private_key k acc made stored)
              (rw (load_entries, made) at loaded)
      ]

  some_eq : {m m' : List (String × CertKey Key)} → some m ≡ some m' → m ≡ m'
  some_eq e = cc

  read_values : List (String × List ℕ) → Option (List (String × CertKey Key))
  read_values values = elim (lookup "certs" values) [
    | none ↦ none
    | some bytes ↦ elim (lib.entries_from_slice bytes) [
      | none ↦ none
      | some entries ↦ load_entries lib secrets entries []
    ]
  ]

  values-IsStorable :
      (values : List (String × List ℕ)) (m : List (String × CertKey Key))
      → read_values values ≡ some m
      → IsStorable m
  unfolding read_values
  values-IsStorable values m read = elim (Option-cases (lookup "certs" values)) [
    | inl missing ↦ let no : none ≡ some m = rw (read_values, missing) at read in cc
    | inr (bytes, given) ↦ elim (Option-cases (lib.entries_from_slice bytes)) [
      | inl bad ↦ let no : none ≡ some m = rw (read_values, given, bad) at read in cc
      | inr (entries, good) ↦
          load_entries-IsStorable entries [] m (tt, tt) (rw (read_values, given, good) at read)
    ]
  ]

  -- What is read from a secret can be stored.
  pub get_certs-IsStorable :
      (w : W) (m : List (String × CertKey Key)) → get_certs lib secrets w ≡ some m → IsStorable m
  unfolding get_certs read_values
  get_certs-IsStorable w m read = elim (Option-cases (secrets.get certs_name w)) [
    | inl no_secret ↦ subst IsStorable (some_eq (rw (get_certs, no_secret) at read)) (tt, tt)
    | inr (secret, found) ↦ elim (Option-cases secret.contents) [
      | inl empty ↦ subst IsStorable (some_eq (rw (get_certs, found, empty) at read)) (tt, tt)
      | inr (values, given) ↦ values-IsStorable values m (rw (get_certs, found, given) at read)
    ]
  ]

module _ {Key W : Type 0} (lib : Libraries Key) (secrets : SecretsApi W)
    (issue : String → Action W LetsEncryptError Certificate) where
  obtained-Keeps :
      (hosts : List String)
      → Keeps (λ r. IsStorable lib secrets r.certs) (for_each (obtain lib secrets issue) hosts)
  obtained-Keeps hosts =
      for_each-Keeps {P = λ r. IsStorable lib secrets r.certs} (obtain lib secrets issue)
        (obtain-Keeps lib secrets issue (IsStorable lib secrets)
          λ host certs der k m _ _ made h. insert-IsStorable lib secrets host certs der k m made h)
        hosts

  -- However a check for new certificates ends, what the leader holds can be stored if it could be.
  pub check_for_new_certificates-IsStorable :
      (hosts : List String) (s : Holding Key W)
      → IsStorable lib secrets s.certs
      → IsStorable lib secrets (check_for_new_certificates lib secrets issue hosts s).1.certs
  unfolding check_for_new_certificates
  check_for_new_certificates-IsStorable hosts =
      (>>=-Keeps (obtained-Keeps hosts)
        λ _. store_certs-Keeps lib secrets issue (IsStorable lib secrets)).at_world

-- After a check for new certificates that went through, another ingress that reads the secret has
-- just the certificates of the leader, in their order, if the leader's were made by
-- `cert_key_from`, no two for one host, Kubernetes keeps what is written, and what `serde_json` and
-- `base64` make of these certificates is read back.
pub get_certs-check_for_new_certificates :
    {Key W : Type 0} (lib : Libraries Key) (secrets : SecretsApi W)
    (issue : String → Action W LetsEncryptError Certificate) (hosts : List String)
    (s s' : Holding Key W)
    → IsSecretsApi secrets
    → IsStorable lib secrets s.certs
    → check_for_new_certificates lib secrets issue hosts s ≡ (ok tt, s')
    → ReadsBack lib (entries_of s'.certs)
    → get_certs lib secrets s'.world ≡ some s'.certs
unfolding check_for_new_certificates
get_certs-check_for_new_certificates lib secrets issue hosts s s' law stored done coded =
    let (_, s1, obtained, written) =
      >>=-eq-ok (for_each (obtain lib secrets issue) hosts) (λ _. store_certs lib secrets) s done in
    let storable : IsStorable lib secrets s1.certs =
      subst (λ r. IsStorable lib secrets r.1.certs) obtained
        ((obtained-Keeps lib secrets issue hosts).at_world s stored) in
    let same : s1.certs ≡ s'.certs =
      sym (store_certs-same lib secrets issue s1) ∙ ap (λ r. r.1.certs) written in
    store_certs-get_certs lib secrets law s1 s'
      (subst (λ m. ReadsBack lib (entries_of m)) (sym same) coded) storable written
    ∙ ap some same
