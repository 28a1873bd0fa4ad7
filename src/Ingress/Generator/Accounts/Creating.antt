-- ===== src/Ingress/Generator/Accounts/Creating.antt =====
-- `CertGenerator::create` of drawbridge_ingress/src/lets_encrypt.rs. The routing table, the client of
-- Kubernetes and the state that the generator shares with others are left out of it.
use drawbridge_ingress.Prelude.{◌≡◌, sym, ap, ◌∙◌, some, List, inl, inr, Option-cases}
use drawbridge_ingress.Prelude.Maps.{String}
use drawbridge_ingress.Prelude.Action.{Outcome, ok, panic, Action, pure, expect, ◌>>=◌, >>=-eq-ok}
use drawbridge_ingress.Letsencrypt.{LetsEncryptError}
use drawbridge_ingress.Letsencrypt.Client.{Account}
use drawbridge_ingress.Ingress.Certificates.{CertKey, CertificateState}
use drawbridge_ingress.Ingress.Generator.{Libraries, SecretsApi, get_certs}
use drawbridge_ingress.Ingress.Generator.Accounts.{AcmeClient, Encodings, get_account}

record CertGenerator (PKey : Type 0) : Type 0 where
  account : Account PKey

module _ {W PKey Key : Type 0} (acme : AcmeClient W PKey) (enc : Encodings PKey)
    (lib : Libraries Key) (secrets : SecretsApi W) where
  -- `get_certs`, whose `unwrap`s may panic.
  unfoldable read_certs : Action W LetsEncryptError (List (String × CertKey Key))
  unfolding get_certs
  read_certs w = expect (get_certs lib secrets w) w

  -- The generator, and the state of the certificates after it was made.
  unfoldable create :
      CertificateState Key → Action W LetsEncryptError (CertGenerator PKey × CertificateState Key)
  unfolding get_account read_certs
  create state = do
    account ← get_account acme enc secrets
    certs ← read_certs
    pure (record { account = account }, record state { certs = certs })

  read_certs-reads :
      (w w' : W) (m : List (String × CertKey Key))
      → read_certs w ≡ (ok m, w')
      → get_certs lib secrets w ≡ some m
  unfolding read_certs expect
  read_certs-reads w w' m done = elim (Option-cases (get_certs lib secrets w)) [
    | inl missing ↦
        let no : (panic, w) ≡ (ok m, w') = rw (read_certs, expect, missing) at done in cc
    | inr (m', found) ↦
        let e : (ok m', w) ≡ (ok m, w') = rw (read_certs, expect, found) at done in
        let outcome : ◌≡◌ {A = Outcome LetsEncryptError (List (String × CertKey Key))} (ok m')
            (ok m) =
          ap (λ r. r.0) e in
        let same : m' ≡ m = cc in found ∙ ap some same
  ]

  -- A generator that was made has the account, and the certificates are those of the secret in some
  -- world; the challenges stay.
  create-reads :
      (state state' : CertificateState Key) (g : CertGenerator PKey) (w w' : W)
      → create state w ≡ (ok (g, state'), w')
      → (w1 : W) × (m : List (String × CertKey Key)) × (get_account acme enc secrets w
          ≡ (ok g.account, w1))
        × (get_certs lib secrets w1 ≡ some m)
        × (state' ≡ record state { certs = m })
  unfolding create pure
  create-reads state state' g w w' done =
      let (account, w1, found, later) =
        >>=-eq-ok (get_account acme enc secrets)
          (λ account. do
            certs ← read_certs
            pure (record { account = account }, record state { certs = certs }))
          w done in
      let (m, w2, read, returned) =
        >>=-eq-ok read_certs
          (λ certs. pure (record { account = account }, record state { certs = certs })) w1 later in
      let outcome : ◌≡◌ {A = Outcome LetsEncryptError (CertGenerator PKey × CertificateState Key)}
          (ok (record { account = account }, record state { certs = m })) (ok (g, state')) =
        ap (λ r. r.0) returned in
      let same_g : record { account = account } ≡ g = cc in
      let same_state : record state { certs = m } ≡ state' = cc in
      (
        w1,
        m,
        found ∙ ap (λ x. (ok x.account, w1)) same_g,
        read_certs-reads w1 w2 m read,
        sym same_state,
      )
