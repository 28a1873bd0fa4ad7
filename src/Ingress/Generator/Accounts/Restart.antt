-- ===== src/Ingress/Generator/Accounts/Restart.antt =====
-- The stored account at a later start (drawbridge_ingress/src/lets_encrypt.rs).
use mathlib.Core.Path.{subst}
use drawbridge_ingress.Prelude.{ℕ, ◌≡◌, sym, ap, ◌∙◌, none, some, List, inl, inr, Option-cases}
use drawbridge_ingress.Prelude.Maps.{lookup, string_eq}
use drawbridge_ingress.Prelude.Action.{ok, panic, pure, expect, ◌>>=◌, ◌>>◌, >>=-eq-ok}
use drawbridge_ingress.Letsencrypt.Client.{Directory, Account}
use drawbridge_ingress.Ingress.Generator.{to_url, env, account_name, SecretsApi, Secret}
use drawbridge_ingress.Ingress.Generator.Storing.{IsSecretsApi}
use drawbridge_ingress.Ingress.Generator.Accounts.{
  AcmeClient, Encodings, our_email, account_secret, unwrap, values_of, create_secret, store_account,
  create_account, account_with, get_account,
}

module _ {W PKey : Type 0} (acme : AcmeClient W PKey) (enc : Encodings PKey)
    (secrets : SecretsApi W) where
  create_secret-stored :
      IsSecretsApi secrets
      → (secret : Secret) (w w' : W) → create_secret acme enc secrets secret w ≡ (ok tt, w')
      → (found : Secret) × (secrets.get secret.name w' ≡ some found)
        × (found.contents ≡ secret.contents)
  unfolding create_secret
  create_secret-stored law secret w w' done = elim (Option-cases (secrets.create secret w)) [
    | inl failed ↦ let no : (panic, w) ≡ (ok tt, w') = rw (create_secret, failed) at done in cc
    | inr (w1, made) ↦
        let yes : (ok tt, w1) ≡ (ok tt, w') = rw (create_secret, made) at done in
        law.get-create secret w w' (made ∙ ap (λ r. some r.1) yes)
  ]

  -- What is stored of a value is the value.
  abbrev ReadBack : List ℕ → Type 0
  ReadBack bytes = enc.byte_string (enc.encode bytes) ≡ some bytes

  store_account-stored :
      IsSecretsApi secrets
      → (account : Account PKey) (pem : List ℕ) (w w' : W)
      → enc.to_pem account.private_key ≡ some pem
      → ReadBack pem
      → ReadBack (enc.as_bytes our_email)
      → ReadBack account.es_key
      → store_account acme enc secrets account w ≡ (ok tt, w')
      → values_of (secrets.get account_name w')
        ≡ (account_secret pem (enc.as_bytes our_email) account.es_key).contents
  unfolding store_account expect ◌>>=◌
  store_account-stored law account pem w w' has_pem pem_back email_back key_back done =
      let secret = account_secret pem (enc.as_bytes our_email) account.es_key in
      let (found, there_, same) =
        create_secret-stored law secret w w'
          (rw (store_account, has_pem, pem_back, email_back, key_back) at done) in
      ap values_of there_ ∙ same

  -- The account that is created is the one that is returned, after it was stored.
  create_account-stores :
      (directory : Directory) (account : Account PKey) (w w' : W)
      → create_account acme enc secrets directory w ≡ (ok account, w')
      → (w1 : W) × (store_account acme enc secrets account w1 ≡ (ok tt, w'))
  unfolding create_account pure
  create_account-stores directory account w w' done =
      let (a, w1, made, then1) =
        >>=-eq-ok (unwrap (acme.new_account directory our_email))
          (λ a. store_account acme enc secrets a >> pure a) w done in
      let (_, w2, stored, then2) =
        >>=-eq-ok (store_account acme enc secrets a) (λ _. pure a) w1 then1 in
      let made' : (ok a, w2) ≡ (ok account, w') = then2 in
      let same : a ≡ account = cc in
      (
        w1,
        subst (λ x. store_account acme enc secrets x w1 ≡ (ok tt, w')) same
            (stored ∙ ap (λ x. (ok tt, x.1)) made'),
      )

  account_with-stored :
      (pem key : List ℕ)
      → enc.from_utf8_lossy (enc.as_bytes our_email) ≡ our_email
      → account_with acme enc secrets (account_secret pem (enc.as_bytes our_email) key).contents
        ≡ λ directory. unwrap (acme.account_from directory our_email key pem)
  unfolding account_with expect ◌>>=◌ lookup
  account_with-stored pem key lossy =
      ap (λ email directory. unwrap (acme.account_from directory email key pem)) lossy

  -- Where an ingress found no account and got one, another that starts later asks for the account
  -- by the same two keys and the same address, if the key's PEM, the address and the signing key
  -- are read back as they were written, and Kubernetes keeps what is created.
  pub get_account-get_account :
      IsSecretsApi secrets
      → (account : Account PKey) (pem : List ℕ) (w w' : W)
      → values_of (secrets.get account_name w) ≡ none
      → enc.to_pem account.private_key ≡ some pem
      → ReadBack pem
      → ReadBack (enc.as_bytes our_email)
      → ReadBack account.es_key
      → enc.from_utf8_lossy (enc.as_bytes our_email) ≡ our_email
      → get_account acme enc secrets w ≡ (ok account, w')
      → get_account acme enc secrets w'
        ≡ (unwrap (acme.from_url (to_url env)) >>= λ directory.
              unwrap (acme.account_from directory our_email account.es_key pem))
            w'
  unfolding get_account account_with
  get_account-get_account law account pem w w' fresh has_pem pem_back email_back key_back lossy
        done =
      let asks = unwrap (acme.from_url (to_url env)) in
      let (directory, w1, asked, then1) =
        >>=-eq-ok asks (account_with acme enc secrets none) w
          (ap (λ v. (asks >>= account_with acme enc secrets v) w) (sym fresh) ∙ done) in
      let (w2, stored) = create_account-stores directory account w1 w' then1 in
      let values =
        store_account-stored law account pem w2 w' has_pem pem_back email_back key_back stored in
      ap (λ v. (asks >>= account_with acme enc secrets v) w') values
      ∙ ap (λ f. (asks >>= f) w') (account_with-stored pem account.es_key lossy)
