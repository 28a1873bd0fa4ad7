-- ===== src/Ingress/Generator/Accounts.antt =====
-- drawbridge_ingress/src/lets_encrypt.rs: the account with the ACME server, which is kept in a
-- secret of the cluster. The ACME client is a parameter that letsencrypt/src/account.rs and
-- directory.rs fill.
pub mod Restart
pub mod Creating
mod Tests
use drawbridge_ingress.Prelude.{ℕ, Option, none, some, List, [], ◌∷◌}
use drawbridge_ingress.Prelude.Maps.{String, lookup, string_eq}
use drawbridge_ingress.Prelude.Action.{
  Outcome, ok, err, panic, unfinished, Action, pure, expect, ◌>>=◌, ◌>>◌,
}
use drawbridge_ingress.Letsencrypt.{LetsEncryptError}
use drawbridge_ingress.Letsencrypt.Jwt.{Crypto}
use drawbridge_ingress.Letsencrypt.Client
use drawbridge_ingress.Letsencrypt.Client.{Outside, Formats, Directory, Account}
use drawbridge_ingress.Ingress.Generator.{namespace, to_url, env, account_name, Secret, SecretsApi}

pub record AcmeClient (W PKey : Type 0) : Type 0 where
  pub from_url : String → Action W LetsEncryptError Directory
  pub new_account : Directory → String → Action W LetsEncryptError (Account PKey)
  pub account_from : Directory → String → List ℕ → List ℕ → Action W LetsEncryptError (Account PKey)

-- The client of the crate letsencrypt; `new_account` makes new keys, which are arguments here, and
-- `from_pem` reads a private key.
abbrev pub letsencrypt_client :
    {W SigningKey PKey : Type 0}
    → Outside W
    → Formats
    → Crypto SigningKey
    → (List ℕ → Option PKey)
    → SigningKey
    → PKey
    → AcmeClient W PKey
letsencrypt_client outside formats crypto from_pem es_key private_key = record {
  from_url = Client.from_url outside formats;
  new_account = λ directory email.
      Client.get_account outside formats crypto directory email es_key private_key;
  account_from = Client.account_from outside formats crypto from_pem;
}

-- What the code calls of `openssl`, `base64` and the standard library. `byte_string` is how a
-- secret's value is read from JSON.
pub record Encodings (PKey : Type 0) : Type 0 where
  pub to_pem : PKey → Option (List ℕ)
  pub encode : List ℕ → String
  pub byte_string : String → Option (List ℕ)
  pub as_bytes : String → List ℕ
  pub from_utf8_lossy : List ℕ → String

abbrev pub our_email : String
our_email = "albert@framework.tools"

abbrev pub account_secret : List ℕ → List ℕ → List ℕ → Secret
account_secret private_key email es_key = record {
  name = account_name;
  namespace = namespace;
  resource_version = none;
  contents = some (("private_key", private_key) ∷ ("email", email) ∷ ("es_key", es_key) ∷ []);
}

-- `unwrap` of a result.
unfoldable pub unwrap : {W A : Type 0} → Action W LetsEncryptError A → Action W LetsEncryptError A
unwrap m w =
    let (r, w') = m w in
    elim r [
      | ok a ↦ (ok a, w')
      | err e ↦ (panic, w')
      | panic ↦ (panic, w')
      | unfinished ↦ (unfinished, w')
    ]

-- The values of a secret, if there is one with values.
abbrev pub values_of : Option Secret → Option (List (String × List ℕ))
values_of none = none
values_of (some secret) = secret.contents

module _ {W PKey : Type 0} (acme : AcmeClient W PKey) (enc : Encodings PKey)
    (secrets : SecretsApi W) where
  open acme use {from_url, new_account, account_from}
  open enc use {to_pem, encode, byte_string, as_bytes, from_utf8_lossy}

  unfoldable pub account_of_values :
      Directory → List (String × List ℕ) → Action W LetsEncryptError (Account PKey)
  unfolding unwrap
  account_of_values directory values = do
    email ← expect (lookup "email" values)
    private_key ← expect (lookup "private_key" values)
    es_key ← expect (lookup "es_key" values)
    unwrap (account_from directory (from_utf8_lossy email) es_key private_key)

  unfoldable pub create_secret : Secret → Action W LetsEncryptError (Unit {0})
  create_secret secret w = elim (secrets.create secret w) [
    | none ↦ (panic, w)
    | some w' ↦ (ok tt, w')
  ]

  unfoldable pub store_account : Account PKey → Action W LetsEncryptError (Unit {0})
  unfolding create_secret
  store_account account = do
    pem ← expect (to_pem account.private_key)
    private_key ← expect (byte_string (encode pem))
    email ← expect (byte_string (encode (as_bytes our_email)))
    es_key ← expect (byte_string (encode account.es_key))
    create_secret (account_secret private_key email es_key)

  unfoldable pub create_account : Directory → Action W LetsEncryptError (Account PKey)
  unfolding unwrap store_account
  create_account directory = do
    account ← unwrap (new_account directory our_email)
    store_account account
    pure account

  unfoldable pub account_with :
      Option (List (String × List ℕ)) → Directory → Action W LetsEncryptError (Account PKey)
  unfolding account_of_values create_account
  account_with none directory = create_account directory
  account_with (some values) directory = account_of_values directory values

  -- The secret is looked up first.
  unfoldable pub get_account : Action W LetsEncryptError (Account PKey)
  unfolding unwrap account_with account_name to_url
  get_account w =
      (unwrap (from_url (to_url env)) >>= account_with (values_of (secrets.get account_name w))) w
