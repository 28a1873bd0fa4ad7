-- ===== src/Ingress/Generator/Accounts/Tests.antt =====
-- An ingress that creates its account, and starts again.
use drawbridge_ingress.Prelude.{
  ℕ, ◌≡◌, refl, sym, Option, none, some, List, [], ◌∷◌, ◌==◌, if◌then◌else◌,
}
use drawbridge_ingress.Prelude.Maps.{String, str_eq, string_eq}
use drawbridge_ingress.Prelude.Action.{ok, ◌>>=◌, expect}
use drawbridge_ingress.Letsencrypt.Client.{Directory, Account}
use drawbridge_ingress.Ingress.Generator.{SecretsApi, Secret, to_url, env}
use drawbridge_ingress.Ingress.Generator.Storing.{IsSecretsApi}
use drawbridge_ingress.Ingress.Generator.Accounts.{
  AcmeClient, Encodings, our_email, unwrap, get_account,
}
use drawbridge_ingress.Ingress.Generator.Accounts.Restart.{get_account-get_account}

-- A cluster that keeps one secret, whatever its name.
abbrev one_secret : SecretsApi (Option Secret)
one_secret = record {
  get = λ name w. w;
  replace = λ name secret w. some (some secret);
  create = λ secret w. some (some secret);
}

one_secret-IsSecretsApi : IsSecretsApi one_secret
one_secret-IsSecretsApi = record {
  get-replace = λ name secret w w' done.
      let same : some (some secret) ≡ some w' = done in
      let e : some secret ≡ w' = cc in (secret, sym e, refl);
  get-create = λ secret w w' done.
      let same : some (some secret) ≡ some w' = done in
      let e : some secret ≡ w' = cc in (secret, sym e, refl);
}

abbrev directory : Directory
directory = record { new_account = "/new-acct"; new_nonce = "/nonce"; new_order = "/new-order" }

abbrev account_at : List ℕ → List ℕ → Account (List ℕ)
account_at es_key private_key = record {
  es_key = es_key;
  location = "/acct";
  directory = directory;
  private_key = private_key;
}

abbrev acme : AcmeClient (Option Secret) (List ℕ)
acme = record {
  from_url = λ url w. (ok directory, w);
  new_account = λ d email w. (ok (account_at (1 ∷ []) (2 ∷ [])), w);
  account_from = λ d email es_key private_key w. (ok (account_at es_key private_key), w);
}

-- A code of one letter for the texts that occur.
code_of : List ℕ → String
code_of [] = "e"
code_of (b ∷ bs) = if b == 1 then "k" else if b == 2 then "p" else "m"

read_code : String → Option (List ℕ)
read_code text =
    if str_eq text "k"
    then some (1 ∷ [])
    else if str_eq text "p"
    then some (2 ∷ [])
    else some (3 ∷ [])

abbrev enc : Encodings (List ℕ)
enc = record {
  to_pem = λ key. some key;
  encode = code_of;
  byte_string = read_code;
  as_bytes = λ text. 3 ∷ [];
  from_utf8_lossy = λ bytes. our_email;
}

after : Option Secret
unfolding get_account ◌>>=◌ code_of read_code expect
after = (get_account acme enc one_secret none).1

created : get_account acme enc one_secret none ≡ (ok (account_at (1 ∷ []) (2 ∷ [])), after)
unfolding get_account ◌>>=◌ code_of read_code after expect
created = refl

get_account-get_account_example :
    get_account acme enc one_secret after
    ≡ (unwrap (acme.from_url (to_url env)) >>= λ directory.
          unwrap (acme.account_from directory our_email (1 ∷ []) (2 ∷ [])))
        after
unfolding code_of read_code
get_account-get_account_example =
    get_account-get_account acme enc one_secret one_secret-IsSecretsApi
      (account_at (1 ∷ []) (2 ∷ [])) (2 ∷ []) none after refl refl refl refl refl refl created
