-- ===== src/Letsencrypt/Orders/Tests.antt =====
-- A small ACME server, an account, and what the theorems say of them.
use Prim.Native.Char.{code}
use Prim.Native.String.{◌++◌ as concat, [] as no_text, ◌∷◌ as ◌in_front◌}
use drawbridge_ingress.Prelude.{
  All, ℕ, ◌≡◌, refl, true, Option, none, some, List, [], ◌∷◌, inr, if◌then◌else◌,
}
use drawbridge_ingress.Prelude.Maps.{String, str_eq}
use drawbridge_ingress.Prelude.Http.{visible}
use drawbridge_ingress.Prelude.Action.{ok, for_each, ◌>>=◌}
use drawbridge_ingress.Letsencrypt.{Http01Challenge, OrderResponse}
use drawbridge_ingress.Letsencrypt.Jwt.{Crypto}
use drawbridge_ingress.Letsencrypt.Client.{
  Method, head, get, post, HttpResponse, Formats, Directory, Account,
}
use drawbridge_ingress.Letsencrypt.Orders.{validate, Openssl, Messages, generate_certificate}
use drawbridge_ingress.Letsencrypt.Orders.Nonces.{Event, Server, traced, AllFresh}
use drawbridge_ingress.Letsencrypt.Orders.Fresh.{generate_certificate-AllFresh}
use drawbridge_ingress.Letsencrypt.Orders.Prepared.{ServedFirst, for_each-validate-ServedFirst}

-- A nonce that was never given before.
nonce_of : List Event → String
nonce_of [] = "n"
nonce_of (e ∷ h) = concat "n" (nonce_of h)

abbrev plain : HttpResponse
plain = record {
  is_success = true;
  location = none;
  replay_nonce = none;
  body = some [];
  debug_string = "";
}

answer_at : String → HttpResponse
answer_at url =
    if str_eq url "/new-acct"
    then record plain { location = some (visible "/acct") }
    else if str_eq url "/new-order"
    then record plain { location = some (visible "/order") }
    else if str_eq url "/cert"
    then record plain { body = some (9 ∷ []) }
    else plain

abbrev by_method : Method → List Event → String → Option HttpResponse
by_method head h url = some (record plain { replay_nonce = some (visible (nonce_of h)) })
by_method get h url = none
by_method post h url = some (answer_at url)

abbrev server : Server
server h req = by_method req.method h req.url

abbrev order : OrderResponse
order = record {
  status = "valid";
  authorizations = "/authz" ∷ [];
  finalize = "/finalize";
  certificate = some "/cert";
}

abbrev directory : Directory
directory = record { new_account = "/new-acct"; new_nonce = "/nonce"; new_order = "/new-order" }

abbrev formats : Formats
formats = record {
  is_uri = λ url. true;
  directory = λ body. some directory;
  account_status = λ body. some "valid";
  order = λ body. some order;
  authorization = λ body. some (record {
    status = "valid";
    challenges =
        record { kind = some (some "dns-01"); token = none; url = none }
        ∷ record { kind = some (some "http-01"); token = some "token"; url = some "/chall" }
        ∷ [];
    identifier = "a.com";
  });
}

bytes_of : String → List ℕ
bytes_of no_text = []
bytes_of (c in_front s) = code c ∷ bytes_of s

text_of : List ℕ → String
text_of [] = ""
text_of (b ∷ bs) = concat "x" (text_of bs)

abbrev crypto : Crypto (List ℕ)
crypto = record {
  from_bytes = λ bytes. some bytes;
  to_bytes = λ key. key;
  point_x = λ key. key;
  point_y = λ key. key;
  sign_r = λ key bytes. key;
  sign_s = λ key bytes. bytes;
  sha256 = λ bytes. bytes;
  base64_url = text_of;
  as_bytes = bytes_of;
  protected_json = λ header. some (concat header.nonce header.url);
  thumbprint_json = λ t. some t.x;
  payload_json = λ p. some "{}";
}

abbrev openssl : Openssl (List ℕ)
openssl = record { create = λ key names. some (inr (4 ∷ [])); to_pem = λ key. some key }

abbrev account : Account (List ℕ)
account = record {
  es_key = 1 ∷ [];
  location = "/acct";
  directory = directory;
  private_key = 2 ∷ [];
}

abbrev message : Messages
message c i = c.domain

-- The order of this server comes to a certificate.
generate_certificate_run :
    (generate_certificate
      (traced server)
      formats
      crypto
      message
      openssl
      1
      account
      ("a.com" ∷ [])
      []).0
    ≡ ok (record { private_key = 2 ∷ []; certificate = 9 ∷ [] })
unfolding generate_certificate traced ◌>>=◌ for_each answer_at
generate_certificate_run = refl

generate_certificate-AllFresh_example :
    AllFresh crypto directory
      (generate_certificate
        (traced server)
        formats
        crypto
        message
        openssl
        1
        account
        ("a.com" ∷ [])
        []).1
generate_certificate-AllFresh_example =
    generate_certificate-AllFresh crypto server formats account message openssl 1 ("a.com" ∷ []) []
      tt

abbrev auths : List (String × Http01Challenge)
auths =
    (
      "/authz",
      record {
        path = "/.well-known/acme-challenge/token";
        contents = "token.key";
        challenge_url = "/chall";
        domain = "a.com";
      },
    )
    ∷ []

validated : List Event
unfolding for_each validate traced ◌>>=◌ answer_at
validated = (for_each (validate (traced server) formats crypto message account) auths []).1

validates :
    for_each (validate (traced server) formats crypto message account) auths [] ≡ (ok tt, validated)
unfolding for_each validate traced ◌>>=◌ answer_at validated
validates = refl

for_each-validate-ServedFirst_example : All (λ auth. ServedFirst auth.1 validated) auths
for_each-validate-ServedFirst_example =
    for_each-validate-ServedFirst crypto server formats account message auths [] validated validates
