-- ===== src/Letsencrypt/Orders/Fresh.antt =====
-- The signed requests of accounts and orders (letsencrypt/src/account.rs, order.rs and challenge.rs).
use drawbridge_ingress.Prelude.{ℕ, List}
use drawbridge_ingress.Prelude.Maps.{String}
use drawbridge_ingress.Prelude.Action.{
  Keeps, pure-Keeps, fail-Keeps, or_fail-Keeps, if-Keeps, >>=-Keeps,
}
use drawbridge_ingress.Letsencrypt.Jwt.{Crypto}
use drawbridge_ingress.Letsencrypt.Client.{
  post, HttpResponse, Directory, Formats, Account, account_of, get_account,
}
use drawbridge_ingress.Letsencrypt.Orders.{Messages, Openssl, generate_certificate}
use drawbridge_ingress.Letsencrypt.Orders.Kept.{generate_certificate-Keeps}
use drawbridge_ingress.Letsencrypt.Orders.Nonces.{
  Event, Server, traced, AllFresh, send_request-Keeps, read_body-Keeps, response_debug_string-Keeps,
  location_of-Keeps,
}

module _ {SigningKey PKey : Type 0} (crypto : Crypto SigningKey) (server : Server)
    (formats : Formats) where
  account_of-Keeps :
      (directory : Directory) (key : SigningKey) (private_key : PKey) (response : HttpResponse)
      → Keeps
          (AllFresh crypto directory)
          (account_of (traced server) formats crypto directory key private_key response)
  unfolding account_of
  account_of-Keeps directory key private_key response =
      >>=-Keeps (location_of-Keeps crypto directory server formats response) λ location.
        >>=-Keeps (read_body-Keeps crypto directory server formats response)
          λ body. >>=-Keeps (or_fail-Keeps _ _) λ status. if-Keeps _ (pure-Keeps _) (fail-Keeps _)

  get_account-Keeps :
      (directory : Directory) (email : String) (key : SigningKey) (private_key : PKey)
      → Keeps
          (AllFresh crypto directory)
          (get_account (traced server) formats crypto directory email key private_key)
  unfolding get_account
  get_account-Keeps directory email key private_key =
      >>=-Keeps (send_request-Keeps crypto directory server formats _ _ _ _ _) λ response.
        if-Keeps _ (account_of-Keeps directory key private_key response) (
          >>=-Keeps (response_debug_string-Keeps crypto directory server formats response)
            λ text. fail-Keeps _)

  -- The same of the creation of an account: however it ends, every signed request in the record
  -- names its own URL and carries the nonce that the server gave last.
  pub get_account-AllFresh :
      (directory : Directory) (email : String) (key : SigningKey) (private_key : PKey)
      (h : List Event)
      → AllFresh crypto directory h
      → AllFresh crypto directory
          (get_account (traced server) formats crypto directory email key private_key h).1
  get_account-AllFresh directory email key private_key =
      (get_account-Keeps directory email key private_key).at_world

  module _ (account : Account PKey) (message : Messages) (openssl : Openssl PKey) where
    -- Whatever the server answers, and however the order ends, the record of what was sent
    -- stays fresh: each signed request in it names the URL that it was sent to, and carries the
    -- nonce that the server gave in answer to the request right before it.
    pub generate_certificate-AllFresh :
        (fuel : ℕ) (domains : List String) (h : List Event)
        → AllFresh crypto account.directory h
        → AllFresh crypto account.directory
            (generate_certificate
              (traced server)
              formats
              crypto
              message
              openssl
              fuel
              account
              domains
              h).1
    unfolding traced
    generate_certificate-AllFresh fuel domains =
        (generate_certificate-Keeps (traced server) formats crypto account
          (AllFresh crypto account.directory)
          (λ url key kid payload.
            send_request-Keeps crypto account.directory server formats post url key kid payload)
          (λ c h all. all) message openssl fuel domains).at_world
