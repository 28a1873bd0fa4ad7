-- ===== src/Letsencrypt/Orders/Waiting.antt =====
-- The loop that waits for a certificate, in the outside world and over the sequence of the server's
-- answers (letsencrypt/src/account.rs).
use drawbridge_ingress.Prelude.{
  ℕ, zero, suc, ◌+◌, ◌≡◌, refl, sym, ap, ◌∙◌, Option, none, some, ◌⊎◌, inl, inr, arith, Bool-cases,
  Option-cases, Sum-cases, ltb, if◌then◌else◌,
}
use drawbridge_ingress.Prelude.Maps.{String, str_eq}
use drawbridge_ingress.Prelude.Action.{Outcome, ok, err, unfinished, Action, >>=-at, or_fail}
use drawbridge_ingress.Letsencrypt.{
  LetsEncryptError, could_not_finalise_order, OrderResponse, poll_order, wait_for_certificate,
}
use drawbridge_ingress.Letsencrypt.Jwt.{Crypto}
use drawbridge_ingress.Letsencrypt.Client.{Outside, Formats, Account}
use drawbridge_ingress.Letsencrypt.Orders.{Messages, get_order, certificate_of, await_certificate}

-- An answer as the outcome of a request, and the result of the loop on fuel as an outcome.
abbrev pub answered : LetsEncryptError ⊎ OrderResponse → Outcome LetsEncryptError OrderResponse
answered (inl e) = err e
answered (inr order) = ok order

abbrev pub waited : Option (LetsEncryptError ⊎ String) → Outcome LetsEncryptError String
waited none = unfinished
waited (some (inl e)) = err e
waited (some (inr url)) = ok url

module _ {W SigningKey PKey : Type 0} (outside : Outside W) (formats : Formats)
    (crypto : Crypto SigningKey) (message : Messages) (account : Account PKey) (order_url : String)
    (w : W) where
  -- The world after the order was asked for `n` times.
  unfoldable pub asked : ℕ → W
  asked zero = w
  asked (suc n) = (get_order outside formats crypto account order_url (asked n)).1

  asked-next :
      (n : ℕ) → asked (n + 1) ≡ (get_order outside formats crypto account order_url (asked n)).1
  unfolding asked
  asked-next n = let e : n + 1 ≡ suc n = omega arith in ap asked e

  at_outcome :
      {A : Type 0} (r : Outcome LetsEncryptError A × W) {o : Outcome LetsEncryptError A} {w' : W}
      → r.0 ≡ o
      → w' ≡ r.1
      → r ≡ (o, w')
  at_outcome r {o} e e' = ap (λ x. (x, r.1)) e ∙ ap (λ x. (o, x)) (sym e')

  -- The branches at an answer.
  at_answer :
      (order : OrderResponse) (rest : Action W LetsEncryptError String)
      (rest' : Option (LetsEncryptError ⊎ String)) (w' : W)
      → (rest w').0 ≡ waited rest'
      → (certificate_of order rest w').0
        ≡ waited (
            if str_eq order.status "valid"
            then elim order.certificate [
              | none ↦ some (inl could_not_finalise_order)
              | some url ↦ some (inr url)
            ]
            else rest')
  unfolding certificate_of or_fail
  at_answer order rest rest' w' same = elim (Bool-cases (str_eq order.status "valid")) [
    | inr waits ↦ rw (waits) same
    | inl valid ↦ elim (Option-cases order.certificate) [
      | inl missing ↦ rw (valid, missing) refl
      | inr (url, given) ↦ rw (valid, given) refl
    ]
  ]

  poll_order-await_certificate :
      (answers : ℕ → LetsEncryptError ⊎ OrderResponse)
      → ((n : ℕ)
          → (get_order outside formats crypto account order_url (asked n)).0 ≡ answered (answers n))
      → (i fuel n : ℕ)
      → (await_certificate outside formats crypto message account order_url i fuel (asked n)).0
        ≡ waited (poll_order answers i fuel n)
  unfolding await_certificate poll_order
  poll_order-await_certificate answers are i zero n = refl
  poll_order-await_certificate answers are i (suc fuel) n =
      let rest = poll_order-await_certificate answers are i fuel (n + 1) in
      let then_ : OrderResponse → Action W LetsEncryptError String = λ order.
        certificate_of order
          (await_certificate outside formats crypto message account order_url i fuel) in
      let asks = get_order outside formats crypto account order_url in
      elim (Bool-cases (ltb 6 i)) [
        | inl high ↦ rw (high) refl
        | inr low ↦ elim (Sum-cases (answers n)) [
          | inl (e, failed) ↦
              let round =
                >>=-at asks then_ (asked n) {r = (err e, asked (n + 1))}
                  (at_outcome (asks (asked n)) (are n ∙ ap answered failed) (asked-next n)) in
              rw (low, failed) (ap (λ r. r.0) round)
          | inr (order, came) ↦
              let round =
                >>=-at asks then_ (asked n) {r = (ok order, asked (n + 1))}
                  (at_outcome (asks (asked n)) (are n ∙ ap answered came) (asked-next n)) in
              rw (low, came) (ap (λ r. r.0) round ∙ at_answer order _ _ (asked (n + 1)) rest)
        ]
      ]

  -- What the loop over requests comes to is what the loop over the server's answers comes to, if
  -- each request for the order has just its answer as the outcome, and so neither panics.
  await_certificate-wait_for_certificate :
      (answers : ℕ → LetsEncryptError ⊎ OrderResponse) (fuel : ℕ)
      → ((n : ℕ)
          → (get_order outside formats crypto account order_url (asked n)).0 ≡ answered (answers n))
      → (await_certificate outside formats crypto message account order_url 1 fuel w).0
        ≡ waited (wait_for_certificate fuel answers)
  unfolding wait_for_certificate asked
  await_certificate-wait_for_certificate answers fuel are =
      poll_order-await_certificate answers are 1 fuel 0
