-- ===== src/Letsencrypt/Polling.antt =====
-- When the loops that wait for an ACME server end, and how (letsencrypt/src/order.rs and
-- letsencrypt/src/account.rs).
use mathlib.Core.Path.{subst}
use drawbridge_ingress.Prelude.{
  ℕ, zero, suc, ◌+◌, ◌<◌, ◌≡◌, ◌∙◌, refl, true, false, none, some, ◌⊎◌, inl, inr, arith, ◌||◌,
}
use drawbridge_ingress.Prelude.Maps.{String, str_eq}
use drawbridge_ingress.Letsencrypt.{
  LetsEncryptError, OrderResponse, poll_authorisation, wait_for_validation, poll_order,
  wait_for_certificate,
}

poll_order-unfinished :
    (answers : ℕ → LetsEncryptError ⊎ OrderResponse) (order : OrderResponse) (fuel n : ℕ)
    → answers n ≡ inr order
    → str_eq order.status "valid" ≡ false
    → poll_order answers 1 (suc fuel) n ≡ poll_order answers 1 fuel (n + 1)
unfolding poll_order
poll_order-unfinished answers order fuel n asked unfinished =
    rw (poll_order, asked, unfinished) refl

poll_order-never_ends :
    (order : ℕ → OrderResponse) (fuel n : ℕ)
    → ((m : ℕ) → str_eq (order m).status "valid" ≡ false)
    → poll_order (λ m. inr (order m)) 1 fuel n ≡ none
unfolding poll_order
poll_order-never_ends order zero n unfinished = refl
poll_order-never_ends order (suc fuel) n unfinished =
    poll_order-unfinished (λ m. inr (order m)) (order n) fuel n refl (unfinished n)
    ∙ poll_order-never_ends order fuel (n + 1) unfinished

-- While every answer is an order that is not valid, the loop never ends: no number of attempts is
-- enough for it to give up.
pub wait_for_certificate-never_ends :
    (order : ℕ → OrderResponse) (fuel : ℕ)
    → ((n : ℕ) → str_eq (order n).status "valid" ≡ false)
    → wait_for_certificate fuel (λ n. inr (order n)) ≡ none
unfolding wait_for_certificate
wait_for_certificate-never_ends order fuel unfinished =
    poll_order-never_ends order fuel 0 unfinished

poll_order-valid :
    (order : ℕ → OrderResponse) (url : String) (k n fuel : ℕ)
    → ((m : ℕ) → m < n + k → str_eq (order m).status "valid" ≡ false)
    → str_eq (order (n + k)).status "valid" ≡ true
    → (order (n + k)).certificate ≡ some url
    → k < fuel
    → poll_order (λ m. inr (order m)) 1 fuel n ≡ some (inr url)
unfolding poll_order
poll_order-valid order url k n zero before valid given enough = elim enough [ ]
poll_order-valid order url zero n (suc fuel) before valid given enough =
    let e : n + 0 ≡ n = omega arith in
    let valid' = subst (λ m. str_eq (order m).status "valid" ≡ true) e valid in
    let given' = subst (λ m. (order m).certificate ≡ some url) e given in
    rw (poll_order, valid', given') refl
poll_order-valid order url (suc k) n (suc fuel) before valid given enough =
    let e : n + suc k ≡ (n + 1) + k = omega arith in
    poll_order-unfinished (λ m. inr (order m)) (order n) fuel n refl (before n (omega arith))
    ∙ poll_order-valid order url k (n + 1) fuel (λ m h. before m (omega arith))
        (subst (λ m. str_eq (order m).status "valid" ≡ true) e valid)
        (subst (λ m. (order m).certificate ≡ some url) e given) (omega arith)

-- When the order becomes valid, with a certificate, at any answer, and every answer before it is an
-- order that is not valid, the loop returns the certificate's URL; fuel above the number of
-- answers before it is enough.
pub wait_for_certificate-valid :
    (order : ℕ → OrderResponse) (url : String) (k fuel : ℕ)
    → ((m : ℕ) → m < k → str_eq (order m).status "valid" ≡ false)
    → str_eq (order k).status "valid" ≡ true
    → (order k).certificate ≡ some url
    → k < fuel
    → wait_for_certificate fuel (λ n. inr (order n)) ≡ some (inr url)
unfolding wait_for_certificate
wait_for_certificate-valid order url k fuel before valid given enough =
    let e : k ≡ 0 + k = omega arith in
    poll_order-valid order url k 0 fuel (λ m h. before m (omega arith))
      (subst (λ m. str_eq (order m).status "valid" ≡ true) e valid)
      (subst (λ m. (order m).certificate ≡ some url) e given) enough

-- The status of an attempt with which the loop over attempts ends well.
abbrev pub IsSettled : String → Type 0
IsSettled status =
    (str_eq status "pending" ≡ false) × ((str_eq status "valid" || str_eq status "ready") ≡ true)

poll_authorisation-passes :
    (message : ℕ → String) (status : ℕ → String) (k left i : ℕ)
    → ((j : ℕ) → j < k → str_eq (status (i + j)) "pending" ≡ true)
    → (k ≡ left) ⊎ ((k < left) × IsSettled (status (i + k)))
    → poll_authorisation message (λ j. inr (status j)) left i ≡ none
unfolding poll_authorisation
poll_authorisation-passes message status k zero i pending end = refl
poll_authorisation-passes message status zero (suc left) i pending (inl none_left) =
    let no : ⊥ = omega arith in absurd no
poll_authorisation-passes message status zero (suc left) i pending (inr (_, (settled, well))) =
    let e : i + 0 ≡ i = omega arith in
    let settled' = subst (λ j. str_eq (status j) "pending" ≡ false) e settled in
    let well' =
      subst (λ j. (str_eq (status j) "valid" || str_eq (status j) "ready") ≡ true) e well in
    rw (poll_authorisation, settled', well') refl
poll_authorisation-passes message status (suc k) (suc left) i pending end =
    let e0 : i + 0 ≡ i = omega arith in
    let first = subst (λ j. str_eq (status j) "pending" ≡ true) e0 (pending 0 (omega arith)) in
    let e : i + suc k ≡ (i + 1) + k = omega arith in
    rw (poll_authorisation, first)
      (poll_authorisation-passes message status k left (i + 1)
        (λ j h.
          subst (λ m. str_eq (status m) "pending" ≡ true) (omega arith)
            (pending (suc j) (omega arith)))
        (elim end [
          | inl all ↦ inl (omega arith)
          | inr (less, settled) ↦ inr (omega arith, subst (λ m. IsSettled (status m)) e settled)
        ]))

-- The loop over the status of an authorization lets the order go on, without an error, when the
-- first five answers are `pending`, just as when fewer of them are and the next is `valid` or
-- `ready`.
pub wait_for_validation-passes :
    (message : ℕ → String) (status : ℕ → String) (k : ℕ)
    → ((j : ℕ) → j < k → str_eq (status (1 + j)) "pending" ≡ true)
    → (k ≡ 5) ⊎ ((k < 5) × IsSettled (status (1 + k)))
    → wait_for_validation message (λ j. inr (status j)) ≡ none
unfolding wait_for_validation
wait_for_validation-passes message status k pending end =
    poll_authorisation-passes message status k 5 1 pending end
