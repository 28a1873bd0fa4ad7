-- ===== src/Ingress/Routing/Order.antt =====
-- The order in which the backends of a host are tried (drawbridge_ingress/src/kube_config_tracker.rs):
-- they stand in a `HashSet`, which leaves the order open.
use mathlib.Core.Path.{subst}
use mathlib.Core.Logic.{∥∥₁_elim}
use mathlib.Core.List.{Permᴰ}
use mathlib.Core.List.Permᴰ
use mathlib.Core.Quot
use mathlib.Core.Quot.{Quot}
use drawbridge_ingress.Prelude.{
  ◌≡◌, ◌≢◌, ◌↔◌, refl, sym, ap, ◌∙◌, true, false, none, some, List, [], ◌∷◌, inl, inr, Among,
  Bool-cases, Option-cases,
}
use drawbridge_ingress.Prelude.Maps.{
  String, insert, string_eq, lookup, lookup-insert, beq_refl, str_eq, eq_iff,
}
use drawbridge_ingress.Ingress.Routing.{
  RegexApi, Backend, RoutingTable, matches, backends_of, or_empty, first_match, get_backend,
}
use drawbridge_ingress.Ingress.Routing.Table.{get_backend-Has, Has-get_backend}

Among-Perm : {A : Type 0} {as' bs : List A} (a : A) → Permᴰ as' bs → Among a as' → Among a bs
Among-Perm a Permᴰ.nil among = among
Among-Perm a (Permᴰ.cons e rest) (inl this) = inl (sym e ∙ this)
Among-Perm a (Permᴰ.cons e rest) (inr later) = inr (Among-Perm a rest later)
Among-Perm a (Permᴰ.swap e f) (inl this) = inr (inl (sym e ∙ this))
Among-Perm a (Permᴰ.swap e f) (inr (inl this)) = inl (sym f ∙ this)
Among-Perm a (Permᴰ.swap e f) (inr (inr later)) = inr (inr later)
Among-Perm a (Permᴰ.trans p q) among = Among-Perm a q (Among-Perm a p among)

-- An element can be brought to the front.
Among-front :
    {A : Type 0} (a : A) (as' : List A) → Among a as' → (rest : List A) × Permᴰ as' (a ∷ rest)
Among-front a [] among = elim among [ ]
Among-front a (x ∷ xs) (inl this) = (xs, Permᴰ.cons this (Permᴰ.refl xs))
Among-front a (x ∷ xs) (inr later) =
    let (rest, p) = Among-front a xs later in
    (x ∷ rest, Permᴰ.trans (Permᴰ.cons refl p) (Permᴰ.swap refl refl))

-- The set of the backends of a host: a list of them that forgets its order.
abbrev pub BackendSet : Type 0 → Type 0
BackendSet Regex = Quot {α = List (Backend Regex)} (λ as' bs. Permᴰ as' bs)

abbrev pub set_of : {Regex : Type 0} → List (Backend Regex) → BackendSet Regex
set_of bs = Quot.mk bs

module _ {Regex : Type 0} (re : RegexApi Regex) where
  -- Some backend among them matches the path and has the name.
  abbrev pub Offers : String → String → List (Backend Regex) → Type 0
  Offers path name bs =
      ∥ ((b : Backend Regex) × Among b bs × (matches re b path ≡ true) × (b.service_name ≡ name)) ∥₁

  pub Offers-Perm :
      (path name : String) (as' bs : List (Backend Regex))
      → Permᴰ as' bs
      → Offers path name as'
      → Offers path name bs
  Offers-Perm path name as' bs p offers =
      ∥∥₁_elim offers (hlevel)
        (λ (b, among, this, named). ∣ (b, Among-Perm b p among, this, named) ∣₁)

  -- The same of a set.
  abbrev pub MayAnswer : String → String → BackendSet Regex → Type 0
  MayAnswer path name q =
      (Quot.lift_prop (λ bs. (Offers path name bs, (hlevel)))
        (λ as' bs p. (Offers-Perm path name as' bs p, Offers-Perm path name bs as' (Permᴰ.symm p)))
        q).0

  first_match-front :
      (path : String) (b : Backend Regex) (bs : List (Backend Regex))
      → matches re b path ≡ true
      → first_match re path (b ∷ bs) ≡ some b.service_name
  unfolding first_match
  first_match-front path b bs this = rw (this) refl

  first_match-Offers :
      (path name : String) (bs : List (Backend Regex))
      → first_match re path bs ≡ some name
      → Offers path name bs
  unfolding first_match
  first_match-Offers path name [] found = cc
  first_match-Offers path name (b ∷ bs) found = elim (Bool-cases (matches re b path)) [
    | inl this ↦
        let e : some b.service_name ≡ some name = rw this at found in ∣ (b, inl refl, this, cc) ∣₁
    | inr other ↦
        ∥∥₁_elim (first_match-Offers path name bs (rw other at found)) (hlevel)
          (λ (a, among, this, named). ∣ (a, inr among, this, named) ∣₁)
  ]

  backends_of-insert :
      (host : String) (bs : List (Backend Regex)) (t : RoutingTable Regex)
      → backends_of host (record t { backends_by_host = insert host bs t.backends_by_host }) ≡ bs
  unfolding backends_of
  backends_of-insert host bs t =
      let found : lookup host (insert host bs t.backends_by_host) ≡ some bs =
        lookup-insert host host bs t.backends_by_host ∙ rw (beq_refl host) refl in
      ap or_empty found

  -- The name of a backend is a possible answer just if some order of the set gives it. To be precise:
  -- a backend of the host that matches the path and has the name is among the set if and only if
  -- there is a routing table with the same set for the host, in some order, of which `get_backend`
  -- answers the name.
  pub get_backend-MayAnswer :
      (host path name : String) (t : RoutingTable Regex)
      → MayAnswer path name (set_of (backends_of host t))
        ↔ ∥ (
            (t' : RoutingTable Regex) × (set_of (backends_of host t') ≡ set_of (backends_of host t))
            × (get_backend re host path t' ≡ inr name)) ∥₁
  get_backend-MayAnswer host path name t = (
    λ may. ∥∥₁_elim may (hlevel) (λ (b, among, this, named).
        let (rest, p) = Among-front b (backends_of host t) among in
        let t' = record t { backends_by_host = insert host (b ∷ rest) t.backends_by_host } in
        let at = backends_of-insert host (b ∷ rest) t in
        let found : first_match re path (backends_of host t') ≡ some name =
          subst (λ bs. first_match re path bs ≡ some name) (sym at)
            (first_match-front path b rest this ∙ ap some named) in
        ∣ (t', ap set_of at ∙ sym (Quot.sound p), Has-get_backend re host path t' name found) ∣₁),
    λ some_order. ∥∥₁_elim some_order (hlevel) (λ (t', same, answer).
        subst (MayAnswer path name) same (
          first_match-Offers path name (backends_of host t')
            (get_backend-Has re host path t' name answer))),
  )

  unmatched :
      (path : String) (b : Backend Regex) (bs : List (Backend Regex))
      → Among b bs
      → matches re b path ≡ true
      → first_match re path bs ≢ none
  unfolding first_match
  unmatched path b [] among this none_found = elim among [ ]
  unmatched path b (a ∷ bs) among this none_found = elim (Bool-cases (matches re a path)) [
    | inl first ↦ let no : some a.service_name ≡ none = rw first at none_found in cc
    | inr other ↦ elim among [
      | inl same ↦
          let no : true ≡ false = sym this ∙ ap (λ x. matches re x path) (sym same) ∙ other in cc
      | inr later ↦ unmatched path b bs later this (rw other at none_found)
    ]
  ]

  Offers-first_match :
      (path name : String) (bs : List (Backend Regex))
      → Offers path name bs
      → first_match re path bs ≢ none
  Offers-first_match path name bs offers none_found =
      ∥∥₁_elim offers (hlevel) (λ (b, among, this, _). unmatched path b bs among this none_found)

  Alike : String → String → List (Backend Regex) → Type 0
  Alike path name bs =
      (b : Backend Regex) → Among b bs → matches re b path ≡ true → b.service_name ≡ name

  Offers-one_name :
      (path name n : String) (bs : List (Backend Regex))
      → Alike path name bs
      → Offers path n bs
      → n ≡ name
  unfolding Alike
  Offers-one_name path name n bs alike offers = elim (Bool-cases (str_eq n name)) [
    | inl same ↦ (eq_iff n name).0 same
    | inr differs ↦ absurd (
        ∥∥₁_elim offers (hlevel) (λ (b, among, this, named).
          let no : true ≡ false =
            sym ((eq_iff n name).1 (sym named ∙ alike b among this)) ∙ differs in
          cc))
  ]

  first_match-settled :
      (path name : String) (bs bs' : List (Backend Regex))
      → set_of bs ≡ set_of bs'
      → Alike path name bs
      → first_match re path bs ≡ first_match re path bs'
  first_match-settled path name bs bs' same alike =
      let may = λ (n : String) (found : first_match re path bs' ≡ some n).
        subst (MayAnswer path n) (sym same) (first_match-Offers path n bs' found) in
      elim (Option-cases (first_match re path bs)) [
        | inl nothing ↦ elim (Option-cases (first_match re path bs')) [
          | inl none_too ↦ nothing ∙ sym none_too
          | inr (n, found) ↦ absurd (Offers-first_match path n bs (may n found) nothing)
        ]
        | inr (n, found) ↦
            let offers = first_match-Offers path n bs found in
            elim (Option-cases (first_match re path bs')) [
              | inl nothing ↦
                  absurd
                    (Offers-first_match path n bs' (subst (MayAnswer path n) same offers) nothing)
              | inr (n', found') ↦
                  found
                  ∙ ap some (
                      Offers-one_name path name n bs alike offers
                      ∙ sym (Offers-one_name path name n' bs alike (may n' found')))
                  ∙ sym found'
            ]
      ]

  answer_as :
      (host path : String) (t t' : RoutingTable Regex)
      → first_match re path (backends_of host t) ≡ first_match re path (backends_of host t')
      → get_backend re host path t ≡ get_backend re host path t'
  unfolding get_backend
  answer_as host path t t' same = rw (get_backend, same) refl

  -- If the backends of a host that match a path are all of one name, then the order of the set makes
  -- no difference to `get_backend`: it gives the same, an error too, of two routing tables with the
  -- same set of backends for the host.
  pub get_backend-agrees :
      (host path name : String) (t t' : RoutingTable Regex)
      → set_of (backends_of host t) ≡ set_of (backends_of host t')
      → ((b : Backend Regex)
          → Among b (backends_of host t)
          → matches re b path ≡ true
          → b.service_name ≡ name)
      → get_backend re host path t ≡ get_backend re host path t'
  unfolding Alike
  get_backend-agrees host path name t t' same alike =
      answer_as host path t t'
        (first_match-settled path name (backends_of host t) (backends_of host t') same alike)
