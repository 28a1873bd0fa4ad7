-- ===== src/Ingress/Routing/Table.antt =====
-- What the routing table holds, and which requests it routes
-- (drawbridge_ingress/src/kube_config_tracker.rs).
use mathlib.Core.Path.{subst}
use Prim.Native.String.{◌++◌ as concat}
use text.Mathlib.TextBridge.{IsPrefix}
use drawbridge_ingress.Prelude.{
  ℕ, ◌≡◌, refl, sym, ◌∙◌, true, ◌↔◌, some, List, [], ◌∷◌, inl, inr, arith, All, All-mono, ap,
  if◌then◌else◌, Bool-cases, Option-cases,
}
use drawbridge_ingress.Prelude.Maps.{
  String, lookup, string_eq, lookup-insert, All-insert, All-lookup, str_eq, eq_iff, beq_refl,
}
use drawbridge_ingress.Ingress.Routing.{
  RegexApi, Backend, RoutingTable, with_prefix, matches, same_backend, insert_backend, add_backend,
  backends_of, or_empty, first_match, get_backend,
}

-- What is relied on of `regex`: `as_str` gives the pattern back, and an escaped text after `^`
-- matches just the texts that begin with it.
pub record IsRegex {Regex : Type 0} (re : RegexApi Regex) : Type 0 where
  pub as_str_new : (p : String) (r : Regex) → re.new p ≡ some r → re.as_str r ≡ p
  pub match_iff :
      (p path : String) (r : Regex)
      → re.new (concat "^" (re.escape p)) ≡ some r
      → (re.is_match r path ≡ true) ↔ IsPrefix p path

module _ {Regex : Type 0} (re : RegexApi Regex) where
  -- A backend of the host, whose pattern was made of a prefix.
  abbrev pub IsFor : String → Backend Regex → Type 0
  IsFor host b =
      (b.host ≡ host) × ((p : String) × (re.new (concat "^" (re.escape p)) ≡ some b.path_regex))

  abbrev pub IsEntry : String × List (Backend Regex) → Type 0
  IsEntry (host, bs) = All (IsFor host) bs

  abbrev pub IsSound : RoutingTable Regex → Type 0
  IsSound t = All IsEntry t.backends_by_host

  pub with_prefix-made :
      (host p name : String) (port : ℕ) (b : Backend Regex)
      → with_prefix re host p name port ≡ some b
      → (b.host ≡ host)
        × (b.service_name ≡ name)
        × (re.new (concat "^" (re.escape p)) ≡ some b.path_regex)
  unfolding with_prefix
  with_prefix-made host p name port b made =
      elim (Option-cases (re.new (concat "^" (re.escape p)))) [
        | inl bad ↦ cc
        | inr (r, good) ↦ ground (arith, good)
      ]

  pub with_prefix-IsFor :
      (host p name : String) (port : ℕ) (b : Backend Regex)
      → with_prefix re host p name port ≡ some b
      → IsFor host b
  with_prefix-IsFor host p name port b made =
      let (hosts, _, good) = with_prefix-made host p name port b made in (hosts, (p, good))

  insert_backend-All :
      (P : Backend Regex → Type 0) (b : Backend Regex) (bs : List (Backend Regex))
      → P b
      → All P bs
      → All P (insert_backend re b bs)
  unfolding insert_backend
  insert_backend-All P b [] pb h = (pb, tt)
  insert_backend-All P b (a ∷ bs) pb h = elim (Bool-cases (same_backend re a b)) [
    | inl same ↦ rw same h
    | inr other ↦ rw other (h.0, insert_backend-All P b bs pb h.1)
  ]

  pub backends_of-IsFor :
      (host : String) (t : RoutingTable Regex) → IsSound t → All (IsFor host) (backends_of host t)
  unfolding backends_of
  backends_of-IsFor host t sound = elim (Option-cases (lookup host t.backends_by_host)) [
    | inl absent ↦ subst (λ o. All (IsFor host) (or_empty o)) (sym absent) tt
    | inr (bs, found) ↦
        subst (λ o. All (IsFor host) (or_empty o)) (sym found)
          (All-lookup IsEntry host bs t.backends_by_host sound found)
  ]

  pub add_backend-backends_of :
      (host j : String) (b : Backend Regex) (t : RoutingTable Regex)
      → backends_of j (add_backend re host b t)
        ≡ (if str_eq host j then insert_backend re b (backends_of host t) else backends_of j t)
  unfolding backends_of add_backend
  add_backend-backends_of host j b t =
      ground
        (arith, lookup-insert host j (insert_backend re b (backends_of host t)) t.backends_by_host)

  pub add_backend-IsSound :
      (host : String) (b : Backend Regex) (t : RoutingTable Regex)
      → IsFor host b
      → IsSound t
      → IsSound (add_backend re host b t)
  unfolding add_backend
  add_backend-IsSound host b t for sound =
      All-insert IsEntry host (insert_backend re b (backends_of host t)) t.backends_by_host
        (insert_backend-All (IsFor host) b (backends_of host t) for
          (backends_of-IsFor host t sound))
        sound

  -- Some backend of the list matches.
  abbrev pub Has : String → List (Backend Regex) → Type 0
  Has path bs = (name : String) × (first_match re path bs ≡ some name)

  insert_backend-Has :
      (path : String) (b : Backend Regex) (bs : List (Backend Regex))
      → Has path bs
      → Has path (insert_backend re b bs)
  unfolding insert_backend first_match
  insert_backend-Has path b [] (name, h) = cc
  insert_backend-Has path b (a ∷ bs) (name, h) = elim (Bool-cases (matches re a path)) [
    | inl this ↦ (a.service_name, ground (arith, this))
    | inr other ↦
        let below : Has path bs = (name, ground (arith, other, h)) in
        let (name', h') = insert_backend-Has path b bs below in
        elim (Bool-cases (same_backend re a b)) [
          | inl same ↦ (name, rw same h)
          | inr differs ↦ (name', rw differs (rw other h'))
        ]
  ]

  insert_backend-matches :
      (path : String) (b : Backend Regex) (bs : List (Backend Regex))
      → matches re b path ≡ true
      → All (λ a. same_backend re a b ≡ true → matches re a path ≡ true) bs
      → Has path (insert_backend re b bs)
  unfolding insert_backend first_match
  insert_backend-matches path b [] this likewise = (b.service_name, rw this refl)
  insert_backend-matches path b (a ∷ bs) this likewise = elim (Bool-cases (same_backend re a b)) [
    | inl same ↦ (a.service_name, rw same (rw (likewise.0 same) refl))
    | inr differs ↦
        let (name, h) = insert_backend-matches path b bs this likewise.1 in
        elim (Bool-cases (matches re a path)) [
          | inl first ↦ (a.service_name, ground (arith, first, differs))
          | inr other ↦ (name, ground (arith, other, differs, h))
        ]
  ]

  pub get_backend-Has :
      (host path : String) (t : RoutingTable Regex) (name : String)
      → get_backend re host path t ≡ inr name
      → first_match re path (backends_of host t) ≡ some name
  unfolding get_backend
  get_backend-Has host path t name routed =
      elim (Option-cases (first_match re path (backends_of host t))) [
        | inl nothing ↦ ground (arith, nothing)
        | inr (_, found) ↦ ground (arith, found)
      ]

  pub Has-get_backend :
      (host path : String) (t : RoutingTable Regex) (name : String)
      → first_match re path (backends_of host t) ≡ some name
      → get_backend re host path t ≡ inr name
  unfolding get_backend
  Has-get_backend host path t name found = ground (arith, found)

  -- What is routed stays routed.
  pub add_backend-keeps :
      (host j path : String) (b : Backend Regex) (t : RoutingTable Regex)
      → Has path (backends_of j t)
      → Has path (backends_of j (add_backend re host b t))
  add_backend-keeps host j path b t has = elim (Bool-cases (str_eq host j)) [
    | inl same ↦
        let here : host ≡ j = (eq_iff host j).0 same in
        let here' : Has path (backends_of host t) =
          subst (λ i. Has path (backends_of i t)) (sym here) has in
        rw (add_backend-backends_of host j b t)
          (rw same (insert_backend-Has path b (backends_of host t) here'))
    | inr other ↦ rw (add_backend-backends_of host j b t) (rw other has)
  ]

  -- Two backends of a sound table that the set takes for equal have the same pattern.
  same_backend-regex :
      IsRegex re
      → (host : String) (a b : Backend Regex) → IsFor host a
      → IsFor host b
      → same_backend re a b ≡ true
      → a.path_regex ≡ b.path_regex
  unfolding same_backend
  same_backend-regex law host a b (_, (p, made)) (_, (q, made')) same =
      let e : re.as_str a.path_regex ≡ re.as_str b.path_regex =
        ground (arith, eq_iff (re.as_str a.path_regex) (re.as_str b.path_regex)) in
      let pattern =
        sym (law.as_str_new (concat "^" (re.escape p)) a.path_regex made)
        ∙ e
        ∙ law.as_str_new (concat "^" (re.escape q)) b.path_regex made' in
      let f : some a.path_regex ≡ some b.path_regex = sym made ∙ ap re.new pattern ∙ made' in cc

  -- The backends of a sound table that the set takes for equal to one that matches match too.
  pub same_backend-matches :
      IsRegex re
      → (host path : String) (b : Backend Regex) (t : RoutingTable Regex) → IsFor host b
      → IsSound t
      → matches re b path ≡ true
      → All (λ a. same_backend re a b ≡ true → matches re a path ≡ true) (backends_of host t)
  unfolding matches
  same_backend-matches law host path b t for sound this =
      All-mono (IsFor host) (λ a. same_backend re a b ≡ true → matches re a path ≡ true)
        (λ a for_a same.
          subst (λ r. re.is_match r path ≡ true)
            (sym (same_backend-regex law host a b for_a for same)) this)
        (backends_of host t) (backends_of-IsFor host t sound)

  pub add_backend-routes :
      IsRegex re
      → (host path : String) (b : Backend Regex) (t : RoutingTable Regex) → IsFor host b
      → IsSound t
      → matches re b path ≡ true
      → Has path (backends_of host (add_backend re host b t))
  add_backend-routes law host path b t for sound this =
      let likewise = same_backend-matches law host path b t for sound this in
      rw (add_backend-backends_of host host b t)
        (rw (beq_refl host) (insert_backend-matches path b (backends_of host t) this likewise))
