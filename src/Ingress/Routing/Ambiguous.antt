-- ===== src/Ingress/Routing/Ambiguous.antt =====
-- Prefixes of which one begins with the other (drawbridge_ingress/src/kube_config_tracker.rs).
use mathlib.Core.Path.{subst}
use Prim.Native.String.{◌++◌ as concat}
use text.Mathlib.TextBridge.{IsPrefix}
use drawbridge_ingress.Prelude.{
  ◌≡◌, refl, sym, ◌%◌, true, false, some, List, [], ◌∷◌, inl, inr, All, Among, Bool-cases,
  Option-cases, arith,
}
use drawbridge_ingress.Prelude.Maps.{String, string_eq, str_eq, eq_iff, beq_refl}
use drawbridge_ingress.Ingress.Routing.{
  RegexApi, Backend, RoutingTable, IngressPath, IngressRule, IngressResource, Supported, supported,
  with_prefix, matches, same_backend, insert_backend, backends_of, notify_subscribers,
  handle_supported, handle_ingress, get_backend,
}
use drawbridge_ingress.Ingress.Routing.Table.{
  IsRegex, IsSound, with_prefix-made, with_prefix-IsFor, add_backend-backends_of,
  same_backend-matches,
}
use drawbridge_ingress.Ingress.Routing.Steps.{same, added, IsKept}
use drawbridge_ingress.Ingress.Routing.Reaches.{handle_ingress-reaches}
use drawbridge_ingress.Ingress.Routing.Order.{set_of, get_backend-MayAnswer}

module _ {Regex : Type 0} (re : RegexApi Regex) where
  -- A backend among them that matches the path and has the name.
  abbrev Serving : String → String → List (Backend Regex) → Type 0
  Serving path name bs =
      (b : Backend Regex) × Among b bs × (matches re b path ≡ true) × (b.service_name ≡ name)

  insert_backend-Among :
      (b a : Backend Regex) (bs : List (Backend Regex))
      → Among a bs
      → Among a (insert_backend re b bs)
  unfolding insert_backend
  insert_backend-Among b a [] among = elim among [ ]
  insert_backend-Among b a (x ∷ bs) among = elim (Bool-cases (same_backend re x b)) [
    | inl there_ ↦ rw (there_) among
    | inr differs ↦
        rw (differs)
          (elim among [ inl this ↦ inl this | inr later ↦ inr (insert_backend-Among b a bs later) ])
  ]

  same_backend-service_name :
      (a b : Backend Regex) → same_backend re a b ≡ true → a.service_name ≡ b.service_name
  unfolding same_backend
  same_backend-service_name a b alike = ground (arith, eq_iff a.service_name b.service_name)

  -- Of the backend that comes in, or of one that the set takes for equal.
  insert_backend-Serving :
      (path : String) (b : Backend Regex) (bs : List (Backend Regex))
      → matches re b path ≡ true
      → All (λ a. same_backend re a b ≡ true → matches re a path ≡ true) bs
      → Serving path b.service_name (insert_backend re b bs)
  unfolding insert_backend
  insert_backend-Serving path b [] this likewise = (b, inl refl, this, refl)
  insert_backend-Serving path b (a ∷ bs) this likewise = elim (Bool-cases (same_backend re a b)) [
    | inl there_ ↦
        rw (there_) (a, inl refl, likewise.0 there_, same_backend-service_name a b there_)
    | inr differs ↦
        let (x, among, matching, named) = insert_backend-Serving path b bs this likewise.1 in
        rw (differs) (x, inr among, matching, named)
  ]

  Serves : String → String → String → RoutingTable Regex → Type 0
  Serves host path name t = Serving path name (backends_of host t)

  Serves-IsKept : (host path name : String) → IsKept re (Serves host path name)
  unfolding Serves notify_subscribers backends_of
  Serves-IsKept host path name j t t' same serves = serves
  Serves-IsKept host path name j t t' (added b for) (a, among, this, named) = (
    a,
    elim (Bool-cases (str_eq j host)) [
      | inl here ↦ rw (add_backend-backends_of re j host b t) (
          rw (here) (
            insert_backend-Among b a (backends_of j t)
              (subst (λ k. Among a (backends_of k t)) (sym ((eq_iff j host).0 here)) among)))
      | inr other ↦ rw (add_backend-backends_of re j host b t) (rw (other) among)
    ],
    this,
    named,
  )

  handle_supported-Serves :
      IsRegex re
      → (namespace host path : String) (s : Supported) (t : RoutingTable Regex)
      → IsPrefix s.path_prefix path
      → IsSound re t
      → (handle_supported re (some namespace) host s t).1 ≡ true
      → Serves host path
          (concat (concat s.service_name ".") namespace)
          (handle_supported re (some namespace) host s t).0
  unfolding Serves handle_supported notify_subscribers backends_of matches
  handle_supported-Serves law namespace host path s t begins sound alive =
      let name = concat (concat s.service_name ".") namespace in
      let port = s.service_port % 65536 in
      elim (Option-cases (with_prefix re host s.path_prefix name port)) [
        | inl bad ↦ let no : false ≡ true = rw (handle_supported, bad) at alive in cc
        | inr (b, good) ↦
            let (_, named, made) = with_prefix-made re host s.path_prefix name port b good in
            let this = (law.match_iff s.path_prefix path b.path_regex made).1 begins in
            let for = with_prefix-IsFor re host s.path_prefix name port b good in
            let itself : str_eq host host ≡ true = beq_refl host in
            rw (handle_supported, good)
              (rw (add_backend-backends_of re host host b t) (
                rw itself (
                  subst (λ n. Serving path n (insert_backend re b (backends_of host t))) named
                    (insert_backend-Serving path b (backends_of host t) this
                      (same_backend-matches re law host path b t for sound this)))))
      ]

  -- After an ingress resource with a namespace was handled without a panic, take any supported path
  -- of one of its rules, and any request for that rule's host that begins with its prefix, also when
  -- other prefixes fit it better. Then some order of the set of the host's backends sends the request
  -- to that path's service: there is a routing table with the same set, in some order, of which
  -- `get_backend` answers its name, if every backend of the table before was made for the host it
  -- stands under, from a prefix, and `regex` is as relied on.
  pub handle_ingress-any_prefix :
      IsRegex re
      → (namespace host path : String) (r : IngressResource) (rules : List IngressRule)
        (rule : IngressRule) (paths : List IngressPath) (p : IngressPath) (s : Supported)
        (t : RoutingTable Regex)
      → IsSound re t
      → r.namespace ≡ some namespace
      → r.spec ≡ some (some rules)
      → Among rule rules
      → rule.host ≡ some host
      → rule.http ≡ some paths
      → Among p paths
      → supported p ≡ some s
      → IsPrefix s.path_prefix path
      → (handle_ingress re r t).1 ≡ true
      → ∥ (
          (t' : RoutingTable Regex) × (set_of (backends_of host t')
            ≡ set_of (backends_of host (handle_ingress re r t).0))
          × (get_backend re host path t' ≡ inr (concat (concat s.service_name ".") namespace))) ∥₁
  unfolding Serves
  handle_ingress-any_prefix law namespace host path r rules rule paths p s t sound in_ns spec
        in_rules named given among found begins alive =
      let name = concat (concat s.service_name ".") namespace in
      (get_backend-MayAnswer re host path name (handle_ingress re r t).0).0
        ∣ handle_ingress-reaches re (Serves host path name) (Serves-IsKept host path name)
          (some namespace) host s
          (λ t' sound' on. handle_supported-Serves law namespace host path s t' begins sound' on) r
          rules rule paths p t sound in_ns spec in_rules named given among found alive ∣₁
