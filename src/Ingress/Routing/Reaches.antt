-- ===== src/Ingress/Routing/Reaches.antt =====
-- What one supported path brings about, the whole ingress resource brings about
-- (drawbridge_ingress/src/kube_config_tracker.rs).
use mathlib.Core.Path.{subst}
use drawbridge_ingress.Prelude.{
  ◌≡◌, refl, sym, true, false, Option, some, List, [], ◌∷◌, inl, inr, Among, Bool-cases,
}
use drawbridge_ingress.Prelude.Maps.{String}
use drawbridge_ingress.Ingress.Routing.{
  RegexApi, RoutingTable, IngressPath, IngressRule, IngressResource, Supported, supported,
  handle_supported, handle_path, handle_paths, handle_rule, handle_rules, handle_ingress,
}
use drawbridge_ingress.Ingress.Routing.Table.{IsSound}
use drawbridge_ingress.Ingress.Routing.Steps.{
  IsKept, handle_path-Step, handle_paths-keeps, handle_rule-keeps, handle_rules-keeps,
  IsSound-IsKept,
}

-- `P` is kept by one backend more, and the supported path `s` brings it about.
module _ {Regex : Type 0} (re : RegexApi Regex) (P : RoutingTable Regex → Type 0)
    (kept : IsKept re P) (ns : Option String) (host : String) (s : Supported)
    (here : (t : RoutingTable Regex)
      → IsSound re t
      → (handle_supported re ns host s t).1 ≡ true
      → P (handle_supported re ns host s t).0) where
  -- A path that was handled without a panic, and is not passed over, is routed from then on.
  handle_path-reaches :
      (p : IngressPath) (t : RoutingTable Regex)
      → IsSound re t
      → supported p ≡ some s
      → (handle_path re ns host p t).1 ≡ true
      → P (handle_path re ns host p t).0
  unfolding handle_path
  handle_path-reaches p t sound found alive =
      let e : handle_path re ns host p t ≡ handle_supported re ns host s t =
        rw (handle_path, found) refl in
      subst (λ r. P r.0) (sym e) (here t sound (rw e at alive))

  handle_paths-reaches :
      (ps : List IngressPath) (p : IngressPath) (t : RoutingTable Regex)
      → IsSound re t
      → Among p ps
      → supported p ≡ some s
      → (handle_paths re ns host ps t).1 ≡ true
      → P (handle_paths re ns host ps t).0
  unfolding handle_paths
  handle_paths-reaches [] p t sound among found alive = elim among [ ]
  handle_paths-reaches (q ∷ ps) p t sound among found alive =
      let t' = (handle_path re ns host q t).0 in
      let step = handle_path-Step re ns host q t in
      elim (Bool-cases (handle_path re ns host q t).1) [
        | inr dead ↦ let no : false ≡ true = rw dead at alive in cc
        | inl on ↦
            let alive' : (handle_paths re ns host ps t').1 ≡ true = rw on at alive in
            rw on (elim among [
              | inl this ↦
                  let routed =
                    handle_path-reaches q t sound
                      (subst (λ x. supported x ≡ some s) (sym this) found) on in
                  handle_paths-keeps re P kept ns host ps t' routed
              | inr later ↦
                  handle_paths-reaches ps p t' (IsSound-IsKept re host t t' step sound) later found
                    alive'
            ])
      ]

  handle_rule-reaches :
      (rule : IngressRule) (paths : List IngressPath) (p : IngressPath) (t : RoutingTable Regex)
      → IsSound re t
      → rule.host ≡ some host
      → rule.http ≡ some paths
      → Among p paths
      → supported p ≡ some s
      → (handle_rule re ns rule t).1 ≡ true
      → P (handle_rule re ns rule t).0
  unfolding handle_rule
  handle_rule-reaches rule paths p t sound named given among found alive =
      let e : handle_rule re ns rule t ≡ handle_paths re ns host paths t =
        rw (handle_rule, named, given) refl in
      subst (λ r. P r.0) (sym e) (handle_paths-reaches paths p t sound among found (rw e at alive))

  handle_rules-reaches :
      (rules : List IngressRule) (rule : IngressRule) (paths : List IngressPath) (p : IngressPath)
      (t : RoutingTable Regex)
      → IsSound re t
      → Among rule rules
      → rule.host ≡ some host
      → rule.http ≡ some paths
      → Among p paths
      → supported p ≡ some s
      → (handle_rules re ns rules t).1 ≡ true
      → P (handle_rules re ns rules t).0
  unfolding handle_rules
  handle_rules-reaches [] rule paths p t sound in_rules named given among found alive =
      elim in_rules [ ]
  handle_rules-reaches (q ∷ rules) rule paths p t sound in_rules named given among found alive =
      let t' = (handle_rule re ns q t).0 in
      elim (Bool-cases (handle_rule re ns q t).1) [
        | inr dead ↦ let no : false ≡ true = rw dead at alive in cc
        | inl on ↦
            let alive' : (handle_rules re ns rules t').1 ≡ true = rw on at alive in
            rw on (elim in_rules [
              | inl this ↦
                  let routed =
                    handle_rule-reaches q paths p t sound
                      (subst (λ x. x.host ≡ some host) (sym this) named)
                      (subst (λ x. x.http ≡ some paths) (sym this) given) among found on in
                  handle_rules-keeps re P kept ns rules t' routed
              | inr later ↦
                  handle_rules-reaches rules rule paths p t'
                    (handle_rule-keeps re (IsSound re) (IsSound-IsKept re) ns q t sound) later named
                    given among found alive'
            ])
      ]

  pub handle_ingress-reaches :
      (r : IngressResource) (rules : List IngressRule) (rule : IngressRule)
      (paths : List IngressPath) (p : IngressPath) (t : RoutingTable Regex)
      → IsSound re t
      → r.namespace ≡ ns
      → r.spec ≡ some (some rules)
      → Among rule rules
      → rule.host ≡ some host
      → rule.http ≡ some paths
      → Among p paths
      → supported p ≡ some s
      → (handle_ingress re r t).1 ≡ true
      → P (handle_ingress re r t).0
  unfolding handle_ingress
  handle_ingress-reaches r rules rule paths p t sound in_ns spec in_rules named given among found
        alive =
      let e : handle_ingress re r t ≡ handle_rules re ns rules t =
        rw (handle_ingress, spec, in_ns) refl in
      subst (λ x. P x.0) (sym e)
        (handle_rules-reaches rules rule paths p t sound in_rules named given among found
          (rw e at alive))
