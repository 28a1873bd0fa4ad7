-- ===== src/Ingress/Routing/Steps.antt =====
-- What handling an ingress resource does to the routing table, one backend at a time
-- (drawbridge_ingress/src/kube_config_tracker.rs).
use Prim.Native.String.{◌++◌ as concat}
use drawbridge_ingress.Prelude.{
  ◌%◌, Option, none, some, List, [], ◌∷◌, inl, inr, Bool-cases, Option-cases,
}
use drawbridge_ingress.Prelude.Maps.{String}
use drawbridge_ingress.Ingress.Routing.{
  backend_changed, RegexApi, Backend, RoutingTable, IngressPath, IngressRule, IngressResource,
  Supported, supported, with_prefix, add_backend, backends_of, notify_subscribers, handle_supported,
  handle_path, handle_paths, handle_rule, handle_rules, handle_ingress,
}
use drawbridge_ingress.Ingress.Routing.Table.{
  IsFor, IsSound, with_prefix-IsFor, add_backend-IsSound, Has, add_backend-keeps,
}

module _ {Regex : Type 0} (re : RegexApi Regex) where
  -- What handling a path does to the table: nothing, or one backend comes in.
  pub data Step (host : String) (t : RoutingTable Regex) : RoutingTable Regex → Type 0 where
    same : Step host t t
    added :
        (b : Backend Regex)
        → IsFor re host b
        → Step host t (notify_subscribers backend_changed (add_backend re host b t))

  handle_supported-Step :
      (ns : Option String) (host : String) (s : Supported) (t : RoutingTable Regex)
      → Step host t (handle_supported re ns host s t).0
  unfolding handle_supported
  handle_supported-Step none host s t = same
  handle_supported-Step (some namespace) host s t =
      let name = concat (concat s.service_name ".") namespace in
      let port = s.service_port % 65536 in
      elim (Option-cases (with_prefix re host s.path_prefix name port)) [
        | inl bad ↦ rw (handle_supported, bad) same
        | inr (b, good) ↦
            rw (handle_supported, good)
              (added b (with_prefix-IsFor re host s.path_prefix name port b good))
      ]

  pub handle_path-Step :
      (ns : Option String) (host : String) (p : IngressPath) (t : RoutingTable Regex)
      → Step host t (handle_path re ns host p t).0
  unfolding handle_path
  handle_path-Step ns host p t = elim (Option-cases (supported p)) [
    | inl passed ↦ rw (handle_path, passed) same
    | inr (s, found) ↦ rw (handle_path, found) (handle_supported-Step ns host s t)
  ]

  -- A property of tables that one backend more keeps.
  abbrev pub IsKept : (RoutingTable Regex → Type 0) → Type 0
  IsKept P = (host : String) (t t' : RoutingTable Regex) → Step host t t' → P t → P t'

  pub handle_paths-keeps :
      (P : RoutingTable Regex → Type 0)
      → IsKept P
      → (ns : Option String) (host : String) (ps : List IngressPath) (t : RoutingTable Regex) → P t
      → P (handle_paths re ns host ps t).0
  unfolding handle_paths
  handle_paths-keeps P kept ns host [] t pt = pt
  handle_paths-keeps P kept ns host (p ∷ ps) t pt =
      let t' = (handle_path re ns host p t).0 in
      let pt' = kept host t t' (handle_path-Step ns host p t) pt in
      elim (Bool-cases (handle_path re ns host p t).1) [
        | inl alive ↦ rw alive (handle_paths-keeps P kept ns host ps t' pt')
        | inr dead ↦ rw dead pt'
      ]

  pub handle_rule-keeps :
      (P : RoutingTable Regex → Type 0)
      → IsKept P
      → (ns : Option String) (rule : IngressRule) (t : RoutingTable Regex) → P t
      → P (handle_rule re ns rule t).0
  unfolding handle_rule
  handle_rule-keeps P kept ns rule t pt = elim (Option-cases rule.host) [
    | inl no_host ↦ rw (handle_rule, no_host) pt
    | inr (host, named) ↦ elim (Option-cases rule.http) [
      | inl no_http ↦ rw (handle_rule, named, no_http) pt
      | inr (paths, given) ↦
          rw (handle_rule, named, given) (handle_paths-keeps P kept ns host paths t pt)
    ]
  ]

  pub handle_rules-keeps :
      (P : RoutingTable Regex → Type 0)
      → IsKept P
      → (ns : Option String) (rules : List IngressRule) (t : RoutingTable Regex) → P t
      → P (handle_rules re ns rules t).0
  unfolding handle_rules
  handle_rules-keeps P kept ns [] t pt = pt
  handle_rules-keeps P kept ns (rule ∷ rules) t pt =
      let t' = (handle_rule re ns rule t).0 in
      let pt' = handle_rule-keeps P kept ns rule t pt in
      elim (Bool-cases (handle_rule re ns rule t).1) [
        | inl alive ↦ rw alive (handle_rules-keeps P kept ns rules t' pt')
        | inr dead ↦ rw dead pt'
      ]

  pub handle_ingress-keeps :
      (P : RoutingTable Regex → Type 0)
      → IsKept P
      → (r : IngressResource) (t : RoutingTable Regex) → P t
      → P (handle_ingress re r t).0
  unfolding handle_ingress
  handle_ingress-keeps P kept r t pt = elim (Option-cases r.spec) [
    | inl no_spec ↦ rw (handle_ingress, no_spec) pt
    | inr (rules_of, spec) ↦ elim (Option-cases rules_of) [
      | inl no_rules ↦ rw (handle_ingress, spec, no_rules) pt
      | inr (rules, given) ↦
          rw (handle_ingress, spec, given) (handle_rules-keeps P kept r.namespace rules t pt)
    ]
  ]

  pub IsSound-IsKept : IsKept (IsSound re)
  unfolding notify_subscribers
  IsSound-IsKept host t t' same sound = sound
  IsSound-IsKept host t t' (added b for) sound = add_backend-IsSound re host b t for sound

  abbrev pub IsRouted : String → String → RoutingTable Regex → Type 0
  IsRouted host path t = Has re path (backends_of host t)

  pub IsRouted-IsKept : (host path : String) → IsKept (IsRouted host path)
  unfolding notify_subscribers backends_of
  IsRouted-IsKept host path j t t' same routed = routed
  IsRouted-IsKept host path j t t' (added b for) routed =
      add_backend-keeps re j host path b t routed
