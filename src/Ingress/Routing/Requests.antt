-- ===== src/Ingress/Routing/Requests.antt =====
-- Which requests are routed after ingress resources were handled, and where to
-- (drawbridge_ingress/src/kube_config_tracker.rs).
use Prim.Native.String.{◌++◌ as concat}
use text.Mathlib.TextBridge.{IsPrefix}
use drawbridge_ingress.Prelude.{
  ◌≡◌, refl, ◌%◌, true, false, Option, none, some, List, [], ◌∷◌, inl, inr, All, Among, Bool-cases,
  Option-cases,
}
use drawbridge_ingress.Prelude.Maps.{String}
use drawbridge_ingress.Ingress.Routing.{
  RegexApi, Backend, RoutingTable, IngressPath, IngressRule, IngressResource, Supported, supported,
  with_prefix, matches, backends_of, notify_subscribers, handle_supported, handle_ingress,
  handle_all, new, first_match, get_backend,
}
use drawbridge_ingress.Ingress.Routing.Table.{
  IsRegex, IsFor, IsSound, with_prefix-made, with_prefix-IsFor, get_backend-Has, Has-get_backend,
  add_backend-routes, backends_of-IsFor,
}
use drawbridge_ingress.Ingress.Routing.Reaches.{handle_ingress-reaches}
use drawbridge_ingress.Ingress.Routing.Steps.{
  handle_ingress-keeps, IsSound-IsKept, IsRouted, IsRouted-IsKept,
}

module _ {Regex : Type 0} (re : RegexApi Regex) where
  handle_supported-routes :
      IsRegex re
      → (ns : Option String) (host path : String) (s : Supported) (t : RoutingTable Regex)
      → IsSound re t
      → IsPrefix s.path_prefix path
      → (handle_supported re ns host s t).1 ≡ true
      → IsRouted re host path (handle_supported re ns host s t).0
  unfolding handle_supported notify_subscribers backends_of matches
  handle_supported-routes law none host path s t sound begins alive = cc
  handle_supported-routes law (some namespace) host path s t sound begins alive =
      let name = concat (concat s.service_name ".") namespace in
      let port = s.service_port % 65536 in
      elim (Option-cases (with_prefix re host s.path_prefix name port)) [
        | inl bad ↦ let no : false ≡ true = rw (handle_supported, bad) at alive in cc
        | inr (b, good) ↦
            let this =
              (law.match_iff s.path_prefix path b.path_regex
                  (with_prefix-made re host s.path_prefix name port b good).2).1
                begins in
            rw (handle_supported, good)
              (add_backend-routes re law host path b t
                (with_prefix-IsFor re host s.path_prefix name port b good) sound this)
      ]

  -- After an ingress resource was handled without a panic, every request that begins with a prefix
  -- of a supported path of one of its rules, for that rule's host, has a backend, if every backend
  -- of the table before was made for the host it stands under, from a prefix, and `regex` is as
  -- relied on.
  pub handle_ingress-routes :
      IsRegex re
      → (host path : String) (r : IngressResource) (rules : List IngressRule) (rule : IngressRule)
        (paths : List IngressPath) (p : IngressPath) (s : Supported) (t : RoutingTable Regex)
      → IsSound re t
      → r.spec ≡ some (some rules)
      → Among rule rules
      → rule.host ≡ some host
      → rule.http ≡ some paths
      → Among p paths
      → supported p ≡ some s
      → IsPrefix s.path_prefix path
      → (handle_ingress re r t).1 ≡ true
      → (name : String) × (get_backend re host path (handle_ingress re r t).0 ≡ inr name)
  handle_ingress-routes law host path r rules rule paths p s t sound spec in_rules named given among
        found begins alive =
      let (name, has) =
        handle_ingress-reaches re (IsRouted re host path) (IsRouted-IsKept re host path) r.namespace
          host s
          (λ t' sound' on. handle_supported-routes law r.namespace host path s t' sound' begins on)
          r rules rule paths p t sound refl spec in_rules named given among found alive in
      (name, Has-get_backend re host path (handle_ingress re r t).0 name has)

  -- A request that has a backend still has one after any further ingress resource, panic or not.
  pub handle_ingress-keeps_routes :
      (host path name : String) (r : IngressResource) (t : RoutingTable Regex)
      → get_backend re host path t ≡ inr name
      → (later : String) × (get_backend re host path (handle_ingress re r t).0 ≡ inr later)
  handle_ingress-keeps_routes host path name r t routed =
      let (later, has) =
        handle_ingress-keeps re (IsRouted re host path) (IsRouted-IsKept re host path) r t
          (name, get_backend-Has re host path t name routed) in
      (later, Has-get_backend re host path (handle_ingress re r t).0 later has)

  handle_all-IsSound :
      (rs : List IngressResource) (t : RoutingTable Regex)
      → IsSound re t
      → IsSound re (handle_all re rs t)
  unfolding handle_all
  handle_all-IsSound [] t sound = sound
  handle_all-IsSound (r ∷ rs) t sound =
      handle_all-IsSound rs (handle_ingress re r t).0
        (handle_ingress-keeps re (IsSound re) (IsSound-IsKept re) r t sound)

  pub new-IsSound : IsSound re new
  unfolding new
  new-IsSound = tt

  found_in :
      (P : Backend Regex → Type 0) (path name : String) (bs : List (Backend Regex))
      → All P bs
      → first_match re path bs ≡ some name
      → (b : Backend Regex) × P b
        × Among b bs
        × (matches re b path ≡ true)
        × (b.service_name ≡ name)
  unfolding first_match
  found_in P path name [] h found = cc
  found_in P path name (b ∷ bs) h found = elim (Bool-cases (matches re b path)) [
    | inl this ↦
        let e : some b.service_name ≡ some name = rw this at found in (b, h.0, inl refl, this, cc)
    | inr other ↦
        let (x, px, among, this, named) = found_in P path name bs h.1 (rw other at found) in
        (x, px, inr among, this, named)
  ]

-- Whatever ingress resources the watch brought, a request is sent only to the service of a backend
-- that stands in the set of the request's host, was made for that host, and was made of a prefix
-- that the request's path begins with, if `regex` is as relied on.
pub get_backend-IsPrefix :
    {Regex : Type 0} (re : RegexApi Regex)
    → IsRegex re
    → (host path name : String) (rs : List IngressResource)
    → get_backend re host path (handle_all re rs new) ≡ inr name
    → (b : Backend Regex) × Among b (backends_of host (handle_all re rs new))
      × (b.host ≡ host)
      × (b.service_name ≡ name)
      × ((p : String) × (re.new (concat "^" (re.escape p)) ≡ some b.path_regex) × IsPrefix p path)
unfolding matches
get_backend-IsPrefix re law host path name rs routed =
    let t = handle_all re rs new in
    let sound = handle_all-IsSound re rs new (new-IsSound re) in
    let (b, for, among, this, named) =
      found_in re (IsFor re host) path name (backends_of host t) (backends_of-IsFor re host t sound)
        (get_backend-Has re host path t name routed) in
    let (hosted, (p, made)) = for in
    (b, among, hosted, named, (p, made, (law.match_iff p path b.path_regex made).0 this))
