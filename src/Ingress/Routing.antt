-- ===== src/Ingress/Routing.antt =====
-- drawbridge_ingress/src/kube_config_tracker.rs: the routing table, which the watched ingress
-- resources fill and the proxy reads. The crate `regex` is a parameter, and so are the resources,
-- whose records keep the fields that the code reads.
pub mod Table
pub mod Steps
pub mod Reaches
pub mod Requests
pub mod Order
pub mod Ambiguous
mod Tests
use Prim.Native.String.{◌++◌ as concat}
use drawbridge_ingress.Prelude.{
  ℕ, ◌%◌, Bool, true, false, ◌&&◌, Option, none, some, List, [], ◌∷◌, ◌++◌, ◌⊎◌, inl, inr, ◌==◌,
  if◌then◌else◌,
}
use drawbridge_ingress.Prelude.Maps.{String, lookup, insert, string_eq, str_eq}
use drawbridge_ingress.Ingress.Error.{Code, non_existent_host, IngressLoadBalancerError, general}

pub data ChangeType : Type 0 where
  backend_changed : ChangeType
  peer_added : (addr name : String) → ChangeType
  peer_removed : (name : String) → ChangeType

-- What the code calls of `regex`: `Regex::new` and `escape`, `as_str` and `is_match`.
pub record RegexApi (Regex : Type 0) : Type 0 where
  pub new : String → Option Regex
  pub escape : String → String
  pub as_str : Regex → String
  pub is_match : Regex → String → Bool

pub record Backend (Regex : Type 0) : Type 0 where
  pub host : String
  pub path_regex : Regex
  pub service_name : String
  pub port : ℕ

-- The subscribers are numbers; `calls` is which one was called with what.
pub record RoutingTable (Regex : Type 0) : Type 0 where
  pub subscribers : List ℕ
  pub calls : List (ℕ × ChangeType)
  pub backends_by_host : List (String × List (Backend Regex))

unfoldable pub new : {Regex : Type 0} → RoutingTable Regex
new = record { subscribers = []; calls = []; backends_by_host = [] }

-- An ingress resource. A port is the 32-bit pattern of its `i32`.
pub record ServicePort : Type 0 where
  pub number : Option ℕ

pub record Service : Type 0 where
  pub name : String
  pub port : Option ServicePort

pub record IngressPath : Type 0 where
  pub path : Option String
  pub path_type : Option String
  pub service : Option Service

pub record IngressRule : Type 0 where
  pub host : Option String
  pub http : Option (List IngressPath)

pub record IngressResource : Type 0 where
  pub namespace : Option String
  pub spec : Option (Option (List IngressRule))

-- The prefix, the service and its port, of a path that is not passed over.
pub record Supported : Type 0 where
  pub path_prefix : String
  pub service_name : String
  pub service_port : ℕ

unfoldable pub supported_service : String → String → Service → Option Supported
supported_service prefix path_type s = elim s.port [
  | none ↦ none
  | some port ↦ elim port.number [
    | none ↦ none
    | some number ↦
        if str_eq path_type "Prefix"
        then some (record { path_prefix = prefix; service_name = s.name; service_port = number })
        else none
  ]
]

unfoldable pub supported_parts : Option String → Option String → Option Service → Option Supported
unfolding supported_service
supported_parts (some prefix) (some path_type) (some s) = supported_service prefix path_type s
supported_parts (some prefix) (some path_type) none = none
supported_parts (some prefix) none s = none
supported_parts none path_type s = none

unfoldable pub supported : IngressPath → Option Supported
unfolding supported_parts
supported p = supported_parts p.path p.path_type p.service

-- Every subscriber is called, in the order of their subscription.
unfoldable pub call_each : ChangeType → List ℕ → List (ℕ × ChangeType)
call_each change [] = []
call_each change (id ∷ ids) = (id, change) ∷ call_each change ids

module _ {Regex : Type 0} where
  -- `subscribe`
  unfoldable pub subscribe : ℕ → RoutingTable Regex → RoutingTable Regex
  subscribe id t = record t { subscribers = t.subscribers ++ id ∷ [] }

  unfoldable pub notify_subscribers : ChangeType → RoutingTable Regex → RoutingTable Regex
  unfolding call_each
  notify_subscribers change t = record t { calls = t.calls ++ call_each change t.subscribers }

module _ {Regex : Type 0} where
  abbrev pub or_empty : Option (List (Backend Regex)) → List (Backend Regex)
  or_empty none = []
  or_empty (some bs) = bs

  -- The backends of a host, none if the host is not there.
  unfoldable pub backends_of : String → RoutingTable Regex → List (Backend Regex)
  backends_of host t = or_empty (lookup host t.backends_by_host)

module _ {Regex : Type 0} (re : RegexApi Regex) where
  unfoldable pub with_prefix : String → String → String → ℕ → Option (Backend Regex)
  with_prefix host path_prefix service_name port =
      elim (re.new (concat "^" (re.escape path_prefix))) [
        | none ↦ none
        | some path_regex ↦ some (record {
          host = host;
          path_regex = path_regex;
          service_name = service_name;
          port = port;
        })
      ]

  unfoldable pub matches : Backend Regex → String → Bool
  matches b path = re.is_match b.path_regex path

  -- The derived equality of backends, with that of `RegexWrapper`.
  unfoldable pub same_backend : Backend Regex → Backend Regex → Bool
  same_backend a b =
      str_eq a.host b.host
      && str_eq (re.as_str a.path_regex) (re.as_str b.path_regex)
      && str_eq a.service_name b.service_name
      && (a.port == b.port)

  -- `HashSet::insert`: a backend that equals one of the set is dropped.
  unfoldable pub insert_backend : Backend Regex → List (Backend Regex) → List (Backend Regex)
  unfolding same_backend
  insert_backend b [] = b ∷ []
  insert_backend b (a ∷ bs) =
      let rest = insert_backend b bs in if same_backend a b then a ∷ bs else a ∷ rest

  -- The set is made if there is none.
  unfoldable pub add_backend : String → Backend Regex → RoutingTable Regex → RoutingTable Regex
  unfolding insert_backend backends_of
  add_backend host b t = record t {
    backends_by_host = insert host (insert_backend b (backends_of host t)) t.backends_by_host;
  }

  -- Whether it went through is returned too: an `unwrap` or `expect` that panics ends the task, and
  -- the table stays as it is then.
  unfoldable pub handle_supported :
      Option String → String → Supported → RoutingTable Regex → RoutingTable Regex × Bool
  unfolding with_prefix add_backend notify_subscribers
  handle_supported none host s t = (t, false)
  handle_supported (some namespace) host s t =
      elim (with_prefix host s.path_prefix (concat (concat s.service_name ".") namespace)
        (s.service_port % 65536)) [
          | none ↦ (t, false)
          | some b ↦ (notify_subscribers backend_changed (add_backend host b t), true)
        ]

  unfoldable pub handle_path :
      Option String → String → IngressPath → RoutingTable Regex → RoutingTable Regex × Bool
  unfolding supported handle_supported
  handle_path namespace host p t = elim (supported p) [
    | none ↦ (t, true)
    | some s ↦ handle_supported namespace host s t
  ]

  unfoldable pub handle_paths :
      Option String → String → List IngressPath → RoutingTable Regex → RoutingTable Regex × Bool
  unfolding handle_path
  handle_paths namespace host [] t = (t, true)
  handle_paths namespace host (p ∷ ps) t =
      let (t', alive) = handle_path namespace host p t in
      let rest = handle_paths namespace host ps t' in if alive then rest else (t', false)

  unfoldable pub handle_rule :
      Option String → IngressRule → RoutingTable Regex → RoutingTable Regex × Bool
  unfolding handle_paths
  handle_rule namespace rule t = elim rule.host [
    | none ↦ (t, true)
    | some host ↦ elim rule.http [
      | none ↦ (t, true)
      | some paths ↦ handle_paths namespace host paths t
    ]
  ]

  unfoldable pub handle_rules :
      Option String → List IngressRule → RoutingTable Regex → RoutingTable Regex × Bool
  unfolding handle_rule
  handle_rules namespace [] t = (t, true)
  handle_rules namespace (rule ∷ rules) t =
      let (t', alive) = handle_rule namespace rule t in
      let rest = handle_rules namespace rules t' in if alive then rest else (t', false)

  -- The body of the watch over ingress resources.
  unfoldable pub handle_ingress : IngressResource → RoutingTable Regex → RoutingTable Regex × Bool
  unfolding handle_rules
  handle_ingress r t = elim r.spec [
    | none ↦ (t, true)
    | some rules_of ↦ elim rules_of [
      | none ↦ (t, true)
      | some rules ↦ handle_rules r.namespace rules t
    ]
  ]

  -- The resources that the watch brings, in turn.
  unfoldable pub handle_all : List IngressResource → RoutingTable Regex → RoutingTable Regex
  unfolding handle_ingress
  handle_all [] t = t
  handle_all (r ∷ rs) t = handle_all rs (handle_ingress r t).0

  unfoldable pub first_match : String → List (Backend Regex) → Option String
  unfolding matches
  first_match path [] = none
  first_match path (b ∷ bs) =
      let rest = first_match path bs in if matches b path then some b.service_name else rest

  unfoldable pub get_backend :
      String → String → RoutingTable Regex → IngressLoadBalancerError ⊎ String
  unfolding first_match backends_of
  get_backend host path t = elim (first_match path (backends_of host t)) [
    | none ↦ inl (general non_existent_host (concat "No backend found for host: " host))
    | some name ↦ inr name
  ]
