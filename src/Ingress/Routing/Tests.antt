-- ===== src/Ingress/Routing/Tests.antt =====
-- Two paths of one host, of which one is a prefix of the other.
use mathlib.Core.List.{Permᴰ}
use mathlib.Core.Quot
use Prim.Native.String.{◌++◌ as concat}
use text.Mathlib.TextBridge.{IsPrefix}
use drawbridge_ingress.Prelude.{◌≡◌, ◌↔◌, refl, sym, ap, some, List, [], ◌∷◌, inl, inr, Among, true}
use drawbridge_ingress.Prelude.Maps.{String, lookup, string_eq}
use drawbridge_ingress.Ingress.Routing.{
  Backend, RoutingTable, IngressPath, IngressRule, IngressResource, supported, matches, backends_of,
  handle_ingress, get_backend, new,
}
use drawbridge_ingress.Ingress.Routing.Requests.{new-IsSound}
use drawbridge_ingress.Ingress.Routing.Order.{
  set_of, MayAnswer, get_backend-MayAnswer, get_backend-agrees,
}
use drawbridge_ingress.Ingress.Routing.Ambiguous.{handle_ingress-any_prefix}
use drawbridge_ingress.Ingress.Tests.{regex, regex-IsRegex, the_path}

abbrev every_path : IngressPath
every_path = record {
  path = some "/";
  path_type = some "Prefix";
  service = some (record { name = "front"; port = some (record { number = some 80 }) });
}

abbrev two_paths : List IngressPath
two_paths = the_path ∷ every_path ∷ []

abbrev two_rule : IngressRule
two_rule = record { host = some "a.com"; http = some two_paths }

abbrev two_resource : IngressResource
two_resource = record { namespace = some "web"; spec = some (some (two_rule ∷ [])) }

every_path-supported :
    supported every_path
    ≡ some (record { path_prefix = "/"; service_name = "front"; service_port = 80 })
unfolding supported
every_path-supported = refl

handled : (handle_ingress regex two_resource new).1 ≡ true
unfolding handle_ingress new
handled = refl

begins : IsPrefix "/" "/api/x"
begins = ("api/x", refl)

handle_ingress-any_prefix_example : ∥ (
    (t' : RoutingTable String) × (set_of (backends_of "a.com" t')
      ≡ set_of (backends_of "a.com" (handle_ingress regex two_resource new).0))
    × (get_backend regex "a.com" "/api/x" t' ≡ inr "front.web")) ∥₁
handle_ingress-any_prefix_example =
    handle_ingress-any_prefix regex regex-IsRegex "web" "a.com" "/api/x" two_resource
      (two_rule ∷ []) two_rule two_paths every_path
      (record { path_prefix = "/"; service_name = "front"; service_port = 80 }) new
      (new-IsSound regex) refl refl (inl refl) refl refl (inr (inl refl)) every_path-supported
      begins handled

get_backend-MayAnswer_example :
    MayAnswer regex "/api/x" "front.web"
      (set_of (backends_of "a.com" (handle_ingress regex two_resource new).0))
    ↔ ∥ (
        (t' : RoutingTable String) × (set_of (backends_of "a.com" t')
          ≡ set_of (backends_of "a.com" (handle_ingress regex two_resource new).0))
        × (get_backend regex "a.com" "/api/x" t' ≡ inr "front.web")) ∥₁
get_backend-MayAnswer_example =
    get_backend-MayAnswer regex "a.com" "/api/x" "front.web"
      (handle_ingress regex two_resource new).0

-- Two backends of one service, in both orders.
abbrev of_prefix : String → Backend String
of_prefix p = record {
  host = "a.com";
  path_regex = concat "^" p;
  service_name = "api.web";
  port = 80;
}

abbrev table_of : List (Backend String) → RoutingTable String
table_of bs = record { subscribers = []; calls = []; backends_by_host = ("a.com", bs) ∷ [] }

abbrev forth : List (Backend String)
forth = of_prefix "/" ∷ of_prefix "/api" ∷ []

abbrev back : List (Backend String)
back = of_prefix "/api" ∷ of_prefix "/" ∷ []

same_set :
    set_of (backends_of "a.com" (table_of forth)) ≡ set_of (backends_of "a.com" (table_of back))
unfolding backends_of lookup
same_set = Quot.sound (Permᴰ.swap refl refl)

alike :
    (b : Backend String)
    → Among b (backends_of "a.com" (table_of forth))
    → matches regex b "/api/x" ≡ true
    → b.service_name ≡ "api.web"
unfolding backends_of lookup
alike b among this = elim among [
  | inl first ↦ ap (λ x. x.service_name) (sym first)
  | inr later ↦ elim later [
    | inl second ↦ ap (λ x. x.service_name) (sym second)
    | inr none_ ↦ absurd none_
  ]
]

get_backend-agrees_example :
    get_backend regex "a.com" "/api/x" (table_of forth)
    ≡ get_backend regex "a.com" "/api/x" (table_of back)
get_backend-agrees_example =
    get_backend-agrees regex "a.com" "/api/x" "api.web" (table_of forth) (table_of back) same_set
      alike
