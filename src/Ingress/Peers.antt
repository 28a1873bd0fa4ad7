-- ===== src/Ingress/Peers.antt =====
-- The watch over the pods of the ingress (drawbridge_ingress/src/kube_config_tracker.rs) and the
-- subscriber of drawbridge_ingress/src/main.rs that connects to them. The pods of Kubernetes and the
-- retries of `tokio_retry` are parameters.
pub mod Dialing
mod Tests
use drawbridge_ingress.Prelude.{ℕ, Option, none, some, List, [], ◌∷◌, if◌then◌else◌}
use drawbridge_ingress.Prelude.Maps.{String, str_eq}
use drawbridge_ingress.Prelude.Action.{Outcome, ok, panic, Action, pure, ◌>>=◌, ◌>>◌}
use drawbridge_ingress.Ingress.Error.{IngressLoadBalancerError}
use drawbridge_ingress.Ingress.Routing.{
  ChangeType, backend_changed, peer_added, peer_removed, RoutingTable, notify_subscribers,
}

-- What is read of a pod; an event of the watch carries the pod's name, if it has one.
pub record Pod : Type 0 where
  pub status : Option (Option String)

pub data WatchEvent : Type 0 where
  added deleted : (name : Option String) → WatchEvent
  other : WatchEvent

-- `get` of a pod, and how often it is tried again.
pub record PodApi (W : Type 0) : Type 0 where
  pub get : String → W → Option Pod × W
  pub retry : (W → Option String × W) → W → Option String × W

-- The routing table, with the world outside.
pub record Watching (Regex W : Type 0) : Type 0 where
  pub table : RoutingTable Regex
  pub world : W

unfoldable pub pod_ip : Option Pod → Option String
pod_ip none = none
pod_ip (some pod) = elim pod.status [ none ↦ none | some ip ↦ ip ]

module _ {W : Type 0} (pods : PodApi W) where
  unfoldable pub get_pod_ip : String → W → Option String × W
  unfolding pod_ip
  get_pod_ip name = pods.retry λ w. let (pod, w') = pods.get name w in (pod_ip pod, w')

module _ {Regex W : Type 0} (pods : PodApi W) where
  unfoldable pub notify : ChangeType → Action (Watching Regex W) IngressLoadBalancerError (Unit {0})
  unfolding notify_subscribers
  notify change s = (ok tt, record s { table = notify_subscribers change s.table })

  -- A pod whose address does not come is passed over.
  unfoldable pub add_pod : String → Action (Watching Regex W) IngressLoadBalancerError (Unit {0})
  unfolding get_pod_ip notify
  add_pod name s =
      let (r, w) = get_pod_ip pods name s.world in
      let s' = record s { world = w } in
      elim r [ none ↦ (ok tt, s') | some addr ↦ notify (peer_added addr name) s' ]

  unfoldable pub handle_event :
      WatchEvent → Action (Watching Regex W) IngressLoadBalancerError (Unit {0})
  unfolding add_pod notify
  handle_event (added none) = λ s. (panic, s)
  handle_event (added (some name)) = add_pod name
  handle_event (deleted none) = λ s. (panic, s)
  handle_event (deleted (some name)) = notify (peer_removed name)
  handle_event other = pure tt

  -- The watch over what its stream brings: events, or an error, at which it panics.
  unfoldable pub watch_pods :
      List (Option WatchEvent) → Action (Watching Regex W) IngressLoadBalancerError (Unit {0})
  unfolding handle_event
  watch_pods [] = pure tt
  watch_pods (none ∷ events) = λ s. (panic, s)
  watch_pods (some event ∷ events) = handle_event event >> watch_pods events

-- What the subscriber does with a change, where `current` is the name of its own pod.
pub data Duty : Type 0 where
  handle_change : Duty
  add_peer : (addr name : String) → Duty
  nothing : Duty

unfoldable pub duty_of : (current : String) → ChangeType → Duty
duty_of current backend_changed = handle_change
duty_of current (peer_added addr name) = if str_eq name current then nothing else add_peer addr name
duty_of current (peer_removed name) = nothing

-- The peers that it dials, with their addresses, of the calls of a subscriber.
unfoldable pub dials : (current : String) → List (ℕ × ChangeType) → List (String × String)
unfolding duty_of
dials current [] = []
dials current ((id, change) ∷ calls) =
    let rest = dials current calls in
    elim (duty_of current change) [
      | handle_change ↦ rest
      | add_peer addr name ↦ (addr, name) ∷ rest
      | nothing ↦ rest
    ]
