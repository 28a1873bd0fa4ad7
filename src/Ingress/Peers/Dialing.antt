-- ===== src/Ingress/Peers/Dialing.antt =====
-- Whom an ingress dials (drawbridge_ingress/src/kube_config_tracker.rs and main.rs).
use mathlib.Core.Path.{subst}
use drawbridge_ingress.Prelude.{
  ℕ, ◌≡◌, refl, sym, false, Option, none, some, List, [], ◌∷◌, inl, inr, All, All-append, All-mono,
  Among, Bool-cases, Option-cases,
}
use drawbridge_ingress.Prelude.Maps.{String, str_eq}
use drawbridge_ingress.Prelude.Action.{Keeps, pure-Keeps, >>=-Keeps}
use drawbridge_ingress.Ingress.Routing.{
  ChangeType, backend_changed, peer_added, peer_removed, call_each,
}
use drawbridge_ingress.Ingress.Peers.{
  WatchEvent, added, deleted, other, PodApi, Watching, get_pod_ip, notify, add_pod, handle_event,
  watch_pods, dials,
}

-- A change that a watch over the events may tell of.
abbrev pub Told : List (Option WatchEvent) → ℕ × ChangeType → Type 0
Told events (id, backend_changed) = Unit
Told events (id, peer_added addr name) = Among (some (added (some name))) events
Told events (id, peer_removed name) = Among (some (deleted (some name))) events

call_each-Told :
    (events : List (Option WatchEvent)) (change : ChangeType) (ids : List ℕ)
    → ((id : ℕ) → Told events (id, change))
    → All (Told events) (call_each change ids)
unfolding call_each
call_each-Told events change [] told = tt
call_each-Told events change (id ∷ ids) told = (told id, call_each-Told events change ids told)

module _ {Regex W : Type 0} (pods : PodApi W) (events : List (Option WatchEvent)) where
  AllTold : Watching Regex W → Type 0
  AllTold s = All (Told events) s.table.calls

  notify-Keeps :
      (change : ChangeType)
      → ((id : ℕ) → Told events (id, change))
      → Keeps AllTold (notify {Regex = Regex} pods change)
  unfolding notify AllTold
  notify-Keeps change told = record {
    at_world = λ s all.
        All-append (Told events) s.table.calls (call_each change s.table.subscribers) all
          (call_each-Told events change s.table.subscribers told);
  }

  add_pod-Keeps :
      (name : String)
      → Among (some (added (some name))) events
      → Keeps AllTold (add_pod {Regex = Regex} pods name)
  unfolding add_pod AllTold
  add_pod-Keeps name told = record {
    at_world = λ s all. elim (Option-cases (get_pod_ip pods name s.world).0) [
      | inl missing ↦ rw (add_pod, missing) all
      | inr (addr, came) ↦
          rw (add_pod, came)
            ((notify-Keeps (peer_added addr name) (λ id. told)).at_world
              (record s { world = (get_pod_ip pods name s.world).1 }) all)
    ];
  }

  handle_event-Keeps :
      (event : WatchEvent)
      → Among (some event) events
      → Keeps AllTold (handle_event {Regex = Regex} pods event)
  unfolding handle_event
  handle_event-Keeps (added none) told = record { at_world = λ s all. all }
  handle_event-Keeps (added (some name)) told = add_pod-Keeps name told
  handle_event-Keeps (deleted none) told = record { at_world = λ s all. all }
  handle_event-Keeps (deleted (some name)) told = notify-Keeps (peer_removed name) (λ id. told)
  handle_event-Keeps other told = pure-Keeps tt

  watch_pods-Keeps :
      (es : List (Option WatchEvent))
      → All (λ e. Among e events) es
      → Keeps AllTold (watch_pods {Regex = Regex} pods es)
  unfolding watch_pods
  watch_pods-Keeps [] told = pure-Keeps tt
  watch_pods-Keeps (none ∷ es) told = record { at_world = λ s all. all }
  watch_pods-Keeps (some event ∷ es) told =
      >>=-Keeps (handle_event-Keeps event told.0) λ _. watch_pods-Keeps es told.1

All-Among : {A : Type 0} (as' : List A) → All (λ a. Among a as') as'
All-Among [] = tt
All-Among (a ∷ as') = (
  inl refl,
  All-mono (λ b. Among b as') (λ b. Among b (a ∷ as')) (λ b at. inr at) as' (All-Among as'),
)

-- Told of by the watch as a pod that was added, and under another name than the own pod's.
abbrev pub IsOther : List (Option WatchEvent) → String → String × String → Type 0
IsOther events current (addr, name) =
    Among (some (added (some name))) events × (str_eq name current ≡ false)

dials-IsOther :
    (events : List (Option WatchEvent)) (current : String) (calls : List (ℕ × ChangeType))
    → All (Told events) calls
    → All (IsOther events current) (dials current calls)
unfolding dials
dials-IsOther events current [] told = tt
dials-IsOther events current ((id, backend_changed) ∷ calls) told =
    dials-IsOther events current calls told.1
dials-IsOther events current ((id, peer_removed name) ∷ calls) told =
    dials-IsOther events current calls told.1
dials-IsOther events current ((id, peer_added addr name) ∷ calls) told =
    let rest = dials-IsOther events current calls told.1 in
    elim (Bool-cases (str_eq name current)) [
      | inl own ↦
          let none_more : dials current ((id, peer_added addr name) ∷ calls) ≡ dials current calls =
            rw (dials, own) refl in
          subst (All (IsOther events current)) (sym none_more) rest
      | inr differs ↦
          let one_more : dials current ((id, peer_added addr name) ∷ calls)
              ≡ (addr, name) ∷ dials current calls =
            rw (dials, differs) refl in
          subst (All (IsOther events current)) (sym one_more) ((told.0, differs), rest)
    ]

-- Whatever the watch over pods brings, and however it ends: an ingress dials only pods that the
-- watch reported as added, and never the pod of its own name. At first nothing was told.
pub watch_pods-dials :
    {Regex W : Type 0} (pods : PodApi W) (events : List (Option WatchEvent)) (current : String)
    (s : Watching Regex W)
    → s.table.calls ≡ []
    → All
        (λ peer. Among (some (added (some peer.1))) events × (str_eq peer.1 current ≡ false))
        (dials current (watch_pods pods events s).1.table.calls)
unfolding AllTold
watch_pods-dials pods events current s none_yet =
    dials-IsOther events current (watch_pods pods events s).1.table.calls (
      (watch_pods-Keeps pods events events (All-Among events)).at_world s
        (subst (All (Told events)) (sym none_yet) tt))
