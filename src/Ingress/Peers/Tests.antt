-- ===== src/Ingress/Peers/Tests.antt =====
-- A watch that reports three pods, one of them the own, and one whose address does not come.
use drawbridge_ingress.Prelude.{
  ℕ, ◌≡◌, refl, false, Option, none, some, List, [], ◌∷◌, All, Among, if◌then◌else◌,
}
use drawbridge_ingress.Prelude.Maps.{String, str_eq}
use drawbridge_ingress.Prelude.Action.{◌>>=◌}
use drawbridge_ingress.Ingress.Peers.{
  WatchEvent, added, deleted, other, PodApi, Watching, watch_pods, dials,
}
use drawbridge_ingress.Ingress.Peers.Dialing.{watch_pods-dials}

abbrev pods : PodApi ℕ
pods = record {
  get = λ name w.
      (some (record { status = some (if str_eq name "lost" then none else some "10.0.0.1") }), w);
  retry = λ try w. try w;
}

abbrev events : List (Option WatchEvent)
events =
    some (added (some "own"))
    ∷ some (added (some "lost"))
    ∷ some other
    ∷ some (added (some "two"))
    ∷ some (deleted (some "two"))
    ∷ none
    ∷ []

abbrev before : Watching String ℕ
before = record {
  table = record { subscribers = 1 ∷ []; calls = []; backends_by_host = [] };
  world = 0;
}

dials_run : dials "own" (watch_pods pods events before).1.table.calls ≡ ("10.0.0.1", "two") ∷ []
unfolding dials watch_pods ◌>>=◌
dials_run = refl

watch_pods-dials_example :
    All
      (λ peer. Among (some (added (some peer.1))) events × (str_eq peer.1 "own" ≡ false))
      (dials "own" (watch_pods pods events before).1.table.calls)
watch_pods-dials_example = watch_pods-dials pods events "own" before refl
