-- ===== src/Congress/Cluster/Tests.antt =====
-- Runs of small clusters, and the theorems of the election at what they reach.
use drawbridge_ingress.Prelude.{ℕ, ◌+◌, ◌*◌, ◌≡◌, refl, [], ◌∷◌, arith}
use drawbridge_ingress.Congress.Types.{Env, leader, leader_heartbeat, Message}
use drawbridge_ingress.Congress.Task.{Node, leader_wait}
use drawbridge_ingress.Congress.Senator.{new}
use drawbridge_ingress.Congress.Run.{step}
use drawbridge_ingress.Congress.Cluster.{
  Sees, NoLeader, Cluster, put, init, tasks, sent, spawned_message, act, expire, deliver, flush,
  Reach, here, next,
}
use drawbridge_ingress.Congress.Cluster.Safety.{Steps, now, more, election_safety}

-- Node `i` of two, at time `t`.
abbrev at_time : ℕ → ℕ → Env
at_time t peer = record { now = t; draw = 500; members = peer ∷ [] }

-- Node 0 times out, asks node 1 for its vote, and wins the election of term 1.
record Run (Msg : Type 0) : Type 0 where
  steps : ℕ
  last : Cluster Msg
  reach : Reach {Msg = Msg} 2 (Sees 2) NoLeader (λ i. i * 1000) (λ i. at_time 0 0) steps last

abbrev elected : {Msg : Type 0} → Run Msg
unfolding step init put tasks sent spawned_message
elected = record {
  steps = 12;
  last = _;
  reach =
      next
        (next
          (next
            (next
              (next
                (next
                  (next
                    (next
                      (next
                        (next
                          (next (next here (act 0 (at_time 1 1) (omega arith) (omega arith) refl))
                            (act 0 (at_time 1 1) (omega arith) (omega arith) refl))
                          (expire 0 (at_time 600 1) (omega arith) (omega arith) refl))
                        (act 0 (at_time 600 1) (omega arith) (omega arith) refl))
                      (act 0 (at_time 600 1) (omega arith) (omega arith) refl))
                    (flush _ [] [] refl))
                  (act 0 (at_time 600 1) (omega arith) (omega arith) refl))
                (act 1 (at_time 601 0) (omega arith) (omega arith) refl))
              (act 1 (at_time 601 0) (omega arith) (omega arith) refl))
            (deliver 1 (at_time 602 0) _ [] [] (omega arith) (omega arith) refl refl refl))
          (deliver 0 (at_time 603 1) _ [] [] (omega arith) (omega arith) refl refl refl))
        (act 0 (at_time 604 1) (omega arith) (omega arith) refl);
}

elected_term : ◌≡◌ {A = ℕ} ((elected {Msg = ℕ}).last.node 0).term 1
unfolding step init put tasks sent spawned_message
elected_term = refl

-- The winner of the election runs on: it sends its heartbeats.
record Later (Msg : Type 0) : Type 0 where
  last : Cluster Msg
  steps : Steps 2 12 (elected {Msg = Msg}).last 13 last

abbrev later : {Msg : Type 0} → Later Msg
unfolding step init put tasks sent spawned_message
later = record {
  last = _;
  steps = more now (act 0 (at_time 604 1) (omega arith) (omega arith) refl);
}

election_safety_example : ◌≡◌ {A = ℕ} 0 0
unfolding step init put tasks sent spawned_message
election_safety_example =
    election_safety (elected {Msg = ℕ}).reach (later {Msg = ℕ}).steps (omega arith) 0 0 refl refl
      refl

-- Node 0 leads in term 1, and node 1 in term 2: its heartbeat is on its way to node 0.
abbrev as_leader : ℕ → ℕ → Node
as_leader i t = record {
  senator = record (new 0 (at_time 0 1) i) { role = leader; term = t };
  pc = leader_wait 700;
  last_role = leader;
}

abbrev beat : Message ℕ
beat = record { from = 1; from_role = leader; to = 0; term = 2; msg = leader_heartbeat }

abbrev two_leaders : Cluster ℕ
two_leaders = record { node = λ i. as_leader i (i + 1); wire = beat ∷ []; spawned = [] }
