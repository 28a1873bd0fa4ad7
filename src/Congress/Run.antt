-- ===== src/Congress/Run.antt =====
-- The task of a senator: the loop of `Senator::start` in congress/src/senator.rs and, inside it, the
-- `run` loops of congress/src/states/*.rs, as one step function. `none` means that the event
-- cannot happen where the task stands: a timer that is not due, a message that nothing waits for.
-- A handler of a message runs to its end here; what is left of one that a timer cancels is in
-- Congress.Cuts.
use drawbridge_ingress.Prelude.{ℕ, ◌+◌, Option, none, some, List, [], ◌++◌, map, leb, if◌then◌else◌}
use drawbridge_ingress.Congress.Types.{
  Role, leader, follower, candidate, role_eq, leader_heartbeat, vote_request, Message, Senator,
  Effect, call_role, Env, random_timeout,
}
use drawbridge_ingress.Congress.Task.{
  Pc, start_loop, follower_loop, follower_wait, candidate_loop, candidate_wait, leader_loop,
  leader_check, leader_wait, Event, turn, timeout, recv, Node, leave,
}
use drawbridge_ingress.Congress.Senator.{broadcast_message}
use drawbridge_ingress.Congress.Follower.{follower_timeout, follower_recv}
use drawbridge_ingress.Congress.Candidate.{
  candidate_start, votes_needed, candidate_wins, candidate_recv, candidate_count,
}
use drawbridge_ingress.Congress.Leader.{heartbeat_interval, leader_recv}

module _ {ℓ} {Msg : Type ℓ} where
  -- The listeners are told when the role is not that of the last round.
  unfoldable pub notify_role : Role → Senator → List (Effect Msg)
  notify_role last_role s =
      if role_eq last_role s.role then [] else map (λ f. call_role f s.role) s.on_role

  -- The `match new_role` of the loop.
  unfoldable pub enter : Env → Role → Senator → Senator × Pc × List (Effect Msg)
  unfolding candidate_start broadcast_message
  enter env leader s = (s, leader_loop, [])
  enter env follower s = (s, follower_loop, [])
  enter env candidate s =
      let s' = candidate_start s in
      (s', candidate_loop 1 (random_timeout env), broadcast_message vote_request env.members s')

-- The task after a step, and what the step did besides.
abbrev pub Outcome {ℓ} : Type ℓ → Type ℓ
Outcome Msg = Option (Node × List (Effect Msg))

module _ {ℓ} {Msg : Type ℓ} where
  unfoldable pub start_turn : Env → Node → Outcome Msg
  unfolding notify_role enter
  start_turn env n =
      let (s, pc, effects) = enter {Msg = Msg} env n.role n.senator in
      some (
        record { senator = s; pc = pc; last_role = n.role },
        notify_role n.last_role n.senator ++ effects,
      )

  unfoldable pub follower_turn : Env → Node → Outcome Msg
  follower_turn env n =
      if role_eq follower n.role
      then some (record n { pc = follower_wait }, [])
      else some (leave env n, [])

  unfoldable pub candidate_turn : Env → ℕ → ℕ → Node → Outcome Msg
  unfolding votes_needed candidate_wins
  candidate_turn env votes deadline n =
      if role_eq candidate n.role
      then if leb (votes_needed env.members) votes
        then some (leave env (record n { senator = candidate_wins n.senator }), [])
        else some (record n { pc = candidate_wait votes deadline }, [])
      else some (leave env n, [])

  unfoldable pub leader_turn : Env → Node → Outcome Msg
  unfolding broadcast_message
  leader_turn env n =
      if role_eq leader n.role
      then some (
        record n { pc = leader_check (env.now + heartbeat_interval) },
        broadcast_message leader_heartbeat env.members n.senator,
      )
      else some (leave env n, [])

  unfoldable pub leader_check_turn : Env → ℕ → Node → Outcome Msg
  leader_check_turn env deadline n =
      if role_eq leader n.role
      then some (record n { pc = leader_wait deadline }, [])
      else some (leave env n, [])

module _ {ℓ} {Msg : Type ℓ} where
  -- A step of the task's own.
  unfoldable pub run_turn : Env → Pc → Node → Outcome Msg
  unfolding start_turn follower_turn candidate_turn leader_turn leader_check_turn
  run_turn env start_loop n = start_turn env n
  run_turn env follower_loop n = follower_turn env n
  run_turn env (candidate_loop v d) n = candidate_turn env v d n
  run_turn env leader_loop n = leader_turn env n
  run_turn env (leader_check d) n = leader_check_turn env d n
  run_turn env follower_wait n = none
  run_turn env (candidate_wait v d) n = none
  run_turn env (leader_wait d) n = none

  -- A timer is due, and wins the `select!`.
  unfoldable pub run_timeout : Env → Pc → Node → Outcome Msg
  unfolding follower_timeout
  run_timeout env follower_wait n =
      if leb n.next_timeout env.now
      then some (record n { senator = follower_timeout n.senator; pc = follower_loop }, [])
      else none
  run_timeout env (candidate_loop v d) n = if leb d env.now then some (leave env n, []) else none
  run_timeout env (candidate_wait v d) n = if leb d env.now then some (leave env n, []) else none
  run_timeout env (leader_check d) n =
      if leb d env.now then some (record n { pc = leader_loop }, []) else none
  run_timeout env (leader_wait d) n =
      if leb d env.now then some (record n { pc = leader_loop }, []) else none
  run_timeout env start_loop n = none
  run_timeout env follower_loop n = none
  run_timeout env leader_loop n = none

  -- A message wins the `select!`.
  unfoldable pub run_recv : Env → Message Msg → Pc → Node → Outcome Msg
  unfolding follower_recv candidate_recv candidate_count leader_recv
  run_recv env m follower_wait n =
      let (s, effects) = follower_recv env m m.msg n.senator in
      some (record n { senator = s; pc = follower_loop }, effects)
  run_recv env m (candidate_wait v d) n =
      let (s, effects) = candidate_recv m m.msg n.senator in
      some (
        record n { senator = s; pc = candidate_loop (candidate_count m m.msg n.senator v) d },
        effects,
      )
  run_recv env m (leader_wait d) n =
      let (s, effects) = leader_recv m m.msg n.senator in
      some (record n { senator = s; pc = leader_check d }, effects)
  run_recv env m start_loop n = none
  run_recv env m follower_loop n = none
  run_recv env m (candidate_loop v d) n = none
  run_recv env m leader_loop n = none
  run_recv env m (leader_check d) n = none

module _ {ℓ} {Msg : Type ℓ} where
  unfoldable pub step : Env → Event Msg → Node → Outcome Msg
  unfolding run_turn run_timeout run_recv
  step env turn n = run_turn env n.pc n
  step env timeout n = run_timeout env n.pc n
  step env (recv m) n = run_recv env m n.pc n

-- `start` of a senator: the task at the head of its loop.
unfoldable pub start : Senator → Node
start s = record { senator = s; pc = start_loop; last_role = s.role }
