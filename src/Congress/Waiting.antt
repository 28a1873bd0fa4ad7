-- ===== src/Congress/Waiting.antt =====
-- congress/src/states/*.rs: each `run` loop tests the role before it waits, so a task waits for
-- messages only in the role of its loop.
use drawbridge_ingress.Prelude.{◌≡◌, some, List, arith, none}
use drawbridge_ingress.Congress.Types.{
  Role, leader, follower, candidate, Message, Senator, Effect, Env,
}
use drawbridge_ingress.Congress.Task.{
  Pc, start_loop, follower_wait, candidate_wait, leader_wait, Event, turn, timeout, recv, Node, at,
}
use drawbridge_ingress.Congress.Run.{Outcome, run_turn, run_timeout, run_recv, step}

-- The role that a waiting task has.
abbrev pub Agrees : Pc → Role → Type 0
Agrees follower_wait follower = Unit
Agrees follower_wait _ = ⊥
Agrees (candidate_wait v d) candidate = Unit
Agrees (candidate_wait v d) _ = ⊥
Agrees (leader_wait d) leader = Unit
Agrees (leader_wait d) _ = ⊥
Agrees _ _ = Unit

abbrev Stays {ℓ} : {Msg : Type ℓ} → Outcome Msg → Type 0
Stays none = Unit
Stays (some (nd, es)) = Agrees nd.pc nd.role

module _ {ℓ} (Msg : Type ℓ) (env : Env) (s : Senator) (l : Role) where
  turn-Stays : (r : Role) (p : Pc) → Stays {Msg = Msg} (run_turn env p (at s r p l))
  unfolding run_turn
  turn-Stays leader start_loop = tt
  turn-Stays follower start_loop = tt
  turn-Stays candidate start_loop = tt
  turn-Stays leader p = ground arith
  turn-Stays follower p = ground arith
  turn-Stays candidate p = ground arith

  timeout-Stays : (r : Role) (p : Pc) → Stays {Msg = Msg} (run_timeout env p (at s r p l))
  unfolding run_timeout
  timeout-Stays r start_loop = tt
  timeout-Stays r p = ground arith

module _ {ℓ} {Msg : Type ℓ} (env : Env) (nd : Node) where
  recv-Stays : (m : Message Msg) (p : Pc) → Stays (run_recv env m p nd)
  unfolding run_recv
  recv-Stays m start_loop = tt
  recv-Stays m p = ground arith

  step-Stays : (e : Event Msg) → Stays (step env e nd)
  unfolding step
  step-Stays turn = turn-Stays Msg env nd.senator nd.last_role nd.role nd.pc
  step-Stays timeout = timeout-Stays Msg env nd.senator nd.last_role nd.role nd.pc
  step-Stays (recv m) = recv-Stays m nd.pc

  -- After any step, a task that waits for messages has the role of the loop that it waits in.
  pub step-Agrees :
      (e : Event Msg) (nd' : Node) (es : List (Effect Msg))
      → step env e nd ≡ some (nd', es)
      → Agrees nd'.pc nd'.role
  step-Agrees e nd' es h = rw h at (step-Stays e)
