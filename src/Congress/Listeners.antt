-- ===== src/Congress/Listeners.antt =====
-- The listeners of a senator (congress/src/senator.rs), and a node that has no peers.
use mathlib.Core.List.{append-nil}
use drawbridge_ingress.Prelude.{
  ℕ, ◌+◌, ◌≤◌, Bool, true, false, ◌≡◌, refl, inl, inr, none, some, List, [], ◌∷◌, ◌++◌, map, arith,
  if◌then◌else◌, inc64, Bool-cases, Option,
}
use drawbridge_ingress.Congress.Types.{
  NodeId, Role, role_eq, leader, follower, candidate, MessageType, vote_request, leader_heartbeat,
  custom, Message, Senator, Effect, send, spawn_send, call_role, call_message, Env,
}
use drawbridge_ingress.Congress.Task.{
  Pc, start_loop, follower_wait, leader_loop, Event, turn, timeout, recv, Node, at,
}
use drawbridge_ingress.Congress.Run.{step, notify_role, Outcome, run_turn, run_timeout, run_recv}

module _ {ℓ} {Msg : Type ℓ} where
  -- The calls of `on_role` listeners among the effects.
  unfoldable pub role_calls : List (Effect Msg) → List (ℕ × Role)
  role_calls [] = []
  role_calls (send m ∷ es) = role_calls es
  role_calls (spawn_send to t m ∷ es) = role_calls es
  role_calls (call_role f r ∷ es) = (f, r) ∷ role_calls es
  role_calls (call_message f m ∷ es) = role_calls es

  role_calls-append :
      (xs ys : List (Effect Msg)) → role_calls (xs ++ ys) ≡ role_calls xs ++ role_calls ys
  unfolding role_calls
  role_calls-append [] ys = refl
  role_calls-append (send m ∷ es) ys = role_calls-append es ys
  role_calls-append (spawn_send to t m ∷ es) ys = role_calls-append es ys
  role_calls-append (call_role f r ∷ es) ys = cc (role_calls-append es ys)
  role_calls-append (call_message f m ∷ es) ys = role_calls-append es ys

  role_calls-spawns :
      (t : ℕ) (m : MessageType Msg) (ps : List NodeId)
      → role_calls (map (λ p. spawn_send p t m) ps) ≡ []
  unfolding role_calls
  role_calls-spawns t m [] = refl
  role_calls-spawns t m (p ∷ ps) = role_calls-spawns t m ps

  role_calls-messages :
      (m : Message Msg) (fs : List ℕ) → role_calls (map (λ f. call_message f m) fs) ≡ []
  unfolding role_calls
  role_calls-messages m [] = refl
  role_calls-messages m (f ∷ fs) = role_calls-messages m fs

-- The head of the loop in `start`.
abbrev pub at_start : Pc → Bool
at_start start_loop = true
at_start _ = false

-- Each of the listeners is called with the role, in order.
abbrev pub told : List ℕ → Role → List (ℕ × Role)
told fs r = map (λ f. (f, r)) fs

module _ {ℓ} (Msg : Type ℓ) where
  role_calls-told :
      (r : Role) (fs : List ℕ) → role_calls {Msg = Msg} (map (λ f. call_role f r) fs) ≡ told fs r
  unfolding role_calls
  role_calls-told r [] = refl
  role_calls-told r (f ∷ fs) = cc (role_calls-told r fs)

  role_calls-notify :
      (l : Role) (s : Senator) (es : List (Effect Msg))
      → role_calls es ≡ []
      → role_calls (notify_role l s ++ es)
        ≡ (if role_eq l s.role then [] else told s.on_role s.role)
  unfolding notify_role
  role_calls-notify l s es h = elim (Bool-cases (role_eq l s.role)) [
    | inl same ↦ rw same h
    | inr changed ↦
        rw (changed, role_calls-append, role_calls-told s.role s.on_role, h, append-nil) refl
  ]

-- What a step tells the listeners.
abbrev Tells {ℓ} : {Msg : Type ℓ} → List (ℕ × Role) → Outcome Msg → Type 0
Tells calls none = Unit
Tells calls (some (nd, es)) = role_calls es ≡ calls

module _ {ℓ} (Msg : Type ℓ) (env : Env) (s : Senator) (l : Role) where
  start-Tells :
      (r : Role)
      → Tells {Msg = Msg}
          (if role_eq l r then [] else told s.on_role r)
          (run_turn env start_loop (at s r start_loop l))
  unfolding run_turn role_calls
  start-Tells leader = role_calls-notify Msg l (record s { role = leader }) [] refl
  start-Tells follower = role_calls-notify Msg l (record s { role = follower }) [] refl
  start-Tells candidate =
      role_calls-notify Msg l (record s { role = candidate }) _
        (role_calls-spawns (inc64 s.term) vote_request env.members)

-- What a step tells the listeners, by where the task stands.
abbrev due : Pc → Node → List (ℕ × Role)
due p nd =
    if at_start p
    then (if role_eq nd.last_role nd.role then [] else told nd.on_role nd.role)
    else []

module _ {ℓ} (Msg : Type ℓ) (env : Env) (nd : Node) where
  turn-Tells : (p : Pc) → Tells {Msg = Msg} (due p nd) (run_turn env p nd)
  unfolding run_turn role_calls
  turn-Tells start_loop = start-Tells Msg env nd.senator nd.last_role nd.role
  turn-Tells p = ground (arith, role_calls-spawns {Msg = Msg} nd.term leader_heartbeat env.members)

  timeout-Tells : (p : Pc) → Tells {Msg = Msg} (due p nd) (run_timeout env p nd)
  unfolding run_timeout role_calls
  timeout-Tells start_loop = tt
  timeout-Tells p = ground arith

module _ {ℓ} {Msg : Type ℓ} (env : Env) (nd : Node) where
  recv-Tells : (m : Message Msg) (p : Pc) → Tells (due p nd) (run_recv env m p nd)
  unfolding run_recv role_calls
  recv-Tells m start_loop = tt
  recv-Tells m p = ground (arith, role_calls-messages m nd.on_message)

  step-Tells : (e : Event Msg) → Tells (due nd.pc nd) (step env e nd)
  unfolding step
  step-Tells turn = turn-Tells Msg env nd nd.pc
  step-Tells timeout = timeout-Tells Msg env nd nd.pc
  step-Tells (recv m) = recv-Tells m nd.pc

-- The role of a round is remembered for the next one.
abbrev Remembers {ℓ} : {Msg : Type ℓ} → Role → Outcome Msg → Type 0
Remembers r none = Unit
Remembers r (some (nd, es)) = nd.last_role ≡ r

abbrev remembered : Pc → Node → Role
remembered p nd = if at_start p then nd.role else nd.last_role

module _ {ℓ} (Msg : Type ℓ) (env : Env) (nd : Node) where
  turn-Remembers : (p : Pc) → Remembers {Msg = Msg} (remembered p nd) (run_turn env p nd)
  unfolding run_turn
  turn-Remembers start_loop = refl
  turn-Remembers p = ground arith

  timeout-Remembers : (p : Pc) → Remembers {Msg = Msg} (remembered p nd) (run_timeout env p nd)
  unfolding run_timeout
  timeout-Remembers start_loop = tt
  timeout-Remembers p = ground arith

module _ {ℓ} {Msg : Type ℓ} (env : Env) (nd : Node) where
  recv-Remembers : (m : Message Msg) (p : Pc) → Remembers (remembered p nd) (run_recv env m p nd)
  unfolding run_recv
  recv-Remembers m start_loop = tt
  recv-Remembers m p = ground arith

  step-Remembers : (e : Event Msg) → Remembers (remembered nd.pc nd) (step env e nd)
  unfolding step
  step-Remembers turn = turn-Remembers Msg env nd nd.pc
  step-Remembers timeout = timeout-Remembers Msg env nd nd.pc
  step-Remembers (recv m) = recv-Remembers m nd.pc

module _ {ℓ} {Msg : Type ℓ} (env : Env) where
  -- At the head of the loop of `start`, every `on_role` listener is told the role, in the order of
  -- registration, exactly if the role is not the remembered one, and this role is remembered in its
  -- place; no other step of the task tells a listener a role, or changes the remembered one.
  pub step-role_calls :
      (e : Event Msg) (nd nd' : Node) (es : List (Effect Msg))
      → step env e nd ≡ some (nd', es)
      → (role_calls es ≡ (
          if at_start nd.pc
          then (if role_eq nd.last_role nd.role then [] else told nd.on_role nd.role)
          else []))
        × (nd'.last_role ≡ (if at_start nd.pc then nd.role else nd.last_role))
  step-role_calls e nd nd' es s = (rw s at (step-Tells env nd e), rw s at (step-Remembers env nd e))

  -- A message of the program's own goes to every `on_message` listener, in the order of
  -- registration, whatever the role; it does not change the senator.
  pub custom_reaches_listeners :
      (m : Message Msg) (x : Msg) (nd nd' : Node) (es : List (Effect Msg))
      → m.msg ≡ custom x
      → step env (recv m) nd ≡ some (nd', es)
      → (es ≡ map (λ f. call_message f m) nd.on_message) × (nd'.senator ≡ nd.senator)
  unfolding step
  custom_reaches_listeners m x nd nd' es kind s = ground arith

-- The steps of one task, and what is left of it.
unfoldable pub run {ℓ} : {Msg : Type ℓ} → Env → List (Event Msg) → Node → Option Node
run env [] nd = some nd
run env (e ∷ events) nd = elim (step env e nd) [ none ↦ none | some (nd', es) ↦ run env events nd' ]

-- A follower without peers whose timer is due becomes leader of the next term, in five steps.
lone_node_leads {ℓ} :
    (Msg : Type ℓ) (env : Env) (nd : Node)
    → nd.pc ≡ follower_wait
    → env.members ≡ []
    → nd.next_timeout ≤ env.now
    → (nd' : Node) × (run {Msg = Msg} env (timeout ∷ turn ∷ turn ∷ turn ∷ turn ∷ []) nd ≡ some nd')
      × (nd'.role ≡ leader)
      × (nd'.term ≡ inc64 nd.term)
      × (nd'.pc ≡ leader_loop)
      × (nd'.current_leader ≡ some nd.id)
unfolding run step
lone_node_leads Msg env nd pc alone due = (
  record nd {
    senator = record nd.senator {
      role = leader;
      term = inc64 nd.term;
      voted_for = some nd.id;
      next_timeout = env.now + env.draw;
      current_leader = some nd.id;
    };
    pc = leader_loop;
    last_role = leader;
  },
  ground arith,
  refl,
  refl,
  refl,
  refl,
)
