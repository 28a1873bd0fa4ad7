-- ===== src/Congress/Election.antt =====
-- What the steps of one senator (congress/src/senator.rs, congress/src/states/*.rs) promise.
use drawbridge_ingress.Prelude.{
  ℕ, ◌+◌, ◌*◌, ◌≤◌, ◌<◌, ◌≡◌, ◌⊎◌, inl, inr, true, none, some, List, [], ◌∷◌, arith, length,
  u64_mod, ◌-◌,
}
use drawbridge_ingress.Congress.Types.{
  NodeId, leader, follower, leader_heartbeat, Message, Effect, Env,
}
use drawbridge_ingress.Congress.Task.{follower_wait, leader_wait, Event, turn, timeout, recv, Node}
use drawbridge_ingress.Congress.Candidate.{votes_needed}
use drawbridge_ingress.Congress.Run.{step}
use drawbridge_ingress.Congress.Waiting.{Agrees}
use drawbridge_ingress.Congress.Cluster.{sent}
use drawbridge_ingress.Congress.Cluster.Moves.{is_grant, quiet, vote, campaign, win}
use drawbridge_ingress.Congress.Cluster.Steps.{step-Move}

-- The votes that a candidate needs are the least number that is more than half of the cluster,
-- the candidate and its members together.
votes_needed_majority :
    (members : List NodeId)
    → (length members + 1 < 2 * votes_needed members)
      × (2 * (votes_needed members - 1) ≤ length members + 1)
unfolding votes_needed
votes_needed_majority members = omega arith

module _ {ℓ} {Msg : Type ℓ} (env : Env) (e : Event Msg) (nd nd' : Node) (es : List (Effect Msg))
    (agrees : Agrees nd.pc nd.role) (s : step env e nd ≡ some (nd', es)) where
  -- A step never takes a term back, as long as the term is below the last value of a u64.
  pub step-term-le : nd.term + 1 < u64_mod → nd.term ≤ nd'.term
  step-term-le small = elim ((step-Move env e nd nd' es agrees s).0) [
    | quiet up _ _ _ _ ↦ up
    | vote _ up _ _ _ _ _ ↦ omega arith
    | campaign next _ _ _ ↦ omega arith
    | win same _ _ _ ↦ omega arith
  ]

  -- A step sends nothing itself, or one vote, for the term that it moves the voter up to.
  step-one_vote :
      (sent es ≡ [])
      ⊎ ((m : Message Msg) × (sent es ≡ m ∷ [])
          × (is_grant m.msg ≡ true)
          × (m.term ≡ nd'.term)
          × (nd.term < nd'.term)
          × (nd'.role ≡ follower))
  step-one_vote = elim ((step-Move env e nd nd' es agrees s).0) [
    | quiet _ _ none_sent _ _ ↦ inl none_sent
    | vote m up _ one g role _ ↦ inr (m, one, g.0, g.1, up, role)
    | campaign _ none_sent _ _ ↦ inl none_sent
    | win _ none_sent _ _ ↦ inl none_sent
  ]

-- A leader takes itself for the leader.
abbrev pub KnowsItself : Node → Type 0
KnowsItself nd = nd.role ≡ leader → nd.current_leader ≡ some nd.id

module _ {ℓ} {Msg : Type ℓ} (env : Env) (nd nd' : Node) (es : List (Effect Msg))
    (agrees : Agrees nd.pc nd.role) (known : KnowsItself nd) where
  -- Every step keeps it that a leader takes itself for the leader.
  pub step-KnowsItself : (e : Event Msg) → step env e nd ≡ some (nd', es) → KnowsItself nd'
  unfolding step
  step-KnowsItself turn s h = ground arith
  step-KnowsItself timeout s h = ground arith
  step-KnowsItself (recv m) s h = ground arith

-- A follower that takes a heartbeat of its term or a later one, with a draw of at least 400, has a
-- timer that does not go off in the 400 ms after it.
heartbeat_holds_election {ℓ} :
    {Msg : Type ℓ} (env later : Env) (m : Message Msg) (nd nd' : Node) (es : List (Effect Msg))
    → nd.pc ≡ follower_wait
    → nd.role ≡ follower
    → m.msg ≡ leader_heartbeat
    → nd.term ≤ m.term
    → 400 ≤ env.draw
    → step env (recv m) nd ≡ some (nd', es)
    → later.now < env.now + 400
    → (nd'.current_leader ≡ some m.from)
      × (step {Msg = Msg} env turn nd' ≡ some (record nd' { pc = follower_wait }, []))
      × (step {Msg = Msg} later timeout (record nd' { pc = follower_wait }) ≡ none)
unfolding step
heartbeat_holds_election env later m nd nd' es pc role kind le draw s early = ground arith

-- A leader that takes a heartbeat of a later term becomes a follower in that term, and still takes
-- itself for the leader.
step_down_stale {ℓ} :
    {Msg : Type ℓ} (env : Env) (m : Message Msg) (nd nd' : Node) (es : List (Effect Msg)) (d : ℕ)
    → nd.pc ≡ leader_wait d
    → nd.role ≡ leader
    → KnowsItself nd
    → m.msg ≡ leader_heartbeat
    → nd.term < m.term
    → step env (recv m) nd ≡ some (nd', es)
    → (nd'.role ≡ follower) × (nd'.term ≡ m.term) × (nd'.current_leader ≡ some nd'.id)
unfolding step
step_down_stale env m nd nd' es d pc role known kind lt s = ground arith
