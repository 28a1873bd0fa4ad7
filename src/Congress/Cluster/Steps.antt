-- ===== src/Congress/Cluster/Steps.antt =====
-- Every step of a node is one of the four moves.
use drawbridge_ingress.Prelude.{
  ℕ, ◌≡◌, refl, ◌∙◌, inl, inr, some, List, [], arith, leb, ltb, inc64, Bool-cases, All,
}
use drawbridge_ingress.Congress.Types.{
  Role, leader, follower, candidate, MessageType, leader_heartbeat, vote_request, vote_granted,
  custom, Message, Senator, Effect, Env,
}
use drawbridge_ingress.Congress.Task.{
  Pc, start_loop, follower_loop, follower_wait, candidate_loop, candidate_wait, leader_loop,
  leader_check, leader_wait, Event, turn, timeout, recv, Node, at,
}
use drawbridge_ingress.Congress.Candidate.{votes_needed}
use drawbridge_ingress.Congress.Waiting.{Agrees}
use drawbridge_ingress.Congress.Run.{run_turn, run_timeout, run_recv, step}
use drawbridge_ingress.Congress.Cluster.{sent}
use drawbridge_ingress.Congress.Cluster.Moves.{
  Move, quiet, vote, campaign, win, Moves, IsSpawn, hold,
}
use drawbridge_ingress.Congress.Cluster.Effects.{
  sent-spawns, sent-calls, spawns-IsSpawn, calls-IsSpawn, sent-notify_role, notify_role-IsSpawn,
}

module _ {ℓ} (Msg : Type ℓ) (env : Env) (s : Senator) (l : Role) where
  start_turn-Moves :
      (r : Role)
      → Moves {Msg = Msg} env turn
          (at s r start_loop l)
          (run_turn env start_loop (at s r start_loop l))
  unfolding run_turn sent
  start_turn-Moves leader = (
    hold refl refl (sent-notify_role l (record s { role = leader }) []) (omega arith),
    notify_role-IsSpawn s.term l (record s { role = leader }) [] tt,
  )
  start_turn-Moves follower = (
    hold refl refl (sent-notify_role l (record s { role = follower }) []) (omega arith),
    notify_role-IsSpawn s.term l (record s { role = follower }) [] tt,
  )
  start_turn-Moves candidate = (
    campaign refl
        (sent-notify_role l (record s { role = candidate }) _
          ∙ sent-spawns (inc64 s.term) vote_request env.members)
        refl (λ t. ground arith),
    notify_role-IsSpawn (inc64 s.term) l (record s { role = candidate }) _
        (spawns-IsSpawn (inc64 s.term) vote_request env.members refl),
  )

  follower_turn-Moves :
      (r : Role)
      → Moves {Msg = Msg} env turn
          (at s r follower_loop l)
          (run_turn env follower_loop (at s r follower_loop l))
  unfolding run_turn sent
  follower_turn-Moves follower = (hold refl refl refl (omega arith), tt)
  follower_turn-Moves leader = (hold refl refl refl (omega arith), tt)
  follower_turn-Moves candidate = (hold refl refl refl (omega arith), tt)

  candidate_turn-Moves :
      (r : Role) (v d : ℕ)
      → Moves {Msg = Msg} env turn
          (at s r (candidate_loop v d) l)
          (run_turn env (candidate_loop v d) (at s r (candidate_loop v d) l))
  unfolding run_turn sent
  candidate_turn-Moves follower v d = (hold refl refl refl (omega arith), tt)
  candidate_turn-Moves leader v d = (hold refl refl refl (omega arith), tt)
  candidate_turn-Moves candidate v d = elim (Bool-cases (leb (votes_needed env.members) v)) [
    | inl enough ↦ rw enough (win refl refl (λ t. ground arith) (ground arith), tt)
    | inr more ↦ rw more (hold refl refl refl (omega arith), tt)
  ]

  leader_turn-Moves :
      (r : Role)
      → Moves {Msg = Msg} env turn
          (at s r leader_loop l)
          (run_turn env leader_loop (at s r leader_loop l))
  unfolding run_turn sent
  leader_turn-Moves leader = (
    hold refl refl (sent-spawns s.term leader_heartbeat env.members) (omega arith),
    spawns-IsSpawn s.term leader_heartbeat env.members refl,
  )
  leader_turn-Moves follower = (hold refl refl refl (omega arith), tt)
  leader_turn-Moves candidate = (hold refl refl refl (omega arith), tt)

  leader_check_turn-Moves :
      (r : Role) (d : ℕ)
      → Moves {Msg = Msg} env turn
          (at s r (leader_check d) l)
          (run_turn env (leader_check d) (at s r (leader_check d) l))
  unfolding run_turn sent
  leader_check_turn-Moves leader d = (hold refl refl refl (omega arith), tt)
  leader_check_turn-Moves follower d = (hold refl refl refl (omega arith), tt)
  leader_check_turn-Moves candidate d = (hold refl refl refl (omega arith), tt)

  turn-Moves :
      (r : Role) (p : Pc) → Moves {Msg = Msg} env turn (at s r p l) (run_turn env p (at s r p l))
  turn-Moves r start_loop = start_turn-Moves r
  turn-Moves r follower_loop = follower_turn-Moves r
  turn-Moves r (candidate_loop v d) = candidate_turn-Moves r v d
  turn-Moves r leader_loop = leader_turn-Moves r
  turn-Moves r (leader_check d) = leader_check_turn-Moves r d
  turn-Moves r follower_wait = unfold run_turn in tt
  turn-Moves r (candidate_wait v d) = unfold run_turn in tt
  turn-Moves r (leader_wait d) = unfold run_turn in tt

  timeout-Moves :
      (r : Role) (p : Pc)
      → Moves {Msg = Msg} env timeout (at s r p l) (run_timeout env p (at s r p l))
  unfolding run_timeout sent
  timeout-Moves r follower_wait = elim (Bool-cases (leb s.next_timeout env.now)) [
    | inl due ↦
        rw due (quiet (omega arith) (inl refl) refl (λ t. ground arith) (λ h. ground arith), tt)
    | inr early ↦ rw early tt
  ]
  timeout-Moves r (candidate_loop v d) = elim (Bool-cases (leb d env.now)) [
    | inl due ↦ rw due (hold refl refl refl (omega arith), tt)
    | inr early ↦ rw early tt
  ]
  timeout-Moves r (candidate_wait v d) = elim (Bool-cases (leb d env.now)) [
    | inl due ↦ rw due (hold refl refl refl (omega arith), tt)
    | inr early ↦ rw early tt
  ]
  timeout-Moves r (leader_check d) = elim (Bool-cases (leb d env.now)) [
    | inl due ↦ rw due (hold refl refl refl (omega arith), tt)
    | inr early ↦ rw early tt
  ]
  timeout-Moves r (leader_wait d) = elim (Bool-cases (leb d env.now)) [
    | inl due ↦ rw due (hold refl refl refl (omega arith), tt)
    | inr early ↦ rw early tt
  ]
  timeout-Moves r start_loop = tt
  timeout-Moves r follower_loop = tt
  timeout-Moves r leader_loop = tt

module _ {ℓ} {Msg : Type ℓ} (env : Env) (s : Senator) (l : Role) (m : Message Msg) where
  -- The kind of the message is split on: `of k` is `m` with that kind.
  abbrev of : MessageType Msg → Message Msg
  of k = record m { msg = k }

  follower_recv-Moves :
      (k : MessageType Msg)
      → Moves env
          (recv (of k))
          (at s follower follower_wait l)
          (run_recv env (of k) follower_wait (at s follower follower_wait l))
  unfolding run_recv sent
  follower_recv-Moves leader_heartbeat = elim (Bool-cases (leb s.term m.term)) [
    | inl later ↦
        rw later (quiet (ground arith) (inr (omega arith)) refl (λ t. ground arith) (λ h. cc), tt)
    | inr old ↦ rw old (hold refl refl refl (omega arith), tt)
  ]
  follower_recv-Moves vote_request = elim (Bool-cases (leb m.term s.term)) [
    | inl old ↦ rw old (hold refl refl refl (omega arith), tt)
    | inr later ↦
        rw later
          (vote _ (ground arith) (omega arith) refl (refl, refl) refl (λ t. ground arith), (tt, tt))
  ]
  follower_recv-Moves vote_granted = (hold refl refl refl (omega arith), tt)
  follower_recv-Moves (custom x) = (
    hold refl refl (sent-calls (of (custom x)) s.on_message) (omega arith),
    calls-IsSpawn s.term (of (custom x)) s.on_message,
  )

  candidate_recv-Moves :
      (v d : ℕ) (k : MessageType Msg)
      → Moves env
          (recv (of k))
          (at s candidate (candidate_wait v d) l)
          (run_recv env (of k) (candidate_wait v d) (at s candidate (candidate_wait v d) l))
  unfolding run_recv sent
  candidate_recv-Moves v d leader_heartbeat = elim (Bool-cases (leb s.term m.term)) [
    | inl later ↦
        rw later (quiet (ground arith) (inr (omega arith)) refl (λ t. ground arith) (λ h. cc), tt)
    | inr old ↦ rw old (hold refl refl refl (omega arith), tt)
  ]
  candidate_recv-Moves v d vote_request = elim (Bool-cases (leb m.term s.term)) [
    | inl old ↦ rw old (hold refl refl refl (omega arith), tt)
    | inr later ↦
        rw later
          (vote _ (ground arith) (omega arith) refl (refl, refl) refl (λ t. ground arith), (tt, tt))
  ]
  candidate_recv-Moves v d vote_granted =
      (quiet (omega arith) (inl refl) refl (λ t. ground arith) (λ h. cc), tt)
  candidate_recv-Moves v d (custom x) = (
    hold refl refl (sent-calls (of (custom x)) s.on_message) (omega arith),
    calls-IsSpawn s.term (of (custom x)) s.on_message,
  )

  leader_recv-Moves :
      (d : ℕ) (k : MessageType Msg)
      → Moves env
          (recv (of k))
          (at s leader (leader_wait d) l)
          (run_recv env (of k) (leader_wait d) (at s leader (leader_wait d) l))
  unfolding run_recv sent
  leader_recv-Moves d leader_heartbeat = elim (Bool-cases (ltb s.term m.term)) [
    | inl later ↦
        rw later (quiet (ground arith) (inr (omega arith)) refl (λ t. ground arith) (λ h. cc), tt)
    | inr old ↦ rw old (hold refl refl refl (omega arith), tt)
  ]
  leader_recv-Moves d vote_request = elim (Bool-cases (leb m.term s.term)) [
    | inl old ↦ rw old (hold refl refl refl (omega arith), tt)
    | inr later ↦
        rw later
          (vote _ (ground arith) (omega arith) refl (refl, refl) refl (λ t. ground arith), (tt, tt))
  ]
  leader_recv-Moves d vote_granted = (hold refl refl refl (omega arith), tt)
  leader_recv-Moves d (custom x) = (
    hold refl refl (sent-calls (of (custom x)) s.on_message) (omega arith),
    calls-IsSpawn s.term (of (custom x)) s.on_message,
  )

  recv-Moves :
      (r : Role) (p : Pc) (k : MessageType Msg)
      → Agrees p r
      → Moves env (recv (of k)) (at s r p l) (run_recv env (of k) p (at s r p l))
  recv-Moves follower follower_wait k h = follower_recv-Moves k
  recv-Moves leader follower_wait k h = elim h [ ]
  recv-Moves candidate follower_wait k h = elim h [ ]
  recv-Moves candidate (candidate_wait v d) k h = candidate_recv-Moves v d k
  recv-Moves leader (candidate_wait v d) k h = elim h [ ]
  recv-Moves follower (candidate_wait v d) k h = elim h [ ]
  recv-Moves leader (leader_wait d) k h = leader_recv-Moves d k
  recv-Moves follower (leader_wait d) k h = elim h [ ]
  recv-Moves candidate (leader_wait d) k h = elim h [ ]
  recv-Moves r start_loop k h = unfold run_recv in tt
  recv-Moves r follower_loop k h = unfold run_recv in tt
  recv-Moves r (candidate_loop v d) k h = unfold run_recv in tt
  recv-Moves r leader_loop k h = unfold run_recv in tt
  recv-Moves r (leader_check d) k h = unfold run_recv in tt

module _ {ℓ} {Msg : Type ℓ} (env : Env) where
  step-Moves : (e : Event Msg) (nd : Node) → Agrees nd.pc nd.role → Moves env e nd (step env e nd)
  unfolding step
  step-Moves turn nd h = turn-Moves Msg env nd.senator nd.last_role nd.role nd.pc
  step-Moves timeout nd h = timeout-Moves Msg env nd.senator nd.last_role nd.role nd.pc
  step-Moves (recv m) nd h = recv-Moves env nd.senator nd.last_role m nd.role nd.pc m.msg h

  -- A step is one of the four moves, and spawns tasks of its own term only.
  pub step-Move :
      (e : Event Msg) (nd nd' : Node) (es : List (Effect Msg))
      → Agrees nd.pc nd.role
      → step env e nd ≡ some (nd', es)
      → Move env e nd nd' es × All (IsSpawn nd'.term) es
  step-Move e nd nd' es h p = rw p at (step-Moves e nd h)
