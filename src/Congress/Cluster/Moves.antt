-- ===== src/Congress/Cluster/Moves.antt =====
-- What one step of a node means to the election: it is quiet, gives a vote, starts a campaign, or
-- wins one.
use drawbridge_ingress.Prelude.{
  ℕ, ◌+◌, ◌≤◌, ◌<◌, ◌≡◌, ◌⊎◌, inl, Bool, true, false, some, none, List, [], ◌∷◌, arith, ◌==◌,
  if◌then◌else◌, inc64, All,
}
use drawbridge_ingress.Congress.Types.{
  Role, leader, follower, candidate, MessageType, leader_heartbeat, vote_request, vote_granted,
  custom, Message, Effect, send, spawn_send, call_role, call_message, Env,
}
use drawbridge_ingress.Congress.Task.{
  Pc, candidate_loop, candidate_wait, Event, turn, timeout, recv, Node,
}
use drawbridge_ingress.Congress.Candidate.{votes_needed}
use drawbridge_ingress.Congress.Run.{Outcome}
use drawbridge_ingress.Congress.Cluster.{sent}

abbrev pub is_grant {ℓ} : {Msg : Type ℓ} → MessageType Msg → Bool
is_grant leader_heartbeat = false
is_grant vote_request = false
is_grant vote_granted = true
is_grant (custom _) = false

-- The votes that a campaign has counted, while it lasts.
abbrev pub campaign_votes : Pc → Role → ℕ
campaign_votes (candidate_loop v d) candidate = v
campaign_votes (candidate_wait v d) candidate = v
campaign_votes _ _ = 0

abbrev pub standing : Node → ℕ → ℕ
standing nd t = if nd.term == t then campaign_votes nd.pc nd.role else 0

module _ {ℓ} {Msg : Type ℓ} where
  -- A vote for term `t` that the event brings.
  abbrev pub credit : Event Msg → ℕ → ℕ
  credit turn t = 0
  credit timeout t = 0
  credit (recv m) t = if is_grant m.msg then (if m.term == t then 1 else 0) else 0

  abbrev pub event_term : Event Msg → ℕ
  event_term turn = 0
  event_term timeout = 0
  event_term (recv m) = m.term

  -- What a step may spawn: tasks for its own term, and no votes.
  abbrev pub IsSpawn : ℕ → Effect Msg → Type 0
  IsSpawn k (send m) = Unit
  IsSpawn k (spawn_send to t m) = (t ≡ k) × (is_grant m ≡ false)
  IsSpawn k (call_role f r) = Unit
  IsSpawn k (call_message f m) = Unit

module _ {ℓ} {Msg : Type ℓ} where
  pub data Move (env : Env) (e : Event Msg) (nd nd' : Node) (es : List (Effect Msg)) : Type ℓ where
    quiet :
        nd.term ≤ nd'.term
        → (nd'.term ≡ nd.term) ⊎ (nd'.term ≤ event_term e)
        → sent es ≡ []
        → ((t : ℕ) → standing nd' t ≤ standing nd t + credit e t)
        → (nd'.role ≡ leader → (nd.role ≡ leader) × (nd'.term ≡ nd.term))
        → Move env e nd nd' es
    vote :
        (m : Message Msg)
        → nd.term < nd'.term
        → nd'.term ≤ event_term e
        → sent es ≡ m ∷ []
        → (is_grant m.msg ≡ true) × (m.term ≡ nd'.term)
        → nd'.role ≡ follower
        → ((t : ℕ) → standing nd' t ≡ 0)
        → Move env e nd nd' es
    campaign :
        nd'.term ≡ inc64 nd.term
        → sent es ≡ []
        → nd'.role ≡ candidate
        → ((t : ℕ) → standing nd' t ≡ (if nd'.term == t then 1 else 0))
        → Move env e nd nd' es
    win :
        nd'.term ≡ nd.term
        → sent es ≡ []
        → ((t : ℕ) → standing nd' t ≡ 0)
        → votes_needed env.members ≤ standing nd nd.term
        → Move env e nd nd' es

  abbrev pub Moves : Env → Event Msg → Node → Outcome Msg → Type ℓ
  Moves env e nd none = Unit
  Moves env e nd (some (nd', es)) = Move env e nd nd' es × All (IsSpawn nd'.term) es

module _ {ℓ} {Msg : Type ℓ} {env : Env} {e : Event Msg} {nd nd' : Node}
    {es : List (Effect Msg)} where
  -- A step that leaves term and role alone, and counts no more votes.
  pub hold :
      nd'.term ≡ nd.term
      → nd'.role ≡ nd.role
      → sent es ≡ []
      → campaign_votes nd'.pc nd'.role ≤ campaign_votes nd.pc nd.role
      → Move env e nd nd' es
  hold same role quiet_wire le =
      quiet (omega arith) (inl same) quiet_wire (λ t. ground arith) (λ h. ground arith)
