-- ===== src/Congress/Cuts.antt =====
-- Handlers of messages that are cancelled: the timer of a `select!` in congress/src/states/leader.rs
-- and congress/src/states/candidate.rs may win while the other branch waits for a lock, in the
-- middle of what it does with a message. Each function lists what the state may be left at. A handler
-- that is cancelled before it changes anything has lost its message.
use drawbridge_ingress.Prelude.{ℕ, some, List, [], ◌∷◌, map, leb, ltb, if◌then◌else◌}
use drawbridge_ingress.Congress.Types.{
  NodeId, leader, follower, candidate, role_eq, MessageType, leader_heartbeat, vote_request,
  vote_granted, custom, Message, Senator, Env,
}
use drawbridge_ingress.Congress.Task.{
  Pc, start_loop, follower_loop, follower_wait, candidate_loop, candidate_wait, leader_loop,
  leader_check, leader_wait, Node, leave,
}
use drawbridge_ingress.Congress.Candidate.{votes_needed}

-- `handle_vote_request`, before the role is written and before the vote is sent.
unfoldable pub vote_cuts : NodeId → ℕ → Senator → List Senator
vote_cuts to their_term s =
    if leb their_term s.term
    then []
    else (record s { term = their_term }
        ∷ record s { term = their_term; role = follower; voted_for = some to }
        ∷ [])

module _ {ℓ} {Msg : Type ℓ} where
  -- The handler of a candidate.
  unfoldable pub candidate_cuts : Message Msg → MessageType Msg → Senator → List Senator
  unfolding vote_cuts
  candidate_cuts m leader_heartbeat s =
      if leb s.term m.term
      then (record s { term = m.term }
          ∷ record s { term = m.term; current_leader = some m.from }
          ∷ record s { term = m.term; current_leader = some m.from; role = follower }
          ∷ [])
      else []
  candidate_cuts m vote_request s = vote_cuts m.from m.term s
  candidate_cuts m vote_granted s = []
  candidate_cuts m (custom _) s = []

  -- The handler of a leader: the term is written before the role.
  unfoldable pub leader_cuts : Message Msg → MessageType Msg → Senator → List Senator
  unfolding vote_cuts
  leader_cuts m leader_heartbeat s =
      if ltb s.term m.term then record s { term = m.term } ∷ [] else []
  leader_cuts m vote_request s = vote_cuts m.from m.term s
  leader_cuts m vote_granted s = []
  leader_cuts m (custom _) s = []

  -- What the task may be left at when its timer is due as it handles a message.
  unfoldable pub recv_cuts : Env → Message Msg → Pc → Node → List Node
  unfolding candidate_cuts leader_cuts
  recv_cuts env m (candidate_wait v d) n =
      if leb d env.now
      then map (λ s. leave env (record n { senator = s })) (candidate_cuts m m.msg n.senator)
      else []
  recv_cuts env m (leader_wait d) n =
      if leb d env.now
      then map (λ s. record n { senator = s; pc = leader_loop }) (leader_cuts m m.msg n.senator)
      else []
  recv_cuts env m start_loop n = []
  recv_cuts env m follower_loop n = []
  recv_cuts env m follower_wait n = []
  recv_cuts env m (candidate_loop v d) n = []
  recv_cuts env m leader_loop n = []
  recv_cuts env m (leader_check d) n = []

-- A candidate that has won may be left before it names itself as the leader.
unfoldable pub win_cuts : Env → Pc → Node → List Node
unfolding votes_needed
win_cuts env (candidate_loop v d) n =
    if leb d env.now
    then if role_eq candidate n.role
      then if leb (votes_needed env.members) v
        then leave env (record n { senator = record n.senator { role = leader } }) ∷ []
        else []
      else []
    else []
win_cuts env start_loop n = []
win_cuts env follower_loop n = []
win_cuts env follower_wait n = []
win_cuts env (candidate_wait v d) n = []
win_cuts env leader_loop n = []
win_cuts env (leader_check d) n = []
win_cuts env (leader_wait d) n = []
