-- ===== src/Congress/Candidate.antt =====
-- congress/src/states/candidate.rs: a campaign, its votes and its end.
use drawbridge_ingress.Prelude.{
  ℕ, ◌+◌, ◌/◌, none, some, List, [], length, leb, ◌==◌, if◌then◌else◌, inc64,
}
use drawbridge_ingress.Congress.Types.{
  NodeId, leader, follower, MessageType, leader_heartbeat, vote_request, vote_granted, custom,
  Message, Senator, Effect,
}
use drawbridge_ingress.Congress.Senator.{handle_vote_request, handle_user_message}

-- The new term that a campaign starts: the candidate votes for itself.
unfoldable pub candidate_start : Senator → Senator
candidate_start s = record s { term = inc64 s.term; voted_for = some s.id; current_leader = none }

-- `1 + (members.len() as u64 + 1) / 2`. A `Vec` of ids is far too short for the sum to wrap.
unfoldable pub votes_needed : List NodeId → ℕ
votes_needed members = 1 + (length members + 1) / 2

-- Enough votes: the candidate becomes leader.
unfoldable pub candidate_wins : Senator → Senator
candidate_wins s = record s { role = leader; current_leader = some s.id }

unfoldable pub candidate_heartbeat {ℓ} : {Msg : Type ℓ} → Message Msg → Senator → Senator
candidate_heartbeat m s =
    if leb s.term m.term
    then record s { term = m.term; current_leader = some m.from; role = follower; voted_for = none }
    else s

-- What a message does to the senator.
unfoldable pub candidate_recv {ℓ} :
    {Msg : Type ℓ} → Message Msg → MessageType Msg → Senator → Senator × List (Effect Msg)
unfolding candidate_heartbeat handle_vote_request handle_user_message
candidate_recv m leader_heartbeat s = (candidate_heartbeat m s, [])
candidate_recv m vote_request s = handle_vote_request m.from m.term s
candidate_recv m vote_granted s = (s, [])
candidate_recv m (custom _) s = (s, handle_user_message m s)

-- What a message does to `votes_granted`.
unfoldable pub candidate_count {ℓ} :
    {Msg : Type ℓ} → Message Msg → MessageType Msg → Senator → ℕ → ℕ
candidate_count m vote_granted s votes = if m.term == s.term then inc64 votes else votes
candidate_count m leader_heartbeat s votes = votes
candidate_count m vote_request s votes = votes
candidate_count m (custom _) s votes = votes
