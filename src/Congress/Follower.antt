-- ===== src/Congress/Follower.antt =====
-- congress/src/states/follower.rs: what a follower does with a message and with its timer.
use drawbridge_ingress.Prelude.{some, List, [], leb, if◌then◌else◌}
use drawbridge_ingress.Congress.Types.{
  candidate, MessageType, leader_heartbeat, vote_request, vote_granted, custom, Message, Senator,
  Effect, Env, random_timeout,
}
use drawbridge_ingress.Congress.Senator.{handle_vote_request, handle_user_message}

-- The timeout branch of the `select!`.
unfoldable pub follower_timeout : Senator → Senator
follower_timeout s = record s { role = candidate }

-- The heartbeat branch.
unfoldable pub follower_heartbeat {ℓ} : {Msg : Type ℓ} → Env → Message Msg → Senator → Senator
follower_heartbeat env m s =
    if leb s.term m.term
    then record s { term = m.term; current_leader = some m.from; next_timeout = random_timeout env }
    else s

-- The message branch, by the message's kind.
unfoldable pub follower_recv {ℓ} :
    {Msg : Type ℓ} → Env → Message Msg → MessageType Msg → Senator → Senator × List (Effect Msg)
unfolding follower_heartbeat handle_vote_request handle_user_message
follower_recv env m leader_heartbeat s = (follower_heartbeat env m s, [])
follower_recv env m vote_request s = handle_vote_request m.from m.term s
follower_recv env m vote_granted s = (s, [])
follower_recv env m (custom _) s = (s, handle_user_message m s)
