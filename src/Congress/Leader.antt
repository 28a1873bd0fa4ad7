-- ===== src/Congress/Leader.antt =====
-- congress/src/states/leader.rs: what a leader does with a message.
use drawbridge_ingress.Prelude.{ℕ, List, [], ltb, if◌then◌else◌}
use drawbridge_ingress.Congress.Types.{
  follower, MessageType, leader_heartbeat, vote_request, vote_granted, custom, Message, Senator,
  Effect,
}
use drawbridge_ingress.Congress.Senator.{handle_vote_request, handle_user_message}

-- The milliseconds between two heartbeats.
abbrev pub heartbeat_interval : ℕ
heartbeat_interval = 50

-- A leader of a later term: this one steps down, if its handler runs to its end. `leader_cuts` of
-- Congress.Cuts is what a cancelled one leaves.
unfoldable pub leader_heartbeat_recv {ℓ} : {Msg : Type ℓ} → Message Msg → Senator → Senator
leader_heartbeat_recv m s =
    if ltb s.term m.term then record s { term = m.term; role = follower } else s

unfoldable pub leader_recv {ℓ} :
    {Msg : Type ℓ} → Message Msg → MessageType Msg → Senator → Senator × List (Effect Msg)
unfolding leader_heartbeat_recv handle_vote_request handle_user_message
leader_recv m leader_heartbeat s = (leader_heartbeat_recv m s, [])
leader_recv m vote_request s = handle_vote_request m.from m.term s
leader_recv m (custom _) s = (s, handle_user_message m s)
leader_recv m vote_granted s = (s, [])
