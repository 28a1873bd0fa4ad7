-- ===== src/Congress/Senator.antt =====
-- congress/src/senator.rs (`impl Senator`): the operations that every role shares.
use drawbridge_ingress.Prelude.{ℕ, ◌+◌, none, some, List, [], ◌∷◌, ◌++◌, map, leb, if◌then◌else◌}
use drawbridge_ingress.Congress.Types.{
  NodeId, follower, MessageType, vote_granted, Message, Senator, Effect, send, spawn_send,
  call_message, Env,
}

-- `Senator::new`, of the delay, the clock and the draw, and the network's own id.
unfoldable pub new : ℕ → Env → NodeId → Senator
new minimum_delay env our_id = record {
  id = our_id;
  role = follower;
  term = 0;
  voted_for = none;
  next_timeout = env.now + minimum_delay + env.draw;
  current_leader = none;
  on_role = [];
  on_message = [];
}

-- `on_role` and `on_message` register a listener behind those that are there.
unfoldable pub on_role : Senator → ℕ → Senator
on_role s cb = record s { on_role = s.on_role ++ cb ∷ [] }

unfoldable pub on_message : Senator → ℕ → Senator
on_message s cb = record s { on_message = s.on_message ++ cb ∷ [] }

module _ {ℓ} {Msg : Type ℓ} where
  unfoldable pub handle_user_message : Message Msg → Senator → List (Effect Msg)
  handle_user_message m s = map (λ f. call_message f m) s.on_message

  unfoldable pub broadcast_message : MessageType Msg → List NodeId → Senator → List (Effect Msg)
  broadcast_message m members s = map (λ peer_id. spawn_send peer_id s.term m) members

module _ {ℓ} {Msg : Type ℓ} where
  -- The state is changed before the message is sent, so its role is that of a follower. This is the
  -- handler that runs to its end: `vote_cuts` of Congress.Cuts is what a cancelled one leaves.
  unfoldable pub handle_vote_request : NodeId → ℕ → Senator → Senator × List (Effect Msg)
  handle_vote_request to their_term s = if leb their_term s.term then (s, []) else (
    record s { term = their_term; role = follower; voted_for = some to },
    send (record {
      from_role = follower;
      term = their_term;
      to = to;
      from = s.id;
      msg = vote_granted;
    })
        ∷ [],
  )
