-- ===== src/Congress/Tests.antt =====
-- Senators, and the theorems about one of them, at concrete states and messages.
use drawbridge_ingress.Prelude.{
  ℕ, ◌≡◌, refl, Option, none, some, List, [], ◌∷◌, ◌++◌, ◌++◌, arith, to_be_bytes,
}
use drawbridge_ingress.Congress.Types.{
  leader, follower, candidate, leader_heartbeat, Message, MessageType, Senator, Effect, Env,
}
use drawbridge_ingress.Congress.Task.{leader_loop, start_loop, turn, Node, at}
use drawbridge_ingress.Congress.Candidate.{votes_needed}
use drawbridge_ingress.Congress.Run.{step}
use drawbridge_ingress.Congress.Listeners.{role_calls, told, step-role_calls}
use drawbridge_ingress.Congress.Peer.{Bincode, io, Error, send_msg, send_all, read_loop}
use drawbridge_ingress.Congress.Peer.Framing.{Fits, read_loop-send_all, read_loop_total}

abbrev noon : Env
noon = record { now = 1000; draw = 500; members = 2 ∷ 3 ∷ [] }

-- Node 1 in term 4, with a listener of each kind.
abbrev senator : Senator
senator = record {
  id = 1;
  role = follower;
  term = 4;
  voted_for = none;
  next_timeout = 900;
  current_leader = none;
  on_role = 7 ∷ [];
  on_message = 8 ∷ 9 ∷ [];
}

abbrev message : ℕ → MessageType ℕ → Message ℕ
message term kind = record { from = 2; from_role = leader; to = 1; term = term; msg = kind }

-- Two peers: two votes of three. One peer: both votes.
votes : (votes_needed (2 ∷ 3 ∷ []) ≡ 2) × (votes_needed (2 ∷ []) ≡ 2) × (votes_needed [] ≡ 1)
unfolding votes_needed
votes = (refl, refl, refl)

abbrev won : Node
won =
    at (record senator { term = 5; current_leader = some 1; next_timeout = 1500 }) leader start_loop
      candidate

-- A heartbeat of term 4, at noon.
abbrev beat : Message ℕ
beat = message 4 leader_heartbeat

-- The round of `start` in which the won election is noticed.
abbrev noticed : Node
noticed = record won { pc = leader_loop; last_role = leader }

step-role_calls_example :
    (role_calls {Msg = ℕ} (Effect.call_role 7 leader ∷ []) ≡ told (7 ∷ []) leader)
    × (noticed.last_role ≡ leader)
unfolding step
step-role_calls_example =
    step-role_calls noon turn won noticed (Effect.call_role 7 leader ∷ []) refl

-- A codec for heartbeats of leaders: the three numbers of one.
abbrev encode : Message ℕ → Option (List ℕ)
encode m = some (m.from ∷ m.to ∷ m.term ∷ [])

abbrev decode : List ℕ → Option (Message ℕ)
decode (a ∷ b ∷ c ∷ []) =
    some (record { from = a; from_role = leader; to = b; term = c; msg = leader_heartbeat })
decode _ = none

abbrev codec : Bincode ℕ
codec = record { serialize = encode; deserialize = decode }

beat-Fits : Fits codec beat
beat-Fits = record {
  buf = 2 ∷ 1 ∷ 4 ∷ [];
  serialized = refl;
  deserialized = refl;
  small = omega arith;
}

abbrev beat_bytes : List ℕ
beat_bytes = 0 ∷ 0 ∷ 0 ∷ 3 ∷ 2 ∷ 1 ∷ 4 ∷ []

read_loop-send_all_example :
    read_loop codec 3 (beat_bytes ++ beat_bytes) ≡ some (beat ∷ beat ∷ [], io)
unfolding send_all send_msg to_be_bytes
read_loop-send_all_example =
    read_loop-send_all codec (beat ∷ beat ∷ []) (beat_bytes ++ beat_bytes) 3
      (beat-Fits, (beat-Fits, tt)) refl (omega arith)

read_loop_total_example :
    (msgs : List (Message ℕ)) × (e : Error) × (read_loop codec 8 beat_bytes ≡ some (msgs, e))
read_loop_total_example = read_loop_total codec beat_bytes 8 (omega arith)
