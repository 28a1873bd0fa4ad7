-- ===== src/Congress/Types.antt =====
-- congress/src/types.rs, congress/src/utils.rs and the error type of congress/src/lib.rs: the data
-- of the election protocol. A NodeID is a u64 and an Instant a number of milliseconds, both ℕ.
use drawbridge_ingress.Prelude.{ℕ, Option, List, Bool, true, false, ◌+◌}

abbrev pub NodeId : Type 0
NodeId = ℕ

abbrev pub Instant : Type 0
Instant = ℕ

pub data Role : Type 0 where
  leader follower candidate : Role

-- `==` of the derived PartialEq.
abbrev pub role_eq : Role → Role → Bool
role_eq leader leader = true
role_eq follower follower = true
role_eq candidate candidate = true
role_eq _ _ = false

-- A custom message is a value of the type `Msg` of the program that uses the crate.
pub data MessageType {ℓ} (Msg : Type ℓ) : Type ℓ where
  leader_heartbeat : MessageType Msg
  vote_request : MessageType Msg
  vote_granted : MessageType Msg
  custom : Msg → MessageType Msg

pub record Message {ℓ} (Msg : Type ℓ) : Type ℓ where
  pub from : NodeId
  pub from_role : Role
  pub to : NodeId
  pub term : ℕ
  pub msg : MessageType Msg

-- The listeners are closures of the program that uses the crate: each is a number here, and a call
-- of one is an effect.
pub record Senator : Type 0 where
  pub id : NodeId
  pub role : Role
  pub term : ℕ
  pub voted_for : Option NodeId
  pub next_timeout : Instant
  pub current_leader : Option NodeId
  pub on_role : List ℕ
  pub on_message : List ℕ

-- What an operation does besides changing the senator: a message handed to the network, a spawned
-- task that will send one (it reads the role when it runs), a call of a listener.
pub data Effect {ℓ} (Msg : Type ℓ) : Type ℓ where
  send : Message Msg → Effect Msg
  spawn_send : (to term : ℕ) → MessageType Msg → Effect Msg
  call_role : ℕ → Role → Effect Msg
  call_message : ℕ → Message Msg → Effect Msg

-- What a step reads from outside: the clock, the draw of `rng.gen_range(400..800)`, and the answer
-- of `rpc.members()`.
pub record Env : Type 0 where
  pub now : Instant
  pub draw : ℕ
  pub members : List NodeId

-- `Instant::now() + get_random_timeout()`
abbrev pub random_timeout : Env → Instant
random_timeout env = env.now + env.draw
