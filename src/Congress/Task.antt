-- ===== src/Congress/Task.antt =====
-- Where the task that `Senator::start` spawns stands, and what it can react to. A step goes from
-- one point at which the task can wait, or test the role, to the next.
use drawbridge_ingress.Prelude.{ℕ}
use drawbridge_ingress.Congress.Types.{Instant, Role, Message, Senator, Env, random_timeout}

pub data Pc : Type 0 where
  start_loop : Pc  -- the head of the loop in `start`
  follower_loop : Pc  -- the head of the loop in `Follower::run`
  follower_wait : Pc  -- its `select!`
  candidate_loop : (votes_granted : ℕ) (timeout : Instant) → Pc
  candidate_wait : (votes_granted : ℕ) (timeout : Instant) → Pc
  leader_loop : Pc  -- the head of the outer loop in `Leader::run`
  leader_check : (timeout : Instant) → Pc  -- the head of the inner loop
  leader_wait : (timeout : Instant) → Pc

-- `turn` is a step of its own, `timeout` a timer that has fired, `recv` a message from the channel.
pub data Event {ℓ} (Msg : Type ℓ) : Type ℓ where
  turn : Event Msg
  timeout : Event Msg
  recv : Message Msg → Event Msg

pub record Node : Type 0 where
  pub senator : Senator
  pub open senator use *
  pub pc : Pc
  pub last_role : Role

-- The state returns, and `start` resets the next timeout.
abbrev pub leave : Env → Node → Node
leave env n = record n {
  senator = record n.senator { next_timeout = random_timeout env };
  pc = start_loop;
}

-- A node, by what the steps split on.
abbrev pub at : Senator → Role → Pc → Role → Node
at s r p l = record { senator = record s { role = r }; pc = p; last_role = l }
