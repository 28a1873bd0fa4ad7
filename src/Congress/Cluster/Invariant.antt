-- ===== src/Congress/Cluster/Invariant.antt =====
-- The invariant of an election: every vote that is counted or under way is a ballot of its term,
-- and each voter has one ballot in a term.
use drawbridge_ingress.Prelude.{
  ℕ, ◌+◌, ◌*◌, ◌≤◌, ◌<◌, ◌≡◌, false, Option, none, some, arith, ◌==◌, if◌then◌else◌, weigh, All,
}
use drawbridge_ingress.Congress.Types.{leader, Message}
use drawbridge_ingress.Congress.Task.{Event}
use drawbridge_ingress.Congress.Waiting.{Agrees}
use drawbridge_ingress.Congress.Cluster.{update, Spawned, Cluster}
use drawbridge_ingress.Congress.Cluster.Ballots.{voted, tally, tally-update}
use drawbridge_ingress.Congress.Cluster.Moves.{is_grant, standing, credit, event_term}

-- A vote for node `i` in term `t`.
abbrev pub grant {ℓ} : {Msg : Type ℓ} → ℕ → ℕ → Message Msg → ℕ
grant i t m =
    if is_grant m.msg then (if m.to == i then (if m.term == t then 1 else 0) else 0) else 0

-- The ballots of term `t`, by voter.
abbrev pub Ballots : Type 0
Ballots = ℕ → ℕ → Option ℕ

abbrev pub IsLow {ℓ} : {Msg : Type ℓ} → ℕ → Message Msg → Type 0
IsLow k m = m.term ≤ k

abbrev pub IsTask {ℓ} : {Msg : Type ℓ} → ℕ → Spawned Msg → Type 0
IsTask k p = (p.term ≤ k) × (is_grant p.msg ≡ false)

pub record Inv {ℓ} {Msg : Type ℓ} (n k : ℕ) (c : Cluster Msg) (b : Ballots) : Type 0 where
  pub agrees : (i : ℕ) → Agrees (c.node i).pc (c.node i).role
  pub unused : (v t : ℕ) → (c.node v).term < t → b t v ≡ none
  pub counted : (i t : ℕ) → weigh (grant i t) c.wire + standing (c.node i) t ≤ tally n (b t) i
  pub elected : (i : ℕ) → (c.node i).role ≡ leader → n < 2 * tally n (b (c.node i).term) i
  pub low : (i : ℕ) → (c.node i).term ≤ k
  pub low_wire : All (IsLow k) c.wire
  pub low_spawned : All (IsTask k) c.spawned

-- The same while event `e` is on its way to node `i`, off the wire.
pub record Ready {ℓ} {Msg : Type ℓ} (n k : ℕ) (c : Cluster Msg) (i : ℕ) (e : Event Msg)
    (b : Ballots) : Type 0 where
  pub agrees : (j : ℕ) → Agrees (c.node j).pc (c.node j).role
  pub unused : (v t : ℕ) → (c.node v).term < t → b t v ≡ none
  pub counted :
      (j t : ℕ)
      → weigh (grant j t) c.wire + standing (c.node j) t + (if i == j then credit e t else 0)
        ≤ tally n (b t) j
  pub elected : (j : ℕ) → (c.node j).role ≡ leader → n < 2 * tally n (b (c.node j).term) j
  pub low : (j : ℕ) → (c.node j).term ≤ k
  pub low_event : event_term e ≤ k
  pub low_wire : All (IsLow k) c.wire
  pub low_spawned : All (IsTask k) c.spawned

-- Voter `i` votes for `d` in term `t`.
unfoldable pub cast : Ballots → ℕ → ℕ → ℕ → Ballots
cast b i t d = update b t (update (b t) i (some d))

module _ (n : ℕ) (b : Ballots) (i t d : ℕ) where
  pub tally-cast :
      (u x : ℕ)
      → i < n
      → b t i ≡ none
      → tally n (cast b i t d u) x ≡ tally n (b u) x + (if t == u then voted (some d) x else 0)
  unfolding cast
  tally-cast u x lt e = ground (arith, tally-update n (b t) i d x lt e)

  pub tally-le-cast :
      (u x : ℕ) → i < n → b t i ≡ none → tally n (b u) x ≤ tally n (cast b i t d u) x
  tally-le-cast u x lt e = omega (arith, tally-cast u x lt e)

-- No candidate of any term has fewer ballots in `b'` than in `b`.
abbrev pub Grows : ℕ → Ballots → Ballots → Type 0
Grows n b b' = (t x : ℕ) → tally n (b t) x ≤ tally n (b' t) x
