-- ===== src/Congress/Cluster/Preserve.antt =====
-- A move of one node keeps the invariant of the election.
use drawbridge_ingress.Prelude.{
  ℕ, suc, ◌+◌, ◌*◌, ◌≤◌, ◌<◌, ◌≡◌, ◌⊎◌, inl, inr, true, none, List, [], ◌∷◌, arith, ◌==◌,
  if◌then◌else◌, u64_mod, weigh, weigh-append, All, All-append, All-mono, Bool-cases, ==_iff,
}
use drawbridge_ingress.Congress.Types.{
  leader, Message, Effect, send, spawn_send, call_role, call_message, Env,
}
use drawbridge_ingress.Congress.Task.{Event, Node}
use drawbridge_ingress.Congress.Candidate.{votes_needed}
use drawbridge_ingress.Congress.Waiting.{Agrees}
use drawbridge_ingress.Congress.Cluster.{Cluster, sent, tasks, put, Sees}
use drawbridge_ingress.Congress.Cluster.Ballots.{tally}
use drawbridge_ingress.Congress.Cluster.Moves.{
  is_grant, standing, credit, event_term, IsSpawn, Move, quiet, vote, campaign, win,
}
use drawbridge_ingress.Congress.Cluster.Invariant.{
  grant, Ballots, IsLow, IsTask, Inv, Ready, Grows, cast, tally-cast, tally-le-cast,
}

module _ {ℓ} {Msg : Type ℓ} (k i t : ℕ) (le : t ≤ suc k) where
  tasks-IsSpawn : (es : List (Effect Msg)) → All (IsSpawn t) es → All (IsTask (suc k)) (tasks i es)
  unfolding tasks
  tasks-IsSpawn [] h = tt
  tasks-IsSpawn (send m ∷ es) h = tasks-IsSpawn es h.1
  tasks-IsSpawn (spawn_send to u m ∷ es) h =
      let here = h.0 in ((omega arith, here.1), tasks-IsSpawn es h.1)
  tasks-IsSpawn (call_role f r ∷ es) h = tasks-IsSpawn es h.1
  tasks-IsSpawn (call_message f m ∷ es) h = tasks-IsSpawn es h.1

-- Node `i` moves to `nd`: the fields of the invariant.
module _ {ℓ} {Msg : Type ℓ} {n k : ℕ} {c : Cluster Msg} {i : ℕ} {e : Event Msg} {b : Ballots}
    (r : Ready n k c i e b) (nd : Node) (es : List (Effect Msg)) where
  put-Agrees :
      Agrees nd.pc nd.role
      → (j : ℕ) → Agrees ((put c i nd es).node j).pc ((put c i nd es).node j).role
  unfolding put
  put-Agrees h j = elim (Bool-cases (i == j)) [
    | inl same ↦ rw same h
    | inr other ↦ rw other (r.agrees j)
  ]

  put-low : nd.term ≤ suc k → (j : ℕ) → ((put c i nd es).node j).term ≤ suc k
  unfolding put
  put-low h j = ground (arith, r.low j)

  put-IsLow : All (IsLow (suc k)) (sent es) → All (IsLow (suc k)) (put c i nd es).wire
  unfolding put
  put-IsLow h =
      All-append (IsLow (suc k)) c.wire (sent es)
        (All-mono (IsLow k) (IsLow (suc k)) (λ m p. omega arith) c.wire r.low_wire) h

  put-IsTask :
      nd.term ≤ suc k → All (IsSpawn nd.term) es → All (IsTask (suc k)) (put c i nd es).spawned
  unfolding put
  put-IsTask le h =
      All-append (IsTask (suc k)) c.spawned (tasks i es)
        (All-mono (IsTask k) (IsTask (suc k)) (λ p q. (omega arith, q.1)) c.spawned r.low_spawned)
        (tasks-IsSpawn k i nd.term le es h)

  quiet_unused :
      (c.node i).term ≤ nd.term → (v t : ℕ) → ((put c i nd es).node v).term < t → b t v ≡ none
  unfolding put
  quiet_unused h v t p = ground (arith, r.unused v t)

  quiet_counted :
      sent es ≡ []
      → ((t : ℕ) → standing nd t ≤ standing (c.node i) t + credit e t)
      → (j t : ℕ)
      → weigh (grant j t) (put c i nd es).wire + standing ((put c i nd es).node j) t
        ≤ tally n (b t) j
  unfolding put
  quiet_counted s h j t =
      rw s (ground (arith, r.counted j t, h t, weigh-append (grant j t) c.wire []))

  quiet_elected :
      (nd.role ≡ leader → ((c.node i).role ≡ leader) × (nd.term ≡ (c.node i).term))
      → (j : ℕ) → ((put c i nd es).node j).role ≡ leader
      → n < 2 * tally n (b ((put c i nd es).node j).term) j
  unfolding put
  quiet_elected h j p = ground (arith, r.elected j, h)

-- Node `i` gives its vote: the message `m` is sent, and the ballot is cast.
module _ {ℓ} {Msg : Type ℓ} {n k : ℕ} {c : Cluster Msg} {i : ℕ} {e : Event Msg} {b : Ballots}
    (r : Ready n k c i e b) (nd : Node) (es : List (Effect Msg)) (lt : i < n)
    (up : (c.node i).term < nd.term) where
  fresh : b nd.term i ≡ none
  fresh = r.unused i nd.term up

  cast_unused : (d v t : ℕ) → ((put c i nd es).node v).term < t → cast b i nd.term d t v ≡ none
  unfolding put cast
  cast_unused d v t p = ground (arith, r.unused v t)

  vote_counted :
      (m : Message Msg)
      → sent es ≡ m ∷ []
      → (is_grant m.msg ≡ true) × (m.term ≡ nd.term)
      → ((t : ℕ) → standing nd t ≡ 0)
      → (j t : ℕ)
      → weigh (grant j t) (put c i nd es).wire + standing ((put c i nd es).node j) t
        ≤ tally n (cast b i nd.term m.to t) j
  unfolding put
  vote_counted m s g z j t = rw s (
      ground (
        arith,
        g,
        z t,
        r.counted j t,
        weigh-append (grant j t) c.wire (m ∷ []),
        tally-cast n b i nd.term m.to t j lt fresh,
      ))

  campaign_counted :
      sent es ≡ []
      → ((t : ℕ) → standing nd t ≡ (if nd.term == t then 1 else 0))
      → (j t : ℕ)
      → weigh (grant j t) (put c i nd es).wire + standing ((put c i nd es).node j) t
        ≤ tally n (cast b i nd.term i t) j
  unfolding put
  campaign_counted s z j t = rw s (
      ground (
        arith,
        z t,
        r.counted j t,
        weigh-append (grant j t) c.wire [],
        tally-cast n b i nd.term i t j lt fresh,
      ))

  cast_elected :
      (d : ℕ)
      → (nd.role ≡ leader → ⊥)
      → (j : ℕ) → ((put c i nd es).node j).role ≡ leader
      → n < 2 * tally n (cast b i nd.term d ((put c i nd es).node j).term) j
  unfolding put
  cast_elected d h j p = elim (Bool-cases (i == j)) [
    | inl same ↦ absurd (h (rw same at p))
    | inr other ↦ rw other (
        omega (
          arith,
          r.elected j (rw other at p),
          tally-le-cast n b i nd.term d (c.node j).term j lt fresh,
        ))
  ]

-- A campaign that has the votes that it needs has a majority of the ballots.
win_elected {ℓ} :
    {Msg : Type ℓ} {n k : ℕ} {c : Cluster Msg} {i : ℕ} {e : Event Msg} {b : Ballots}
    (r : Ready n k c i e b) (env : Env) (nd : Node) (es : List (Effect Msg))
    → Sees n env
    → nd.term ≡ (c.node i).term
    → votes_needed env.members ≤ standing (c.node i) (c.node i).term
    → (j : ℕ) → ((put c i nd es).node j).role ≡ leader
    → n < 2 * tally n (b ((put c i nd es).node j).term) j
unfolding put votes_needed
win_elected {c} {i} r env nd es sees same votes j p = elim (Bool-cases (i == j)) [
  | inl here ↦ rw here (ground (arith, r.counted i (c.node i).term, (==_iff i j).0 here))
  | inr other ↦ rw other (r.elected j (rw other at p))
]

-- A step that gives no vote, starts no campaign and wins none.
module _ {ℓ} {Msg : Type ℓ} {n k : ℕ} {c : Cluster Msg} {i : ℕ} {e : Event Msg} {b : Ballots}
    (r : Ready n k c i e b) (nd : Node) (es : List (Effect Msg)) (spawns : All (IsSpawn nd.term) es)
    (agrees : Agrees nd.pc nd.role) where
  pub quiet_Inv :
      (c.node i).term ≤ nd.term
      → (nd.term ≡ (c.node i).term) ⊎ (nd.term ≤ event_term e)
      → sent es ≡ []
      → ((t : ℕ) → standing nd t ≤ standing (c.node i) t + credit e t)
      → (nd.role ≡ leader → ((c.node i).role ≡ leader) × (nd.term ≡ (c.node i).term))
      → Inv n (suc k) (put c i nd es) b
  quiet_Inv up source s z h =
      let low : nd.term ≤ suc k = ground (arith, r.low i, r.low_event) in
      record {
        agrees = put-Agrees r nd es agrees;
        unused = quiet_unused r nd es up;
        counted = quiet_counted r nd es s z;
        elected = quiet_elected r nd es h;
        low = put-low r nd es low;
        low_wire = put-IsLow r nd es (rw s tt);
        low_spawned = put-IsTask r nd es low spawns;
      }

module _ {ℓ} {Msg : Type ℓ} {n k : ℕ} {c : Cluster Msg} {i : ℕ} {e : Event Msg} {b : Ballots}
    (r : Ready n k c i e b) (env : Env) (nd : Node) (es : List (Effect Msg)) (lt : i < n)
    (sees : Sees n env) (small : suc k < u64_mod) (spawns : All (IsSpawn nd.term) es)
    (agrees : Agrees nd.pc nd.role) where
  pub put-Inv :
      Move env e (c.node i) nd es → (b' : Ballots) × Inv n (suc k) (put c i nd es) b' × Grows n b b'
  put-Inv (quiet up source s z h) =
      (b, quiet_Inv r nd es spawns agrees up source s z h, λ t x. omega arith)
  put-Inv (vote m up source s g role z) =
      let low : nd.term ≤ suc k = omega (arith, r.low_event) in
      (
        cast b i nd.term m.to,
        record {
          agrees = put-Agrees r nd es agrees;
          unused = cast_unused r nd es lt up m.to;
          counted = vote_counted r nd es lt up m s g z;
          elected = cast_elected r nd es lt up m.to (λ p. cc);
          low = put-low r nd es low;
          low_wire = put-IsLow r nd es (rw s (omega (arith, g.1), tt));
          low_spawned = put-IsTask r nd es low spawns;
        },
        λ t x. tally-le-cast n b i nd.term m.to t x lt (r.unused i nd.term up),
      )
  put-Inv (campaign next s role z) =
      let up : (c.node i).term < nd.term = omega (arith, r.low i) in
      let low : nd.term ≤ suc k = omega (arith, r.low i) in
      (
        cast b i nd.term i,
        record {
          agrees = put-Agrees r nd es agrees;
          unused = cast_unused r nd es lt up i;
          counted = campaign_counted r nd es lt up s z;
          elected = cast_elected r nd es lt up i (λ p. cc);
          low = put-low r nd es low;
          low_wire = put-IsLow r nd es (rw s tt);
          low_spawned = put-IsTask r nd es low spawns;
        },
        λ t x. tally-le-cast n b i nd.term i t x lt (r.unused i nd.term up),
      )
  put-Inv (win same s z votes) =
      let low : nd.term ≤ suc k = omega (arith, r.low i) in
      (
        b,
        record {
          agrees = put-Agrees r nd es agrees;
          unused = quiet_unused r nd es (omega arith);
          counted = quiet_counted r nd es s (λ t. omega (arith, z t));
          elected = win_elected r env nd es sees same votes;
          low = put-low r nd es low;
          low_wire = put-IsLow r nd es (rw s tt);
          low_spawned = put-IsTask r nd es low spawns;
        },
        λ t x. omega arith,
      )
