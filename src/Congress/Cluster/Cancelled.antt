-- ===== src/Congress/Cluster/Cancelled.antt =====
-- What a handler that is cancelled means to the election.
use mathlib.Core.Path.{subst}
use drawbridge_ingress.Prelude.{
  ℕ, ◌≤◌, ◌≡◌, ◌≢◌, refl, inl, inr, Bool-cases, List, [], ◌∷◌, arith, All, Among, leb,
}
use drawbridge_ingress.Congress.Types.{
  Role, leader, follower, candidate, MessageType, leader_heartbeat, vote_request, vote_granted,
  custom, Message, Senator, Env,
}
use drawbridge_ingress.Congress.Task.{
  Pc, start_loop, follower_loop, follower_wait, candidate_loop, candidate_wait, leader_loop,
  leader_check, leader_wait, Event, turn, recv, Node, at,
}
use drawbridge_ingress.Congress.Candidate.{votes_needed}
use drawbridge_ingress.Congress.Waiting.{Agrees}
use drawbridge_ingress.Congress.Cuts.{vote_cuts, candidate_cuts, recv_cuts, win_cuts}
use drawbridge_ingress.Congress.Cluster.{sent, NoLeader}
use drawbridge_ingress.Congress.Cluster.Moves.{Move, quiet, win}

module _ {ℓ} {Msg : Type ℓ} (env : Env) where
  -- The task that is left stands where its role may be, after a move of the election.
  abbrev pub IsLeft : Event Msg → Node → Node → Type ℓ
  IsLeft e nd nd' = Move env e nd nd' [] × Agrees nd'.pc nd'.role

module _ {ℓ} {Msg : Type ℓ} (env : Env) (s : Senator) (l : Role) (m : Message Msg) where
  -- A candidate is left in the term of the message, and does not lead.
  lower :
      {v d : ℕ} {k : MessageType Msg} (nd' : Node)
      → nd'.pc ≡ start_loop
      → s.term ≤ nd'.term
      → nd'.term ≤ m.term
      → nd'.role ≢ leader
      → IsLeft env (recv (record m { msg = k })) (at s candidate (candidate_wait v d) l) nd'
  unfolding sent
  lower nd' out up low on =
      (quiet up (inr low) refl (λ t. rw out (ground arith)) (λ h. absurd (on h)), rw out tt)

  candidate_cuts-IsLeft :
      (v d : ℕ) (k : MessageType Msg)
      → All (IsLeft env (recv (record m { msg = k })) (at s candidate (candidate_wait v d) l)) (
          recv_cuts env
            (record m { msg = k })
            (candidate_wait v d)
            (at s candidate (candidate_wait v d) l))
  unfolding recv_cuts candidate_cuts vote_cuts sent
  candidate_cuts-IsLeft v d leader_heartbeat = elim (Bool-cases (leb d env.now)) [
    | inr early ↦ rw early tt
    | inl due ↦ elim (Bool-cases (leb s.term m.term)) [
      | inr old ↦ rw due (rw old tt)
      | inl later ↦ rw due (
          rw later (
            lower _ refl (ground arith) (omega arith) (λ p. cc),
            (
              lower _ refl (ground arith) (omega arith) (λ p. cc),
              (lower _ refl (ground arith) (omega arith) (λ p. cc), tt),
            ),
          ))
    ]
  ]
  candidate_cuts-IsLeft v d vote_request = elim (Bool-cases (leb d env.now)) [
    | inr early ↦ rw early tt
    | inl due ↦ elim (Bool-cases (leb m.term s.term)) [
      | inl old ↦ rw due (rw old tt)
      | inr later ↦ rw due (
          rw later (
            lower _ refl (ground arith) (omega arith) (λ p. cc),
            (lower _ refl (ground arith) (omega arith) (λ p. cc), tt),
          ))
    ]
  ]
  candidate_cuts-IsLeft v d vote_granted = ground arith
  candidate_cuts-IsLeft v d (custom x) = ground arith

  recv_cuts-IsLeft :
      (r : Role) (p : Pc) (k : MessageType Msg)
      → Agrees p r
      → NoLeader (at s r p l)
      → All
          (IsLeft env (recv (record m { msg = k })) (at s r p l))
          (recv_cuts env (record m { msg = k }) p (at s r p l))
  recv_cuts-IsLeft candidate (candidate_wait v d) k h on = candidate_cuts-IsLeft v d k
  recv_cuts-IsLeft leader (candidate_wait v d) k h on = elim h [ ]
  recv_cuts-IsLeft follower (candidate_wait v d) k h on = elim h [ ]
  recv_cuts-IsLeft leader (leader_wait d) k h on = elim (on refl) [ ]
  recv_cuts-IsLeft candidate (leader_wait d) k h on = elim h [ ]
  recv_cuts-IsLeft follower (leader_wait d) k h on = elim h [ ]
  recv_cuts-IsLeft r start_loop k h on = unfold recv_cuts in tt
  recv_cuts-IsLeft r follower_loop k h on = unfold recv_cuts in tt
  recv_cuts-IsLeft r follower_wait k h on = unfold recv_cuts in tt
  recv_cuts-IsLeft r (candidate_loop v d) k h on = unfold recv_cuts in tt
  recv_cuts-IsLeft r leader_loop k h on = unfold recv_cuts in tt
  recv_cuts-IsLeft r (leader_check d) k h on = unfold recv_cuts in tt

module _ {ℓ} (Msg : Type ℓ) (env : Env) (s : Senator) (l : Role) where
  candidate_win_cuts-IsLeft :
      (v d : ℕ)
      → All
          (IsLeft {Msg = Msg} env turn (at s candidate (candidate_loop v d) l))
          (win_cuts env (candidate_loop v d) (at s candidate (candidate_loop v d) l))
  unfolding win_cuts sent
  candidate_win_cuts-IsLeft v d = elim (Bool-cases (leb d env.now)) [
    | inr early ↦ rw early tt
    | inl due ↦ elim (Bool-cases (leb (votes_needed env.members) v)) [
      | inl enough ↦ rw due (rw enough ((win refl refl (λ t. ground arith) (ground arith), tt), tt))
      | inr more ↦ rw due (rw more tt)
    ]
  ]

  win_cuts-IsLeft :
      (r : Role) (p : Pc)
      → All (IsLeft {Msg = Msg} env turn (at s r p l)) (win_cuts env p (at s r p l))
  win_cuts-IsLeft candidate (candidate_loop v d) = candidate_win_cuts-IsLeft v d
  win_cuts-IsLeft leader (candidate_loop v d) = unfold win_cuts in ground arith
  win_cuts-IsLeft follower (candidate_loop v d) = unfold win_cuts in ground arith
  win_cuts-IsLeft r start_loop = unfold win_cuts in tt
  win_cuts-IsLeft r follower_loop = unfold win_cuts in tt
  win_cuts-IsLeft r follower_wait = unfold win_cuts in tt
  win_cuts-IsLeft r (candidate_wait v d) = unfold win_cuts in tt
  win_cuts-IsLeft r leader_loop = unfold win_cuts in tt
  win_cuts-IsLeft r (leader_check d) = unfold win_cuts in tt
  win_cuts-IsLeft r (leader_wait d) = unfold win_cuts in tt

-- One of a list.
All-Among {κ} : {A : Type 0} (P : A → Type κ) (a : A) (as' : List A) → All P as' → Among a as' → P a
All-Among P a [] h among = elim among [ ]
All-Among P a (x ∷ xs) h (inl this) = subst P this h.0
All-Among P a (x ∷ xs) h (inr later) = All-Among P a xs h.1 later

module _ {ℓ} {Msg : Type ℓ} (env : Env) where
  pub cut-IsLeft :
      (m : Message Msg) (nd nd' : Node)
      → Agrees nd.pc nd.role
      → NoLeader nd
      → Among nd' (recv_cuts env m nd.pc nd)
      → IsLeft env (recv m) nd nd'
  cut-IsLeft m nd nd' h on among =
      All-Among (IsLeft env (recv m) nd) nd' (recv_cuts env m nd.pc nd)
        (recv_cuts-IsLeft env nd.senator nd.last_role m nd.role nd.pc m.msg h on) among

  pub cut_win-IsLeft :
      (nd nd' : Node) → Among nd' (win_cuts env nd.pc nd) → IsLeft {Msg = Msg} env turn nd nd'
  cut_win-IsLeft nd nd' among =
      All-Among (IsLeft {Msg = Msg} env turn nd) nd' (win_cuts env nd.pc nd)
        (win_cuts-IsLeft Msg env nd.senator nd.last_role nd.role nd.pc) among
