-- ===== src/Congress/Cluster/Effects.antt =====
-- What the effects of a step put on the wire and into the spawned tasks.
use drawbridge_ingress.Prelude.{
  ℕ, ◌≡◌, refl, inl, inr, false, List, [], ◌∷◌, ◌++◌, map, arith, Bool-cases, All, All-append,
}
use drawbridge_ingress.Congress.Types.{
  NodeId, Role, role_eq, MessageType, Message, Senator, Effect, spawn_send, call_role, call_message,
}
use drawbridge_ingress.Congress.Run.{notify_role}
use drawbridge_ingress.Congress.Cluster.{sent}
use drawbridge_ingress.Congress.Cluster.Moves.{is_grant, IsSpawn}

-- Broadcasts and calls of listeners send nothing at once.
module _ {ℓ} {Msg : Type ℓ} where
  pub sent-append : (xs ys : List (Effect Msg)) → sent (xs ++ ys) ≡ sent xs ++ sent ys
  unfolding sent
  sent-append [] ys = refl
  sent-append (x ∷ xs) ys = ground (arith, sent-append xs ys)

  pub sent-spawns :
      (t : ℕ) (m : MessageType Msg) (ps : List NodeId) → sent (map (λ p. spawn_send p t m) ps) ≡ []
  unfolding sent
  sent-spawns t m [] = refl
  sent-spawns t m (p ∷ ps) = sent-spawns t m ps

  pub sent-calls : (m : Message Msg) (fs : List ℕ) → sent (map (λ f. call_message f m) fs) ≡ []
  unfolding sent
  sent-calls m [] = refl
  sent-calls m (f ∷ fs) = sent-calls m fs

  pub spawns-IsSpawn :
      (t : ℕ) (m : MessageType Msg) (ps : List NodeId)
      → is_grant m ≡ false
      → All (IsSpawn t) (map (λ p. spawn_send p t m) ps)
  spawns-IsSpawn t m [] h = tt
  spawns-IsSpawn t m (p ∷ ps) h = ((refl, h), spawns-IsSpawn t m ps h)

  pub calls-IsSpawn :
      (t : ℕ) (m : Message Msg) (fs : List ℕ) → All (IsSpawn t) (map (λ f. call_message f m) fs)
  calls-IsSpawn t m [] = tt
  calls-IsSpawn t m (f ∷ fs) = (tt, calls-IsSpawn t m fs)

module _ {ℓ} (Msg : Type ℓ) where
  pub sent-role_calls :
      (r : Role) (fs : List ℕ) → sent {Msg = Msg} (map (λ f. call_role f r) fs) ≡ []
  unfolding sent
  sent-role_calls r [] = refl
  sent-role_calls r (f ∷ fs) = sent-role_calls r fs

  pub role_calls-IsSpawn :
      (t : ℕ) (r : Role) (fs : List ℕ) → All (IsSpawn {Msg = Msg} t) (map (λ f. call_role f r) fs)
  role_calls-IsSpawn t r [] = tt
  role_calls-IsSpawn t r (f ∷ fs) = (tt, role_calls-IsSpawn t r fs)

module _ {ℓ} {Msg : Type ℓ} where
  -- The calls of `on_role` in front of other effects.
  pub sent-notify_role :
      (l : Role) (s : Senator) (es : List (Effect Msg)) → sent (notify_role l s ++ es) ≡ sent es
  unfolding notify_role
  sent-notify_role l s es = elim (Bool-cases (role_eq l s.role)) [
    | inl same ↦ rw same refl
    | inr changed ↦ rw (changed, sent-append, sent-role_calls Msg s.role s.on_role) refl
  ]

  pub notify_role-IsSpawn :
      (t : ℕ) (l : Role) (s : Senator) (es : List (Effect Msg))
      → All (IsSpawn t) es
      → All (IsSpawn t) (notify_role l s ++ es)
  unfolding notify_role
  notify_role-IsSpawn t l s es h = elim (Bool-cases (role_eq l s.role)) [
    | inl same ↦ rw same h
    | inr changed ↦
        rw changed (All-append (IsSpawn t) _ es (role_calls-IsSpawn Msg t s.role s.on_role) h)
  ]
