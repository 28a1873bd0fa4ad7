-- ===== src/Ingress/Cluster.antt =====
-- The ingresses of a cluster together: drawbridge_ingress/src/leadership_system.rs at each of them,
-- with drawbridge_ingress/src/lets_encrypt.rs, over a network that delays, reorders and loses. The
-- elections are left open here: a senator may change at any time in any way. A challenge that is
-- prepared while certificates are looked for is a step of its own before that step.
pub mod Invariant
pub mod Messages
pub mod Steps
pub mod Served
pub mod Issued
pub mod Kept
mod Tests
use drawbridge_ingress.Prelude.{
  ℕ, ◌≡◌, Bool, true, false, Option, none, some, List, [], ◌∷◌, ◌++◌, ◌⊎◌, ◌==◌, if◌then◌else◌,
}
use drawbridge_ingress.Prelude.Maps.{String}
use drawbridge_ingress.Prelude.Action.{Action}
use drawbridge_ingress.Congress.Types.{
  NodeId, Senator, MessageType, custom, leader_heartbeat, vote_request, vote_granted, Effect, send,
  spawn_send, call_role, call_message,
}
use drawbridge_ingress.Letsencrypt.{LetsEncryptError}
use drawbridge_ingress.Letsencrypt.Certificate.{Certificate}
use drawbridge_ingress.Ingress.Certificates.{
  Http01Challenge, CertKey, CertificateState, new as no_state,
}
use drawbridge_ingress.Ingress.Generator.{Libraries, SecretsApi, get_certs}
use drawbridge_ingress.Ingress.Leadership.{
  Views, IngressMessage, LeadershipSystem, on_message, prepare_challenge, handle_change,
}
use drawbridge_ingress.Ingress.Leadership.Certified.{check}

-- A message of an ingress on its way, with its term.
pub record Sent (Key : Type 0) : Type 0 where
  pub to : NodeId
  pub term : ℕ
  pub msg : IngressMessage Key

-- `prepared` are the challenges that were prepared anywhere, the latest first.
pub record Cluster (Key : Type 0) : Type 0 where
  pub node : ℕ → LeadershipSystem Key
  pub wire : List (Sent Key)
  pub prepared : List Http01Challenge

module _ {Key : Type 0} where
  -- The messages among the effects of an ingress: each is sent by a task that is spawned.
  unfoldable pub sent_by : Effect (IngressMessage Key) → List (Sent Key)
  sent_by (spawn_send to term (custom m)) = record { to = to; term = term; msg = m } ∷ []
  sent_by (spawn_send to term leader_heartbeat) = []
  sent_by (spawn_send to term vote_request) = []
  sent_by (spawn_send to term vote_granted) = []
  sent_by (send m) = []
  sent_by (call_role f r) = []
  sent_by (call_message f m) = []

  unfoldable pub sent_of : List (Effect (IngressMessage Key)) → List (Sent Key)
  unfolding sent_by
  sent_of [] = []
  sent_of (e ∷ es) = sent_by e ++ sent_of es

  abbrev pub set_node :
      (ℕ → LeadershipSystem Key) → ℕ → LeadershipSystem Key → ℕ → LeadershipSystem Key
  set_node node i l j = if i == j then l else node j

  -- An ingress is as it is after its step, and its messages are on their way.
  unfoldable pub put :
      ℕ → LeadershipSystem Key → List (Effect (IngressMessage Key)) → Cluster Key → Cluster Key
  unfolding sent_of
  put i l es c = record c { node = set_node c.node i l; wire = c.wire ++ sent_of es }

  -- `LeadershipSystem::new`, of the pod's name and its new senator.
  unfoldable pub new : String → Senator → LeadershipSystem Key
  unfolding no_state
  new name senator = record {
    certificate_state = no_state;
    current_pod_name = name;
    senator = senator;
    cert_generator = false;
  }

  -- What `start` makes of it: the certificates are those of the cluster's secret.
  unfoldable pub start : List (String × CertKey Key) → LeadershipSystem Key → LeadershipSystem Key
  start m l = record l { certificate_state = record l.certificate_state { certs = m } }

  unfoldable pub init : (ℕ → String) → (ℕ → Senator) → Cluster Key
  unfolding new
  init name senator = record { node = λ i. new (name i) (senator i); wire = []; prepared = [] }

-- What an ingress does with a message that comes in, at a cluster whose wire is without it.
module _ {Key : Type 0} where
  unfoldable pub deliver : Views → Sent Key → Cluster Key → Cluster Key
  unfolding put on_message
  deliver views m c =
      let (l, es) = on_message views m.term (custom m.msg) (c.node m.to) in put m.to l es c

  unfoldable pub prepare : List NodeId → ℕ → Http01Challenge → Cluster Key → Cluster Key
  unfolding put prepare_challenge
  prepare members i ch c =
      let (l, es) = prepare_challenge members ch (c.node i) in
      put i l es (record c { prepared = ch ∷ c.prepared })

module _ {Key W : Type 0} (lib : Libraries Key) (secrets : SecretsApi W)
    (issue : String → Action W LetsEncryptError Certificate) where
  -- `handle_change`, in which `CertGenerator::create` reads the certificates `m`, and the check for
  -- new certificates of the hosts runs in the world `w`.
  unfoldable pub change :
      Views
      → ℕ
      → List (String × CertKey Key)
      → List String
      → W
      → Senator
      → Cluster Key
      → Cluster Key
  unfolding put handle_change check
  change views i m hosts w later c =
      let l = c.node i in
      let (l', es, done) =
        handle_change (λ s. record s { certs = m })
          (check lib secrets issue (λ _. l.certificate_state.challenges) hosts w) later views l in
      put i l' es c

-- A run of the cluster, in which the secret is read in the worlds `ReadIn`.
module _ {Key W : Type 0} (lib : Libraries Key) (secrets : SecretsApi W)
    (issue : String → Action W LetsEncryptError Certificate) (ReadIn : W → Type 0) where
  pub data Step (c : Cluster Key) : Cluster Key → Type 0 where
    moves :
        (i : ℕ) (senator : Senator) → Step c (put i (record (c.node i) { senator = senator }) [] c)
    starts :
        (i : ℕ) (name : String) (senator : Senator) (w : W) (m : List (String × CertKey Key))
        → ReadIn w
        → get_certs lib secrets w ≡ some m
        → Step c (put i (start m (new name senator)) [] c)
    prepares :
        (members : List NodeId) (i : ℕ) (ch : Http01Challenge) → Step c (prepare members i ch c)
    changes :
        (views : Views) (i : ℕ) (m : List (String × CertKey Key)) (hosts : List String) (read w : W)
        (later : Senator)
        → ((c.node i).cert_generator ≡ true) ⊎ (ReadIn read × (get_certs lib secrets read ≡ some m))
        → Step c (change lib secrets issue views i m hosts w later c)
    delivers :
        (views : Views) (m : Sent Key) (before after : List (Sent Key))
        → c.wire ≡ before ++ m ∷ after
        → Step c (deliver views m (record c { wire = before ++ after }))
    loses :
        (m : Sent Key) (before after : List (Sent Key))
        → c.wire ≡ before ++ m ∷ after
        → Step c (record c { wire = before ++ after })

  pub data Reachable (name : ℕ → String) (senator : ℕ → Senator) : Cluster Key → Type 0 where
    begins : Reachable name senator (init name senator)
    next : {c d : Cluster Key} → Reachable name senator c → Step c d → Reachable name senator d
