-- ===== src/Congress/Cluster/Ballots.antt =====
-- Who voted for whom: the ballots of one term, one for each voter, and their tally.
use drawbridge_ingress.Prelude.{
  ℕ, zero, suc, ◌+◌, ◌≤◌, ◌<◌, ◌≡◌, ◌≢◌, refl, Option, none, some, arith, ◌==◌, if◌then◌else◌,
  dec_lt,
}
use drawbridge_ingress.Congress.Cluster.{update}

-- One ballot, counted for candidate `c`.
abbrev pub voted : Option ℕ → ℕ → ℕ
voted none c = 0
voted (some d) c = if d == c then 1 else 0

-- The ballots of the voters below `n` for candidate `c`.
unfoldable pub tally : ℕ → (ℕ → Option ℕ) → ℕ → ℕ
tally zero b c = 0
tally (suc n) b c = tally n b c + voted (b n) c

tally-update_of_le :
    (n : ℕ) (b : ℕ → Option ℕ) (v : ℕ) (o : Option ℕ) (c : ℕ)
    → n ≤ v
    → tally n (update b v o) c ≡ tally n b c
unfolding tally
tally-update_of_le zero b v o c h = refl
tally-update_of_le (suc n) b v o c h = ground (arith, tally-update_of_le n b v o c)

-- A voter that had no ballot casts one.
pub tally-update :
    (n : ℕ) (b : ℕ → Option ℕ) (v d c : ℕ)
    → v < n
    → b v ≡ none
    → tally n (update b v (some d)) c ≡ tally n b c + voted (some d) c
unfolding tally
tally-update zero b v d c lt e = elim lt [ ]
tally-update (suc n) b v d c lt e = elim (dec_lt v n) [
  | yes below ↦ ground (arith, tally-update n b v d c below e)
  | no last ↦ ground (arith, tally-update_of_le n b v (some d) c)
]

-- Each voter has one ballot, so two candidates share the voters.
pub tally-add-le : (n : ℕ) (b : ℕ → Option ℕ) (c d : ℕ) → c ≢ d → tally n b c + tally n b d ≤ n
unfolding tally
tally-add-le zero b c d h = omega arith
tally-add-le (suc n) b c d h = ground (arith, tally-add-le n b c d h)

pub tally-eq-zero : (n : ℕ) (b : ℕ → Option ℕ) (c : ℕ) → ((v : ℕ) → b v ≡ none) → tally n b c ≡ 0
unfolding tally
tally-eq-zero zero b c h = refl
tally-eq-zero (suc n) b c h = ground (arith, tally-eq-zero n b c h, h n)
