-- ===== src/Prelude/Maps.antt =====
-- `HashMap` as an association list, over keys with a test of equality. The order of the entries,
-- which a `HashMap` leaves open, is that of the list.
use Prim.Native.Nat.{ℕ}
pub use Prim.Native.String.{String}
use mathlib.Core.Path.{◌≡◌, refl, sym, ◌∙◌, subst}
use mathlib.Core.Logic.{◌↔◌, inl, inr}
use mathlib.Core.Bool.{Bool, true, false, ◌&&◌}
use mathlib.Core.Option.{Option, none, some}
use mathlib.Core.List.{List, [], ◌∷◌, ◌++◌}
use native.Mathlib.Omega.{arith}
pub use text.Mathlib.Text.{◌==◌ as str_eq}
pub use text.Mathlib.TextEquality.{eq_iff}
use drawbridge_ingress.Prelude.Tests.{◌==◌, ==_iff, if◌then◌else◌, Bool-cases}
use drawbridge_ingress.Prelude.Lists.{All}

pub record Eq {ℓ} (A : Type ℓ) : Type ℓ where
  pub beq : A → A → Bool
  pub beq_iff : (a b : A) → (beq a b ≡ true) ↔ (a ≡ b)

instance abbrev pub nat_eq : Eq ℕ
nat_eq = record { beq = ◌==◌; beq_iff = ==_iff }

instance abbrev pub string_eq : Eq String
string_eq = record { beq = str_eq; beq_iff = eq_iff }

abbrev pub pair_beq : String × String → String × String → Bool
pair_beq (a, b) (c, d) = str_eq a c && str_eq b d

pub pair_beq_iff : (p q : String × String) → (pair_beq p q ≡ true) ↔ (p ≡ q)
pair_beq_iff (a, b) (c, d) = ground (arith, eq_iff a c, eq_iff b d)

instance abbrev pub pair_eq : Eq (String × String)
pair_eq = record { beq = pair_beq; beq_iff = pair_beq_iff }

pub beq_refl {ℓ} : {K : Type ℓ} ⦃e : Eq K⦄ (k : K) → e.beq k k ≡ true
beq_refl ⦃e⦄ k = (e.beq_iff k k).1 refl

module _ {ℓ κ} {K : Type ℓ} {V : Type κ} ⦃e : Eq K⦄ where
  -- `get`
  unfoldable pub lookup : K → List (K × V) → Option V
  lookup k [] = none
  lookup k ((j, v) ∷ m) = if e.beq j k then some v else lookup k m

  -- `remove`
  unfoldable pub remove : K → List (K × V) → List (K × V)
  remove k [] = []
  remove k ((j, v) ∷ m) = let rest = remove k m in if e.beq j k then rest else (j, v) ∷ rest

  -- `insert`, in place of an entry that is there.
  unfoldable pub insert : K → V → List (K × V) → List (K × V)
  insert k v [] = (k, v) ∷ []
  insert k v ((j, w) ∷ m) = if e.beq j k then (k, v) ∷ m else (j, w) ∷ insert k v m

  pub lookup-remove :
      (k j : K) (m : List (K × V))
      → lookup j (remove k m) ≡ (if e.beq k j then none else lookup j m)
  unfolding lookup remove
  lookup-remove k j [] = ground arith
  lookup-remove k j ((i, v) ∷ m) =
      ground (arith, lookup-remove k j m, e.beq_iff i k, e.beq_iff i j, e.beq_iff k j)

  pub lookup-insert :
      (k j : K) (v : V) (m : List (K × V))
      → lookup j (insert k v m) ≡ (if e.beq k j then some v else lookup j m)
  unfolding lookup insert
  lookup-insert k j v [] = refl
  lookup-insert k j v ((i, w) ∷ m) =
      ground (arith, lookup-insert k j v m, e.beq_iff i k, e.beq_iff i j, e.beq_iff k j)

  -- A property of every entry.
  pub All-remove {μ} :
      (P : K × V → Type μ) (k : K) (m : List (K × V)) → All P m → All P (remove k m)
  unfolding remove
  All-remove P k [] h = tt
  All-remove P k ((j, v) ∷ m) h = elim (Bool-cases (e.beq j k)) [
    | inl same ↦ rw same (All-remove P k m h.1)
    | inr other ↦ rw other (h.0, All-remove P k m h.1)
  ]

  pub All-insert {μ} :
      (P : K × V → Type μ) (k : K) (v : V) (m : List (K × V))
      → P (k, v)
      → All P m
      → All P (insert k v m)
  unfolding insert
  All-insert P k v [] p h = (p, tt)
  All-insert P k v ((j, w) ∷ m) p h = elim (Bool-cases (e.beq j k)) [
    | inl same ↦ rw same (p, h.1)
    | inr other ↦ rw other (h.0, All-insert P k v m p h.1)
  ]

  pub All-lookup {μ} :
      (P : K × V → Type μ) (k : K) (v : V) (m : List (K × V))
      → All P m
      → lookup k m ≡ some v
      → P (k, v)
  unfolding lookup
  All-lookup P k v [] h found = cc
  All-lookup P k v ((j, w) ∷ m) h found = elim (Bool-cases (e.beq j k)) [
    | inl same ↦
        let v_eq : some w ≡ some v = rw same at found in subst P (cc ((e.beq_iff j k).0 same)) h.0
    | inr other ↦ All-lookup P k v m h.1 (rw other at found)
  ]

-- No key has two entries.
abbrev pub Distinct {ℓ κ} : {K : Type ℓ} {V : Type κ} ⦃e : Eq K⦄ → List (K × V) → Type κ
Distinct [] = Unit
Distinct ((k, v) ∷ m) = (lookup k m ≡ none) × Distinct m

module _ {ℓ κ} {K : Type ℓ} {V : Type κ} ⦃e : Eq K⦄ where
  pub Distinct-insert : (k : K) (v : V) (m : List (K × V)) → Distinct m → Distinct (insert k v m)
  unfolding insert lookup
  Distinct-insert k v [] h = (refl, tt)
  Distinct-insert k v ((j, w) ∷ m) h = elim (Bool-cases (e.beq j k)) [
    | inl same ↦
        let j_eq : j ≡ k = (e.beq_iff j k).0 same in
        rw same (subst (λ i. (lookup i m ≡ none) × Distinct m) j_eq h)
    | inr other ↦
        let absent : lookup j (insert k v m) ≡ none =
          ground (arith, lookup-insert k j v m, e.beq_iff j k, e.beq_iff k j, h.0) in
        rw other (absent, Distinct-insert k v m h.1)
  ]

  pub insert-absent :
      (k : K) (v : V) (m : List (K × V)) → lookup k m ≡ none → insert k v m ≡ m ++ (k, v) ∷ []
  unfolding insert lookup
  insert-absent k v [] h = refl
  insert-absent k v ((j, w) ∷ m) h = elim (Bool-cases (e.beq j k)) [
    | inl same ↦ let no : some w ≡ none = rw same at h in cc
    | inr other ↦ rw other (rw (insert-absent k v m (rw other at h)) refl)
  ]

  -- No entry of a map without the key stands under it.
  pub lookup-absent :
      (k : K) (m : List (K × V)) → lookup k m ≡ none → All (λ entry. e.beq k entry.0 ≡ false) m
  unfolding lookup
  lookup-absent k [] h = tt
  lookup-absent k ((j, w) ∷ m) h = elim (Bool-cases (e.beq j k)) [
    | inl same ↦ let no : some w ≡ none = rw same at h in cc
    | inr other ↦ (
      elim (Bool-cases (e.beq k j)) [
        | inl back ↦
            let no : true ≡ false =
              sym ((e.beq_iff j k).1 (sym ((e.beq_iff k j).0 back))) ∙ other in
            cc
        | inr differs ↦ differs
      ],
      lookup-absent k m (rw other at h),
    )
  ]
