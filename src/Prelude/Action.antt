-- ===== src/Prelude/Action.antt =====
-- Code that runs in an outside world: an action returns a value, an error, or panics, and what it
-- did to the world stays done. `unfinished` is a loop whose fuel ran out.
use mathlib.Core.Path.{◌≡◌, refl, ap, subst}
use mathlib.Core.Option.{Option, none, some}
use mathlib.Core.Logic.{◌⊎◌, inl, inr}
use mathlib.Core.Bool.{Bool, true, false}
use mathlib.Core.List.{List, [], ◌∷◌}
use drawbridge_ingress.Prelude.Tests.{if◌then◌else◌}
use drawbridge_ingress.Prelude.Lists.{All}

pub data Outcome (E A : Type 0) : Type 0 where
  ok : A → Outcome E A
  err : E → Outcome E A
  panic unfinished : Outcome E A

pub Outcome-cases :
    {E A : Type 0} (r : Outcome E A)
    → ((a : A) × (r ≡ ok a)) ⊎ ((e : E) × (r ≡ err e)) ⊎ (r ≡ panic) ⊎ (r ≡ unfinished)
Outcome-cases (ok a) = inl (a, refl)
Outcome-cases (err e) = inr (inl (e, refl))
Outcome-cases panic = inr (inr (inl refl))
Outcome-cases unfinished = inr (inr (inr refl))

abbrev pub Action : Type 0 → Type 0 → Type 0 → Type 0
Action W E A = W → Outcome E A × W

module _ {W E A : Type 0} where
  unfoldable pub pure : A → Action W E A
  pure a w = (ok a, w)

  unfoldable pub fail : E → Action W E A
  fail e w = (err e, w)

  -- `ok_or` and `map_err`, `expect` and `unwrap`.
  unfoldable pub or_fail : Option A → E → Action W E A
  or_fail none e w = (err e, w)
  or_fail (some a) e w = (ok a, w)

  unfoldable pub expect : Option A → Action W E A
  expect none w = (panic, w)
  expect (some a) w = (ok a, w)

-- How a chain goes on from the outcome of its first part.
abbrev continue_with : {W E A B : Type 0} → (A → Action W E B) → Outcome E A → Action W E B
continue_with f (ok a) w = f a w
continue_with f (err e) w = (err e, w)
continue_with f panic w = (panic, w)
continue_with f unfinished w = (unfinished, w)

infixl 5 ◌>>=◌ ◌>>◌
unfoldable pub ◌>>=◌ : {W E A B : Type 0} → Action W E A → (A → Action W E B) → Action W E B
unfolding pure fail or_fail expect
◌>>=◌ m f w = let (r, w') = m w in continue_with f r w'

abbrev pub ◌>>◌ : {W E B : Type 0} → Action W E (Unit {0}) → Action W E B → Action W E B
m >> k = m >>= λ _. k

-- A `for` loop.
unfoldable pub for_each :
    {W E A : Type 0} → (A → Action W E (Unit {0})) → List A → Action W E (Unit {0})
unfolding ◌>>=◌ pure
for_each f [] = pure tt
for_each f (a ∷ as') = f a >> for_each f as'

-- A property of the world that an action keeps, however it ends.
pub record Keeps {W E A : Type 0} (P : W → Type 0) (m : Action W E A) : Type 0 where
  pub at_world : (w : W) → P w → P (m w).1

continue-keeps :
    {W E A B : Type 0} (P : W → Type 0) (f : A → Action W E B) (r : Outcome E A) (w : W)
    → P w
    → ((a : A) → r ≡ ok a → P (f a w).1)
    → P (continue_with f r w).1
continue-keeps P f (ok a) w h then_ = then_ a refl
continue-keeps P f (err e) w h then_ = h
continue-keeps P f panic w h then_ = h
continue-keeps P f unfinished w h then_ = h

-- The rest of a chain may use what its first part returned.
pub >>=-then :
    {W E A B : Type 0} (P : W → Type 0) (m : Action W E A) (f : A → Action W E B) (w : W)
    → P (m w).1
    → ((a : A) (w' : W) → m w ≡ (ok a, w') → P (f a w').1)
    → P ((m >>= f) w).1
unfolding ◌>>=◌
>>=-then P m f w h then_ =
    continue-keeps P f (m w).0 (m w).1 h λ a e. then_ a (m w).1 (ap (λ r. (r, (m w).1)) e)

module _ {W E : Type 0} {P : W → Type 0} where
  pub pure-Keeps : {A : Type 0} (a : A) → Keeps P (pure {W = W} {E = E} a)
  unfolding pure
  pure-Keeps a = record { at_world = λ w h. h }

  pub fail-Keeps : {A : Type 0} (e : E) → Keeps P (fail {W = W} {A = A} e)
  unfolding fail
  fail-Keeps e = record { at_world = λ w h. h }

  pub or_fail-Keeps : {A : Type 0} (o : Option A) (e : E) → Keeps P (or_fail {W = W} o e)
  unfolding or_fail
  or_fail-Keeps none e = record { at_world = λ w h. h }
  or_fail-Keeps (some a) e = record { at_world = λ w h. h }

  pub expect-Keeps : {A : Type 0} (o : Option A) → Keeps P (expect {W = W} {E = E} o)
  unfolding expect
  expect-Keeps none = record { at_world = λ w h. h }
  expect-Keeps (some a) = record { at_world = λ w h. h }

  pub if-Keeps :
      {A : Type 0} (b : Bool) {m n : Action W E A}
      → Keeps P m
      → Keeps P n
      → Keeps P (if b then m else n)
  if-Keeps true km kn = km
  if-Keeps false km kn = kn

  pub >>=-Keeps :
      {A B : Type 0} {m : Action W E A} {f : A → Action W E B}
      → Keeps P m
      → ((a : A) → Keeps P (f a))
      → Keeps P (m >>= f)
  >>=-Keeps {m} {f} first then_ = record {
    at_world = λ w h.
        >>=-then P m f w (first.at_world w h)
          λ a w' e. (then_ a).at_world w' (subst (λ r. P r.1) e (first.at_world w h));
  }

  pub for_each-Keeps :
      {A : Type 0} (f : A → Action W E (Unit {0}))
      → ((a : A) → Keeps P (f a))
      → (as' : List A) → Keeps P (for_each f as')
  unfolding for_each
  for_each-Keeps f kept [] = pure-Keeps tt
  for_each-Keeps f kept (a ∷ as') = >>=-Keeps (kept a) (λ _. for_each-Keeps f kept as')

-- The parts of a chain that returned.
module _ {W E A B : Type 0} where
  returned :
      (f : A → Action W E B) (r : Outcome E A) (w : W) {b : B} {w'' : W}
      → continue_with f r w ≡ (ok b, w'')
      → (a : A) × (r ≡ ok a) × (f a w ≡ (ok b, w''))
  returned f (ok a) w h = (a, refl, h)
  returned f (err e) w h = cc
  returned f panic w h = cc
  returned f unfinished w h = cc

  pub >>=-eq-ok :
      (m : Action W E A) (f : A → Action W E B) (w : W) {b : B} {w'' : W}
      → (m >>= f) w ≡ (ok b, w'')
      → (a : A) × (w' : W) × (m w ≡ (ok a, w')) × (f a w' ≡ (ok b, w''))
  unfolding ◌>>=◌
  >>=-eq-ok m f w h =
      let (a, first, then_) = returned f (m w).0 (m w).1 h in
      (a, (m w).1, ap (λ r. (r, (m w).1)) first, then_)

  -- A chain goes on from what its first part came to.
  pub >>=-at :
      (m : Action W E A) (f : A → Action W E B) (w : W) {r : Outcome E A × W}
      → m w ≡ r
      → (m >>= f) w ≡ continue_with f r.0 r.1
  unfolding ◌>>=◌
  >>=-at m f w e = ap (λ p. continue_with f p.0 p.1) e

-- What each round of a loop that returned has brought about, and the later rounds kept.
pub for_each-ok :
    {W E A : Type 0} (f : A → Action W E (Unit {0})) (Q : A → W → Type 0)
    → ((a : A) (w w' : W) → f a w ≡ (ok tt, w') → Q a w')
    → ((a b : A) → Keeps (Q a) (f b))
    → (as' : List A) (w w' : W) → for_each f as' w ≡ (ok tt, w')
    → All (λ a. Q a w') as'
unfolding for_each
for_each-ok f Q done kept [] w w' h = tt
for_each-ok f Q done kept (a ∷ as') w w'' h =
    let (_, w', first, then_) = >>=-eq-ok (f a) (λ _. for_each f as') w h in
    let later = (for_each-Keeps f (kept a) as').at_world w' (done a w w' first) in
    (subst (λ p. Q a p.1) then_ later, for_each-ok f Q done kept as' w' w'' then_)
