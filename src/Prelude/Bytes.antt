-- ===== src/Prelude/Bytes.antt =====
-- The standard library's big-endian conversions, `to_be_bytes` and `from_be_bytes`. A byte is a
-- number below 256.
use Prim.Native.Nat.{ℕ, zero, suc, ◌+◌, ◌*◌, ◌/◌, ◌%◌, ◌^◌, ◌<◌}
use mathlib.Core.Path.{◌≡◌, refl}
use mathlib.Core.List.{List, [], ◌∷◌, ◌++◌}
use mathlib.Core.Option.{Option, none, some}
use native.Mathlib.Nat.{pow-suc}
use native.Mathlib.Omega.{arith}
use mathlib.Core.Logic.{inl, inr}
use drawbridge_ingress.Prelude.Tests.{Option-cases}
use drawbridge_ingress.Prelude.Lists.{length, length-append}

-- The `w` low bytes of `x`, the highest first.
unfoldable pub to_be_bytes : ℕ → ℕ → List ℕ
to_be_bytes zero x = []
to_be_bytes (suc w) x = to_be_bytes w (x / 256) ++ x % 256 ∷ []

-- The value of bytes, read behind a value that is there already.
unfoldable pub be_value : ℕ → List ℕ → ℕ
be_value acc [] = acc
be_value acc (b ∷ bs) = be_value (acc * 256 + b) bs

unfoldable pub from_be_bytes : List ℕ → ℕ
unfolding be_value
from_be_bytes bs = be_value 0 bs

pub length-to_be_bytes : (w x : ℕ) → length (to_be_bytes w x) ≡ w
unfolding to_be_bytes
length-to_be_bytes zero x = refl
length-to_be_bytes (suc w) x = omega (
  arith,
  length-append {0} (to_be_bytes w (x / 256)) (x % 256 ∷ []),
  length-to_be_bytes w (x / 256),
)

be_value-append :
    (acc : ℕ) (bs : List ℕ) (b : ℕ) → be_value acc (bs ++ b ∷ []) ≡ be_value acc bs * 256 + b
unfolding be_value
be_value-append acc [] b = refl
be_value-append acc (a ∷ bs) b = be_value-append (acc * 256 + a) bs b

-- Reading back gives the value, if the bytes can hold it.
pub from_be_bytes-to_be_bytes : (w x : ℕ) → x < 256 ^ w → from_be_bytes (to_be_bytes w x) ≡ x
unfolding to_be_bytes from_be_bytes
from_be_bytes-to_be_bytes zero x h = omega arith
from_be_bytes-to_be_bytes (suc w) x h = omega (
  arith,
  be_value-append 0 (to_be_bytes w (x / 256)) (x % 256),
  from_be_bytes-to_be_bytes w (x / 256) (omega (arith, pow-suc 256 w)),
)

-- `read_exact` of `n` bytes from a stream that holds `input`: what was read, and the rest.
unfoldable pub read_exact : ℕ → List ℕ → Option (List ℕ × List ℕ)
read_exact zero input = some ([], input)
read_exact (suc n) [] = none
read_exact (suc n) (b ∷ input) = elim (read_exact n input) [
  | none ↦ none
  | some (bs, rest) ↦ some (b ∷ bs, rest)
]

-- Enough bytes: the first ones are read.
pub read_exact-append : (bs rest : List ℕ) → read_exact (length bs) (bs ++ rest) ≡ some (bs, rest)
unfolding read_exact
read_exact-append [] rest = refl
read_exact-append (b ∷ bs) rest = rw (read_exact-append bs rest) refl

-- Too few: an error.
pub read_exact-short : (n : ℕ) (input : List ℕ) → length input < n → read_exact n input ≡ none
unfolding read_exact
read_exact-short zero input h = elim h [ ]
read_exact-short (suc n) [] h = refl
read_exact-short (suc n) (b ∷ input) h = rw (read_exact-short n input (omega arith)) refl

-- Reading takes bytes away.
pub length-read_exact :
    (n : ℕ) (input bs rest : List ℕ)
    → read_exact n input ≡ some (bs, rest)
    → length input ≡ n + length rest
unfolding read_exact
length-read_exact zero input bs rest h = ground arith
length-read_exact (suc n) [] bs rest h = cc
length-read_exact (suc n) (b ∷ input) bs rest h = elim (Option-cases (read_exact n input)) [
  | inl short ↦ ground arith
  | inr ((as', rest'), found) ↦ ground (arith, length-read_exact n input as' rest' found)
]
