-- ===== src/Prelude/Http.antt =====
-- What `to_str` of `hyper` gives of the value of a header: a text for a visible one, and an error
-- for an opaque one.
use mathlib.Core.Option.{Option, none, some}
use Prim.Native.String.{String}

pub data HeaderValue : Type 0 where
  opaque : HeaderValue
  visible : String → HeaderValue

abbrev pub to_str : HeaderValue → Option String
to_str opaque = none
to_str (visible t) = some t
