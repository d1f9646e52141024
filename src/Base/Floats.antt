-- ===== src/Base/Floats.antt =====
-- Python's `float`, as far as it is compared: a finite double is a dyadic rational, ± m / 2 ^ e.
use Prim.Native.Nat.{ℕ, ◌^◌}
use mathlib.Core.Bool.{Bool, false, not, ◌&&◌}
use bit_net.Base.Tests.{ltb, leb, nat_beq, if◌then◌else◌}

pub data Float : Type 0 where
  nan : Float
  infinite : Bool → Float
  finite : Bool → ℕ → ℕ → Float

-- `math.isfinite(x) and 0 < x <= 1`
unfoldable pub in_half_open_unit : Float → Bool
in_half_open_unit (finite negative m e) = not negative && ltb 0 m && leb m (2 ^ e)
in_half_open_unit _ = false

-- `math.isfinite(x) and 0 <= x <= 1`
unfoldable pub in_unit : Float → Bool
in_unit (finite negative m e) = if negative then nat_beq m 0 else leb m (2 ^ e)
in_unit _ = false
