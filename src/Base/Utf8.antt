-- ===== src/Base/Utf8.antt =====
-- The strict UTF-8 codec of Python: `str.encode`, `bytes.decode` and the incremental decoder.
pub mod Laws
use Prim.Native.Nat.{ℕ, zero, suc, ◌+◌, ◌-◌, ◌*◌, ◌/◌, ◌%◌}
use mathlib.Core.Bool.{Bool, true, false, not, ◌&&◌, ◌||◌}
use mathlib.Core.Option.{Option, none, some}
use mathlib.Core.List.{List, [], ◌∷◌, ◌++◌}
use bit_net.Base.Tests.{leb, ltb, if◌then◌else◌}
use bit_net.Base.Lists.{all}
use bit_net.Base.Strings.{Text, Bytes}

-- A code point that a strict encoder accepts: no surrogate, and inside Unicode.
abbrev pub is_scalar : ℕ → Bool
is_scalar c = not (leb 0xd800 c && leb c 0xdfff) && ltb c 0x110000

unfoldable pub encode_char : ℕ → Bytes
encode_char c =
    if ltb c 0x80
    then c ∷ []
    else if ltb c 0x800
    then (0xc0 + c / 64) ∷ (0x80 + c % 64) ∷ []
    else if ltb c 0x10000
    then (0xe0 + c / 4096) ∷ (0x80 + c / 64 % 64) ∷ (0x80 + c % 64) ∷ []
    else (0xf0 + c / 262144) ∷ (0x80 + c / 4096 % 64) ∷ (0x80 + c / 64 % 64) ∷ (0x80 + c % 64) ∷ []

unfoldable pub encode_all : Text → Bytes
encode_all [] = []
encode_all (c ∷ s) = encode_char c ++ encode_all s

-- `s.encode("utf-8", errors="strict")`: `none` is UnicodeEncodeError.
unfoldable pub encode : Text → Option Bytes
encode s = if all is_scalar s then some (encode_all s) else none

-- What an incremental decoder holds between two bytes: nothing, or the value of the bytes read of
-- a character, how many more bytes come after the next, and the range of the next.
pub data Pending : Type 0 where
  start : Pending
  need : ℕ → ℕ → ℕ → ℕ → Pending

-- What one byte gives: an error, one more byte of a character, or a character.
pub data Fed : Type 0 where
  bad : Fed
  more : Pending → Fed
  emit : ℕ → Fed

unfoldable pub feed_byte : Pending → ℕ → Fed
feed_byte start b =
    if ltb b 0x80
    then emit b
    else if ltb b 0xc2
    then bad
    else if ltb b 0xe0
    then more (need 0 (b - 0xc0) 0x80 0xbf)
    else if leb b 0xe0
    then more (need 1 0 0xa0 0xbf)
    else if leb b 0xec
    then more (need 1 (b - 0xe0) 0x80 0xbf)
    else if leb b 0xed
    then more (need 1 13 0x80 0x9f)
    else if leb b 0xef
    then more (need 1 (b - 0xe0) 0x80 0xbf)
    else if leb b 0xf0
    then more (need 2 0 0x90 0xbf)
    else if leb b 0xf3
    then more (need 2 (b - 0xf0) 0x80 0xbf)
    else if leb b 0xf4
    then more (need 2 4 0x80 0x8f)
    else bad
feed_byte (need zero acc lo hi) b =
    if leb lo b && leb b hi then emit (acc * 64 + (b - 0x80)) else bad
feed_byte (need (suc k) acc lo hi) b =
    if leb lo b && leb b hi then more (need k (acc * 64 + (b - 0x80)) 0x80 0xbf) else bad

abbrev pub prepend : ℕ → Option (Text × Pending) → Option (Text × Pending)
prepend c none = none
prepend c (some (s, q)) = some (c ∷ s, q)

-- How the decoder goes on after a byte, `rest` being the remaining bytes from a given state.
abbrev pub continue : Fed → (Pending → Option (Text × Pending)) → Option (Text × Pending)
continue bad rest = none
continue (more q) rest = rest q
continue (emit c) rest = prepend c (rest start)

-- The decoder over many bytes: the characters that are complete, and what is pending.
unfoldable pub feed : Pending → Bytes → Option (Text × Pending)
feed p [] = some ([], p)
feed p (b ∷ bs) = continue (feed_byte p b) (λ q. feed q bs)

abbrev pub finish : Option (Text × Pending) → Option Text
finish none = none
finish (some (s, start)) = some s
finish (some (s, need k acc lo hi)) = none

-- `bs.decode("utf-8", errors="strict")`: `none` is UnicodeDecodeError.
unfoldable pub decode : Bytes → Option Text
unfolding feed feed_byte
decode bs = finish (feed start bs)
