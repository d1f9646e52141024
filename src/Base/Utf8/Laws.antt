-- ===== src/Base/Utf8/Laws.antt =====
-- The codec's laws: the decoder may be fed in pieces, and it undoes the encoder.
use Prim.Native.Nat.{ℕ}
use mathlib.Core.Path.{◌≡◌, refl, ap, sym, ◌∙◌}
use mathlib.Core.Logic.{◌≢◌}
use mathlib.Core.Bool.{true}
use mathlib.Core.Option.{Option, none, some}
use mathlib.Core.List.{[], ◌∷◌, ◌++◌}
use native.Mathlib.Omega.{arith}
use bit_net.Base.Lists.{all, append_assoc, take, drop, take-append-drop}
use bit_net.Base.Strings.{Text, Bytes}
use bit_net.Base.Utf8.{
  is_scalar, encode_char, encode_all, encode, Pending, start, need, Fed, bad, more, emit, feed_byte,
  prepend, continue, feed, finish, decode,
}

-- Feeding on from where an earlier call stopped.
abbrev pub feed_on : Option (Text × Pending) → Bytes → Option (Text × Pending)
feed_on none ys = none
feed_on (some (s, p)) ys = elim (feed p ys) [ none ↦ none | some (t, q) ↦ some (s ++ t, q) ]

feed_on-prepend :
    (c : ℕ) (r : Option (Text × Pending)) (ys : Bytes)
    → prepend c (feed_on r ys) ≡ feed_on (prepend c r) ys
feed_on-prepend c none ys = refl
feed_on-prepend c (some (s, p)) ys = ground arith

feed_on-continue :
    (r : Fed) (f g : Pending → Option (Text × Pending)) (ys : Bytes)
    → ((q : Pending) → f q ≡ feed_on (g q) ys)
    → continue r f ≡ feed_on (continue r g) ys
feed_on-continue bad f g ys h = refl
feed_on-continue (more q) f g ys h = h q
feed_on-continue (emit c) f g ys h = ap (prepend c) (h start) ∙ feed_on-prepend c (g start) ys

pub feed-append : (p : Pending) (xs ys : Bytes) → feed p (xs ++ ys) ≡ feed_on (feed p xs) ys
unfolding feed
feed-append p [] ys = ground arith
feed-append p (b ∷ xs) ys =
    feed_on-continue (feed_byte p b) (λ q. feed q (xs ++ ys)) (λ q. feed q xs) ys
      (λ q. feed-append q xs ys)

-- What a decoder accepts, it accepts up to any byte.
pub feed_prefix : (p : Pending) (xs ys : Bytes) → feed p (xs ++ ys) ≢ none → feed p xs ≢ none
feed_prefix p xs ys h e = h (feed-append p xs ys ∙ ap (λ r. feed_on r ys) e)

-- One encoded character is decoded to itself.
pub feed-encode_char :
    (c : ℕ) (bs : Bytes)
    → is_scalar c ≡ true
    → feed start (encode_char c ++ bs) ≡ prepend c (feed start bs)
unfolding feed feed_byte encode_char
feed-encode_char c bs h = ground arith

pub feed-encode_all :
    (s : Text) → all is_scalar s ≡ true → feed start (encode_all s) ≡ some (s, start)
unfolding encode_all feed
feed-encode_all [] h = refl
feed-encode_all (c ∷ s) h =
    feed-encode_char c (encode_all s) (ground arith)
    ∙ ap (prepend c) (feed-encode_all s (ground arith))

-- Decoding what was encoded gives the text back.
pub decode-encode : (s : Text) {bs : Bytes} → encode s ≡ some bs → decode bs ≡ some s
unfolding decode encode
decode-encode s h = ground (arith, feed-encode_all s)

pub encode_all-append : (s t : Text) → encode_all (s ++ t) ≡ encode_all s ++ encode_all t
unfolding encode_all
encode_all-append [] t = refl
encode_all-append (c ∷ s) t =
    ap (λ r. encode_char c ++ r) (encode_all-append s t)
    ∙ (rw (append_assoc (encode_char c) (encode_all s) (encode_all t)) refl)

finish-eq-some : (r : Option (Text × Pending)) {s : Text} → finish r ≡ some s → r ≡ some (s, start)
finish-eq-some none h = cc
finish-eq-some (some (s, start)) h = cc
finish-eq-some (some (s, need k acc lo hi)) h = cc

finish-join :
    (s : Text) (r : Option (Text × Pending)) {t : Text}
    → finish (elim r [ none ↦ none | some (u, q) ↦ some (s ++ u, q) ]) ≡ some t
    → (u : Text) × (finish r ≡ some u) × (t ≡ s ++ u)
finish-join s none h = cc
finish-join s (some (u, start)) h = (u, refl, cc)
finish-join s (some (u, need k acc lo hi)) h = cc

-- Behind bytes that decode, the rest of bytes that decode decodes to the rest of the text.
pub decode-append :
    (xs ys : Bytes) {s t : Text}
    → decode xs ≡ some s
    → decode (xs ++ ys) ≡ some t
    → (u : Text) × (decode ys ≡ some u) × (t ≡ s ++ u)
unfolding decode
decode-append xs ys {s} {t} hx hxy = finish-join s (feed start ys) (
    ap finish (
      ap (λ r. feed_on r ys) (sym (finish-eq-some (feed start xs) hx))
      ∙ sym (feed-append start xs ys))
    ∙ hxy)

-- Bytes that decode can be fed to an incremental decoder up to any byte.
pub feed-take-ne-none : (n : ℕ) (xs : Bytes) → decode xs ≢ none → feed start (take n xs) ≢ none
unfolding decode
feed-take-ne-none n xs h e = h (
    ap (λ r. finish (feed start r)) (sym (take-append-drop n xs))
    ∙ ap finish (feed-append start (take n xs) (drop n xs) ∙ ap (λ r. feed_on r (drop n xs)) e))
