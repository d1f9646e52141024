-- ===== src/Contract/Span/Laws.antt =====
-- A span that was constructed has a text, which is a contiguous part of its message's text.
use bit_net.Base.Utf8.{encode, decode}
use bit_net.Base.Utf8.Laws.{decode-encode, decode-append}
use bit_net.Contract.Span.{SourceSpan, slice, post_init, text}
use bit_net.Base.{
  ℕ, zero, suc, ◌≤◌, ◌<◌, ◌≡◌, refl, sym, ap, ◌∙◌, inl, inr, some, [], ◌∷◌, ◌++◌, arith,
  Option-cases, nat_eq, text_eq, option_eq, length, take, drop, append_assoc, take-append-drop, ok,
  Text, Bytes,
}

take-take : (i j : ℕ) (xs : Bytes) → i ≤ j → take i (take j xs) ≡ take i xs
take-take zero j xs h = refl
take-take (suc i) zero xs h = absurd (omega arith)
take-take (suc i) (suc j) [] h = refl
take-take (suc i) (suc j) (x ∷ xs) h = ap (λ t. x ∷ t) (take-take i j xs (omega arith))

-- A prefix up to `j` is a prefix up to `i` and the slice between.
prefix-append-slice : (i j : ℕ) (raw : Bytes) → i ≤ j → take i raw ++ slice raw i j ≡ take j raw
prefix-append-slice i j raw h =
    ap (λ t. t ++ slice raw i j) (sym (take-take i j raw h)) ∙ take-append-drop i (take j raw)

-- What the constructor has established.
pub record Constructed (s : SourceSpan) : Type 0 where
  pub raw : Bytes
  pub before : Text
  pub upto : Text
  pub encoded : encode s.message.text ≡ some raw
  pub ordered : s.start_byte < s.end_byte
  pub inside : s.end_byte ≤ length raw
  pub start_whole : decode (take s.start_byte raw) ≡ some before
  pub end_whole : decode (take s.end_byte raw) ≡ some upto

pub post_init-Constructed : (s : SourceSpan) → post_init s ≡ ok tt → Constructed s
unfolding post_init
post_init-Constructed s h = elim (Option-cases (encode s.message.text)) [
  | inl e ↦ absurd (ground arith)
  | inr (raw, e) ↦ elim (Option-cases (decode (take s.start_byte raw))) [
    | inl f ↦ absurd (ground arith)
    | inr (u, f) ↦ elim (Option-cases (decode (take s.end_byte raw))) [
      | inl g ↦ absurd (ground arith)
      | inr (w, g) ↦ record {
        raw = raw;
        before = u;
        upto = w;
        encoded = e;
        ordered = ground arith;
        inside = ground arith;
        start_whole = f;
        end_whole = g;
      }
    ]
  ]
]

-- The text of a constructed span is a contiguous part of the text of its message.
pub record IsPartOf (s : SourceSpan) : Type 0 where
  pub before : Text
  pub part : Text
  pub after : Text
  pub returned : text s ≡ ok part
  pub split : s.message.text ≡ before ++ (part ++ after)

Constructed-text : (s : SourceSpan) → Constructed s → IsPartOf s
unfolding text
Constructed-text s c =
    let (part, decoded, joined) =
      decode-append (take s.start_byte c.raw) (slice c.raw s.start_byte s.end_byte) c.start_whole (
        rw (prefix-append-slice s.start_byte s.end_byte c.raw (omega (arith, c.ordered)))
          c.end_whole) in
    let (after, _, whole) =
      decode-append (take s.end_byte c.raw) (drop s.end_byte c.raw) c.end_whole
        (rw (take-append-drop s.end_byte c.raw) (decode-encode s.message.text c.encoded)) in
    record {
      before = c.before;
      part = part;
      after = after;
      returned = rw (c.encoded, decoded) refl;
      split = whole ∙ ap (λ t. t ++ after) joined ∙ append_assoc c.before part after;
    }

-- The text of a span that its constructor accepts is defined, and is a contiguous part of the text
-- of its message.
pub text-IsPartOf : (s : SourceSpan) → post_init s ≡ ok tt → IsPartOf s
text-IsPartOf s h = Constructed-text s (post_init-Constructed s h)
