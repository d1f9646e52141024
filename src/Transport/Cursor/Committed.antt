-- ===== src/Transport/Cursor/Committed.antt =====
-- The text that a cursor has committed: whole characters, a beginning of the value's text.
use bit_net.Base.Utf8.{Pending, start, feed, finish, decode}
use bit_net.Base.Utf8.Laws.{feed_on, feed-append}
use bit_net.Transport.Values.{text_bytes}
use bit_net.Transport.Cursor.{ValueCursor, join, post_init, done, decode_with, committed_text}
use bit_net.Transport.Cursor.Laws.{IsAligned, post_init-IsAligned}
use bit_net.Base.{
  ℕ, ◌≡◌, refl, sym, ap, ◌∙◌, inl, inr, true, false, Option, none, some, List, [], ◌∷◌, ◌++◌, arith,
  Bool-cases, nat_eq, text_eq, option_eq, length, take, drop, append_nil, append_assoc,
  take-append-drop, take-length, unicode_decode_error, ok, or_raise, Text, Bytes,
}

join-append : (ps qs : List Bytes) → join (ps ++ qs) ≡ join ps ++ join qs
join-append [] qs = refl
join-append (p ∷ ps) qs =
    ap (λ t. p ++ t) (join-append ps qs) ∙ sym (append_assoc p (join ps) (join qs))

-- The text that is out, and the text that is still to come.
pub record CommittedPart (c : ValueCursor) (whole : Text) : Type 0 where
  pub committed : Text
  pub rest : Text
  pub returned : committed_text c ≡ ok committed
  pub split : whole ≡ committed ++ rest
  pub complete : done c ≡ true → rest ≡ []

finish-feed_on :
    (s : Text) (p : Pending) (ys : Bytes) {whole : Text}
    → finish (feed_on (some (s, p)) ys) ≡ some whole
    → (t : Text) × (whole ≡ s ++ t)
finish-feed_on s p ys {whole} h =
    elim (feed p ys)
        as (λ r.
          finish (elim r [ none ↦ none | some (t, q) ↦ some (s ++ t, q) ]) ≡ some whole
          → (t : Text) × (whole ≡ s ++ t)) [
            | none ↦ λ e. cc
            | some (t, start) ↦ λ e. (t, cc)
            | some (t, Pending.need k acc lo hi) ↦ λ e. cc
          ]
      h

take_all : (n : ℕ) (ps : List Bytes) → n ≡ length ps → take n ps ≡ ps
take_all n ps h = ap (λ k. take k ps) h ∙ take-length ps

decoded_prefix :
    (n : ℕ) (ps : List Bytes) {whole : Text}
    → decode (join ps) ≡ some whole
    → (r : Option (Text × Pending)) → feed start (join (take n ps)) ≡ r
    → (s : Text) × (p : Pending) × (rest : Text) × (r ≡ some (s, p)) × (whole ≡ s ++ rest)
unfolding decode
decoded_prefix n ps {whole} h r e =
    let cut : join ps ≡ join (take n ps) ++ join (drop n ps) =
      ap join (sym (take-append-drop n ps)) ∙ join-append (take n ps) (drop n ps) in
    let fed : finish (feed_on r (join (drop n ps))) ≡ some whole =
      ap (λ x. finish (feed_on x (join (drop n ps)))) (sym e)
      ∙ ap finish (sym (feed-append start (join (take n ps)) (join (drop n ps))))
      ∙ ap (λ b. finish (feed start b)) (sym cut)
      ∙ h in
    split_result r fed
  where
    split_result :
        (x : Option (Text × Pending))
        → finish (feed_on x (join (drop n ps))) ≡ some whole
        → (s : Text) × (p : Pending) × (rest : Text) × (x ≡ some (s, p)) × (whole ≡ s ++ rest)
    split_result none f = cc
    split_result (some (s, p)) f =
        let (t, is_whole) = finish-feed_on s p (join (drop n ps)) f in (s, p, t, refl, is_whole)

decode_with-true : (r : Option (Text × Pending)) → decode_with true r ≡ finish r
decode_with-true none = refl
decode_with-true (some (s, p)) = refl

-- Decoding to the end at the last token gives the whole text.
committed_at_end :
    (c : ValueCursor) (whole : Text)
    → IsAligned c
    → decode (join c.pieces) ≡ some whole
    → done c ≡ true
    → committed_text c ≡ ok whole
unfolding committed_text decode
committed_at_end c whole a h d =
    let all_out = take_all c.offset c.pieces (ground (arith, a.aligned)) in
    rw (d, all_out)
      (ap (λ o. or_raise o unicode_decode_error)
        (decode_with-true (feed start (join c.pieces)) ∙ h))

committed_before_end :
    (c : ValueCursor) (s : Text) (p : Pending)
    → feed start (join (take c.offset c.pieces)) ≡ some (s, p)
    → done c ≡ false
    → committed_text c ≡ ok s
unfolding committed_text
committed_before_end c s p h d = rw (d, h) refl

decoded_value :
    (c : ValueCursor) (whole : Text)
    → IsAligned c
    → text_bytes c.value ≡ ok whole
    → decode (join c.pieces) ≡ some whole
unfolding text_bytes
decoded_value c whole a h = ground (arith, a.joined)

-- For a cursor that its constructor accepts, the committed text is defined at every offset, is a
-- beginning of the text of the value, and is the whole text once the cursor is done.
pub committed_text-CommittedPart :
    (c : ValueCursor) {whole : Text}
    → post_init c ≡ ok tt
    → text_bytes c.value ≡ ok whole
    → CommittedPart c whole
committed_text-CommittedPart c {whole} h v =
    let a = post_init-IsAligned c h in
    let d = decoded_value c whole a v in
    elim (Bool-cases (done c)) [
      | inl finished ↦ record {
        committed = whole;
        rest = [];
        returned = committed_at_end c whole a d finished;
        split = sym (append_nil whole);
        complete = λ _. refl;
      }
      | inr unfinished ↦
          let (s, p, rest, fed, split) =
            decoded_prefix c.offset c.pieces d (feed start (join (take c.offset c.pieces))) refl in
          record {
            committed = s;
            rest = rest;
            returned = committed_before_end c s p fed unfinished;
            split = split;
            complete = λ finished. cc;
          }
    ]
