-- ===== src/Generation/Laws.antt =====
-- The prompt shows the context and nothing else, and shows every context differently.
use bit_net.Generation.{
  Turn, Runtime, validate_input, check_turn, occurs, im_start, im_end, Template, gguf_chatml_v2,
  research_no_think_v1, newline, render_turn, render_turns, system_turn, suffix, generation_prompt,
}
use bit_net.Generation.Framing.{cut, cut-append}
use bit_net.Base.{
  ◌≡◌, refl, sym, ap, ◌∙◌, ◌≢◌, ◌⊎◌, inl, inr, false, Option, none, some, List, [], ◌∷◌, ◌++◌,
  arith, Bool-cases, ◌==◌, eq_iff, nat_eq, text_eq, option_eq, get_elem?, drop, append_assoc, All,
  ok, each, Text, lit, check-eq-ok,
}

-- A turn that may stand in a prompt.
pub record IsPlain (m : Turn) : Type 0 where
  pub speaks_for_role : m.speaker ≡ m.role
  pub speaks : (m.role ≡ lit "user") ⊎ (m.role ≡ lit "assistant")
  pub no_end : occurs im_end m.text ≡ false

check_turn-IsPlain : (m : Turn) → check_turn m ≡ ok tt → IsPlain m
check_turn-IsPlain m h = record {
  speaks_for_role = ground (arith, eq_iff m.speaker m.role);
  speaks = elim (Bool-cases (m.role == lit "user")) [
    | inl u ↦ inl ((eq_iff m.role (lit "user")).0 u)
    | inr n ↦ inr ((eq_iff m.role (lit "assistant")).0 (ground arith))
  ];
  no_end = ground arith;
}

-- What stands before the end marker of a turn.
abbrev opened : Text → Text → Text
opened role text = im_start ++ (role ++ (newline ++ text))

abbrev opening : Turn → Text
opening m = opened m.role m.text

opening-occurs : (m : Turn) → IsPlain m → occurs im_end (opening m) ≡ false
opening-occurs m p = elim p.speaks [ inl u ↦ rw u p.no_end | inr a ↦ rw a p.no_end ]

render_turn-append :
    (m : Turn) (rest : Text) → render_turn m ++ rest ≡ opening m ++ (im_end ++ (newline ++ rest))
render_turn-append m rest = simp append_assoc

cut-render_turns :
    (m : Turn) (ms : List Turn) (rest : Text)
    → IsPlain m
    → cut im_end (render_turns (m ∷ ms) ++ rest)
      ≡ some (opening m, newline ++ (render_turns ms ++ rest))
cut-render_turns m ms rest p =
    ap (cut im_end) (
      append_assoc (render_turn m) (render_turns ms) rest
      ∙ render_turn-append m (render_turns ms ++ rest))
    ∙ cut-append b'<' (lit "|im_end|>") refl (opening m) (newline ++ (render_turns ms ++ rest))
        (opening-occurs m p)

cut-suffix : (v : Template) → cut im_end (suffix v) ≡ none
unfolding cut
cut-suffix gguf_chatml_v2 = refl
cut-suffix research_no_think_v1 = refl

pair_parts :
    {a b c d : Text}
    → ◌≡◌ {A = Option (Text × Text)} (some (a, b)) (some (c, d))
    → (a ≡ c) × (b ≡ d)
pair_parts e = ground arith

same_turn : (m n : Turn) → IsPlain m → IsPlain n → m.role ≡ n.role → m.text ≡ n.text → m ≡ n
same_turn m n p q er et = ground (arith, p.speaks_for_role, q.speaks_for_role)

user-ne-assistant : (s t : Text) → opened (lit "user") s ≢ opened (lit "assistant") t
user-ne-assistant s t d = ground (arith, ap (λ x. get_elem? x 12) d)

-- The opening of a plain turn determines the turn.
opening-injective : (m n : Turn) → IsPlain m → IsPlain n → opening m ≡ opening n → m ≡ n
opening-injective m n p q e = elim p.speaks [
  | inl um ↦ elim q.speaks [
    | inl un ↦ same_turn m n p q (um ∙ sym un) (ap (drop 17) (known um un))
    | inr an ↦ absurd (user-ne-assistant m.text n.text (known um an))
  ]
  | inr am ↦ elim q.speaks [
    | inl un ↦ absurd (user-ne-assistant n.text m.text (sym (known am un)))
    | inr an ↦ same_turn m n p q (am ∙ sym an) (ap (drop 22) (known am an))
  ]
]
  where
    known : {r s : Text} → m.role ≡ r → n.role ≡ s → opened r m.text ≡ opened s n.text
    known er es = ap (λ r. opened r m.text) (sym er) ∙ e ∙ ap (λ r. opened r n.text) es

render_turns-injective :
    (v : Template) (xs ys : List Turn)
    → All IsPlain xs
    → All IsPlain ys
    → render_turns xs ++ suffix v ≡ render_turns ys ++ suffix v
    → xs ≡ ys
render_turns-injective v [] [] p q e = refl
render_turns-injective v [] (b ∷ ys) p q e =
    cc (cut-suffix v, ap (cut im_end) e, cut-render_turns b ys (suffix v) q.0)
render_turns-injective v (a ∷ xs) [] p q e =
    cc (cut-suffix v, ap (cut im_end) e, cut-render_turns a xs (suffix v) p.0)
render_turns-injective v (a ∷ xs) (b ∷ ys) p q e =
    let both =
      sym (cut-render_turns a xs (suffix v) p.0)
      ∙ ap (cut im_end) e
      ∙ cut-render_turns b ys (suffix v) q.0 in
    let same = opening-injective a b p.0 q.0 (pair_parts both).0 in
    let rest = render_turns-injective v xs ys p.1 q.1 (ap (drop 1) (pair_parts both).1) in cc

each-IsPlain : (ms : List Turn) → each check_turn ms ≡ ok tt → All IsPlain ms
each-IsPlain [] h = tt
each-IsPlain (m ∷ ms) h = (check_turn-IsPlain m (ground arith), each-IsPlain ms (ground arith))

All-left : (ms ns : List Turn) → All IsPlain (ms ++ ns) → All IsPlain ms
All-left [] ns h = tt
All-left (m ∷ ms) ns h = (h.0, All-left ms ns h.1)

-- What a prompt that was generated says of its record.
generated :
    (v : Template) (r : Runtime) {p : Text}
    → generation_prompt v r ≡ ok p
    → All IsPlain r.context × (p ≡ render_turn system_turn ++ (render_turns r.context ++ suffix v))
unfolding generation_prompt
generated v r h =
    let (_, rest) = check-eq-ok (validate_input r) _ h in
    let (plain, made) = check-eq-ok (each check_turn (r.context ++ r.episodes)) _ rest in
    (All-left r.context r.episodes (each-IsPlain (r.context ++ r.episodes) plain), ground arith)

-- Records with the same context have the same prompt, whatever episodes each has, where both have
-- a prompt at all.
pub generation_prompt-episodes :
    (v : Template) (r s : Runtime) {p q : Text}
    → r.context ≡ s.context
    → generation_prompt v r ≡ ok p
    → generation_prompt v s ≡ ok q
    → p ≡ q
generation_prompt-episodes v r s same hp hq =
    (generated v r hp).1
    ∙ ap (λ ms. render_turn system_turn ++ (render_turns ms ++ suffix v)) same
    ∙ sym (generated v s hq).1

cancel_left : (s t u : Text) → s ++ t ≡ s ++ u → t ≡ u
cancel_left [] t u e = e
cancel_left (c ∷ s) t u e = cancel_left s t u (ap (drop 1) e)

-- Two records with the same prompt have the same context, turn by turn.
pub generation_prompt-injective :
    (v : Template) (r s : Runtime) {p : Text}
    → generation_prompt v r ≡ ok p
    → generation_prompt v s ≡ ok p
    → r.context ≡ s.context
generation_prompt-injective v r s hp hq =
    let (plain_r, made_r) = generated v r hp in
    let (plain_s, made_s) = generated v s hq in
    render_turns-injective v r.context s.context plain_r plain_s (
      cancel_left (render_turn system_turn) (render_turns r.context ++ suffix v)
        (render_turns s.context ++ suffix v) (sym made_r ∙ made_s))
