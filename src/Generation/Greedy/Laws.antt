-- ===== src/Generation/Greedy/Laws.antt =====
-- What a reply of `greedy_generate` of python/neural_memory_generation.py is.
use mathlib.Core.Path.{subst}
use bit_net.Base.Floats.{Float}
use bit_net.Base.Utf8.{decode}
use bit_net.Generation.{GenerationInput}
use bit_net.Generation.Greedy.{
  argmax, FinishReason, max_new_tokens, context_limit, stop_token, Run, next_token, generate, Reply,
  greedy_generate, join, emits, ended,
}
use bit_net.Base.{
  ℕ, zero, suc, ◌+◌, ◌≤◌, ◌≡◌, refl, ap, inl, inr, Bool, true, false, not, Option, none, some, List,
  [], ◌∷◌, ◌++◌, arith, leb, if◌then◌else◌, Bool-cases, nat_eq, text_eq, texts_eq, option_eq,
  length, all, length-append, elem, Result, ok, Text, Bytes, Result-cases,
}

ok_injective : (a b : Run) → ok a ≡ ok b → a ≡ b
ok_injective a b e = ground arith

module _ (forward : List ℕ → List Text → Result (List Float)) (sources : List Text)
    (stop_ids : List ℕ) (capacity : ℕ) where
  -- Each token is the one that `argmax` takes from the logits of the prefix and the tokens before it.
  pub Follows : List ℕ → List ℕ → Type 0
  Follows prefix [] = Unit
  Follows prefix (t ∷ ts) =
      ((values : List Float) × (forward prefix sources ≡ ok values) × (argmax values ≡ t))
      × Follows (prefix ++ t ∷ []) ts

  -- Why a run ended.
  abbrev pub Ended : FinishReason → ℕ → List ℕ → Run → Type 0
  Ended max_new_tokens limit prefix run =
      (length run.generated ≡ limit) × (run.generated ≡ run.visible)
  Ended context_limit limit prefix run =
      (length prefix + length run.visible ≡ capacity) × (run.generated ≡ run.visible)
  Ended stop_token limit prefix run =
      (t : ℕ) × (elem t stop_ids ≡ true) × (run.generated ≡ run.visible ++ t ∷ [])

  pub record IsGreedy (limit : ℕ) (prefix : List ℕ) (run : Run) : Type 0 where
    pub follows : Follows prefix run.generated
    pub within_limit : length run.generated ≤ limit
    pub within_context : length prefix + length run.visible ≤ capacity
    pub no_stop : all (λ t. not (elem t stop_ids)) run.visible ≡ true
    pub ended_by : Ended run.reason limit prefix run

  next_token-argmax :
      (prefix : List ℕ) (vocabulary : Option ℕ) {size token : ℕ}
      → next_token forward sources stop_ids capacity prefix vocabulary ≡ ok (size, token)
      → (values : List Float) × (forward prefix sources ≡ ok values) × (argmax values ≡ token)
  unfolding next_token
  next_token-argmax prefix vocabulary {size} {token} h =
      elim (Result-cases (forward prefix sources)) [
        | inr (x, f) ↦ absurd (ground arith)
        | inl (values, f) ↦ (values, f, ground arith)
      ]

  emits-Ended :
      (reason : FinishReason) (n token : ℕ) (prefix : List ℕ) (run : Run)
      → Ended reason n (prefix ++ token ∷ []) run
      → Ended reason (suc n) prefix (emits token run)
  emits-Ended max_new_tokens n token prefix run (size, same) =
      (omega arith, ap (λ ts. token ∷ ts) same)
  emits-Ended context_limit n token prefix run (size, same) =
      (omega (arith, length-append prefix (token ∷ [])), ap (λ ts. token ∷ ts) same)
  emits-Ended stop_token n token prefix run (t, stops, same) =
      (t, stops, ap (λ ts. token ∷ ts) same)

  emits-IsGreedy :
      (n token : ℕ) (prefix : List ℕ) (run : Run)
      → ((values : List Float) × (forward prefix sources ≡ ok values) × (argmax values ≡ token))
      → elem token stop_ids ≡ false
      → IsGreedy n (prefix ++ token ∷ []) run
      → IsGreedy (suc n) prefix (emits token run)
  unfolding Follows
  emits-IsGreedy n token prefix run best keeps g = record {
    follows = (best, g.follows);
    within_limit = omega (arith, g.within_limit);
    within_context = omega (arith, g.within_context, length-append prefix (token ∷ []));
    no_stop = ground (arith, g.no_stop);
    ended_by = emits-Ended run.reason n token prefix run g.ended_by;
  }

  generate-IsGreedy :
      (limit : ℕ) (prefix : List ℕ) (vocabulary : Option ℕ) {run : Run}
      → length prefix ≤ capacity
      → generate forward sources stop_ids capacity limit prefix vocabulary ≡ ok run
      → IsGreedy limit prefix run
  unfolding generate Follows
  generate-IsGreedy zero prefix vocabulary {run} fits h =
      subst (IsGreedy 0 prefix) (ok_injective (ended max_new_tokens) run h) (record {
        follows = tt;
        within_limit = omega arith;
        within_context = omega arith;
        no_stop = refl;
        ended_by = (refl, refl);
      })
  generate-IsGreedy (suc n) prefix vocabulary {run} fits h =
      elim (Bool-cases (leb capacity (length prefix))) [
        | inl full ↦
            subst (IsGreedy (suc n) prefix) (ok_injective (ended context_limit) run (ground arith))
              (record {
                follows = tt;
                within_limit = omega arith;
                within_context = omega arith;
                no_stop = refl;
                ended_by = (ground arith, refl);
              })
        | inr room ↦
            elim (Result-cases (next_token forward sources stop_ids capacity prefix vocabulary)) [
              | inr (x, e) ↦ absurd (ground arith)
              | inl ((size, token), e) ↦
                  let best = next_token-argmax prefix vocabulary e in
                  elim (Bool-cases (elem token stop_ids)) [
                    | inl stops ↦
                        subst (IsGreedy (suc n) prefix)
                          (ok_injective
                            (record { generated = token ∷ []; visible = []; reason = stop_token })
                            run (ground arith))
                          (record {
                            follows = (best, tt);
                            within_limit = omega arith;
                            within_context = omega arith;
                            no_stop = refl;
                            ended_by = (token, stops, refl);
                          })
                    | inr keeps ↦
                        elim (Result-cases (
                          generate forward sources stop_ids capacity n (prefix ++ token ∷ [])
                            (some size))) [
                              | inr (x, r) ↦ absurd (ground arith)
                              | inl (rest, r) ↦
                                  subst (IsGreedy (suc n) prefix)
                                    (ok_injective (emits token rest) run (ground arith))
                                    (emits-IsGreedy n token prefix rest best keeps (
                                      generate-IsGreedy n (prefix ++ token ∷ []) (some size)
                                        (ground (arith, length-append prefix (token ∷ []))) r))
                            ]
                  ]
            ]
      ]

module _ (forward : List ℕ → List Text → Result (List Float))
    (decode_pieces : List ℕ → Result (List Bytes)) (replace : Bytes → Text) where
  -- What a reply has, and the run behind it.
  pub record IsReply (request : GenerationInput) (stop_ids : List ℕ) (limit capacity : ℕ)
      (memory_enabled : Bool) (reply : Reply) : Type 0 where
    pub greedy :
        IsGreedy forward
          (if memory_enabled then request.source_texts else [])
          stop_ids
          capacity
          limit
          request.prompt_token_ids
          reply.run
    pub pieces : List Bytes
    pub decoded : decode_pieces reply.run.visible ≡ ok pieces
    pub exact : reply.raw ≡ join pieces
    pub text_exact : reply.utf8_complete ≡ true → decode reply.raw ≡ some reply.text

  -- A reply that `greedy_generate` returns is a greedy run: each token is the one that `argmax` takes
  -- from the logits of the prompt and the tokens before it, with no source where memory is off; the
  -- run stays within the limit and the context, shows no stop token, and ended by a stop token, at the
  -- limit or at the capacity, as it says; and a text that is called complete is what its bytes encode.
  pub greedy_generate-IsReply :
      (request : GenerationInput) (stop_ids : List ℕ) (limit capacity : ℕ) (memory_enabled : Bool)
      {reply : Reply}
      → greedy_generate forward decode_pieces replace request stop_ids limit capacity memory_enabled
        ≡ ok reply
      → IsReply request stop_ids limit capacity memory_enabled reply
  unfolding greedy_generate
  greedy_generate-IsReply request stop_ids limit capacity memory_enabled {reply} h =
      let sources : List Text = if memory_enabled then request.source_texts else [] in
      elim (Result-cases
        (generate forward sources stop_ids capacity limit request.prompt_token_ids none)) [
          | inr (x, g) ↦ absurd (ground arith)
          | inl (run, g) ↦ elim (Result-cases (decode_pieces run.visible)) [
            | inr (x, p) ↦ absurd (ground arith)
            | inl (pieces, p) ↦
                let fits : length request.prompt_token_ids ≤ capacity = ground arith in
                let made : bit_net.Generation.Greedy.reply_of forward decode_pieces replace
                      memory_enabled run (join pieces) (decode (join pieces))
                    ≡ reply =
                  ground arith in
                subst (IsReply request stop_ids limit capacity memory_enabled) made (record {
                  greedy =
                      generate-IsGreedy forward sources stop_ids capacity limit
                        request.prompt_token_ids none fits g;
                  pieces = pieces;
                  decoded = p;
                  exact = refl;
                  text_exact = λ complete. text_of (join pieces) (decode (join pieces)) complete;
                })
          ]
        ]
    where
      text_of :
          (raw : Bytes) (o : Option Text)
          → ◌≡◌ {A = Bool} (elim o [ none ↦ false | some t ↦ true ]) true
          → o ≡ some (elim o [ none ↦ replace raw | some t ↦ t ])
      text_of raw none e = cc
      text_of raw (some t) e = refl
