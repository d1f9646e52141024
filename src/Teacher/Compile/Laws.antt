-- ===== src/Teacher/Compile/Laws.antt =====
-- The trajectory that `compile_teacher` builds is always one that its constructor accepts.
use mathlib.Core.Path.{subst}
use bit_net.Base.Utf8.{encode, decode}
use bit_net.Contract.{ModelBinding}
use bit_net.Generation.{Runtime, generation_prompt, gguf_chatml_v2}
use bit_net.Transport.{default_limits}
use bit_net.Transport.Cursor.{ValueCursor, committed_text}
use bit_net.Transport.Compile.{compile_append_value}
use bit_net.Transport.Compile.Laws.{Serves, compile_append_value-Serves}
use bit_net.Teacher.Targets
use bit_net.Teacher.Targets.{ByteTargets}
use bit_net.Teacher.Labels.{Meta, sentence, current, count, asked_fact, targets_at, positive_bytes}
use bit_net.Teacher.Trajectory.{generate, start, continue}
use bit_net.Teacher.Trajectory.Laws.{replicate}
use bit_net.Teacher.Drive.{Driven, driven_from, phases_for, drive-finishes}
use bit_net.Teacher.Draft.{
  AnswerState, supported, route_of, Tools, Draft, empty_draft, append_text, Body, only_source,
  slice, split_once,
}
use bit_net.Teacher.Compile.{
  close_value, drive_value, start_value, compile_supported, compile_unsupported, in_fuel, drive_all,
  teacher_snapshot, teacher_reply, teacher_handle,
}
use bit_net.Teacher.Compile.Shapes.{IsClosed, append_text-phases, active-IsClosed, text-IsClosed}
use bit_net.Base.{
  ℕ, suc, ◌-◌, ◌≡◌, refl, sym, ap, ◌∙◌, inl, inr, Bool, true, false, ◌&&◌, Option, none, some, List,
  [], ◌∷◌, ◌++◌, arith, Option-cases, ◌==◌, nat_eq, text_eq, texts_eq, option_eq, length, drop,
  is_empty, length-append, value_error, unicode_encode_error, ok, ◌>>=◌, or_raise, Text, Bytes,
  Result-cases, guard-eq-ok, check-eq-ok, bind-eq-ok,
}

is_active : AnswerState → Bool
is_active supported = true
is_active _ = false

targets_route :
    (raw : Bytes) (m : Meta) {t : ByteTargets} → positive_bytes raw m ≡ ok t → t.route ≡ 1
unfolding positive_bytes
targets_route raw m {t} h =
    let (fact, _, h1) =
      bind-eq-ok (or_raise (asked_fact m m.source_facts) (value_error "StopIteration")) _ h in
    let (clause, _, h2) =
      bind-eq-ok
        (or_raise (encode (sentence fact.subject fact.relation fact.value m.language current))
          unicode_encode_error)
        _ h1 in
    let (value, _, h3) = bind-eq-ok (or_raise (encode fact.value) unicode_encode_error) _ h2 in
    let (_, h4) =
      guard-eq-ok (count clause raw == 1 && count value clause == 1)
        (value_error "ambiguous annotation, preserve as failure") _ h3 in
    let (_, h5) =
      check-eq-ok (Targets.post_init (targets_at raw clause value))
        (ok (targets_at raw clause value)) h4 in
    ground arith

driven_phases :
    (tokens : List ℕ) (offset : ℕ)
    → is_empty tokens ≡ false
    → offset ≡ 0
    → (more : ℕ) × (length (drop offset tokens) ≡ suc more)
      × (phases_for true (length tokens - offset) ≡ start ∷ replicate more continue)
driven_phases [] offset e z = cc
driven_phases (t ∷ ts) offset e z =
    let left : length (t ∷ ts) - offset ≡ suc (length ts) = omega arith in
    (length ts, ap (λ o. length (drop o (t ∷ ts))) z, ap (phases_for true) left)

module _ (tools : Tools) (binding : ModelBinding) (sha : Text) (runtime : Runtime) where
  -- The loop over a compiled cursor returns every token of the value.
  drive_all-finishes :
      (cursor : ValueCursor) (raw : Bytes) (span : Option (ℕ × ℕ)) (prefix : List ℕ) (text : Text)
      → Serves tools.digest_snapshot default_limits tools.codec
          (teacher_handle tools binding sha runtime raw span)
          (teacher_snapshot tools binding sha runtime raw)
          (teacher_reply tools binding sha runtime)
          prefix
          text
          true
          cursor
      → drive_all tools binding sha runtime (some cursor) raw prefix ≡ ok (driven_from cursor true)
  drive_all-finishes cursor raw span prefix text s = ap in_fuel (
      drive-finishes tools.digest_snapshot tools.codec.bos_id
        (teacher_snapshot tools binding sha runtime raw) (teacher_reply tools binding sha runtime)
        (suc (length cursor.value_tokens)) cursor prefix true s.ready (omega arith))

  close_value-IsClosed :
      (found : ByteTargets) (value post : Text) (b m : ℕ) (draft : Draft) (d : Driven) {body : Body}
      → found.route ≡ 1
      → length draft.parts ≡ b
      → draft.phases ≡ replicate b generate
      → length d.tokens ≡ suc m
      → d.phases ≡ start ∷ replicate m continue
      → close_value tools binding sha runtime found value post draft d ≡ ok body
      → IsClosed body true
  unfolding close_value
  close_value-IsClosed found value post b m draft d {body} route size shape tokens phases h =
      elim (Result-cases (committed_text d.cursor)) [
        | inr (x, c) ↦ absurd (ground arith)
        | inl (committed, c) ↦
            elim (Result-cases (
              append_text tools.codec post
                (record { parts = draft.parts ++ d.tokens; phases = draft.phases ++ d.phases }))) [
                  | inr (x, f) ↦ absurd (ground arith)
                  | inl (finished, f) ↦
                      let (a, more, text) =
                        append_text-phases tools.codec post
                          (record {
                            parts = draft.parts ++ d.tokens;
                            phases = draft.phases ++ d.phases;
                          })
                          f in
                      let made : record {
                        draft = finished;
                        end_at = some (length (draft.parts ++ d.tokens));
                        targets = record found { idle_mode = none };
                      }
                          ≡ body =
                        ground arith in
                      subst (λ x. IsClosed x true) made
                        (active-IsClosed b m a finished.parts (record found { idle_mode = none })
                          finished.phases (length (draft.parts ++ d.tokens)) refl route
                          (text
                            ∙ ap (λ ps. (ps ++ d.phases) ++ replicate a generate) shape
                            ∙ ap (λ ps. (replicate b generate ++ ps) ++ replicate a generate)
                                phases)
                          (omega (arith, length-append draft.parts d.tokens))
                          (omega (arith, length-append draft.parts d.tokens)))
                ]
      ]

  drive_value-IsClosed :
      (found : ByteTargets) (raw : Bytes) (span : Option (ℕ × ℕ)) (value post text : Text)
      (initial : List ℕ) (b : ℕ) (draft : Draft) (cursor : Option ValueCursor) {body : Body}
      → found.route ≡ 1
      → length draft.parts ≡ b
      → draft.phases ≡ replicate b generate
      → ((c : ValueCursor)
          → cursor ≡ some c
          → Serves tools.digest_snapshot default_limits tools.codec
              (teacher_handle tools binding sha runtime raw span)
              (teacher_snapshot tools binding sha runtime raw)
              (teacher_reply tools binding sha runtime)
              (initial ++ draft.parts)
              text
              true
              c)
      → drive_value tools binding sha runtime found raw value post initial draft cursor ≡ ok body
      → IsClosed body true
  unfolding drive_value
  drive_value-IsClosed found raw span value post text initial b draft none route size shape serves
        h =
      cc
  drive_value-IsClosed found raw span value post text initial b draft (some c) {body} route size
        shape serves h =
      let s = serves c refl in
      let (more, tokens, phases) =
        driven_phases c.value_tokens c.offset s.ready.is_aligned.tokens_given s.compiled.at_start in
      let e = drive_all-finishes c raw span (initial ++ draft.parts) text s in
      close_value-IsClosed found value post b more draft (driven_from c true) route size shape
        tokens phases
        (ap (λ r. r >>= close_value tools binding sha runtime found value post draft) (sym e) ∙ h)

  start_value-IsClosed :
      (found : ByteTargets) (raw : Bytes) (value pre post : Text) (initial : List ℕ) {body : Body}
      → found.route ≡ 1
      → start_value tools binding sha runtime found raw value (pre, post) initial ≡ ok body
      → IsClosed body true
  unfolding start_value
  start_value-IsClosed found raw value pre post initial {body} route h =
      elim (Result-cases (append_text tools.codec pre empty_draft)) [
        | inr (x, a) ↦ absurd (ground arith)
        | inl (draft, a) ↦ elim (Result-cases (generation_prompt gguf_chatml_v2 runtime)) [
          | inr (x, p) ↦ absurd (ground arith)
          | inl (prompt, p) ↦
              elim (Result-cases (
                compile_append_value tools.digest_snapshot default_limits tools.codec
                  (teacher_handle tools binding sha runtime raw found.value_bytes)
                  (teacher_snapshot tools binding sha runtime raw)
                  (teacher_reply tools binding sha runtime) (initial ++ draft.parts) (prompt ++ pre)
                  true)) [
                    | inr (x, c) ↦ absurd (ground arith)
                    | inl (cursor, c) ↦
                        let (b, size, shape) = append_text-phases tools.codec pre empty_draft a in
                        drive_value-IsClosed found raw found.value_bytes value post (prompt ++ pre)
                          initial b draft cursor route (size ∙ omega arith) shape
                          (λ k e.
                            compile_append_value-Serves tools.digest_snapshot default_limits
                              tools.codec
                              (teacher_handle tools binding sha runtime raw found.value_bytes)
                              (teacher_snapshot tools binding sha runtime raw)
                              (teacher_reply tools binding sha runtime) (initial ++ draft.parts)
                              (prompt ++ pre) true (c ∙ ap ok e))
                          (ground arith)
                  ]
        ]
      ]

  pub supported-IsClosed :
      (m : Meta) (response : Text) (initial : List ℕ) {body : Body}
      → compile_supported tools binding sha runtime m response initial ≡ ok body
      → IsClosed body true
  unfolding compile_supported
  supported-IsClosed m response initial {body} h =
      elim (Result-cases (only_source runtime.episodes)) [
        | inr (x, s) ↦ absurd (ground arith)
        | inl (source, s) ↦ elim (Option-cases (encode source)) [
          | inl u ↦ absurd (ground arith)
          | inr (raw, u) ↦ elim (Result-cases (positive_bytes raw m)) [
            | inr (x, g) ↦ absurd (ground arith)
            | inl (found, g) ↦ elim (Option-cases (decode (slice raw found.value_bytes))) [
              | inl v ↦ absurd (ground arith)
              | inr (value, v) ↦ elim (Result-cases (split_once value response)) [
                | inr (x, p) ↦ absurd (ground arith)
                | inl ((pre, post), p) ↦
                    start_value-IsClosed found raw value pre post initial (targets_route raw m g)
                      (ground arith)
              ]
            ]
          ]
        ]
      ]

  pub unsupported-IsClosed :
      (state : AnswerState) (response : Text) {body : Body}
      → (route_of state == 1) ≡ false
      → compile_unsupported tools binding sha runtime state response ≡ ok body
      → IsClosed body false
  unfolding compile_unsupported
  unsupported-IsClosed state response {body} route h =
      elim (Result-cases (append_text tools.codec response empty_draft)) [
        | inr (x, a) ↦ absurd (ground arith)
        | inl (draft, a) ↦
            let (n, size, shape) = append_text-phases tools.codec response empty_draft a in
            let targets : ByteTargets = record {
              route = route_of state;
              fact_bytes = none;
              value_bytes = none;
              idle_mode = none;
            } in
            let made : record { draft = draft; end_at = none; targets = targets } ≡ body =
              ground arith in
            subst (λ x. IsClosed x false) made
              (text-IsClosed n draft.parts targets draft.phases refl route shape
                (size ∙ omega arith))
      ]
