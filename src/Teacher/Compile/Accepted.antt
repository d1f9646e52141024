-- ===== src/Teacher/Compile/Accepted.antt =====
-- The trajectory that `compile_teacher` of python/value_teacher_trajectory.py builds is one that the
-- constructor accepts.
use mathlib.Core.Path.{subst}
use bit_net.Base.Utf8.{encode}
use bit_net.Contract.{ModelBinding}
use bit_net.Generation.{
  Runtime, GenerationInput, check_generation_input, generation_prompt, gguf_chatml_v2,
  encode_generation_input,
}
use bit_net.Transport.Cursor.{join}
use bit_net.Teacher.Labels.{Meta}
use bit_net.Teacher.Trajectory
use bit_net.Teacher.Trajectory.{Phase, generate, TeacherTrajectory, idle_label, check_phases}
use bit_net.Teacher.Trajectory.Laws.{idle_labels_lem}
use bit_net.Teacher.Draft.{
  AnswerState, no_memory_needed, supported, insufficient, Label, Tools, Body,
}
use bit_net.Teacher.Compile.{
  compile_body, trajectory_of, check_request, check_reply_bytes, prepare, compile_teacher,
}
use bit_net.Teacher.Compile.Shapes.{IsClosed, closed}
use bit_net.Teacher.Compile.Laws.{supported-IsClosed, unsupported-IsClosed}
use bit_net.Base.{
  ℕ, suc, ◌+◌, ◌≤◌, ◌≡◌, refl, ap, inl, inr, Bool, true, false, some, List, [], ◌∷◌, ◌++◌, map,
  arith, Option-cases, eq_iff, nat_eq, text_eq, texts_eq, option_eq, length, is_empty,
  length-append, ok, Text, Bytes, Result-cases,
}

length-map : {A B : Type 0} (f : A → B) (xs : List A) → length (map f xs) ≡ length xs
length-map f [] = refl
length-map f (x ∷ xs) = ap suc (length-map f xs)

append-is_empty : (xs : List ℕ) (x : ℕ) → is_empty (xs ++ x ∷ []) ≡ false
append-is_empty [] x = refl
append-is_empty (y ∷ xs) x = refl

abbrev is_active : AnswerState → Bool
is_active no_memory_needed = false
is_active supported = true
is_active insufficient = false

module _ (tools : Tools) (binding : ModelBinding) (sha : Text) (runtime : Runtime) where
  body-IsClosed :
      (m : Meta) (state : AnswerState) (response : Text) (initial : List ℕ) {body : Body}
      → compile_body tools binding sha runtime m state response initial ≡ ok body
      → IsClosed body (is_active state)
  unfolding compile_body
  body-IsClosed m no_memory_needed response initial h =
      unsupported-IsClosed tools binding sha runtime no_memory_needed response refl h
  body-IsClosed m supported response initial h =
      supported-IsClosed tools binding sha runtime m response initial h
  body-IsClosed m insufficient response initial h =
      unsupported-IsClosed tools binding sha runtime insufficient response refl h

  -- An encoded prompt has a token.
  request-prompt :
      (m : Meta) (label : Label) (purpose : Text) {request : GenerationInput}
      → check_request tools binding sha runtime m label purpose ≡ ok request
      → is_empty request.prompt_token_ids ≡ false
  unfolding check_request encode_generation_input check_generation_input
  request-prompt m label purpose {request} h =
      elim (Result-cases (generation_prompt gguf_chatml_v2 runtime)) [
        | inr (x, e) ↦ absurd (ground arith)
        | inl (prompt, e) ↦ ground arith
      ]

  trajectory_of-post_init :
      (label : Label) (initial : List ℕ) (body : Body) (active : Bool)
      → is_empty initial ≡ false
      → IsClosed body active
      → Trajectory.post_init (trajectory_of tools binding sha runtime label initial body) ≡ ok tt
  unfolding Trajectory.post_init
  trajectory_of-post_init label initial body active nonempty c =
      let aligned = c.aligned in
      let accepted = c.accepted in
      let idle = c.no_idle_mode in
      let routed = c.routed in
      ground (
        arith,
        append-is_empty body.draft.parts tools.eos,
        length-append body.draft.parts (tools.eos ∷ []),
        length-map idle_label (closed body),
        idle_labels_lem (closed body),
      )

  -- Whatever `compile_teacher` hands to the constructor of a trajectory is accepted by it: that
  -- call never raises.
  pub prepare-post_init :
      (m : Meta) (label : Label) (purpose : Text) (capacity : ℕ) {t : TeacherTrajectory}
      → prepare tools binding sha runtime m label purpose capacity ≡ ok t
      → Trajectory.post_init t ≡ ok tt
  unfolding prepare
  prepare-post_init m label purpose capacity {t} h =
      elim (Result-cases (check_request tools binding sha runtime m label purpose)) [
        | inr (x, r) ↦ absurd (ground arith)
        | inl (request, r) ↦
            elim (Result-cases (
              compile_body tools binding sha runtime m label.state label.response
                request.prompt_token_ids)) [
                  | inr (x, b) ↦ absurd (ground arith)
                  | inl (body, b) ↦
                      elim (Result-cases (
                        check_reply_bytes tools binding sha runtime label request.prompt_token_ids
                          body capacity)) [
                            | inr (x, c) ↦ absurd (ground arith)
                            | inl (u, c) ↦ ground (
                              arith,
                              trajectory_of-post_init label request.prompt_token_ids body
                                  (is_active label.state) (request-prompt m label purpose r)
                                  (body-IsClosed m label.state label.response
                                    request.prompt_token_ids b),
                            )
                          ]
                ]
      ]

  -- What a trajectory says: its completion is the tokens of exactly the bytes of the label's reply,
  -- and the end token behind them, and it fits in the capacity with its prompt.
  pub record IsExact (label : Label) (capacity : ℕ) (t : TeacherTrajectory) : Type 0 where
    pub same_response : t.response ≡ label.response
    pub ids : List ℕ
    pub pieces : List Bytes
    pub ends : t.completion_ids ≡ ids ++ tools.eos ∷ []
    pub decoded : tools.codec.decode_pieces ids ≡ ok pieces
    pub exact : encode label.response ≡ some (join pieces)
    pub fits : length t.prompt_ids + length t.completion_ids ≤ capacity

  check_reply_bytes-IsExact :
      (label : Label) (initial : List ℕ) (body : Body) (capacity : ℕ)
      → check_reply_bytes tools binding sha runtime label initial body capacity ≡ ok tt
      → IsExact label capacity (trajectory_of tools binding sha runtime label initial body)
  unfolding check_reply_bytes
  check_reply_bytes-IsExact label initial body capacity h =
      elim (Result-cases (tools.codec.decode_pieces (tools.eos ∷ []))) [
        | inr (x, e) ↦ absurd (ground arith)
        | inl (last, e) ↦ elim (Result-cases (tools.codec.decode_pieces body.draft.parts)) [
          | inr (x, p) ↦ absurd (ground arith)
          | inl (pieces, p) ↦ elim (Option-cases (encode label.response)) [
            | inl u ↦ absurd (ground arith)
            | inr (bytes, u) ↦ record {
              same_response = refl;
              ids = body.draft.parts;
              pieces = pieces;
              ends = refl;
              decoded = p;
              exact = ground (arith, eq_iff (join pieces) bytes);
              fits = ground arith;
            }
          ]
        ]
      ]

  -- A trajectory that `compile_teacher` returns has the label's response, its completion is the
  -- tokens of exactly the bytes of that response and the end token behind them, and it fits in the
  -- capacity with its prompt.
  pub compile_teacher-IsExact :
      (m : Meta) (label : Label) (purpose : Text) (capacity : ℕ) {t : TeacherTrajectory}
      → compile_teacher tools binding sha runtime m label purpose capacity ≡ ok t
      → IsExact label capacity t
  unfolding compile_teacher prepare
  compile_teacher-IsExact m label purpose capacity {t} h =
      elim (Result-cases (check_request tools binding sha runtime m label purpose)) [
        | inr (x, r) ↦ absurd (ground arith)
        | inl (request, r) ↦
            elim (Result-cases (
              compile_body tools binding sha runtime m label.state label.response
                request.prompt_token_ids)) [
                  | inr (x, b) ↦ absurd (ground arith)
                  | inl (body, b) ↦
                      elim (Result-cases (
                        check_reply_bytes tools binding sha runtime label request.prompt_token_ids
                          body capacity)) [
                            | inr (x, c) ↦ absurd (ground arith)
                            | inl (u, c) ↦
                                let made : trajectory_of tools binding sha runtime label
                                      request.prompt_token_ids body
                                    ≡ t =
                                  ground (
                                    arith,
                                    Result-cases (
                                        Trajectory.post_init (
                                          trajectory_of tools binding sha runtime label
                                            request.prompt_token_ids body)),
                                  ) in
                                subst (IsExact label capacity) made (
                                  check_reply_bytes-IsExact label request.prompt_token_ids body
                                    capacity c)
                          ]
                ]
      ]
