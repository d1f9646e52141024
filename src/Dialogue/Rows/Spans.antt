-- ===== src/Dialogue/Rows/Spans.antt =====
-- python/prepare_repeated_dialogue_curriculum.py: `answer_spans` against slices of the evidence.
use bit_net.Base.{
  ℕ, zero, suc, ◌+◌, ◌-◌, ◌≤◌, ◌≡◌, refl, sym, ap, ◌∙◌, inl, inr, some, List, [], ◌∷◌, ◌++◌, map,
  arith, Option-cases, nat_eq, text_eq, texts_eq, option_eq, length, get_elem?, take, drop,
  append_nil, All, ok, Text, Result-cases,
}
use mathlib.Core.Path.{subst}
use bit_net.Dialogue.Format.{find, slice, join_lines}
use bit_net.Dialogue.Format.Search.{
  Infix, find-take, find-Infix, drop-append_shift, drop-append_within, drop-drop,
  take-append_within, length-drop,
}
use bit_net.Dialogue.Rows.{Span, starts_from, spans_at, answer_spans}

-- An episode begins in the joined text where `starts` says.
pub drop-join_lines :
    (episodes : List Text) (cursor index : ℕ) {episode : Text}
    → get_elem? episodes index ≡ some episode
    → (start : ℕ) × (tail : Text) × (get_elem? (starts_from cursor episodes) index
        ≡ some (cursor + start))
      × (drop start (join_lines episodes) ≡ episode ++ tail)
unfolding starts_from join_lines
drop-join_lines [] cursor index h = cc
drop-join_lines (e ∷ []) cursor zero {episode} h =
    let same : e ≡ episode = ground arith in (0, [], ground arith, same ∙ sym (append_nil episode))
drop-join_lines (e ∷ next ∷ es) cursor zero {episode} h =
    let same : e ≡ episode = ground arith in
    (
      0,
      b'\n' ∷ join_lines (next ∷ es),
      ground arith,
      ap (λ s. s ++ b'\n' ∷ join_lines (next ∷ es)) same,
    )
drop-join_lines (e ∷ []) cursor (suc index) h = cc
drop-join_lines (e ∷ next ∷ es) cursor (suc index) {episode} h =
    let (start, tail, at, there) =
      drop-join_lines (next ∷ es) (cursor + length e + 1) index {episode = episode} h in
    let shift : cursor + length e + 1 + start ≡ cursor + (length e + suc start) = omega arith in
    (
      length e + suc start,
      tail,
      at ∙ ap some shift,
      drop-append_shift (suc start) e (b'\n' ∷ join_lines (next ∷ es)) ∙ there,
    )

-- What is found in an episode is cut from the joined text where the episode begins.
slice-episode :
    (evidence episode tail surface : Text) (start local : ℕ)
    → drop start evidence ≡ episode ++ tail
    → find surface episode ≡ some local
    → slice (start + local) (start + local + length surface) evidence ≡ surface
slice-episode evidence episode tail surface start local at found =
    let (there, fits) = find-take surface episode local found in
    let width : start + local + length surface - (start + local) ≡ length surface = omega arith in
    let inside : length surface ≤ length (drop local episode) =
      omega (arith, length-drop local episode, fits) in
    ap (λ n. take n (drop (start + local) evidence)) width
    ∙ ap (take (length surface)) (drop-drop start local evidence)
    ∙ ap (λ s. take (length surface) (drop local s)) at
    ∙ ap (take (length surface)) (drop-append_within local episode tail (omega (arith, fits)))
    ∙ take-append_within (length surface) (drop local episode) tail inside
    ∙ there

-- A span cuts its text from the evidence.
abbrev pub IsCut : Text → Span → Type 0
IsCut evidence span = slice span.start span.end evidence ≡ span.text

cut_at :
    (evidence episode tail surface : Text) (start local : ℕ)
    → drop start evidence ≡ episode ++ tail
    → find surface episode ≡ some local
    → slice (0 + start + local) (0 + start + local + length surface) evidence ≡ surface
cut_at evidence episode tail surface start local at found =
    let same : start ≡ 0 + start = omega arith in
    subst (λ n. slice (n + local) (n + local + length surface) evidence ≡ surface) same
      (slice-episode evidence episode tail surface start local at found)

spans_at-IsCut :
    (episodes : List Text) (indices : List ℕ) (surfaces : List Text) (spans : List Span)
    → spans_at episodes (starts_from 0 episodes) indices surfaces ≡ ok spans
    → All (IsCut (join_lines episodes)) spans
      × (map (λ s. s.text) spans ≡ take (length indices) surfaces)
unfolding spans_at
spans_at-IsCut episodes [] surfaces spans h = ground arith
spans_at-IsCut episodes (i ∷ is) [] spans h = ground arith
spans_at-IsCut episodes (i ∷ is) (surface ∷ surfaces) spans h =
    elim (Option-cases (get_elem? episodes i)) [
      | inl absent ↦ absurd (ground arith)
      | inr (episode, present) ↦ elim (Option-cases (find surface episode)) [
        | inl absent ↦ absurd (ground arith)
        | inr (local, found) ↦
            let (start, tail, at, there) =
              drop-join_lines episodes 0 i {episode = episode} present in
            elim (Result-cases (spans_at episodes (starts_from 0 episodes) is surfaces)) [
              | inr (e, failed) ↦ absurd (ground arith)
              | inl (rest, done) ↦
                  let made : record {
                    start = 0 + start + local;
                    end = 0 + start + local + length surface;
                    text = surface;
                  }
                        ∷ rest
                      ≡ spans =
                    ground arith in
                  let later = spans_at-IsCut episodes is surfaces rest done in
                  subst
                    (λ spans.
                      All (IsCut (join_lines episodes)) spans
                      × (map (λ s. s.text) spans ≡ surface ∷ take (length is) surfaces))
                    made
                    (
                      (
                        cut_at (join_lines episodes) episode tail surface start local there found,
                        later.0,
                      ),
                      ap (λ t. surface ∷ t) later.1,
                    )
            ]
      ]
    ]

-- When `answer_spans` returns, the slice of the joined episodes that each span names is the span's
-- text, and the texts are the surfaces that `zip` pairs with a gold index, in their order.
pub answer_spans-IsCut :
    (episodes : List Text) (gold_indices : List ℕ) (surfaces : List Text) (spans : List Span)
    → answer_spans episodes gold_indices surfaces ≡ ok spans
    → All (IsCut (join_lines episodes)) spans
      × (map (λ s. s.text) spans ≡ take (length gold_indices) surfaces)
unfolding answer_spans
answer_spans-IsCut = spans_at-IsCut

-- Each surface that `zip` pairs with a gold index stands in that episode.
abbrev pub Stands : List Text → List ℕ → List Text → Type 0
Stands episodes [] surfaces = Unit
Stands episodes (index ∷ indices) [] = Unit
Stands episodes (index ∷ indices) (surface ∷ surfaces) =
    ((episode : Text) × (get_elem? episodes index ≡ some episode) × Infix surface episode)
    × Stands episodes indices surfaces

spans_at_total :
    (episodes : List Text) (indices : List ℕ) (surfaces : List Text)
    → Stands episodes indices surfaces
    → (spans : List Span) × (spans_at episodes (starts_from 0 episodes) indices surfaces ≡ ok spans)
unfolding spans_at
spans_at_total episodes [] surfaces h = ([], refl)
spans_at_total episodes (i ∷ is) [] h = ([], refl)
spans_at_total episodes (i ∷ is) (surface ∷ surfaces) ((episode, present, inside), h) =
    let (local, found) = find-Infix surface episode inside in
    let (start, tail, at, there) = drop-join_lines episodes 0 i {episode = episode} present in
    let (rest, done) = spans_at_total episodes is surfaces h in
    (
      record { start = 0 + start + local; end = 0 + start + local + length surface; text = surface }
          ∷ rest,
      ground arith,
    )

-- `answer_spans` returns when every surface stands in its episode.
pub answer_spans_total :
    (episodes : List Text) (gold_indices : List ℕ) (surfaces : List Text)
    → Stands episodes gold_indices surfaces
    → (spans : List Span) × (answer_spans episodes gold_indices surfaces ≡ ok spans)
unfolding answer_spans
answer_spans_total = spans_at_total
