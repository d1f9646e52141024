-- ===== src/Dialogue/Splits/Order.antt =====
-- python/prepare_repeated_dialogue_curriculum.py: the sample ids of a written file, in order.
use bit_net.Base.Integers.{pos, ◌+ℤ◌}
use bit_net.Base.{
  ℕ, zero, suc, ◌+◌, ◌*◌, ◌≡◌, refl, sym, ap, ◌∙◌, Option, List, [], ◌∷◌, ◌++◌, map, arith, nat_eq,
  text_eq, texts_eq, option_eq, ok, guard-eq-ok, after_ok,
}
use bit_net.Dialogue.Bank.{Random, Bank, Catalogue, build_episode_bank}
use bit_net.Dialogue.Rows.{Row, latest_of, repeated_of}
use bit_net.Dialogue.Worlds.{ask, ask_all, build_world}
use bit_net.Dialogue.Worlds.Truth.{ask-IsTold}
use bit_net.Dialogue.Splits.{Split, label_row, write_views, write_worlds, write_split}
use bit_net.Dialogue.Splits.Ids.{read_sample_id, label_row_id, shown_view}

-- What the sample ids of a file must read as: every query of every view of every world.
abbrev ids_of_queries : ℕ → ℕ → ℕ → ℕ → ℕ → List (ℕ × ℕ × Option ℕ)
ids_of_queries world view views query zero = []
ids_of_queries world view views query (suc left) =
    (world, query, shown_view view views) ∷ ids_of_queries world view views (suc query) left

abbrev ids_of_views : ℕ → ℕ → ℕ → ℕ → ℕ → List (ℕ × ℕ × Option ℕ)
ids_of_views queries world views view zero = []
ids_of_views queries world views view (suc left) =
    ids_of_queries world view views 0 queries ++ ids_of_views queries world views (suc view) left

abbrev pub ids_of_worlds : ℕ → ℕ → ℕ → ℕ → List (ℕ × ℕ × Option ℕ)
ids_of_worlds queries views world zero = []
ids_of_worlds queries views world (suc left) =
    ids_of_views queries world views 0 views ++ ids_of_worlds queries views (suc world) left

abbrev pub read_ids : List Row → List (ℕ × ℕ × Option ℕ)
read_ids rows = map (λ (row : Row). read_sample_id row.sample_id) rows

read_ids-append : (xs ys : List Row) → read_ids (xs ++ ys) ≡ read_ids xs ++ read_ids ys
read_ids-append [] ys = refl
read_ids-append (x ∷ xs) ys = ap (λ zs. read_sample_id x.sample_id ∷ zs) (read_ids-append xs ys)

module _ (r : Random) (world events view views : ℕ) (rng : r.State) (catalogue : Catalogue)
    (bank : Bank r) (latest : List ℕ)
    (made : build_episode_bank r world events rng catalogue ≡ ok bank)
    (listed : latest_of bank.history ≡ ok latest) where
  ask_all-read_ids :
      (query_index left : ℕ) (state : r.State) (rows : List Row)
      → ask_all r world bank catalogue.predicates latest
          (repeated_of bank.history)
          query_index
          left
          state
        ≡ ok rows
      → read_ids (map (label_row world view views) rows)
        ≡ ids_of_queries world view views query_index left
  unfolding ask_all
  ask_all-read_ids query_index zero state [] h = refl
  ask_all-read_ids query_index zero state (row ∷ rows) h = absurd (ground arith)
  ask_all-read_ids query_index (suc left) state rows h =
      after_ok
        (ask r world query_index bank catalogue.predicates latest (repeated_of bank.history) state)
        _ h
        λ asked first h.
          after_ok
            (ask_all r world bank catalogue.predicates latest (repeated_of bank.history)
              (suc query_index) left asked.1)
            _ h
            λ rest others h.
              let (named, told) =
                ask-IsTold r world events query_index rng state catalogue bank latest asked made
                  listed first in
              let whole : asked.0 ∷ rest ≡ rows = ground arith in
              ap (λ rs. read_ids (map (label_row world view views) rs)) (sym whole)
              ∙ ap (λ id. id ∷ read_ids (map (label_row world view views) rest))
                  (label_row_id world query_index view views asked.0 (sym named))
              ∙ ap (λ ids. (world, query_index, shown_view view views) ∷ ids)
                  (ask_all-read_ids (suc query_index) left asked.1 rest others)

build_world-read_ids :
    (r : Random) (world events queries view views : ℕ) (rng : r.State) (catalogue : Catalogue)
    (rows : List Row)
    → build_world r world events queries rng catalogue ≡ ok rows
    → read_ids (map (label_row world view views) rows) ≡ ids_of_queries world view views 0 queries
unfolding build_world
build_world-read_ids r world events queries view views rng catalogue rows h =
    after_ok (build_episode_bank r world events rng catalogue) _ h λ bank made h.
      after_ok (latest_of bank.history) _ h λ latest listed h.
        ask_all-read_ids r world events view views rng catalogue bank latest made listed 0 queries
          bank.rng rows (guard-eq-ok _ _ _ h).1

module _ (r : Random) (events queries : ℕ) (split : Split) where
  write_views-read_ids :
      (local_world layout_view left : ℕ) (rows : List Row)
      → write_views r events queries split local_world layout_view left ≡ ok rows
      → read_ids rows
        ≡ ids_of_views queries
            (split.world_offset + local_world)
            split.layout_views
            layout_view
            left
  unfolding write_views
  write_views-read_ids local_world layout_view zero [] h = refl
  write_views-read_ids local_world layout_view zero (row ∷ rows) h = absurd (ground arith)
  write_views-read_ids local_world layout_view (suc left) rows h =
      let world = split.world_offset + local_world in
      let rng =
        r.seeded (split.seed +ℤ pos (local_world * 10_007) +ℤ pos (layout_view * 1_000_003)) in
      after_ok (build_world r world events queries rng split.catalogue) _ h λ built made h.
        after_ok (write_views r events queries split local_world (suc layout_view) left) _ h
          λ rest others h.
            let labelled = map (label_row world layout_view split.layout_views) built in
            let whole : labelled ++ rest ≡ rows = ground arith in
            ap read_ids (sym whole)
            ∙ read_ids-append labelled rest
            ∙ ap (λ ids. ids ++ read_ids rest)
                (build_world-read_ids r world events queries layout_view split.layout_views rng
                  split.catalogue built made)
            ∙ ap (λ ids. ids_of_queries world layout_view split.layout_views 0 queries ++ ids)
                (write_views-read_ids local_world (suc layout_view) left rest others)

  write_worlds-read_ids :
      (local_world left : ℕ) (rows : List Row)
      → write_worlds r events queries split local_world left ≡ ok rows
      → read_ids rows
        ≡ ids_of_worlds queries split.layout_views (split.world_offset + local_world) left
  unfolding write_worlds
  write_worlds-read_ids local_world zero [] h = refl
  write_worlds-read_ids local_world zero (row ∷ rows) h = absurd (ground arith)
  write_worlds-read_ids local_world (suc left) rows h =
      let world = split.world_offset + local_world in
      let next : split.world_offset + suc local_world ≡ suc world = omega arith in
      after_ok (write_views r events queries split local_world 0 split.layout_views) _ h
        λ first made h.
          after_ok (write_worlds r events queries split (suc local_world) left) _ h λ rest others h.
            let whole : first ++ rest ≡ rows = ground arith in
            ap read_ids (sym whole)
            ∙ read_ids-append first rest
            ∙ ap (λ ids. ids ++ read_ids rest)
                (write_views-read_ids local_world 0 split.layout_views first made)
            ∙ ap (λ ids. ids_of_views queries world split.layout_views 0 split.layout_views ++ ids)
                (write_worlds-read_ids (suc local_world) left rest others
                  ∙ ap (λ w. ids_of_worlds queries split.layout_views w left) next)

-- The sample ids of the rows that `write_split` writes read, in their order, as every query of every
-- view of every world of the split, from the world of its offset on, the view only where there are
-- several.
pub write_split-read_ids :
    (r : Random) (events queries : ℕ) (split : Split) (rows : List Row)
    → write_split r events queries split ≡ ok rows
    → read_ids rows ≡ ids_of_worlds queries split.layout_views split.world_offset split.worlds
write_split-read_ids r events queries split rows h =
    let start : split.world_offset + 0 ≡ split.world_offset = omega arith in
    write_worlds-read_ids r events queries split 0 split.worlds rows h
    ∙ ap (λ w. ids_of_worlds queries split.layout_views w split.worlds) start
