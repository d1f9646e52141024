-- ===== src/Dialogue/Splits/Files.antt =====
-- python/prepare_repeated_dialogue_curriculum.py: `write_split` returns, with a row for each query,
-- view and world.
use bit_net.Base.Integers.{pos, ◌+ℤ◌}
use bit_net.Base.{
  ℕ, zero, suc, ◌+◌, ◌*◌, ◌%◌, ◌≤◌, ◌<◌, ◌≡◌, refl, ◌∙◌, true, List, [], ◌++◌, map, arith, nat_eq,
  text_eq, texts_eq, option_eq, length, length-append, ok, bind-ok,
}
use native.Mathlib.Nat.{suc-mul}
use bit_net.Dialogue.Bank.{Random}
use bit_net.Dialogue.Rows.{Row}
use bit_net.Dialogue.Splits.{Split, label_row, write_views, write_worlds, write_split}
use bit_net.Dialogue.Bank.Places.{length-map}
use bit_net.Dialogue.Bank.Usable.{usable}
use bit_net.Dialogue.Worlds.Complete.{build_world_total}

-- A world has at most four speakers.
speakers_bound : (relations third : ℕ) → third < 3 → relations * (2 + third) ≤ relations * 4
speakers_bound relations zero h = omega arith
speakers_bound relations (suc zero) h = omega arith
speakers_bound relations (suc (suc zero)) h = omega arith
speakers_bound relations (suc (suc (suc n))) h = absurd (omega arith)

module _ (r : Random) (events queries : ℕ) (split : Split) (fine : usable split.catalogue ≡ true)
    (enough : length split.catalogue.predicates * 4 < events) (few : events ≤ 800_000) where
  write_views_total :
      (local_world layout_view left : ℕ)
      → (rows : List Row) × (write_views r events queries split local_world layout_view left
          ≡ ok rows)
        × (length rows ≡ left * queries)
  unfolding write_views
  write_views_total local_world layout_view zero = ([], refl, omega arith)
  write_views_total local_world layout_view (suc left) =
      let world = split.world_offset + local_world in
      let rng =
        r.seeded (split.seed +ℤ pos (local_world * 10_007) +ℤ pos (layout_view * 1_000_003)) in
      let room : length split.catalogue.predicates * (2 + world % 3) < events = omega (
        arith,
        enough,
        speakers_bound (length split.catalogue.predicates) (world % 3) (omega arith),
      ) in
      let (rows, built, count) =
        build_world_total r world events queries rng split.catalogue fine room few in
      let (rest, written, rest_count) = write_views_total local_world (suc layout_view) left in
      (
        map (label_row world layout_view split.layout_views) rows ++ rest,
        bind-ok _ built (bind-ok _ written refl),
        length-append (map (label_row world layout_view split.layout_views) rows) rest
            ∙ omega (
              arith,
              length-map (label_row world layout_view split.layout_views) rows,
              count,
              rest_count,
              suc-mul left queries,
            ),
      )

  write_worlds_total :
      (local_world left : ℕ)
      → (rows : List Row) × (write_worlds r events queries split local_world left ≡ ok rows)
        × (length rows ≡ left * (split.layout_views * queries))
  unfolding write_worlds
  write_worlds_total local_world zero = ([], refl, omega arith)
  write_worlds_total local_world (suc left) =
      let (rows, built, count) = write_views_total local_world 0 split.layout_views in
      let (rest, written, rest_count) = write_worlds_total (suc local_world) left in
      (
        rows ++ rest,
        bind-ok _ built (bind-ok _ written refl),
        length-append rows rest
            ∙ omega (arith, count, rest_count, suc-mul left (split.layout_views * queries)),
      )

  -- With a usable catalogue and enough events, at most 800,000, `write_split` writes
  -- one row for each query of each view of each world.
  pub write_split_total :
      (rows : List Row) × (write_split r events queries split ≡ ok rows)
      × (length rows ≡ split.worlds * (split.layout_views * queries))
  write_split_total = write_worlds_total 0 split.worlds
