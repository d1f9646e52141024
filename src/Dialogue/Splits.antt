-- ===== src/Dialogue/Splits.antt =====
-- python/prepare_repeated_dialogue_curriculum.py: `write_split`. A file is the list of its rows; the
-- writing itself is left out.
pub mod Files
pub mod Ids
pub mod Order
use bit_net.Base.Integers.{ℤ, pos, ◌+ℤ◌}
use bit_net.Base.{
  ℕ, zero, suc, ◌+◌, ◌*◌, some, List, [], ◌++◌, map, ltb, if◌then◌else◌, Result, ok, ◌>>=◌, Text,
  lit,
}
use bit_net.Dialogue.Format.{digits}
use bit_net.Dialogue.Bank.{Random, Catalogue}
use bit_net.Dialogue.Rows.{Row, world_name}
use bit_net.Dialogue.Worlds.{build_world}

-- The arguments of a call of `write_split`.
pub record Split : Type 0 where
  pub file : Text
  pub worlds : ℕ
  pub seed : ℤ
  pub world_offset : ℕ
  pub catalogue : Catalogue
  pub layout_views : ℕ

-- `f"-view{layout_view}"`
unfoldable pub view_name : ℕ → Text
unfolding digits
view_name view = lit "-view" ++ digits (suc view) view

-- What `write_split` sets in a row before it writes it.
unfoldable pub label_row : ℕ → ℕ → ℕ → Row → Row
unfolding view_name
label_row world layout_view layout_views row =
    let named = record row {
      semantic_world_id = some (world_name world);
      layout_view = some layout_view;
    } in
    if ltb 1 layout_views
    then record named {
      world_id = world_name world ++ view_name layout_view;
      sample_id = row.sample_id ++ view_name layout_view;
    }
    else named

module _ (r : Random) (events queries : ℕ) (split : Split) where
  open r use {seeded}

  -- `for layout_view in range(layout_views)`, from a view on
  unfoldable pub write_views : ℕ → ℕ → ℕ → Result (List Row)
  unfolding build_world label_row
  write_views local_world layout_view zero = ok []
  write_views local_world layout_view (suc left) = do
    let world = split.world_offset + local_world
    let rng = seeded (split.seed +ℤ pos (local_world * 10_007) +ℤ pos (layout_view * 1_000_003))
    rows ← build_world r world events queries rng split.catalogue
    rest ← write_views local_world (suc layout_view) left
    ok (map (label_row world layout_view split.layout_views) rows ++ rest)

  -- `for local_world in range(worlds)`, from a world on
  unfoldable pub write_worlds : ℕ → ℕ → Result (List Row)
  unfolding write_views
  write_worlds local_world zero = ok []
  write_worlds local_world (suc left) = do
    rows ← write_views local_world 0 split.layout_views
    rest ← write_worlds (suc local_world) left
    ok (rows ++ rest)

  abbrev pub write_split : Result (List Row)
  write_split = write_worlds 0 split.worlds
