-- ===== src/Dialogue/Catalog/Derived.antt =====
-- python/prepare_repeated_dialogue_curriculum.py: the tables that are computed from others.
use bit_net.Base.{List, [], ◌∷◌, ◌++◌, map, take, drop, text_eq}
use bit_net.Base.Dict.{insert}
use bit_net.Dialogue.Catalog.{Predicate, RelationSpec, Aliases}
use bit_net.Dialogue.Catalog.Predicates.{predicates}
use bit_net.Dialogue.Catalog.Additional.{additional_predicates}
use bit_net.Dialogue.Catalog.Large.{large_relation_specs}
use bit_net.Dialogue.Catalog.Held.{test_relation_specs}
use bit_net.Dialogue.Catalog.Alias.{predicate_aliases, additional_predicate_aliases}

-- `{"name": name, "values": values, "questions": questions}`
abbrev pub spec_predicate : RelationSpec → Predicate
spec_predicate s = record { name = s.name; values = s.values; questions = s.questions }

-- `{name: aliases for name, _values, aliases, _questions in specs}`, from a dict on
abbrev pub spec_aliases_from : Aliases → List RelationSpec → Aliases
spec_aliases_from found [] = found
spec_aliases_from found (s ∷ specs) = spec_aliases_from (insert s.name s.aliases found) specs

-- `{**left, **right}`
abbrev pub merge : Aliases → Aliases → Aliases
merge left [] = left
merge left ((name, surfaces) ∷ right) = merge (insert name surfaces left) right

-- `{predicate: aliases[:2] for predicate, aliases in table.items()}`
abbrev pub first_two : Aliases → Aliases
first_two table = map (λ entry. (entry.0, take 2 entry.1)) table

-- `{predicate: aliases[2:] for predicate, aliases in table.items()}`
abbrev pub after_two : Aliases → Aliases
after_two table = map (λ entry. (entry.0, drop 2 entry.1)) table

abbrev pub expanded_predicates : List Predicate
expanded_predicates = predicates ++ additional_predicates

abbrev pub large_additional_predicates : List Predicate
large_additional_predicates = map spec_predicate large_relation_specs

abbrev pub large_additional_predicate_aliases : Aliases
large_additional_predicate_aliases = spec_aliases_from [] large_relation_specs

abbrev pub large_predicates : List Predicate
large_predicates = expanded_predicates ++ large_additional_predicates

abbrev pub test_predicates : List Predicate
test_predicates = map spec_predicate test_relation_specs

abbrev pub test_predicate_aliases : Aliases
test_predicate_aliases = spec_aliases_from [] test_relation_specs

abbrev pub expanded_predicate_aliases : Aliases
expanded_predicate_aliases = merge predicate_aliases additional_predicate_aliases

abbrev pub large_predicate_aliases : Aliases
large_predicate_aliases = merge expanded_predicate_aliases large_additional_predicate_aliases

abbrev pub train_predicate_aliases : Aliases
train_predicate_aliases = first_two predicate_aliases

abbrev pub heldout_predicate_aliases : Aliases
heldout_predicate_aliases = after_two predicate_aliases

abbrev pub expanded_train_predicate_aliases : Aliases
expanded_train_predicate_aliases = first_two expanded_predicate_aliases

abbrev pub expanded_heldout_predicate_aliases : Aliases
expanded_heldout_predicate_aliases = after_two expanded_predicate_aliases

abbrev pub large_train_predicate_aliases : Aliases
large_train_predicate_aliases = first_two large_predicate_aliases

abbrev pub large_heldout_predicate_aliases : Aliases
large_heldout_predicate_aliases = after_two large_predicate_aliases
