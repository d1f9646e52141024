-- ===== src/Dialogue/Catalog.antt =====
-- python/prepare_repeated_dialogue_curriculum.py: the catalogue's types. The tables are in the
-- children.
pub mod Speakers
pub mod Predicates
pub mod Additional
pub mod Large
pub mod Held
pub mod Alias
pub mod Templates
pub mod Roles
pub mod Derived
use bit_net.Base.{String, Text, lit, List, [], ◌∷◌}
use bit_net.Base.Dict.{Dict}

-- A tuple of string literals.
abbrev pub texts : List String → List Text
texts [] = []
texts (s ∷ ss) = lit s ∷ texts ss

-- An entry of `PREDICATES` and of the tables like it.
pub record Predicate : Type 0 where
  pub name : Text
  pub values : List Text
  pub questions : List Text

abbrev pub predicate : String → List String → List String → Predicate
predicate name values questions = record {
  name = lit name;
  values = texts values;
  questions = texts questions;
}

-- An entry of `LARGE_RELATION_SPECS` and of `TEST_RELATION_SPECS`.
pub record RelationSpec : Type 0 where
  pub name : Text
  pub values : List Text
  pub aliases : List Text
  pub questions : List Text

abbrev pub relation_spec : String → List String → List String → List String → RelationSpec
relation_spec name values aliases questions = record {
  name = lit name;
  values = texts values;
  aliases = texts aliases;
  questions = texts questions;
}

-- A relation's other surface forms, by its name.
abbrev pub Aliases : Type 0
Aliases = Dict Text (List Text)

abbrev pub aliases : List (String × List String) → Aliases
aliases [] = []
aliases ((name, surfaces) ∷ rest) = (lit name, texts surfaces) ∷ aliases rest
