-- ===== src/Teacher/Labels.antt =====
-- `sentence` of python/prepare_joint_binding_curriculum.py and `positive_bytes` of
-- python/check_fine_span_interface.py: where a gold fact and its value lie in a source.
use bit_net.Base.Utf8.{encode}
use bit_net.Contract.{require}
use bit_net.Generation.{starts_with}
use bit_net.Teacher.Targets
use bit_net.Teacher.Targets.{ByteTargets}
use bit_net.Base.{
  ℕ, zero, suc, ◌+◌, ◌-◌, Bool, ◌&&◌, Option, none, some, List, [], ◌∷◌, ◌++◌, if◌then◌else◌, ◌==◌,
  nat_eq, text_eq, option_eq, length, is_empty, value_error, unicode_encode_error, Result, ok,
  ◌>>=◌, ◌>>◌, or_raise, Text, Bytes, lit,
}

pub data Style : Type 0 where
  current paraphrase historical negated : Style

abbrev concat : List Text → Text
concat [] = []
concat (s ∷ ss) = s ++ concat ss

-- `when` and `negative`
abbrev time_of : Style → Text
time_of historical = lit "在2020年"
time_of _ = lit "现在"

abbrev negation_of : Style → Text
negation_of negated = lit "不"
negation_of _ = []

abbrev chinese : Text → Bool → Text → Style → Text
chinese person home city paraphrase =
    concat
      (city ∷ lit "是" ∷ person ∷ lit "目前" ∷ lit (if home then "居住" else "工作") ∷ lit "的城市。" ∷ [])
chinese person home city style = concat (
    person
    ∷ time_of style
    ∷ negation_of style
    ∷ lit (if home then "住在" else "在")
    ∷ city
    ∷ lit (if home then "" else "工作")
    ∷ lit "。"
    ∷ [])

abbrev english : Text → Bool → Text → Style → Text
english person home city paraphrase = concat (
    city
    ∷ lit " is where "
    ∷ person
    ∷ lit " currently "
    ∷ lit (if home then "resides." else "works.")
    ∷ [])
english person home city historical = concat (
    person
    ∷ lit " "
    ∷ lit (if home then "lived" else "worked")
    ∷ lit " in "
    ∷ city
    ∷ lit " in 2020."
    ∷ [])
english person home city negated = concat (
    person
    ∷ lit " does not currently "
    ∷ lit (if home then "live" else "work")
    ∷ lit " in "
    ∷ city
    ∷ lit "."
    ∷ [])
english person home city current = concat (
    person
    ∷ lit " currently "
    ∷ lit (if home then "lives" else "works")
    ∷ lit " in "
    ∷ city
    ∷ lit "."
    ∷ [])

-- `sentence(person, relation, city, language, style)`
unfoldable pub sentence : Text → Text → Text → Text → Style → Text
sentence person relation city language style =
    let home = relation == lit "home_city" in
    if language == lit "zh" then chinese person home city style else english person home city style

-- `s.count(sub)`: occurrences that do not overlap; `skip` characters belong to the last one.
unfoldable pub count_from : ℕ → Text → Text → ℕ
count_from skip sub [] = 0
count_from (suc skip) sub (c ∷ s) = count_from skip sub s
count_from zero sub (c ∷ s) =
    let found = starts_with sub (c ∷ s) in
    (if found then 1 else 0) + count_from (if found then length sub - 1 else 0) sub s

abbrev pub count : Text → Text → ℕ
count sub s = if is_empty sub then length s + 1 else count_from 0 sub s

-- `s.index(sub)`, for a part that occurs.
unfoldable pub index_of : Text → Text → ℕ
index_of sub [] = 0
index_of sub (c ∷ s) = if starts_with sub (c ∷ s) then 0 else suc (index_of sub s)

pub record SourceFact : Type 0 where
  pub subject : Text
  pub relation : Text
  pub value : Text

pub record Meta : Type 0 where
  pub id : Text
  pub split : Text
  pub language : Text
  pub query_subject : Text
  pub query_relation : Text
  pub source_facts : List SourceFact

-- `next(f for f in source_facts if …)`: `none` is StopIteration.
unfoldable pub asked_fact : Meta → List SourceFact → Option SourceFact
asked_fact m [] = none
asked_fact m (f ∷ fs) =
    if f.subject == m.query_subject && f.relation == m.query_relation
    then some f
    else asked_fact m fs

-- The positions of a clause and of the value in it.
abbrev pub targets_at : Bytes → Bytes → Bytes → ByteTargets
targets_at raw clause value =
    let fs = index_of clause raw in
    let vs = fs + index_of value clause in
    record {
      route = 1;
      fact_bytes = some (fs, fs + length clause);
      value_bytes = some (vs, vs + length value);
      idle_mode = some 0;
    }

-- `positive_bytes(raw, meta)`
unfoldable pub positive_bytes : Bytes → Meta → Result ByteTargets
positive_bytes raw m = do
  fact ← or_raise (asked_fact m m.source_facts) (value_error "StopIteration")
  clause ←
      or_raise (encode (sentence fact.subject fact.relation fact.value m.language current))
        unicode_encode_error
  value ← or_raise (encode fact.value) unicode_encode_error
  require (count clause raw == 1 && count value clause == 1)
      "ambiguous annotation, preserve as failure"
  Targets.post_init (targets_at raw clause value)
  ok (targets_at raw clause value)
