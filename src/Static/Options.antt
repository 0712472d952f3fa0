-- ===== src/Static/Options.antt =====
-- What the handlers of plugin/static read of their options, a map[string]any: texts.
use proxygw.Prelude.{Dict, Option, Text, bool_eq, lookup, nat_eq, none, some, text_eq}

-- A value of type any: a string or something else.
pub data Value : Type 0 where
  text : Text → Value
  other : Value

-- `options[name].(string)`, with whether it is there.
abbrev pub string_option : Text → Dict Text Value → Option Text
string_option name options = elim (lookup name options) [
  | none ↦ none
  | some v ↦ elim v [ text t ↦ some t | other ↦ none ]
]
