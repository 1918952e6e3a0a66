-- ===== src/Reflectx/Tags.antt =====
-- What `flattenFields` reads of a struct tag, and `validateTagName`.
use sqlx_v.Prelude.{
  ℕ, Bool, true, false, ◌||◌, Option, none, some, List, [], ◌∷◌, ◌++◌, ◌==◌, if◌then◌else◌, Bytes,
}
use sqlx_v.Errors.{Error, plain}
use sqlx_v.SyncMap.{store, bytes_key}
use sqlx_v.Value.{GoType}
use sqlx_v.Reflectx.Mapper.{Structs, Mapper}

-- What the loop needs beside the values that it changes: the program's struct types, the mapper,
-- `scanner`, the types that implement `Scanner` or whose pointer does (user code), and
-- `is_letter_or_digit`, the tables of `unicode`, with `runes`, the decoding of a Go string.
pub record Setting : Type 0 where
  pub structs : Structs
  pub mapper : Mapper
  pub scanner : GoType → Bool
  pub is_letter_or_digit : ℕ → Bool
  pub runes : Bytes → List ℕ

-- `strings.Split(s, sep)`, with the part that is being read.
split_from : ℕ → Bytes → Bytes → List Bytes
split_from sep cur [] = cur ∷ []
split_from sep cur (c ∷ s) = elim (c == sep) [
  | true ↦ cur ∷ split_from sep [] s
  | false ↦ split_from sep (cur ++ c ∷ []) s
]

unfoldable pub split : Bytes → ℕ → List Bytes
unfolding split_from
split s sep = split_from sep [] s

-- `strings.SplitN(s, "=", 2)`: the parts around the first separator.
cut_from : Bytes → ℕ → Bytes → Bytes × Option Bytes
cut_from cur sep [] = (cur, none)
cut_from cur sep (c ∷ s) = elim (c == sep) [
  | true ↦ (cur, some s)
  | false ↦ cut_from (cur ++ c ∷ []) sep s
]

module _ (env : Setting) where
  -- The first rune that is no letter, digit, underscore or dot.
  invalid_rune : List ℕ → Option ℕ
  invalid_rune [] = none
  invalid_rune (r ∷ rs) =
      if env.is_letter_or_digit r || r == b'_' || r == b'.' then invalid_rune rs else some r

  unfoldable pub validate_tag_name : Bytes → Bytes → Bytes → Option Error
  unfolding invalid_rune
  validate_tag_name name struct_name field_name = elim (invalid_rune (env.runes name)) [
    | none ↦ none
    | some r ↦ some (
        plain "reflectx: struct %s, field %s: invalid character %q in tag name %q"
          (struct_name ∷ field_name ∷ (r ∷ []) ∷ name ∷ []))
  ]

  -- `name != "" && m.tagMapFunc != nil`.
  unfoldable pub tag_mapped : Bytes → Bytes
  tag_mapped [] = []
  tag_mapped name = elim env.mapper.tag_map_func [ none ↦ name | some f ↦ f name ]

  -- The options behind the name in a tag.
  unfoldable pub options_of : List Bytes → List (Bytes × Bytes) → List (Bytes × Bytes)
  unfolding cut_from
  options_of [] options = options
  options_of (opt ∷ opts) options =
      let (key, value) = cut_from [] b'=' opt in
      options_of opts (elim value [ none ↦ store opt [] options | some v ↦ store key v options ])

  -- The name in a tag that is not empty, and the errors that it adds to `sm.Errors`.
  unfoldable pub tag_errors : Bytes → Bytes → Bytes → Bytes → List Error
  unfolding validate_tag_name
  tag_errors [] struct_name field_name tag =
      plain "reflectx: struct %s, field %s: empty tag name in `%s:\"%s\"`"
        (struct_name ∷ field_name ∷ tag ∷ [])
      ∷ []
  tag_errors name struct_name field_name tag =
      elim (validate_tag_name name struct_name field_name) [ none ↦ [] | some e ↦ e ∷ [] ]
