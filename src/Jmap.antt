-- ===== src/Jmap.antt =====
-- The typed getters of jmap_get.go. An optional getter returns `none` for a key that is absent,
-- and fails where the value has another type; a required one fails in both cases.
use trace2receiver.Common.{
  String, ◌<>◌, Bool, ℤ, List, Option, none, some, map, lookup, string_eq, Result, ok, err,
  error_text,
}
use trace2receiver.Common.Fallible.{◌>>=◌}
use trace2receiver.Json.{
  Float64, Value, bool, str, float64, int64, int, arr, str_arr, Jmap, elements,
}
use trace2receiver.Runtime.{Runtime, Time}

abbrev pub wrong_type {ℓ} : {A : Type ℓ} → String → String → Result A
wrong_type key what = err (error_text ("key '" <> key <> what))

optional_string : String → Value → Result (Option String)
optional_string key (str s) = ok (some s)
optional_string key _ = err (error_text ("optional key '" <> key <> "' does not have string value"))

unfoldable pub get_optional_string : Jmap → String → Result (Option String)
unfolding optional_string
get_optional_string jm key = elim (lookup key jm) [
  | none ↦ ok none
  | some v ↦ optional_string key v
]

-- getRequired
unfoldable pub get_required : Jmap → String → Result Value
get_required jm key = elim (lookup key jm) [
  | none ↦ wrong_type key "' not present in Trace2 event"
  | some v ↦ ok v
]

required_bool : String → Value → Result Bool
required_bool key (bool b) = ok b
required_bool key _ = wrong_type key "' does not have bool value"

unfoldable pub get_required_bool : Jmap → String → Result Bool
unfolding get_required required_bool
get_required_bool jm key = do v ← get_required jm key; required_bool key v

required_string : String → Value → Result String
required_string key (str s) = ok s
required_string key _ = wrong_type key "' does not have string value"

unfoldable pub get_required_string : Jmap → String → Result String
unfolding get_required required_string
get_required_string jm key = do v ← get_required jm key; required_string key v

-- The array getter copies a `[]string` into an `[]interface{}`.
required_array : String → Value → Result (List Value)
unfolding elements
required_array key (arr vs) = ok (elements vs)
required_array key (str_arr ss) = ok (map str ss)
required_array key _ = wrong_type key "' is not an array"

unfoldable pub get_required_array : Jmap → String → Result (List Value)
unfolding get_required required_array
get_required_array jm key = do v ← get_required jm key; required_array key v

module _ (rt : Runtime) where
  optional_int64 : String → Value → Result (Option ℤ)
  optional_int64 key (int64 n) = ok (some n)
  optional_int64 key (int n) = ok (some n)
  optional_int64 key (float64 f) = ok (some (rt.float64_to_int64 f))
  optional_int64 key _ = wrong_type key "' does not have an integer value"

  unfoldable pub get_optional_int64 : Jmap → String → Result (Option ℤ)
  unfolding optional_int64
  get_optional_int64 jm key = elim (lookup key jm) [
    | none ↦ ok none
    | some v ↦ optional_int64 key v
  ]

  required_int64 : String → Value → Result ℤ
  required_int64 key (int64 n) = ok n
  required_int64 key (int n) = ok n
  required_int64 key (float64 f) = ok (rt.float64_to_int64 f)
  required_int64 key _ = wrong_type key "' does not have an integer value"

  unfoldable pub get_required_int64 : Jmap → String → Result ℤ
  unfolding get_required required_int64
  get_required_int64 jm key = do v ← get_required jm key; required_int64 key v

  required_string_or_int64 : String → Value → Result Value
  required_string_or_int64 key (int64 n) = ok (int64 n)
  required_string_or_int64 key (int n) = ok (int64 n)
  required_string_or_int64 key (float64 f) = ok (int64 (rt.float64_to_int64 f))
  required_string_or_int64 key (str s) = ok (str s)
  required_string_or_int64 key _ = wrong_type key "' does not have an integer or string value"

  unfoldable pub get_required_string_or_int64 : Jmap → String → Result Value
  unfolding get_required required_string_or_int64
  get_required_string_or_int64 jm key = do v ← get_required jm key; required_string_or_int64 key v

  required_float64 : String → Value → Result Float64
  required_float64 key (float64 f) = ok f
  required_float64 key (int64 n) = ok (rt.int64_to_float64 n)
  required_float64 key (int n) = ok (rt.int64_to_float64 n)
  required_float64 key _ = wrong_type key "' does not have an float value"

  unfoldable pub get_required_float64 : Jmap → String → Result Float64
  unfolding get_required required_float64
  get_required_float64 jm key = do v ← get_required jm key; required_float64 key v

  -- The second layout is tried where the first one fails.
  or_offset : String → Result Time → Result Time
  or_offset v (ok t) = ok t
  or_offset v (err _) = rt.time_parse "2006-01-02T15:04:05.999999-07:00" v

  required_time : String → Value → Result Time
  unfolding or_offset
  required_time key (str v) = or_offset v (rt.time_parse "2006-01-02T15:04:05.999999Z" v)
  required_time key _ = wrong_type key "' does not have string value"

  unfoldable pub get_required_time : Jmap → String → Result Time
  unfolding get_required required_time
  get_required_time jm key = do v ← get_required jm key; required_time key v
