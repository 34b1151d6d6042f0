-- ===== src/Runtime.antt =====
-- What the program takes from outside its sources: the decoder of `encoding/json`, the parser of
-- `time`, the conversions between float64 and int64 (which Go leaves to the platform out of
-- range), `crypto/sha256`, the random generator of `math/rand`, Unicode's lower case.
use Prim.Native.Char.{Char}
use trace2receiver.Common.{ℕ, String, ℤ, List, Result}
use trace2receiver.Json.{Float64, Jmap}

-- An instant, in nanoseconds since 0001-01-01T00:00:00Z, which is Go's zero time.
abbrev pub Time : Type 0
Time = ℤ

-- The bytes of a span id (8) or a trace id (16).
abbrev pub SpanId : Type 0
SpanId = List ℕ

pub record Runtime : Type 0 where
  -- json.Unmarshal(line, jm)
  pub unmarshal : String → Result Jmap
  -- time.Parse(layout, value)
  pub time_parse : String → String → Result Time
  -- int64(f)
  pub float64_to_int64 : Float64 → ℤ
  -- float64(n)
  pub int64_to_float64 : ℤ → Float64
  -- sha256.Sum256 of a text: 32 bytes.
  pub sha256 : String → List ℕ
  -- rand.Rand.Read of 8 bytes, with the state of the generator behind it.
  pub rand_read : ℕ → SpanId × ℕ
  -- unicode.ToLower
  pub lower : Char → Char
