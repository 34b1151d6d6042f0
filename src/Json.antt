-- ===== src/Json.antt =====
-- The generic JSON values of jmap_get.go: what `encoding/json` puts behind an `interface{}`, and
-- the Go integers and string slices that the getters also accept.
use trace2receiver.Common.{ℕ, String, Bool, ℤ, List, [], ◌∷◌, Dict}

-- A float64, by its IEEE 754 bit pattern.
pub record Float64 : Type 0 where
  pub bits : ℕ

mutual
  -- `arr` is `[]interface{}`, `str_arr` is `[]string`, `obj` is `map[string]interface{}`.
  pub data Value : Type 0 where
    null : Value
    bool : Bool → Value
    str : String → Value
    float64 : Float64 → Value
    int64 : ℤ → Value
    int : ℤ → Value
    arr : Values → Value
    str_arr : List String → Value
    obj : Members → Value

  pub data Values : Type 0 where
    nil : Values
    cons : Value → Values → Values

  pub data Members : Type 0 where
    end : Members
    member : String → Value → Members → Members

-- The elements of a JSON array, as the slice that Go hands out.
unfoldable pub elements : Values → List Value
elements nil = []
elements (cons v vs) = v ∷ elements vs

-- type jmap map[string]interface{}
abbrev pub Jmap : Type 0
Jmap = Dict String Value
