-- ===== src/Value.antt =====
-- The JSON values of event payloads (`dict[str, object]`). A natural number is a number; any other
-- JSON number keeps its text.
use superion.Prelude.{ℕ, String, Bool, true, false, Option, none, some, string_eq, ◌==◌}
use superion.Dict.{Dict}

mutual
  pub data Value : Type 0 where
    null : Value
    bool : Bool → Value
    num : ℕ → Value
    decimal : String → Value
    text : String → Value
    list : Items → Value
    object : Fields → Value

  pub data Items : Type 0 where
    nil : Items
    cons : Value → Items → Items

  pub data Fields : Type 0 where
    end : Fields
    field : String → Value → Fields → Fields

abbrev pub Payload : Type 0
Payload = Dict String Value

-- `v == "..."`
abbrev pub is_text : String → Option Value → Bool
is_text s (some (Value.text t)) = t == s
is_text s _ = false

-- `v is None`, for the result of `payload.get(...)`
abbrev pub is_none : Option Value → Bool
is_none none = true
is_none (some Value.null) = true
is_none _ = false
