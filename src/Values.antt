-- ===== src/Values.antt =====
-- The values of a Qdrant payload, for the modules that read numbers besides texts. An entry without a
-- kind reads as a missing one.
use pagi_digital_twin.Base.{String, Option, none, some}
use pagi_digital_twin.Base.HashMap
use pagi_digital_twin.Base.HashMap.{HashMap}
use pagi_digital_twin.Base.Int.{ℤ}
use pagi_digital_twin.Base.Float.{F64}

pub data Value : Type 0 where
  string_value : String → Value
  double_value : F64 → Value
  integer_value : ℤ → Value
  other_value : Value

abbrev pub Payload : Type 0
Payload = HashMap (Option Value)

abbrev pub flatten : Option (Option Value) → Option Value
flatten none = none
flatten (some kind) = kind

abbrev pub as_text : Option Value → Option String
as_text (some (string_value s)) = some s
as_text _ = none

-- `payload.get(key)`, its kind, and the text if it is one.
unfoldable pub get_text : Payload → String → Option String
get_text payload key = as_text (flatten (HashMap.get key payload))
