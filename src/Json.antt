-- ===== src/Json.antt =====
-- The payloads of events and worker messages: Go's `map[string]any` as it comes from JSON.
use yuzu_agent_webrtc_toy.Prelude.{ℕ, Bool, Option, none, some}
use yuzu_agent_webrtc_toy.Prelude.Int.{ℤ}
use yuzu_agent_webrtc_toy.Text.{Str}
use yuzu_agent_webrtc_toy.Maps.{Map, lookup}

-- A value, as far as the program looks into it. `opaque` is any other one (a fraction, an array, an
-- object), which is only passed on.
pub data Value : Type 0 where
  null : Value
  bool : Bool → Value
  num : ℤ → Value
  text : Str → Value
  opaque : ℕ → Value

-- `nil` is `none`.
abbrev pub Payload : Type 0
Payload = Option (Map Value)

-- `v, ok := payload[key].(string)`; a lookup in a `nil` map finds nothing.
abbrev as_text : Option Value → Option Str
as_text none = none
as_text (some null) = none
as_text (some (bool b)) = none
as_text (some (num n)) = none
as_text (some (text s)) = some s
as_text (some (opaque k)) = none

unfoldable pub get_text : Str → Payload → Option Str
get_text key none = none
get_text key (some m) = as_text (lookup key m)

-- `v, ok := payload[key].(bool)`
abbrev as_bool : Option Value → Option Bool
as_bool none = none
as_bool (some null) = none
as_bool (some (bool b)) = some b
as_bool (some (num n)) = none
as_bool (some (text s)) = none
as_bool (some (opaque k)) = none

unfoldable pub get_bool : Str → Payload → Option Bool
get_bool key none = none
get_bool key (some m) = as_bool (lookup key m)
