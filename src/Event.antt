-- ===== src/Event.antt =====
-- internal/cloudevents/canonical.go and the extension accessors of internal/cloudevents/ingest.go:
-- the stored event. A time is the number of nanoseconds since 1 January of the year 1, in UTC, the
-- zero time of Go; so `UTC()` is the identity and `Before` is `<`.
pub mod Platform
pub mod Hash
pub mod Parse
use evidra_gitops.Base.{
  ℕ, String, Bool, true, false, not, ◌||◌, Option, none, some, List, ◌==◌, eqb, trim_space,
  to_lower,
}
use evidra_gitops.Base.Int.{ℤ, pos, negsuc}
use evidra_gitops.Base.Dict.{Dict, lookup}
use evidra_gitops.Value.{
  Value, Number, nil, bool, float64, int, int64, text, array, object, strings, string_map,
}

pub record StoredEvent : Type 0 where
  pub id : String
  pub type : String
  pub source : String
  pub subject : String
  pub time : ℕ
  pub extensions : Dict Value
  -- `Data json.RawMessage`, its bytes as a text
  pub payload : String
  pub integrity_hash : String
  pub ingested_at : ℕ

abbrev pub is_zero_time : ℕ → Bool
is_zero_time t = eqb t 0

-- `raw.(type)` at `string`: its text without outer white space
unfoldable pub string_of_value : Value → String
string_of_value (text s) = trim_space s
string_of_value nil = ""
string_of_value (bool b) = ""
string_of_value (float64 n) = ""
string_of_value (int n) = ""
string_of_value (int64 n) = ""
string_of_value (array vs) = ""
string_of_value (object fs) = ""
string_of_value (strings ss) = ""
string_of_value (string_map m) = ""

-- ExtensionString. A nil map has no entries.
unfoldable pub extension_string : Dict Value → String → String
unfolding string_of_value lookup
extension_string extensions key = elim (lookup key extensions) [
  | none ↦ ""
  | some raw ↦ string_of_value raw
]

bool_of_text : String → Bool
bool_of_text lv = lv == "true" || lv == "1" || lv == "yes"

bool_of_int : ℤ → Bool
bool_of_int (pos n) = not (eqb n 0)
bool_of_int (negsuc n) = true

unfoldable pub bool_of_value : Value → Bool
unfolding bool_of_text bool_of_int
bool_of_value (bool b) = b
bool_of_value (text s) = bool_of_text (to_lower (trim_space s))
bool_of_value (float64 n) = not (eqb n.digits 0)
bool_of_value (int n) = bool_of_int n
bool_of_value nil = false
bool_of_value (int64 n) = false
bool_of_value (array vs) = false
bool_of_value (object fs) = false
bool_of_value (strings ss) = false
bool_of_value (string_map m) = false

-- ExtensionBool
unfoldable pub extension_bool : Dict Value → String → Bool
unfolding bool_of_value lookup
extension_bool extensions key = elim (lookup key extensions) [
  | none ↦ false
  | some raw ↦ bool_of_value raw
]
