-- ===== src/Event/Platform.antt =====
-- What the program takes from Go's standard library and does not implement: encoding/json,
-- crypto/sha256 with encoding/hex, encoding/base64 and the texts of package time. Each is a
-- parameter of the model.
use evidra_gitops.Base.{ℕ, String, Option, some, List, [], ◌∷◌, ◌≡◌, ◌≢◌, trim_space}
use evidra_gitops.Base.Dict.{Dict}
use evidra_gitops.Value.{Value}

-- The struct that ComputeIntegrityHash encodes.
pub record Canonical : Type 0 where
  pub spec_version : String
  pub id : String
  pub source : String
  pub type : String
  pub subject : String
  pub time : String
  pub extensions : Dict Value
  pub payload : String

pub record Platform : Type 0 where
  -- `json.Unmarshal` into an `interface{}`, a map of raw messages, a list of such maps, a time, and
  -- a `map[string]interface{}`; `none` is an error
  pub unmarshal : String → Option Value
  pub unmarshal_raw : String → Option (Dict String)
  pub unmarshal_batch : String → Option (List (Dict String))
  pub unmarshal_time : String → Option ℕ
  pub unmarshal_object : String → Option (Dict Value)
  -- into a `[]map[string]interface{}`
  pub unmarshal_objects : String → Option (List (Dict Value))
  -- `json.Marshal` of the canonical form, and of the data fields of an event
  pub marshal_canonical : Canonical → Option String
  pub marshal_object : Dict Value → Option String
  -- `hex.EncodeToString` of `sha256.Sum256`
  pub sha256_hex : String → String
  -- `time.RFC3339Nano`, `time.RFC3339`, and `UnixNano` under "%d"
  pub format_nano : ℕ → String
  pub parse_nano : String → Option ℕ
  pub format_rfc3339 : ℕ → String
  pub parse_rfc3339 : String → Option ℕ
  pub unix_nano : ℕ → String
  -- JSON of the struct `cursor`, a time and an id; JSON of a `map[string]string`; base64 with and
  -- without padding
  pub cursor_json : String → String → String
  pub parse_cursor_json : String → Option (String × String)
  pub string_map_json : Dict String → String
  pub parse_string_map : String → Option (Dict String)
  pub base64 : String → String
  pub parse_base64 : String → Option String
  pub raw_base64 : String → String
  pub parse_raw_base64 : String → Option String

-- The encoders are undone by the decoders, and base64 of a text that is not empty is not blank.
pub record IsLawful (p : Platform) : Type 0 where
  pub parse_nano-format_nano : (t : ℕ) → p.parse_nano (p.format_nano t) ≡ some t
  pub parse_cursor_json-cursor_json :
      (ts id : String) → p.parse_cursor_json (p.cursor_json ts id) ≡ some (ts, id)
  pub parse_base64-base64 : (s : String) → p.parse_base64 (p.base64 s) ≡ some s
  pub parse_raw_base64-raw_base64 : (s : String) → p.parse_raw_base64 (p.raw_base64 s) ≡ some s
  pub cursor_json-ne : (ts id : String) → p.cursor_json ts id ≢ ""
  pub trim_space-base64 : (s : String) → s ≢ "" → trim_space (p.base64 s) ≢ ""
  pub trim_space-raw_base64 : (s : String) → s ≢ "" → trim_space (p.raw_base64 s) ≢ ""

-- A map is encoded to the text of a JSON object.
pub record EncodesObjects (p : Platform) : Type 0 where
  pub object-ne : (m : Dict Value) (s : String) → p.marshal_object m ≡ some s → s ≢ ""
  pub object-ne-null : (m : Dict Value) (s : String) → p.marshal_object m ≡ some s → s ≢ "null"

-- A map of an id and a time is read back from its JSON, which is not empty.
pub record ReadsMaps (p : Platform) : Type 0 where
  pub parse_string_map-string_map_json :
      (id ts : String)
      → p.parse_string_map (p.string_map_json (("id", id) ∷ ("ts", ts) ∷ []))
        ≡ some (("id", id) ∷ ("ts", ts) ∷ [])
  pub string_map_json-ne : (m : Dict String) → p.string_map_json m ≢ ""

-- Every map, of extensions or of data, has a JSON text.
pub record EncodesAll (p : Platform) : Type 0 where
  pub encoded : (m : Dict Value) → (s : String) × (p.marshal_object m ≡ some s)

-- A canonical form has a JSON text, if the encoder wrote its data.
pub record EncodesCanonical (p : Platform) : Type 0 where
  pub canonical_encoded :
      (c : Canonical) (m : Dict Value)
      → p.marshal_object m ≡ some c.payload
      → (s : String) × (p.marshal_canonical c ≡ some s)
