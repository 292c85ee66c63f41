-- ===== src/Event/Parse.antt =====
-- internal/cloudevents/ingest.go and validate.go: a request body becomes stored events.
use evidra_gitops.Base.{
  ℕ, ◌+◌, String, Bool, ◌||◌, Option, none, some, List, [], ◌∷◌, ◌==◌, if◌then◌else◌, trim_space,
  to_lower, split_once,
}
use evidra_gitops.Base.Dict.{Dict, lookup}
use evidra_gitops.Result.{Result, ok, err, other, ◌>>=◌}
use evidra_gitops.Value.{Value, text}
use evidra_gitops.Event.{StoredEvent, is_zero_time}
use evidra_gitops.Event.Platform.{Platform}
use evidra_gitops.Event.Hash.{compute_integrity_hash}

-- knownFields
unfoldable pub known_field : String → Bool
known_field k =
    k == "specversion"
    || k == "id"
    || k == "source"
    || k == "type"
    || k == "subject"
    || k == "time"
    || k == "datacontenttype"
    || k == "dataschema"
    || k == "data"
    || k == "data_base64"

-- Validate: `now` is read where the event has no time.
unfoldable pub validate : ℕ → StoredEvent → Result StoredEvent
validate now e =
    if e.id == ""
    then err (other "id is required")
    else if e.source == ""
    then err (other "source is required")
    else if e.type == ""
    then err (other "type is required")
    else if e.payload == "" || e.payload == "null"
    then err (other "data is required")
    else if is_zero_time e.time
    then ok (record e { time = now })
    else ok e

module _ (p : Platform) where
  -- `json.Unmarshal(v, &s)` into an empty string, its error dropped
  text_of : Option Value → String
  text_of (some (text s)) = s
  text_of _ = ""

  string_field : Dict String → String → String
  unfolding text_of
  string_field raw key = elim (lookup key raw) [ none ↦ "" | some v ↦ text_of (p.unmarshal v) ]

  or_zero : Option ℕ → ℕ
  or_zero none = 0
  or_zero (some t) = t

  time_field : Dict String → ℕ
  unfolding or_zero
  time_field raw = elim (lookup "time" raw) [ none ↦ 0 | some v ↦ or_zero (p.unmarshal_time v) ]

  payload_field : Dict String → String
  payload_field raw = elim (lookup "data" raw) [ none ↦ "" | some v ↦ v ]

  -- The loop over the fields that CloudEvents does not know.
  extension_fields : Dict String → Dict Value
  extension_fields [] = []
  extension_fields ((k, v) ∷ raw) =
      let rest = extension_fields raw in
      if known_field k
      then rest
      else elim (p.unmarshal v) [ none ↦ rest | some val ↦ (k, val) ∷ rest ]

  unfoldable pub decoded : Dict String → StoredEvent
  unfolding string_field time_field payload_field extension_fields known_field lookup
  decoded raw = record {
    id = string_field raw "id";
    type = string_field raw "type";
    source = string_field raw "source";
    subject = string_field raw "subject";
    time = time_field raw;
    extensions = extension_fields raw;
    payload = payload_field raw;
    integrity_hash = "";
    ingested_at = 0;
  }

  with_hash : StoredEvent → Result StoredEvent
  with_hash e = elim (compute_integrity_hash p e) [
    | none ↦ err (other "marshal")
    | some h ↦ ok (record e { integrity_hash = h })
  ]

  unfoldable pub raw_to_stored_event : ℕ → Dict String → Result StoredEvent
  unfolding validate with_hash
  raw_to_stored_event now raw = do e ← validate now (decoded raw); with_hash e

  unfoldable pub parse_single : ℕ → String → Result StoredEvent
  parse_single now body = elim (p.unmarshal_raw body) [
    | none ↦ err (other "invalid JSON")
    | some raw ↦ raw_to_stored_event now raw
  ]

  -- The loop of parseBatch; the n-th event reads the clock's n-th time.
  parse_raws : (ℕ → ℕ) → ℕ → List (Dict String) → Result (List StoredEvent)
  parse_raws clock n [] = ok []
  parse_raws clock n (raw ∷ raws) =
      raw_to_stored_event (clock n) raw >>= λ e. parse_raws clock (n + 1) raws >>= λ es. ok (e ∷ es)

  unfoldable pub parse_batch : (ℕ → ℕ) → String → Result (List StoredEvent)
  unfolding parse_raws
  parse_batch clock body = elim (p.unmarshal_batch body) [
    | none ↦ err (other "invalid batch JSON")
    | some raws ↦ parse_raws clock 0 raws
  ]

  unfoldable pub media_type : String → String
  media_type content_type =
      let ct = to_lower (trim_space content_type) in
      elim (split_once b';' ct) [ none ↦ ct | some (front, back) ↦ trim_space front ]

  unfoldable pub parse_request : (ℕ → ℕ) → String → String → Result (List StoredEvent)
  unfolding media_type parse_single parse_batch
  parse_request clock content_type body =
      if media_type content_type == "application/cloudevents-batch+json"
      then parse_batch clock body
      else (do e ← parse_single (clock 0) body; ok (e ∷ []))
