-- ===== src/Tests/Standard.antt =====
-- A stand-in for Go's standard library on which the encoders are undone by the decoders, and the
-- events that the tests use.
use evidra_gitops.Base.{
  ℕ, zero, suc, String, ◌≡◌, ◌≢◌, refl, ap, true, Option, none, some, [], ◌∷◌, if◌then◌else◌, eqb,
  trim_space, trim_space-ne, arith,
}
use Prim.Native.Char.{code}
use Prim.Native.String.{[], ◌∷◌}
use evidra_gitops.Base.Chars.{is_space}
use evidra_gitops.Base.Int.{pos}
use evidra_gitops.Base.Dict.{Dict, lookup}
use evidra_gitops.Value.{text}
use evidra_gitops.Event.{StoredEvent}
use evidra_gitops.Store.{MemoryRepository, new_memory_repository}
use evidra_gitops.Store.Query.{TimelineQuery}
use evidra_gitops.Store.History.{run, ingest}
use evidra_gitops.Event.Platform.{Canonical, Platform, IsLawful, ReadsMaps}
use evidra_gitops.Argo.Normalize.{text_or_empty}

unfoldable pub tally : ℕ → String
tally zero = ""
tally (suc n) = "1" ∷ tally n

unfoldable pub count : String → ℕ
count [] = 0
count (c ∷ s) = suc (count s)

pub count-tally : (n : ℕ) → count (tally n) ≡ n
unfolding count tally
count-tally zero = refl
count-tally (suc n) = ap suc (count-tally n)

-- Two texts as one: each character of the first behind a mark, and another mark.
unfoldable pub joined : String → String → String
joined [] id = "0" ∷ id
joined (c ∷ s) id = "1" ∷ c ∷ joined s id

unfoldable pub parted : String → Option (String × String)
parted [] = none
parted (d ∷ []) = if eqb (code d) b'0' then some ("", "") else none
parted (d ∷ c ∷ s) =
    let rest = parted s in
    if eqb (code d) b'0'
    then some ("", c ∷ s)
    else elim rest [ none ↦ none | some (ts, id) ↦ some (c ∷ ts, id) ]

pub parted-joined : (ts id : String) → parted (joined ts id) ≡ some (ts, id)
unfolding parted joined
parted-joined [] [] = refl
parted-joined [] (c ∷ id) = refl
parted-joined (c ∷ s) id = rw (parted-joined s id)

unfoldable pub behind_mark : String → Option String
behind_mark [] = none
behind_mark (c ∷ s) = some s

unfoldable pub empty_canonical : Canonical → Option String
empty_canonical c = some (joined c.id (joined c.source c.payload))

unfoldable pub marked : String → String
marked s = "=" ∷ s

keeps_mark : (s : String) → trim_space (marked s) ≢ ""
unfolding marked
keeps_mark s = trim_space-ne "=" s (unfold is_space in refl)

-- A map of texts is the text of its id and its time.
unfoldable pub map_text : Dict String → String
map_text m = joined (text_or_empty (lookup "id" m)) (text_or_empty (lookup "ts" m))

unfoldable pub map_of_text : String → Option (Dict String)
map_of_text s = elim (parted s) [
  | none ↦ none
  | some (id, ts) ↦ some (("id", id) ∷ ("ts", ts) ∷ [])
]

-- Texts stand for their own JSON, and JSON of other shapes is not read.
abbrev pub standard : Platform
standard = record {
  unmarshal = λ s. some (text s);
  unmarshal_raw = λ s. none;
  unmarshal_batch = λ s. none;
  unmarshal_time = λ s. some (count s);
  unmarshal_object = λ s. none;
  unmarshal_objects = λ s. none;
  marshal_canonical = empty_canonical;
  marshal_object = λ m. some "{}";
  sha256_hex = marked;
  format_nano = tally;
  parse_nano = λ s. some (count s);
  format_rfc3339 = tally;
  parse_rfc3339 = λ s. some (count s);
  unix_nano = tally;
  cursor_json = joined;
  parse_cursor_json = parted;
  string_map_json = map_text;
  parse_string_map = map_of_text;
  base64 = marked;
  parse_base64 = behind_mark;
  raw_base64 = marked;
  parse_raw_base64 = behind_mark;
}

joined-ne : (ts id : String) → joined ts id ≢ ""
unfolding joined behind_mark
joined-ne [] id h = absurd (ground (arith, ap behind_mark h))
joined-ne (c ∷ s) id h = absurd (ground (arith, ap behind_mark h))

pub standard-IsLawful : IsLawful standard
unfolding behind_mark marked
standard-IsLawful = record {
  parse_nano-format_nano = λ t. ap some (count-tally t);
  parse_cursor_json-cursor_json = parted-joined;
  parse_base64-base64 = λ s. refl;
  parse_raw_base64-raw_base64 = λ s. refl;
  cursor_json-ne = joined-ne;
  trim_space-base64 = λ s written. keeps_mark s;
  trim_space-raw_base64 = λ s written. keeps_mark s;
}

pub standard-ReadsMaps : ReadsMaps standard
unfolding map_text map_of_text lookup text_or_empty parted joined
standard-ReadsMaps = record {
  parse_string_map-string_map_json = λ id ts. rw (parted-joined id ts) refl;
  string_map_json-ne = λ m. joined-ne _ _;
}

-- An event with an id, a time and a payload.
unfoldable pub sample : String → String → ℕ → String → StoredEvent
sample id subject time payload = record {
  id = id;
  type = "argo.sync.finished";
  source = "argocd";
  subject = subject;
  time = time;
  extensions = ("argocd_sync_revision", text "abc") ∷ [];
  payload = payload;
  integrity_hash = "";
  ingested_at = 0;
}

abbrev pub first : StoredEvent
first = sample "e1" "app" 5 "succeeded"

abbrev pub second : StoredEvent
second = sample "e2" "app" 7 "failed"

abbrev pub third : StoredEvent
third = sample "e3" "other" 6 "failed"

abbrev pub everything : TimelineQuery
everything = record {
  subject = "";
  cluster = "";
  namespace = "";
  from = 0;
  to = 0;
  source = "";
  type = "";
  correlation_key = "";
  correlation_value = "";
  include_supporting = true;
  limit = pos 1;
  cursor = "";
}

abbrev pub ingested : MemoryRepository
ingested =
    run standard (ingest 9 first ∷ ingest 10 second ∷ ingest 11 third ∷ []) new_memory_repository

-- An event of the same id with another hash.
abbrev pub changed : StoredEvent
changed = record first { integrity_hash = "=other" }

abbrev pub held : MemoryRepository
held = record { events = ("e1", first) ∷ []; exports = [] }
