-- ===== src/Changes/Filter.antt =====
-- filterChanges, filterEventsByQuery and the cursor of a list of changes: internal/app/changes.go.
pub mod Cursor
use evidra_gitops.Base.{
  ℕ, String, Bool, true, false, not, ◌&&◌, ◌||◌, Option, none, some, List, [], ◌∷◌, ◌==◌,
  if◌then◌else◌, ltb, eqb, str_ltb, length, take, last?, select, min, trim_space, to_lower,
  equal_fold, contains,
}
use evidra_gitops.Base.Int.{ℤ, pos, negsuc}
use evidra_gitops.Base.Dict.{Dict, lookup}
use evidra_gitops.Result.{Result, ok, err, invalid_change_cursor}
use evidra_gitops.Value.{
  Value, nil, bool, float64, int, int64, text, array, object, strings, string_map,
}
use evidra_gitops.Event.{StoredEvent}
use evidra_gitops.Event.Platform.{Platform}
use evidra_gitops.Changes.{Change}

pub record ParsedSubject : Type 0 where
  pub app : String
  pub environment : String
  pub cluster : String

pub record ChangeQuery : Type 0 where
  pub subject : ParsedSubject
  pub from : ℕ
  pub to : ℕ
  pub q : String
  pub result_status : String
  pub health_status : String
  pub external_change_id : String
  pub external_change_id_state : String
  pub ticket_id : String
  pub ticket_id_state : String
  pub approval_reference : String
  pub has_approvals : String
  pub limit : ℤ
  pub cursor : String

-- `want` is a state that the value does not have.
unfoldable pub wrong_state : String → String → Bool
wrong_state state value =
    (state == "set" && trim_space value == "") || (state == "unset" && not (trim_space value == ""))

-- A text is asked for, and the value is another.
abbrev other_text : String → String → Bool
other_text want value = not (want == "") && not (equal_fold value want)

-- The conditions of the loop of filterChanges that make it `continue`.
unfoldable pub change_filtered_out : ChangeQuery → Change → Bool
change_filtered_out q c =
    (not (q.result_status == "") && not (c.result_status == q.result_status))
    || (not (q.health_status == "") && not (c.health_status == q.health_status))
    || wrong_state (to_lower (trim_space q.external_change_id_state)) c.external_change_id
    || other_text (trim_space q.external_change_id) c.external_change_id
    || wrong_state (to_lower (trim_space q.ticket_id_state)) c.ticket_id
    || other_text (trim_space q.ticket_id) c.ticket_id
    || other_text (trim_space q.approval_reference) c.approval_reference
    || (to_lower (trim_space q.has_approvals) == "yes" && not c.has_approvals)
    || (to_lower (trim_space q.has_approvals) == "no" && c.has_approvals)

unfoldable pub filter_changes : List Change → ChangeQuery → List Change
filter_changes changes q = select (λ c. not (change_filtered_out q c)) changes

value_contains : String → Value → Bool
value_contains q (text s) = contains (to_lower s) q
value_contains q nil = false
value_contains q (bool b) = false
value_contains q (float64 n) = false
value_contains q (int n) = false
value_contains q (int64 n) = false
value_contains q (array vs) = false
value_contains q (object fs) = false
value_contains q (strings ss) = false
value_contains q (string_map m) = false

any_value_contains : String → Dict Value → Bool
any_value_contains q [] = false
any_value_contains q ((k, v) ∷ m) =
    let rest = any_value_contains q m in if value_contains q v then true else rest

-- eventMatchesQuery
unfoldable pub event_matches_query : StoredEvent → String → Bool
unfolding any_value_contains value_contains
event_matches_query e q =
    contains (to_lower e.id) q
    || contains (to_lower e.source) q
    || contains (to_lower e.type) q
    || contains (to_lower e.subject) q
    || any_value_contains q e.extensions
    || contains (to_lower e.payload) q

-- filterEventsByQuery
unfoldable pub filter_events_by_query : List StoredEvent → String → List StoredEvent
filter_events_by_query events q =
    let want = to_lower (trim_space q) in
    if want == "" then events else select (λ e. event_matches_query e want) events

-- encodeChangeCursor
unfoldable pub encode_change_cursor : Platform → ℕ → String → String
encode_change_cursor p ts id =
    p.raw_base64 (p.string_map_json (("id", id) ∷ ("ts", p.format_nano ts) ∷ []))

entry_or_empty : Option String → String
entry_or_empty none = ""
entry_or_empty (some s) = s

module _ (p : Platform) where
  pub with_time : String → Option ℕ → Result (ℕ × String)
  with_time id none = err invalid_change_cursor
  with_time id (some ts) = if trim_space id == "" then err invalid_change_cursor else ok (ts, id)

  pub with_payload : Option (Dict String) → Result (ℕ × String)
  unfolding with_time entry_or_empty
  with_payload none = err invalid_change_cursor
  with_payload (some m) =
      with_time (entry_or_empty (lookup "id" m)) (p.parse_nano (entry_or_empty (lookup "ts" m)))

  pub with_bytes : Option String → Result (ℕ × String)
  unfolding with_payload
  with_bytes none = err invalid_change_cursor
  with_bytes (some b) = with_payload (p.parse_string_map b)

  -- decodeChangeCursor
  unfoldable pub decode_change_cursor : String → Result (ℕ × String)
  unfolding with_bytes
  decode_change_cursor cursor =
      if trim_space cursor == "" then ok (0, "") else with_bytes (p.parse_raw_base64 cursor)

-- Completed before the cursor's time, or at it with a greater id.
unfoldable pub after_cursor : ℕ → String → Change → Bool
after_cursor ts id c = ltb c.completed_at ts || (eqb c.completed_at ts && str_ltb id c.id)

-- applyChangeCursor
unfoldable pub apply_change_cursor : List Change → ℕ → String → List Change
apply_change_cursor changes ts id = select (after_cursor ts id) changes

unfoldable pub change_limit : ℤ → ℕ
change_limit (pos n) = if eqb n 0 then 100 else min n 500
change_limit (negsuc n) = 100

pub record ChangeListResult : Type 0 where
  pub items : List Change
  pub next_cursor : String

unfoldable pub change_cursor_of : Platform → Option Change → String
change_cursor_of p none = ""
change_cursor_of p (some last) = encode_change_cursor p last.completed_at last.id

-- The end of ListChanges: the cut at the limit.
unfoldable pub change_page : Platform → ℕ → List Change → ChangeListResult
unfolding change_cursor_of
change_page p limit changes =
    if ltb limit (length changes)
    then record {
      items = take limit changes;
      next_cursor = change_cursor_of p (last? (take limit changes));
    }
    else record { items = changes; next_cursor = "" }
