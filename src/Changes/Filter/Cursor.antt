-- ===== src/Changes/Filter/Cursor.antt =====
-- The cursor of a list of changes: encodeChangeCursor and decodeChangeCursor of
-- internal/app/changes.go.
use evidra_gitops.Base.{
  ℕ, String, ◌≡◌, ◌≢◌, refl, ap, ◌∙◌, false, [], ◌∷◌, ◌==◌, eq_iff, trim_space, if◌then◌else◌,
  Bool-cases, inl, inr,
}
use evidra_gitops.Base.Dict.{lookup}
use evidra_gitops.Event.Platform.{Platform, IsLawful, ReadsMaps}
use evidra_gitops.Result.{ok}
use evidra_gitops.Changes.Filter.{
  with_time, with_payload, with_bytes, encode_change_cursor, decode_change_cursor,
}

not_blank : (s : String) → s ≢ "" → (s == "") ≡ false
not_blank s written = elim (Bool-cases (s == "")) [
  | inl e ↦ absurd (written ((eq_iff s "").0 e))
  | inr e ↦ e
]

-- The cursor of an element with an id is read back.
pub decode_change_cursor-encode_change_cursor :
    (p : Platform)
    → IsLawful p
    → ReadsMaps p
    → (ts : ℕ) (id : String) → trim_space id ≢ ""
    → decode_change_cursor p (encode_change_cursor p ts id) ≡ ok (ts, id)
unfolding decode_change_cursor encode_change_cursor with_bytes with_payload with_time
    evidra_gitops.Changes.Filter.entry_or_empty lookup
decode_change_cursor-encode_change_cursor p l reads ts id written =
    ap (λ b. if b then ok (0, "") else with_bytes p (p.parse_raw_base64 cursor)) filled
    ∙ ap (with_bytes p) (l.parse_raw_base64-raw_base64 json)
    ∙ ap (with_payload p) (reads.parse_string_map-string_map_json id (p.format_nano ts))
    ∙ ap (with_time p id) (l.parse_nano-format_nano ts)
    ∙ rw (not_blank (trim_space id) written) refl
  where
    json : String
    json = p.string_map_json (("id", id) ∷ ("ts", p.format_nano ts) ∷ [])

    cursor : String
    cursor = encode_change_cursor p ts id

    filled : (trim_space cursor == "") ≡ false
    filled = not_blank _ (l.trim_space-raw_base64 json (reads.string_map_json-ne _))
