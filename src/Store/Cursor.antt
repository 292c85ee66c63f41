-- ===== src/Store/Cursor.antt =====
-- encodeCursor and decodeCursor of internal/store/store.go.
use evidra_gitops.Base.{
  ℕ, String, ◌≡◌, ◌≢◌, Option, none, some, ◌==◌, if◌then◌else◌, trim_space, arith, eq_iff,
}
use evidra_gitops.Result.{Result, ok, err, invalid_cursor}
use evidra_gitops.Event.Platform.{Platform, IsLawful}

module _ (p : Platform) where
  unfoldable pub encode_cursor : ℕ → String → String
  encode_cursor ts id = p.base64 (p.cursor_json (p.format_nano ts) id)

  with_time : String → Option ℕ → Result (ℕ × String)
  with_time id none = err invalid_cursor
  with_time id (some ts) = ok (ts, id)

  with_cursor : Option (String × String) → Result (ℕ × String)
  unfolding with_time
  with_cursor none = err invalid_cursor
  with_cursor (some (ts, id)) = with_time id (p.parse_nano ts)

  with_raw : Option String → Result (ℕ × String)
  unfolding with_cursor
  with_raw none = err invalid_cursor
  with_raw (some raw) = with_cursor (p.parse_cursor_json raw)

  -- No cursor is the zero time with an empty id.
  unfoldable pub decode_cursor : String → Result (ℕ × String)
  unfolding with_raw
  decode_cursor cursor =
      if trim_space cursor == "" then ok (0, "") else with_raw (p.parse_base64 cursor)

  decode_nonblank :
      (cursor : String)
      → trim_space cursor ≢ ""
      → decode_cursor cursor ≡ with_raw (p.parse_base64 cursor)
  unfolding decode_cursor
  decode_nonblank cursor h = ground (arith, eq_iff (trim_space cursor) "")

  -- A cursor names the time and the id that it was made of.
  pub decode_cursor-encode_cursor :
      IsLawful p → (ts : ℕ) (id : String) → decode_cursor (encode_cursor ts id) ≡ ok (ts, id)
  unfolding encode_cursor with_raw
  decode_cursor-encode_cursor l ts id =
      rw (decode_nonblank _ (l.trim_space-base64 _ (l.cursor_json-ne (p.format_nano ts) id))) (
        rw (l.parse_base64-base64, with_raw)
          (rw (l.parse_cursor_json-cursor_json, with_cursor)
            (rw (l.parse_nano-format_nano, with_time))))
