-- ===== src/Argo/Client/Keys.antt =====
-- The keys and ids of internal/ingest/argo/client_fetch_argocd.go.
use evidra_gitops.Base.{
  ℕ, String, ◌<>◌, Option, none, some, ◌==◌, if◌then◌else◌, trim_space, to_lower,
}
use evidra_gitops.Base.Int.{ℤ, is_positive}
use evidra_gitops.Event.{is_zero_time}

-- `strconv.FormatInt` in base 10, of a number and of `Unix()` and `UnixNano()` of a time, and the
-- layout `time.RFC3339Nano`
pub record Formats : Type 0 where
  pub format_int : ℤ → String
  pub unix : ℕ → String
  pub unix_nano : ℕ → String
  pub format_nano : ℕ → String

-- timeFromMeta
unfoldable pub time_from_meta : Option ℕ → ℕ
time_from_meta none = 0
time_from_meta (some t) = t

module _ (f : Formats) where
  -- trimTimeKey
  unfoldable pub trim_time_key : ℕ → String
  trim_time_key t = if is_zero_time t then "0" else f.unix t

  -- deterministicHistoryID
  unfoldable pub deterministic_history_id : String → ℤ → String → ℕ → String
  unfolding trim_time_key
  deterministic_history_id app_uid history_id revision occurred =
      if is_positive history_id
      then trim_space app_uid <> (":hist:" <> f.format_int history_id)
      else trim_space app_uid
        <> (":hist:" <> (trim_space revision <> (":" <> trim_time_key occurred)))

  -- deterministicOperationID
  unfoldable pub deterministic_operation_id : String → String → String → String
  deterministic_operation_id app_uid op_key suffix =
      trim_space app_uid <> (":op:" <> (trim_space op_key <> (":" <> trim_space suffix)))

  -- deterministicHealthID
  unfoldable pub deterministic_health_id : String → String → ℕ → String
  unfolding trim_time_key
  deterministic_health_id app_uid health occurred =
      trim_space app_uid
      <> (":health:" <> (to_lower (trim_space health) <> (":" <> trim_time_key occurred)))

  -- operationKey
  unfoldable pub operation_key : String → ℕ → ℕ → String
  operation_key revision started_at finished_at =
      let known = if trim_space revision == "" then "unknown" else trim_space revision in
      if is_zero_time started_at
      then if is_zero_time finished_at
        then known <> ":unknown"
        else known <> (":" <> f.unix_nano finished_at)
      else known <> (":" <> f.unix_nano started_at)

  -- historyOperationKey
  unfoldable pub history_operation_key : ℤ → String → ℕ → String
  unfolding operation_key
  history_operation_key history_id revision occurred =
      if is_positive history_id
      then "hist:" <> f.format_int history_id
      else operation_key revision 0 occurred
