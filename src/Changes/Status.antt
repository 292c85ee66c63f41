-- ===== src/Changes/Status.antt =====
-- The result and the health of an event, and how they are merged: inferResultStatus,
-- mergeResultStatus, inferHealthStatus and mergeHealthStatus of internal/app/changes.go.
use evidra_gitops.Base.{
  String, ◌<>◌, not, ◌&&◌, ◌||◌, none, some, ◌==◌, if◌then◌else◌, to_lower, contains,
}
use evidra_gitops.Event.{StoredEvent, extension_string}
use evidra_gitops.Event.Platform.{Platform}

-- dataString
unfoldable pub data_string : Platform → String → String → String
data_string p payload key =
    if payload == ""
    then ""
    else elim (p.unmarshal_object payload) [ none ↦ "" | some m ↦ extension_string m key ]

-- The first of two texts that is not empty.
abbrev pub or_text : String → String → String
or_text s t = if s == "" then t else s

unfoldable pub status_text : Platform → StoredEvent → String
status_text p e =
    or_text
      (or_text (or_text (data_string p e.payload "status") (data_string p e.payload "result"))
        (data_string p e.payload "phase"))
      (data_string p e.payload "outcome")

-- The two tests on the lowered text of type and status.
unfoldable pub result_of_bucket : String → String
result_of_bucket bucket =
    if contains bucket "fail"
      || contains bucket "error"
      || contains bucket "degrad"
      || contains bucket "abort"
    then "failed"
    else if contains bucket "success"
        || contains bucket "succeed"
        || contains bucket "healthy"
        || contains bucket "complete"
    then "succeeded"
    else "unknown"

unfoldable pub infer_result_status : Platform → StoredEvent → String
infer_result_status p e = result_of_bucket (to_lower (e.type <> " " <> status_text p e))

unfoldable pub merge_result_status : String → String → String
merge_result_status current next =
    if current == "failed" || next == "failed"
    then "failed"
    else if current == "succeeded" || next == "succeeded"
    then "succeeded"
    else "unknown"

unfoldable pub health_of_text : String → String
health_of_text raw =
    if raw == "healthy"
    then "healthy"
    else if raw == "degraded"
    then "degraded"
    else if raw == "progressing"
    then "progressing"
    else if raw == "missing"
    then "missing"
    else "unknown"

unfoldable pub infer_health_status : StoredEvent → String
infer_health_status e =
    let raw = to_lower (extension_string e.extensions "health_status") in
    health_of_text (if raw == "" then to_lower (extension_string e.extensions "health") else raw)

unfoldable pub merge_health_status : String → String → String
merge_health_status current next =
    if next == "degraded"
    then "degraded"
    else if next == "progressing" && not (current == "degraded")
    then "progressing"
    else if next == "healthy" && current == "unknown"
    then "healthy"
    else if next == "missing" && current == "unknown"
    then "missing"
    else current
