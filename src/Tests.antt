-- ===== src/Tests.antt =====
-- The theorems at concrete inputs.
mod Standard
mod Store
mod Changes
mod App
mod Api
mod Argo
mod Client
mod Ingest
mod Serving
mod Sql
mod Kubernetes
mod Jwt
