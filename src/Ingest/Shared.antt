-- ===== src/Ingest/Shared.antt =====
-- internal/providers/shared: helpers.go and auth.go.
use Prim.Native.Char.{Char, code}
use Prim.Native.String.{[], ◌∷◌}
use evidra_gitops.Base.{
  ℕ, String, ◌<>◌, Bool, false, ◌&&◌, ◌||◌, Option, none, some, List, [], ◌∷◌, ◌++◌, ◌==◌, leb, eqb,
  if◌then◌else◌, any, last?, split_all, trim_space, to_lower, to_upper,
}
use evidra_gitops.Base.Int.{ℤ}
use evidra_gitops.Event.Platform.{Platform}
use evidra_gitops.Api.Auth.{Crypto, behind_scheme}

-- What the parsers take from libraries besides.
pub record Libraries : Type 0 where
  -- the first 8 bytes of `sha256.Sum256`, in `hex.EncodeToString`
  pub short_sha256_hex : String → String
  -- `issueKeyPattern.FindAllString`
  pub find_issue_keys : String → List String
  -- `fmt.Sprintf` of "%d"
  pub decimal : ℤ → String

between : ℕ → Char → ℕ → Bool
between low c high = leb low (code c) && leb (code c) high

-- The characters that MakeID keeps.
unfoldable pub is_id_char : Char → Bool
unfolding between
is_id_char c =
    between b'a' c b'z'
    || between b'A' c b'Z'
    || between b'0' c b'9'
    || eqb (code c) b'-'
    || eqb (code c) b'_'

-- `strings.Map` over a delivery
unfoldable pub clean_delivery : String → String
clean_delivery [] = ""
clean_delivery (c ∷ s) = let rest = clean_delivery s in (if is_id_char c then c else "_") ∷ rest

-- MakeID, with the number as a text: the parsers always pass 0.
unfoldable pub make_id : String → String → String → String
make_id provider delivery n = "evt_" <> provider <> "_" <> clean_delivery delivery <> "_" <> n

-- FallbackDelivery
unfoldable pub fallback_delivery : Libraries → String → String → String
fallback_delivery l delivery body =
    if trim_space delivery == "" then l.short_sha256_hex body else trim_space delivery

abbrev pub last_or_empty : Option String → String
last_or_empty none = ""
last_or_empty (some s) = s

-- RepoApp
unfoldable pub repo_app : String → String
repo_app repo =
    if trim_space repo == ""
    then "unknown"
    else last_or_empty (last? (split_all b'/' (trim_space repo)))

-- NonEmpty
unfoldable pub non_empty : String → String → String
non_empty a b = if trim_space a == "" then trim_space b else trim_space a

-- ParseTimeOrNow
unfoldable pub parse_time_or_now : Platform → ℕ → String → ℕ
parse_time_or_now p now v = if trim_space v == "" then now else elim (p.parse_nano (trim_space v)) [
  | some t ↦ t
  | none ↦ elim (p.parse_rfc3339 (trim_space v)) [ some t ↦ t | none ↦ now ]
]

-- NormalizeEventType
unfoldable pub normalize_event_type : String → String
normalize_event_type s = trim_space (to_lower s)

-- `seen` has the keys of `out`.
unfoldable pub add_key : List String → String → List String
add_key out key = if any (λ k. k == key) out then out else out ++ key ∷ []

unfoldable pub add_keys : List String → List String → List String
add_keys out [] = out
add_keys out (key ∷ keys) = add_keys (add_key out key) keys

unfoldable pub issue_keys_from : Libraries → List String → List String → List String
issue_keys_from l out [] = out
issue_keys_from l out (value ∷ values) =
    issue_keys_from l (add_keys out (l.find_issue_keys (to_upper (trim_space value)))) values

-- ExtractIssueKeys
unfoldable pub extract_issue_keys : Libraries → List String → List String
extract_issue_keys l values = issue_keys_from l [] values

-- ValidSHA256Signature
unfoldable pub valid_sha256_signature : Crypto → String → String → String → Bool
valid_sha256_signature c secret body header =
    if trim_space header == ""
    then false
    else elim (behind_scheme b'=' "sha256" (trim_space header)) [
      | none ↦ false
      | some hex ↦ elim (c.decode_hex hex) [
        | none ↦ false
        | some provided ↦ c.hmac_sha256 secret body == provided
      ]
    ]
