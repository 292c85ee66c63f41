-- ===== src/Providers/Typed.antt =====
-- The types of the events that the parsers of internal/providers make.
use mathlib.Core.Path.{subst}
use evidra_gitops.Base.{
  String, Bool, true, ◌||◌, Option, any, if◌then◌else◌, to_lower, ◌≡◌, refl, sym, List, [], ◌∷◌,
  ◌==◌, arith, eq_iff, inl, inr, Bool-cases,
}
use evidra_gitops.Providers.Github
use evidra_gitops.Providers.Gitlab
use evidra_gitops.Providers.Bitbucket

-- The types that an event may have, by the type of its webhook.
unfoldable pub types_of : String → List String
types_of event_type =
    if event_type == "push" || event_type == "push hook" || event_type == "repo:push"
    then "push" ∷ []
    else if event_type == "merge request hook"
    then "merge_request_opened" ∷ "merge_request_merged" ∷ "merge_request_closed"
      ∷ "merge_request_updated" ∷ []
    else "pull_request_opened" ∷ "pull_request_merged" ∷ "pull_request_closed"
      ∷ "pull_request_updated" ∷ []

abbrev pub has_type : String → String → Bool
has_type event_type type = any (λ t. t == type) (types_of event_type)

pub same_type :
    (event_type name type : String)
    → (event_type == name) ≡ true
    → has_type name type ≡ true
    → has_type event_type type ≡ true
same_type event_type name type same h =
    subst (λ t. has_type t type ≡ true) (sym ((eq_iff _ _).0 same)) h

pub github_types :
    (action : String) (pr : Option Github.PullRequest)
    → has_type "pull_request" (Github.pull_request_type action pr) ≡ true
unfolding types_of any Github.pull_request_type
github_types action pr = elim (Bool-cases (to_lower action == "opened")) [
  | inl opened ↦ rw opened refl
  | inr other ↦ elim (Bool-cases (to_lower action == "closed")) [
    | inr updated ↦ rw other (rw updated refl)
    | inl closed ↦ elim (Bool-cases (Github.was_merged pr)) [
      | inl merged ↦ rw other (rw closed (rw merged refl))
      | inr kept ↦ rw other (rw closed (rw kept refl))
    ]
  ]
]

pub gitlab_types :
    (action : String) → has_type "merge request hook" (Gitlab.merge_request_type action) ≡ true
unfolding types_of any Gitlab.merge_request_type
gitlab_types action = elim (Bool-cases (to_lower action == "open" || to_lower action == "opened")) [
  | inl opened ↦ rw opened refl
  | inr first ↦ elim (Bool-cases (to_lower action == "merge" || to_lower action == "merged")) [
    | inl merged ↦ rw first (rw merged refl)
    | inr second ↦ elim (Bool-cases (to_lower action == "close" || to_lower action == "closed")) [
      | inl closed ↦ rw first (rw second (rw closed refl))
      | inr updated ↦ rw first (rw second (rw updated refl))
    ]
  ]
]

typed :
    (event_type name : String)
    → (event_type == name) ≡ true
    → has_type name (Bitbucket.pull_request_type name) ≡ true
    → has_type event_type (Bitbucket.pull_request_type event_type) ≡ true
typed event_type name same h =
    subst (λ t. has_type t (Bitbucket.pull_request_type t) ≡ true) (sym ((eq_iff _ _).0 same)) h

pub bitbucket_types :
    (event_type : String)
    → Bitbucket.is_pull_request event_type ≡ true
    → has_type event_type (Bitbucket.pull_request_type event_type) ≡ true
unfolding types_of any Bitbucket.pull_request_type Bitbucket.is_pull_request
bitbucket_types event_type h = elim (Bool-cases (event_type == "pullrequest:created")) [
  | inl same ↦ typed event_type "pullrequest:created" same refl
  | inr not_created ↦ elim (Bool-cases (event_type == "pullrequest:fulfilled")) [
    | inl same ↦ typed event_type "pullrequest:fulfilled" same refl
    | inr not_fulfilled ↦ elim (Bool-cases (event_type == "pullrequest:rejected")) [
      | inl same ↦ typed event_type "pullrequest:rejected" same refl
      | inr not_rejected ↦ elim (Bool-cases (event_type == "pullrequest:updated")) [
        | inl same ↦ typed event_type "pullrequest:updated" same refl
        | inr not_updated ↦ absurd (ground arith)
      ]
    ]
  ]
]
