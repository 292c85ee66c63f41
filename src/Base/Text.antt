-- ===== src/Base/Text.antt =====
-- Texts: what the program uses of the Go package `strings`.
use Prim.Native.Nat.{ℕ}
use Prim.Native.Char.{Char, code}
use Prim.Native.String.{String, [], ◌∷◌, ◌++◌, compare}
use Prim.Native.String.append.{nil, cons}
use mathlib.Core.Path.{◌≡◌, refl, ap, ◌∙◌}
use mathlib.Core.Logic.{◌≢◌, inl, inr}
use mathlib.Core.Bool.{Bool, true, false}
use mathlib.Core.List.{List, [], ◌∷◌}
use mathlib.Core.Option.{Option, none, some}
use native.Mathlib.Omega.{arith}
use text.Mathlib.Text.{◌==◌, find?, is_lt}
use text.Mathlib.TextEquality.{eq_iff}
use evidra_gitops.Base.Tests.{eqb, if◌then◌else◌, Bool-cases, is_some}
use evidra_gitops.Base.Chars.{is_space, lower_char, upper_char}

-- Drops white space at the front.
unfoldable pub trim_left : String → String
trim_left [] = []
trim_left (c ∷ s) = let rest = trim_left s in if is_space c then rest else c ∷ s

keep_char : Char → String → String
keep_char c [] = if is_space c then [] else c ∷ []
keep_char c (d ∷ r) = c ∷ d ∷ r

-- Drops white space at the end.
unfoldable pub trim_right : String → String
unfolding keep_char
trim_right [] = []
trim_right (c ∷ s) = keep_char c (trim_right s)

-- `strings.TrimSpace`
unfoldable pub trim_space : String → String
unfolding trim_left trim_right is_space
trim_space s = trim_right (trim_left s)

-- `strings.ToLower`
unfoldable pub to_lower : String → String
unfolding lower_char
to_lower [] = []
to_lower (c ∷ s) = lower_char c ∷ to_lower s

-- `strings.ToUpper`
unfoldable pub to_upper : String → String
unfolding upper_char
to_upper [] = []
to_upper (c ∷ s) = upper_char c ∷ to_upper s

-- `strings.EqualFold`
unfoldable pub equal_fold : String → String → Bool
unfolding to_lower
equal_fold s t = to_lower s == to_lower t

-- `strings.Contains`
abbrev pub contains : String → String → Bool
contains s t = is_some (find? s t)

-- `s < t`, by bytes
abbrev pub str_ltb : String → String → Bool
str_ltb s t = is_lt (compare s t)

-- The text in front of a suffix, if the text ends in it.
unfoldable pub cut_suffix : String → String → Option String
cut_suffix [] t = if [] == t then some [] else none
cut_suffix (c ∷ s) t =
    let rest = cut_suffix s t in
    if (c ∷ s) == t then some [] else elim rest [ none ↦ none | some r ↦ some (c ∷ r) ]

-- The text behind a prefix, if the text begins with it.
unfoldable pub cut_prefix : String → String → Option String
cut_prefix s [] = some s
cut_prefix [] (d ∷ t) = none
cut_prefix (c ∷ s) (d ∷ t) =
    let rest = cut_prefix s t in if eqb (code c) (code d) then rest else none

-- `strings.SplitN(s, sep, 2)` at a separator of one character: `none` where it does not stand.
unfoldable pub split_once : ℕ → String → Option (String × String)
split_once sep [] = none
split_once sep (c ∷ s) =
    let rest = split_once sep s in
    if eqb (code c) sep
    then some ([], s)
    else elim rest [ none ↦ none | some (a, b) ↦ some (c ∷ a, b) ]

grow_first : Char → List String → List String
grow_first c [] = (c ∷ []) ∷ []
grow_first c (t ∷ ts) = (c ∷ t) ∷ ts

-- `strings.Split` at a separator of one character
unfoldable pub split_all : ℕ → String → List String
unfolding grow_first
split_all sep [] = [] ∷ []
split_all sep (c ∷ s) =
    let rest = split_all sep s in if eqb (code c) sep then [] ∷ rest else grow_first c rest

keep_char-trim :
    (c : Char) (r : String) → trim_right r ≡ r → trim_right (keep_char c r) ≡ keep_char c r
unfolding trim_right
keep_char-trim c [] h = elim (Bool-cases (is_space c)) [
  | inl space ↦ rw (space, keep_char)
  | inr word ↦ rw (word, keep_char) (rw (word, keep_char))
]
keep_char-trim c (d ∷ r) h = rw h

trim_right_idem : (s : String) → trim_right (trim_right s) ≡ trim_right s
unfolding trim_right
trim_right_idem [] = refl
trim_right_idem (c ∷ s) = keep_char-trim c (trim_right s) (trim_right_idem s)

trim_left-keep_char :
    (c : Char) (r : String) → is_space c ≡ false → trim_left (keep_char c r) ≡ keep_char c r
unfolding trim_left keep_char
trim_left-keep_char c [] word = rw word (rw word)
trim_left-keep_char c (d ∷ r) word = rw word

trim_left-trim_right :
    (s : String) → trim_left (trim_right (trim_left s)) ≡ trim_right (trim_left s)
unfolding trim_left
trim_left-trim_right [] = unfold trim_right in refl
trim_left-trim_right (c ∷ s) = elim (Bool-cases (is_space c)) [
  | inl space ↦ rw space (trim_left-trim_right s)
  | inr word ↦ rw word (unfold trim_right in trim_left-keep_char c (trim_right s) word)
]

pub trim_space_idem : (s : String) → trim_space (trim_space s) ≡ trim_space s
unfolding trim_space
trim_space_idem s = rw trim_left-trim_right (trim_right_idem (trim_left s))

is_written : String → Bool
is_written [] = false
is_written (c ∷ s) = true

is_written-keep_char :
    (c : Char) (r : String) → is_space c ≡ false → is_written (keep_char c r) ≡ true
unfolding keep_char is_written
is_written-keep_char c [] word = rw word refl
is_written-keep_char c (d ∷ r) word = refl

is_written-trim_space :
    (c : Char) (s : String) → is_space c ≡ false → is_written (trim_space (c ∷ s)) ≡ true
unfolding trim_space trim_left
is_written-trim_space c s word =
    rw word (unfold trim_right in is_written-keep_char c (trim_right s) word)

-- A text that begins with no white space is not blank.
pub trim_space-ne : (c : Char) (s : String) → is_space c ≡ false → trim_space (c ∷ s) ≢ ""
unfolding is_written
trim_space-ne c s word h = absurd (ground (arith, is_written-trim_space c s word, ap is_written h))

trim_space-space : (c : Char) (s : String) → is_space c ≡ true → trim_space s ≡ trim_space (c ∷ s)
unfolding trim_space trim_left
trim_space-space c s space = rw space refl

-- A text with a character that is no white space is not blank.
pub trim_space-append-ne :
    (a : String) (c : Char) (s : String) → is_space c ≡ false → trim_space (a ++ c ∷ s) ≢ ""
trim_space-append-ne [] c s word = rw nil (trim_space-ne c s word)
trim_space-append-ne (d ∷ a) c s word = rw cons (elim (Bool-cases (is_space d)) [
  | inl space ↦ λ h. trim_space-append-ne a c s word (trim_space-space d (a ++ c ∷ s) space ∙ h)
  | inr other ↦ trim_space-ne d (a ++ c ∷ s) other
])

-- Texts that differ are told apart.
pub ne-eq : (s t : String) → s ≢ t → (s == t) ≡ false
ne-eq s t apart = elim (Bool-cases (s == t)) [
  | inl same ↦ absurd (apart ((eq_iff s t).0 same))
  | inr other ↦ other
]

text_samples :
    (trim_space " \t a b\n" ≡ "a b")
    × (to_upper "ops-1 z9" ≡ "OPS-1 Z9")
    × (to_lower "GitHub_Actions" ≡ "github_actions")
    × (contains "sync.failed" "fail" ≡ true)
    × (cut_suffix "id/timeline" "/timeline" ≡ some "id")
    × (cut_prefix "/v1/events/e1" "/v1/events/" ≡ some "e1")
    × (split_once 32 "Bearer a b" ≡ some ("Bearer", "a b"))
unfolding trim_space to_upper to_lower cut_suffix cut_prefix split_once
text_samples = (refl, refl, refl, refl, refl, refl, refl)
