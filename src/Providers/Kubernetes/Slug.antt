-- ===== src/Providers/Kubernetes/Slug.antt =====
-- slug in internal/providers/kubernetes/collector.go: a text in lower case, whose other characters are
-- dashes.
use Prim.Native.Char.{Char, code}
use Prim.Native.String.{[], ◌∷◌}
use evidra_gitops.Base.{
  String, Bool, ◌&&◌, ◌||◌, ◌==◌, leb, eqb, if◌then◌else◌, trim_space, to_lower,
}

abbrev is_dash : Char → Bool
is_dash c = eqb (code c) b'-'

-- What the loop writes as it is.
unfoldable pub is_slug_char : Char → Bool
is_slug_char c =
    (leb b'a' (code c) && leb (code c) b'z') || (leb b'0' (code c) && leb (code c) b'9')

-- The loop over the characters.
unfoldable pub dashed : String → String
dashed [] = ""
dashed (c ∷ s) = let rest = dashed s in (if is_slug_char c then c else "-") ∷ rest

-- `strings.Trim` of dashes
unfoldable pub trim_left_dashes : String → String
trim_left_dashes [] = []
trim_left_dashes (c ∷ s) = let rest = trim_left_dashes s in if is_dash c then rest else c ∷ s

unfoldable pub keep_before : Char → String → String
keep_before c [] = if is_dash c then [] else c ∷ []
keep_before c (d ∷ r) = c ∷ d ∷ r

unfoldable pub trim_right_dashes : String → String
unfolding keep_before
trim_right_dashes [] = []
trim_right_dashes (c ∷ s) = keep_before c (trim_right_dashes s)

unfoldable pub trim_dashes : String → String
unfolding trim_left_dashes trim_right_dashes
trim_dashes s = trim_right_dashes (trim_left_dashes s)

-- slug
unfoldable pub slug : String → String
slug s =
    if to_lower (trim_space s) == ""
    then "unknown"
    else if trim_dashes (dashed (to_lower (trim_space s))) == ""
    then "unknown"
    else trim_dashes (dashed (to_lower (trim_space s)))
