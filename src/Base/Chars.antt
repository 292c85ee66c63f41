-- ===== src/Base/Chars.antt =====
-- Characters: white space and lower case, as the Go packages `unicode` and `strings` have them.
-- A text is a `String`, the code points of valid UTF-8. Letters outside ASCII are left as they are.
use Prim.Native.Nat.{ℕ, ◌+◌, ◌-◌, compare, Ordering}
use Prim.Native.Char.{Char, char, code, IsScalar}
use mathlib.Core.Path.{◌≡◌, refl}
use mathlib.Core.Bool.{Bool, true, false, ◌&&◌, ◌||◌}
use native.Mathlib.Omega.{arith}
use evidra_gitops.Base.Tests.{leb, eqb, if◌then◌else◌}

space_code : ℕ → Bool
space_code n =
    (leb 9 n && leb n 13)
    || eqb n 32
    || eqb n 0x85
    || eqb n 0xa0
    || eqb n 0x1680
    || (leb 0x2000 n && leb n 0x200a)
    || eqb n 0x2028
    || eqb n 0x2029
    || eqb n 0x202f
    || eqb n 0x205f
    || eqb n 0x3000

-- `unicode.IsSpace`
unfoldable pub is_space : Char → Bool
unfolding space_code
is_space c = space_code (code c)

is_upper : ℕ → Bool
is_upper n = leb b'A' n && leb n b'Z'

below_surrogates : (n : ℕ) → is_upper n ≡ true → compare (n + 32) 55296 ≡ Ordering.lt
unfolding is_upper
below_surrogates n h = ground arith

upper_scalar : (n : ℕ) → is_upper n ≡ true → IsScalar (n + 32)
upper_scalar n h = rw (below_surrogates n h) tt

shift : (n : ℕ) → IsScalar n → (b : Bool) → is_upper n ≡ b → Char
shift n p true h = char (n + 32) (upper_scalar n h)
shift n p false h = char n p

-- `unicode.ToLower`, on the letters of ASCII
unfoldable pub lower_char : Char → Char
unfolding is_upper shift upper_scalar below_surrogates
lower_char (char n p) = shift n p (is_upper n) refl

lowered : ℕ → ℕ
unfolding is_upper
lowered n = if is_upper n then n + 32 else n

is_lower : ℕ → Bool
is_lower n = leb b'a' n && leb n b'z'

lower_scalar : (n : ℕ) → is_lower n ≡ true → compare (n - 32) 55296 ≡ Ordering.lt
unfolding is_lower
lower_scalar n h = ground arith

unshift : (n : ℕ) → IsScalar n → (b : Bool) → is_lower n ≡ b → Char
unshift n p true h = char (n - 32) (rw (lower_scalar n h) tt)
unshift n p false h = char n p

-- `unicode.ToUpper`, on the letters of ASCII
unfoldable pub upper_char : Char → Char
unfolding is_lower unshift lower_scalar
upper_char (char n p) = unshift n p (is_lower n) refl
