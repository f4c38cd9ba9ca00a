-- ===== src/Prelude/Text.antt =====
-- Text as the standard library of Rust treats it: `trim`, `strip_prefix`, `starts_with`.
use Prim.Native.Nat.{ℕ, ◌+◌, ◌-◌}
use Prim.Native.Char.{code}
use Prim.Native.String.{String}
use mathlib.Core.Bool.{Bool, true, false, ◌&&◌, ◌||◌}
use text.Mathlib.TextLemmas.{nil-append, cons-append}
use native.Mathlib.Omega.{arith}
use payman.Prelude.Tests.{Bool-cases, if◌then◌else◌, ltb, leb, ◌==◌}
use mathlib.Core.Path.{◌≡◌, refl, sym, ap₂, ◌∙◌}
use mathlib.Core.Logic.{inl, inr}
use mathlib.Core.Option.{Option, none, some, some_inj, none-ne-some}
pub use text.Mathlib.Text.{◌==◌ as str_eq}
pub use Prim.Native.String.{◌++◌ as str_append}
pub use text.Mathlib.TextEquality.{eq_iff, Char-path}
pub use text.Mathlib.TextPositions.{eq_refl}

abbrev pub is_empty_str : String → Bool
is_empty_str String.[] = true
is_empty_str (String.◌∷◌ c s) = false

-- `char::is_whitespace`: the code points with the property White_Space.
abbrev pub is_whitespace : ℕ → Bool
is_whitespace c =
    (leb 9 c && leb c 13)
    || c == 32
    || c == 0x85
    || c == 0xa0
    || c == 0x1680
    || (leb 0x2000 c && leb c 0x200a)
    || c == 0x2028
    || c == 0x2029
    || c == 0x202f
    || c == 0x205f
    || c == 0x3000

unfoldable pub trim_start : String → String
trim_start String.[] = String.[]
trim_start (String.◌∷◌ c s) = if is_whitespace (code c) then trim_start s else String.◌∷◌ c s

unfoldable pub trim_end : String → String
trim_end String.[] = String.[]
trim_end (String.◌∷◌ c s) =
    let rest = trim_end s in
    if is_empty_str rest && is_whitespace (code c) then String.[] else String.◌∷◌ c rest

unfoldable pub trim : String → String
unfolding trim_start trim_end
trim s = trim_end (trim_start s)

-- `strip_prefix` and `starts_with`
unfoldable pub strip_prefix : String → String → Option String
strip_prefix String.[] s = some s
strip_prefix (String.◌∷◌ c p) String.[] = none
strip_prefix (String.◌∷◌ c p) (String.◌∷◌ d s) =
    let rest = strip_prefix p s in if code c == code d then rest else none

abbrev is_some {ℓ} : {A : Type ℓ} → Option A → Bool
is_some none = false
is_some (some a) = true

abbrev pub starts_with : String → String → Bool
starts_with p s = is_some (strip_prefix p s)

-- The bytes of a character in UTF-8.
abbrev pub utf8_len : ℕ → ℕ
utf8_len c = if ltb c 0x80 then 1 else if ltb c 0x800 then 2 else if ltb c 0x10000 then 3 else 4

-- `len`, in bytes
unfoldable pub byte_len : String → ℕ
byte_len String.[] = 0
byte_len (String.◌∷◌ c s) = utf8_len (code c) + byte_len s

-- `[..n]`, where byte `n` begins a character
unfoldable pub take_bytes : ℕ → String → String
take_bytes n String.[] = String.[]
take_bytes n (String.◌∷◌ c s) =
    let rest = take_bytes (n - utf8_len (code c)) s in
    if leb (utf8_len (code c)) n then String.◌∷◌ c rest else String.[]

-- `replace("-", "")`
unfoldable pub without_dashes : String → String
without_dashes String.[] = String.[]
without_dashes (String.◌∷◌ c s) =
    let rest = without_dashes s in if code c == 45 then rest else String.◌∷◌ c rest

-- What was put in front is found there, and nothing else is left.
pub strip_prefix-append : (p s : String) → strip_prefix p (str_append p s) ≡ some s
unfolding strip_prefix
strip_prefix-append String.[] s = rw (nil-append s) refl
strip_prefix-append (String.◌∷◌ c p) s =
    let same : (code c == code c) ≡ true = ground arith in
    rw (cons-append c p s, same) (strip_prefix-append p s)

-- What has the prefix is the prefix and the rest.
pub strip_prefix-eq-some :
    (p s : String) {t : String} → strip_prefix p s ≡ some t → s ≡ str_append p t
unfolding strip_prefix
strip_prefix-eq-some String.[] s h = some_inj.0 h ∙ sym (nil-append _)
strip_prefix-eq-some (String.◌∷◌ c p) String.[] h = absurd cc
strip_prefix-eq-some (String.◌∷◌ c p) (String.◌∷◌ d s) {t} h =
    elim (Bool-cases (code c == code d)) [
      | inl e ↦
          let same : c ≡ d = Char-path c d (ground (arith, e)) in
          rw (cons-append c p t) (ap₂ String.◌∷◌ (sym same) (strip_prefix-eq-some p s (rw e at h)))
      | inr e ↦ absurd (none-ne-some t (rw e at h))
    ]

pub byte_len-append : (p s : String) → byte_len (str_append p s) ≡ byte_len p + byte_len s
unfolding byte_len
byte_len-append String.[] s = rw (nil-append s) (omega arith)
byte_len-append (String.◌∷◌ c p) s = rw (cons-append c p s, byte_len-append p s) (omega arith)
