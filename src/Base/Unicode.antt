-- ===== src/Base/Unicode.antt =====
-- What the program asks of the Unicode database, through `re`, `str.strip` and `str.casefold`.
pub mod Laws
use Prim.Native.Nat.{ℕ}
use Prim.Native.Char.{code}
use Prim.Native.String.{String}
use mathlib.Core.Bool.{Bool, true, false, ◌||◌, ◌&&◌}
use model_route.Base.Tests.{leb, ◌==◌, if◌then◌else◌}

-- By code point: `\w` and whitespace. `casefold` is on whole texts.
pub record Unicode : Type 0 where
  pub is_word : ℕ → Bool
  pub is_space : ℕ → Bool
  pub casefold : String → String

-- `str.lstrip`
unfoldable pub strip_left : Unicode → String → String
strip_left u String.[] = String.[]
strip_left u (String.◌∷◌ c s) =
    let rest = strip_left u s in if u.is_space (code c) then rest else String.◌∷◌ c s

unfoldable pub is_empty : String → Bool
is_empty String.[] = true
is_empty (String.◌∷◌ c s) = false

-- `str.rstrip`: a character goes if it is white and so is all that follows.
unfoldable pub strip_right : Unicode → String → String
unfolding is_empty
strip_right u String.[] = String.[]
strip_right u (String.◌∷◌ c s) =
    let rest = strip_right u s in
    if is_empty rest && u.is_space (code c) then String.[] else String.◌∷◌ c rest

-- `str.strip`
unfoldable pub strip : Unicode → String → String
unfolding strip_left strip_right
strip u s = strip_right u (strip_left u s)

-- The part of the database that is ASCII.
abbrev pub ascii : Unicode
ascii = record {
  is_word = λ c.
      (leb 48 c && leb c 57) || ((leb 65 c && leb c 90) || (c == 95 || (leb 97 c && leb c 122)));
  is_space = λ c. (leb 9 c && leb c 13) || ((leb 28 c && leb c 31) || c == 32);
  casefold = λ s. s;
}
