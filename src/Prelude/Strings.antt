-- ===== src/Prelude/Strings.antt =====
-- ECMAScript strings: lists of UTF-16 code units.
use Prim.Native.Nat.{ℕ}
use Prim.Native.Char.{code}
use Prim.Native.String.{String}
use mathlib.Core.Path.{◌≡◌}
use mathlib.Core.Logic.{◌↔◌}
use mathlib.Core.Bool.{Bool, true, false, not, ◌&&◌, ◌||◌}
use mathlib.Core.Option.{Option, none, some}
use mathlib.Core.List.{List, [], ◌∷◌}
use native.Mathlib.Omega.{arith}
use contactless_airlock_lab.Prelude.Tests.{leb, ltb, nat_eq, Eq, all, length, if◌then◌else◌}

abbrev pub Text : Type 0
Text = List ℕ

-- A literal: the source's literals are ASCII.
abbrev pub text : String → Text
text String.[] = []
text (String.◌∷◌ c s) = code c ∷ text s

unfoldable pub text_eq : Text → Text → Bool
text_eq [] [] = true
text_eq [] (b ∷ t) = false
text_eq (a ∷ s) [] = false
text_eq (a ∷ s) (b ∷ t) = nat_eq a b && text_eq s t

pub text_eq_iff : (s t : Text) → (text_eq s t ≡ true) ↔ (s ≡ t)
unfolding text_eq
text_eq_iff [] [] = ground arith
text_eq_iff [] (b ∷ t) = ground arith
text_eq_iff (a ∷ s) [] = ground arith
text_eq_iff (a ∷ s) (b ∷ t) = ground (arith, text_eq_iff s t)

instance abbrev pub text_Eq : Eq Text
text_Eq = record { beq = text_eq; beq_iff = text_eq_iff }

-- [A-Za-z0-9]
abbrev pub is_alphanumeric : ℕ → Bool
is_alphanumeric c =
    (leb b'A' c && leb c b'Z') || (leb b'a' c && leb c b'z') || (leb b'0' c && leb c b'9')

-- [A-Za-z0-9._:-]
abbrev pub is_id_unit : ℕ → Bool
is_id_unit c = is_alphanumeric c || nat_eq c b'.' || nat_eq c b'_' || nat_eq c b':' || nat_eq c b'-'

-- /^[A-Za-z0-9][A-Za-z0-9._:-]{0,n}$/
unfoldable pub matches_id_up_to : ℕ → Text → Bool
matches_id_up_to n [] = false
matches_id_up_to n (c ∷ rest) = is_alphanumeric c && all is_id_unit rest && leb (length rest) n

-- /^[A-Za-z0-9][A-Za-z0-9._:-]{0,127}$/
unfoldable pub matches_id : Text → Bool
unfolding matches_id_up_to
matches_id s = matches_id_up_to 127 s

-- The white space and line ends that `trim` removes.
abbrev is_space : ℕ → Bool
is_space c =
    (leb 9 c && leb c 13)
    || nat_eq c 32
    || nat_eq c 160
    || nat_eq c 5760
    || (leb 8192 c && leb c 8202)
    || nat_eq c 8232
    || nat_eq c 8233
    || nat_eq c 8239
    || nat_eq c 8287
    || nat_eq c 12288
    || nat_eq c 65279

-- s.trim().length === 0
abbrev pub is_blank : Text → Bool
is_blank s = all is_space s

-- The order of texts by their code units.
unfoldable pub text_le : Text → Text → Bool
text_le [] t = true
text_le (a ∷ s) [] = false
text_le (a ∷ s) (b ∷ t) = let rest = text_le s t in ltb a b || (nat_eq a b && rest)

ends_in_space : Text → Bool
ends_in_space [] = false
ends_in_space (c ∷ []) = is_space c
ends_in_space (c ∷ d ∷ rest) = ends_in_space (d ∷ rest)

starts_with_space : Text → Bool
starts_with_space [] = false
starts_with_space (c ∷ rest) = is_space c

-- s.trim() === s
unfoldable pub is_trimmed : Text → Bool
unfolding starts_with_space ends_in_space
is_trimmed s = not (starts_with_space s) && not (ends_in_space s)

-- What follows a prefix.
unfoldable pub strip_prefix : Text → Text → Option Text
strip_prefix [] s = some s
strip_prefix (a ∷ p) [] = none
strip_prefix (a ∷ p) (b ∷ s) = let rest = strip_prefix p s in if nat_eq a b then rest else none

abbrev pub is_empty : Text → Bool
is_empty [] = true
is_empty (c ∷ s) = false
