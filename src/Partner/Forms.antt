-- ===== src/Partner/Forms.antt =====
-- packages/partner-transport/contract.ts: the forms of texts, UUID and canonical times.
use contactless_airlock_lab.Prelude.{
  ℕ, zero, suc, ◌%◌, Bool, true, false, not, ◌&&◌, ◌||◌, List, [], ◌∷◌, ◌++◌, Text, text, leb,
  nat_eq, any, text_Eq, if◌then◌else◌,
}
use contactless_airlock_lab.Partner.{decimal}

-- A text of as many units as there are tests, where each passes its own.
abbrev fits : List (ℕ → Bool) → Text → Bool
fits [] [] = true
fits [] (c ∷ s) = false
fits (t ∷ ts) [] = false
fits (t ∷ ts) (c ∷ s) = t c && fits ts s

abbrev times : ℕ → (ℕ → Bool) → List (ℕ → Bool)
times zero t = []
times (suc n) t = t ∷ times n t

abbrev digit : ℕ → Bool
digit c = leb b'0' c && leb c b'9'

abbrev is : ℕ → ℕ → Bool
is a c = nat_eq c a

-- [0-9a-f], in either case
abbrev hex : ℕ → Bool
hex c = digit c || (leb b'a' c && leb c b'f') || (leb b'A' c && leb c b'F')

abbrev pub is_uuid : Text → Bool
is_uuid s =
    fits
      (times 8 hex
        ++ is b'-' ∷ times 4 hex
        ++ is b'-' ∷ (λ c. leb b'1' c && leb c b'8') ∷ times 3 hex
        ++ is b'-' ∷ (λ c. any (nat_eq c) (text "89abAB")) ∷ times 3 hex
        ++ is b'-' ∷ times 12 hex)
      s

-- Units of a text: as many as the second number says, after as many as the first says.
abbrev part : ℕ → ℕ → Text → Text
part m n [] = []
part zero zero (c ∷ s) = []
part zero (suc n) (c ∷ s) = c ∷ part zero n s
part (suc m) n (c ∷ s) = part m n s

abbrev number_at : ℕ → ℕ → Text → ℕ
number_at m n s = decimal 0 (part m n s)

abbrev is_leap : ℕ → Bool
is_leap y = nat_eq (y % 4) 0 && (not (nat_eq (y % 100) 0) || nat_eq (y % 400) 0)

abbrev days_in : ℕ → ℕ → ℕ
days_in year month =
    if nat_eq month 2
    then (if is_leap year then 29 else 28)
    else (if any (nat_eq month) (4 ∷ 6 ∷ 9 ∷ 11 ∷ []) then 30 else 31)

-- assertCanonicalTime: the form, and a date and a time that toISOString gives back.
unfoldable pub is_canonical_time : Text → Bool
is_canonical_time s =
    fits
      (times 4 digit
        ++ is b'-' ∷ times 2 digit
        ++ is b'-' ∷ times 2 digit
        ++ is b'T' ∷ times 2 digit
        ++ is b':' ∷ times 2 digit
        ++ is b':' ∷ times 2 digit
        ++ is b'.' ∷ times 3 digit
        ++ is b'Z' ∷ [])
      s
    && leb 1 (number_at 5 2 s)
    && leb (number_at 5 2 s) 12
    && leb 1 (number_at 8 2 s)
    && leb (number_at 8 2 s) (days_in (number_at 0 4 s) (number_at 5 2 s))
    && leb (number_at 11 2 s) 23
    && leb (number_at 14 2 s) 59
    && leb (number_at 17 2 s) 59
