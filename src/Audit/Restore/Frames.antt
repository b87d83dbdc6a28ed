-- ===== src/Audit/Restore/Frames.antt =====
-- packages/audit/auditLog.ts: the lines of the text that `authenticationTag` signs.
use contactless_airlock_lab.Prelude.{
  ◌≡◌, refl, sym, ap, ◌∙◌, ℕ, Bool, true, not, [], ◌∷◌, ◌++◌, Text, nat_eq, arith, all, matches_id,
  matches_id_up_to, is_id_unit,
}
use mathlib.Core.List.{append_cancel_left}
use contactless_airlock_lab.Audit.Signed.{Functions, newline}

-- A text of one line.
abbrev pub is_line : Text → Bool
is_line s = all (λ c. not (nat_eq c 10)) s

-- A line and what follows it are those of the whole.
pub line-cut :
    (a b x y : Text)
    → is_line a ≡ true
    → is_line b ≡ true
    → a ++ newline ++ x ≡ b ++ newline ++ y
    → (a ≡ b) × (x ≡ y)
line-cut [] [] x y la lb h = (refl, ground (arith, h))
line-cut [] (d ∷ b) x y la lb h = absurd (ground (arith, h, lb))
line-cut (c ∷ a) [] x y la lb h = absurd (ground (arith, h, la))
line-cut (c ∷ a) (d ∷ b) x y la lb h =
    let rest = line-cut a b x y (ground (arith, la)) (ground (arith, lb)) (ground (arith, h)) in
    (ground (arith, h, rest), rest.1)

units-line : (s : Text) → all is_id_unit s ≡ true → is_line s ≡ true
units-line [] h = refl
units-line (c ∷ s) h = ground (arith, h, units-line s)

-- A key id is one line.
pub matches_id-line : (s : Text) → matches_id s ≡ true → is_line s ≡ true
unfolding matches_id matches_id_up_to
matches_id-line [] h = refl
matches_id-line (c ∷ s) h = ground (arith, h, units-line s)

-- The lines after a head, taken together.
regroup :
    (head a b c : Text)
    → head ++ a ++ newline ++ b ++ newline ++ c ≡ head ++ (a ++ newline ++ (b ++ newline ++ c))
regroup [] [] b c = refl
regroup [] (u ∷ a) b c = ap (λ (s : Text). u ∷ s) (regroup [] a b c)
regroup (u ∷ head) a b c = ap (λ (s : Text). u ∷ s) (regroup head a b c)

-- What the text after a hash says of the key and of the tag before.
pub tail_cut :
    {T P : Type 0} (f : Functions T P) (head id id' previous previous' : Text)
    (version version' : ℕ)
    → ((m n : ℕ) → f.print m ≡ f.print n → m ≡ n)
    → ((n : ℕ) → is_line (f.print n) ≡ true)
    → is_line id ≡ true
    → is_line id' ≡ true
    → head ++ id ++ newline ++ f.print version ++ newline ++ previous
      ≡ head ++ id' ++ newline ++ f.print version' ++ newline ++ previous'
    → (id ≡ id') × (version ≡ version') × (previous ≡ previous')
tail_cut f head id id' previous previous' version version' prints lines one one' h =
    let v : Text = f.print version in
    let v' : Text = f.print version' in
    let rest : Text = v ++ newline ++ previous in
    let rest' : Text = v' ++ newline ++ previous' in
    let same = sym (regroup head id v previous) ∙ h ∙ regroup head id' v' previous' in
    let (ids, tails) =
      line-cut id id' rest rest' one one'
        (append_cancel_left head (id ++ newline ++ rest) (id' ++ newline ++ rest') same) in
    let (versions, tags) =
      line-cut v v' previous previous' (lines version) (lines version') tails in
    (ids, prints version version' versions, tags)
