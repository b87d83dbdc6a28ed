-- ===== src/Prelude/Entries.antt =====
-- Maps with distinct keys, and the insertion of all entries of a map into another.
use mathlib.Core.Path.{◌≡◌, refl, sym, ◌∙◌, subst}
use mathlib.Core.Logic.{inl, inr}
use mathlib.Core.Option.{none, some, some-injective}
use mathlib.Core.List.{[], ◌∷◌, ◌++◌, append_assoc, append-nil}
use native.Mathlib.Omega.{arith}
use contactless_airlock_lab.Prelude.Tests.{Eq, ◌==◌, All, Bool-cases}
use contactless_airlock_lab.Prelude.Maps.{Map, lookup, insert, lookup-insert}

module _ {K V : Type 0} ⦃e : Eq K⦄ where
  abbrev pub IsDistinct : Map K V → Type 0
  IsDistinct [] = Unit
  IsDistinct ((k, v) ∷ m) = (lookup k m ≡ none) × IsDistinct m

  pub insert-IsDistinct : (k : K) (v : V) (m : Map K V) → IsDistinct m → IsDistinct (insert k v m)
  unfolding insert lookup
  insert-IsDistinct k v [] d = (refl, tt)
  insert-IsDistinct k v ((j, w) ∷ m) d =
      ground
        (arith, insert-IsDistinct k v m d.1, lookup-insert k j v m, e.beq_iff j k, e.beq_iff k j)

  lookup-append :
      (k : K) (m n : Map K V)
      → lookup k (m ++ n) ≡ elim (lookup k m) [ none ↦ lookup k n | some v ↦ some v ]
  unfolding lookup
  lookup-append k [] n = refl
  lookup-append k ((j, w) ∷ m) n = ground (arith, lookup-append k m n)

  insert_new : (k : K) (v : V) (m : Map K V) → lookup k m ≡ none → insert k v m ≡ m ++ (k, v) ∷ []
  unfolding insert lookup
  insert_new k v [] h = refl
  insert_new k v ((j, w) ∷ m) h = ground (arith, insert_new k v m)

  -- Inserts the entries of the second map into the first.
  unfoldable pub insert_all : Map K V → Map K V → Map K V
  insert_all acc [] = acc
  insert_all acc ((k, v) ∷ m) = insert_all (insert k v acc) m

  abbrev pub Fresh : Map K V → Map K V → Type 0
  Fresh acc [] = Unit
  Fresh acc ((k, v) ∷ m) = (lookup k acc ≡ none) × Fresh acc m

  pub Fresh-insert :
      (k : K) (v : V) (acc m : Map K V) → lookup k m ≡ none → Fresh acc m → Fresh (insert k v acc) m
  unfolding lookup
  Fresh-insert k v acc [] h f = tt
  Fresh-insert k v acc ((j, w) ∷ m) h f =
      ground (arith, lookup-insert k j v acc, e.beq_iff j k, e.beq_iff k j, Fresh-insert k v acc m)

  pub insert_all-append :
      (acc m : Map K V) → IsDistinct m → Fresh acc m → insert_all acc m ≡ acc ++ m
  unfolding insert_all
  insert_all-append acc [] d f = sym (append-nil acc)
  insert_all-append acc ((k, v) ∷ m) d f =
      insert_all-append (insert k v acc) m d.1 (Fresh-insert k v acc m d.0 f.1)
      ∙ rw (insert_new k v acc f.0) (append_assoc acc ((k, v) ∷ []) m)

  pub Fresh-nil : (m : Map K V) → Fresh [] m
  unfolding lookup
  Fresh-nil [] = tt
  Fresh-nil ((k, v) ∷ m) = (refl, Fresh-nil m)

  pub insert_all_rebuilds : (m : Map K V) → IsDistinct m → insert_all [] m ≡ m
  insert_all_rebuilds m d = insert_all-append [] m d (Fresh-nil m)

  module _ {ℓ} (P : K × V → Type ℓ) where
    pub All-insert :
        (k : K) (v : V) (m : Map K V)
        → ((j : K) → (j ≡ k) → P (j, v))
        → All P m
        → All P (insert k v m)
    unfolding insert
    All-insert k v [] p a = (p k refl, tt)
    All-insert k v ((j, w) ∷ m) p a = elim (Bool-cases (j == k)) [
      | inl same ↦ rw same (p j ((e.beq_iff j k).0 same), a.1)
      | inr other ↦ rw other (a.0, All-insert k v m p a.1)
    ]

    pub All-lookup : (k : K) (v : V) (m : Map K V) → All P m → lookup k m ≡ some v → P (k, v)
    unfolding lookup
    All-lookup k v [] a h = absurd (cc)
    All-lookup k v ((j, w) ∷ m) a h = elim (Bool-cases (j == k)) [
      | inl same ↦
          let p : j ≡ k = (e.beq_iff j k).0 same in
          let q : w ≡ v = some-injective _ _ (rw same at h) in subst P (λ i. (p i, q i)) a.0
      | inr other ↦ All-lookup k v m a.1 (rw other at h)
    ]
