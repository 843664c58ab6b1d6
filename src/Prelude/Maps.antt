-- ===== src/Prelude/Maps.antt =====
-- Maps with numbers as keys: a list of pairs with one pair for a key.
use Prim.Native.Nat.{ℕ, suc, ◌+◌}
use mathlib.Core.Path.{◌≡◌, refl, ap, subst}
use mathlib.Core.Logic.{inl, inr}
use mathlib.Core.Option.{Option, none, some}
use mathlib.Core.List.{List, [], ◌∷◌}
use native.Mathlib.Omega.{arith}
use vsm_field_workstation.Prelude.Tests.{◌==◌, if◌then◌else◌, Bool-cases, ==_iff}
use vsm_field_workstation.Prelude.Lists.{length}

module _ {ℓ} {A : Type ℓ} where
  unfoldable pub find : ℕ → List (ℕ × A) → Option A
  find key [] = none
  find key ((k, a) ∷ rest) = let found = find key rest in if k == key then some a else found

  unfoldable pub remove : ℕ → List (ℕ × A) → List (ℕ × A)
  remove key [] = []
  remove key ((k, a) ∷ rest) =
      let kept = remove key rest in if k == key then kept else (k, a) ∷ kept

  unfoldable pub insert : ℕ → A → List (ℕ × A) → List (ℕ × A)
  unfolding remove
  insert key a pairs = (key, a) ∷ remove key pairs

  pub find-remove :
      (j k : ℕ) (m : List (ℕ × A)) → find j (remove k m) ≡ (if k == j then none else find j m)
  unfolding find remove
  find-remove j k [] = ground arith
  find-remove j k ((i, v) ∷ m) = ground (arith, find-remove j k m)

  pub find-insert :
      (j k : ℕ) (v : A) (m : List (ℕ × A))
      → find j (insert k v m) ≡ (if k == j then some v else find j m)
  unfolding find insert
  find-insert j k v m = ground (arith, find-remove j k m)

  -- One pair for a key.
  abbrev pub IsMap : List (ℕ × A) → Type ℓ
  IsMap [] = Unit {ℓ}
  IsMap ((k, a) ∷ rest) = (find k rest ≡ none) × IsMap rest

  remove_absent : (k : ℕ) (m : List (ℕ × A)) → find k m ≡ none → length (remove k m) ≡ length m
  unfolding find remove
  remove_absent k [] e = refl
  remove_absent k ((i, v) ∷ m) e = elim (Bool-cases (i == k)) [
    | inl same ↦ absurd (ground (arith, e, same))
    | inr other ↦ rw other (ap suc (remove_absent k m (rw other at e)))
  ]

  abbrev pub held : Option A → ℕ
  held none = 0
  held (some a) = 1

  pub length-remove :
      (k : ℕ) (m : List (ℕ × A)) → IsMap m → length (remove k m) + held (find k m) ≡ length m
  unfolding find remove
  length-remove k [] v = refl
  length-remove k ((i, a) ∷ m) v = elim (Bool-cases (i == k)) [
    | inl same ↦
        let absent : find k m ≡ none = subst (λ j. find j m ≡ none) ((==_iff i k).0 same) v.0 in
        rw same (omega (arith, remove_absent k m absent))
    | inr other ↦ rw other (omega (arith, length-remove k m v.1))
  ]

  pub remove-IsMap : (k : ℕ) (m : List (ℕ × A)) → IsMap m → IsMap (remove k m)
  unfolding remove
  remove-IsMap k [] v = v
  remove-IsMap k ((i, a) ∷ m) v = elim (Bool-cases (i == k)) [
    | inl same ↦ rw same (remove-IsMap k m v.1)
    | inr other ↦ rw other (ground (arith, find-remove i k m, v.0), remove-IsMap k m v.1)
  ]

  pub insert-IsMap : (k : ℕ) (a : A) (m : List (ℕ × A)) → IsMap m → IsMap (insert k a m)
  unfolding insert
  insert-IsMap k a m v = (ground (arith, find-remove k k m), remove-IsMap k m v)
