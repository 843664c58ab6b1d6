-- ===== src/Typed/Parser/Skips.antt =====
-- Positions of a byte sequence at which no frame begins, and where findSof stops.
use vsm_field_workstation.Prelude.{
  ℕ, zero, suc, ◌+◌, ◌-◌, ◌<◌, ◌≡◌, ap, ◌∙◌, inl, inr, ◌&&◌, Option, none, some, List, [], ◌∷◌,
  ◌++◌, arith, dec_lt, ◌==◌, Bool-cases, length, drop, drop-drop,
}
use vsm_field_workstation.Wire.{byte}
use vsm_field_workstation.Typed.{transport_sof0, transport_sof1}
use vsm_field_workstation.Typed.Frame.{IsHeader, frame, frame_shape}
use vsm_field_workstation.Typed.Parser.{scan_sof}
use mathlib.Core.Option

-- No frame begins here, whatever bytes are still to come.
abbrev pub NoFrame : List ℕ → Type 0
NoFrame xs =
    (more : List ℕ) (v t f s : ℕ) (payload rest : List ℕ)
    → IsHeader v t f s payload
    → ¬ (xs ++ more ≡ frame v t f s payload ++ rest)

-- No frame begins at any of the first k positions.
abbrev pub Skipped : ℕ → List ℕ → Type 0
Skipped k xs = (j : ℕ) → j < k → NoFrame (drop j xs)

abbrev pub Starts : List ℕ → Type 0
Starts xs = (byte xs 0 ≡ transport_sof0) × (byte xs 1 ≡ transport_sof1)

pub Skipped-zero : (xs : List ℕ) → Skipped 0 xs
Skipped-zero xs j h = absurd (omega arith)

pub Skipped-one : (xs : List ℕ) → NoFrame xs → Skipped 1 xs
Skipped-one xs none_here zero h = none_here
Skipped-one xs none_here (suc j) h = absurd (omega arith)

pub Skipped-add :
    (a b : ℕ) (xs : List ℕ) → Skipped a xs → Skipped b (drop a xs) → Skipped (a + b) xs
Skipped-add a b xs first second j h = elim (dec_lt j a) [
  | yes p ↦ first j p
  | no p ↦
      let e : drop (j - a) (drop a xs) ≡ drop j xs =
        drop-drop (j - a) a xs
        ∙ ap (λ (k : ℕ). drop k xs) {x = a + (j - a)} {y = j} (omega arith) in
      rw (← e) (second (j - a) (omega arith))
]

pub Skipped-cons :
    (k x : ℕ) (xs : List ℕ) → NoFrame (x ∷ xs) → Skipped k xs → Skipped (suc k) (x ∷ xs)
Skipped-cons k x xs none_here later zero h = none_here
Skipped-cons k x xs none_here later (suc j) h = later j (omega arith)

NoFrame-at : (x y : ℕ) (r : List ℕ) → ¬ Starts (x ∷ (y ∷ r)) → NoFrame (x ∷ (y ∷ r))
NoFrame-at x y r unmarked more v t f s payload rest ok e = unmarked (first, second)
  where
    shown :
        x ∷ (y ∷ (r ++ more))
        ≡ transport_sof0 ∷ (transport_sof1 ∷ drop 2 (frame v t f s payload ++ rest))
    shown = e ∙ rw (frame_shape v t f s payload rest)

    first : x ≡ transport_sof0
    first = cc shown

    second : y ≡ transport_sof1
    second = cc shown

-- What findSof finds: the first marker.
abbrev pub SofSpec : List ℕ → Option ℕ → Type 0
SofSpec xs none = Skipped (length xs - 1) xs
SofSpec xs (some i) = Skipped i xs × Starts (drop i xs) × (i + 1 < length xs)

SofSpec-later :
    (x y : ℕ) (r : List ℕ) (o : Option ℕ)
    → ¬ Starts (x ∷ (y ∷ r))
    → SofSpec (y ∷ r) o
    → SofSpec (x ∷ (y ∷ r)) (Option.map suc o)
SofSpec-later x y r none unmarked found = λ j h.
    Skipped-cons (length r) x (y ∷ r) (NoFrame-at x y r unmarked) (λ i hi. found i (omega arith)) j
      (omega arith)
SofSpec-later x y r (some i) unmarked (skipped, starts, room) =
    (Skipped-cons i x (y ∷ r) (NoFrame-at x y r unmarked) skipped, starts, omega arith)

pub scan_sof-SofSpec : (xs : List ℕ) → SofSpec xs (scan_sof xs)
unfolding scan_sof
scan_sof-SofSpec [] = Skipped-zero []
scan_sof-SofSpec (x ∷ []) = Skipped-zero (x ∷ [])
scan_sof-SofSpec (x ∷ (y ∷ r)) = elim (Bool-cases (x == transport_sof0 && y == transport_sof1)) [
  | inl marked ↦ rw marked (Skipped-zero (x ∷ (y ∷ r)), (ground arith, ground arith), omega arith)
  | inr other ↦
      rw other
        (SofSpec-later x y r (scan_sof (y ∷ r)) (λ (a, b). ground arith) (scan_sof-SofSpec (y ∷ r)))
]
