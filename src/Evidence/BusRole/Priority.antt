-- ===== src/Evidence/BusRole/Priority.antt =====
-- Who decides on the role of a bus, and who may let it transmit.
use Prim.Native.String.{String}
use vsm_field_workstation.Prelude.{
  ℕ, ◌≡◌, refl, ap, ◌∙◌, ◌≢◌, ◌⊎◌, inl, inr, Bool, true, false, Option, none, some, List, [], ◌∷◌,
  arith, length, find,
}
use vsm_field_workstation.Foreign.{Qt}
use vsm_field_workstation.Evidence.BusRole.{
  Resolution, RoleRule, FixedRole, BusRoleResolver, set_operator_override, observed_ids,
  fixed_resolution, is_match, matches, observed_resolution, match_resolution, first_resolution,
  resolve, tx_allowed,
}
use vsm_field_workstation.Evidence.BusRole.Matching.{matching, IsOnly, one_left, not-IsOnly}

matches_nothing : (rules : List RoleRule) → matches [] rules ≡ []
unfolding matches is_match
matches_nothing [] = refl
matches_nothing (rule ∷ rules) = matches_nothing rules

-- The three grounds on which a bus may transmit, each only where the ones before are silent.
abbrev pub ByCapability : ℕ → BusRoleResolver → Type 0
ByCapability bus r =
    (role : FixedRole) × ((find bus r.capability_roles ≡ some role) × (role.tx_allowed ≡ true))

abbrev pub ByFingerprint : ℕ → BusRoleResolver → Type 0
ByFingerprint bus r =
    (find bus r.capability_roles ≡ none)
    × ((rule : RoleRule) × (IsOnly bus r rule × (rule.tx_allowed ≡ true)))

abbrev pub ByOverride : ℕ → BusRoleResolver → Type 0
ByOverride bus r =
    (find bus r.capability_roles ≡ none)
    × (((rule : RoleRule) → ¬ IsOnly bus r rule)
        × ((role : FixedRole) × ((find bus r.operator_overrides ≡ some role)
              × (role.tx_allowed ≡ true))))

abbrev pub IsGranted : ℕ → BusRoleResolver → Type 0
IsGranted bus r = ByCapability bus r ⊎ (ByFingerprint bus r ⊎ ByOverride bus r)

-- A match resolves the bus exactly when one rule is left, and then as the rule says.
match_one :
    (ids : List ℕ) (rules : List RoleRule)
    → (ids ≡ [] → rules ≡ [])
    → ((length rules ≢ 1) × ((match_resolution ids rules).resolved ≡ false))
      ⊎ ((rule : RoleRule) × ((rules ≡ rule ∷ [])
            × (((match_resolution ids rules).resolved ≡ true)
                × ((match_resolution ids rules).tx_allowed ≡ rule.tx_allowed))))
unfolding match_resolution
match_one [] rules quiet = let e = quiet refl in inl (ground (arith, ap (λ rs. length rs) e), refl)
match_one (id ∷ ids) [] quiet = inl (ground arith, refl)
match_one (id ∷ ids) (rule ∷ []) quiet = inr (rule, (refl, (refl, refl)))
match_one (id ∷ ids) (rule ∷ other ∷ rest) quiet = inl (ground arith, refl)

observed_one :
    (bus : ℕ) (r : BusRoleResolver)
    → ((length (matching bus r) ≢ 1) × ((observed_resolution bus r).resolved ≡ false))
      ⊎ ((rule : RoleRule) × ((matching bus r ≡ rule ∷ [])
            × (((observed_resolution bus r).resolved ≡ true)
                × ((observed_resolution bus r).tx_allowed ≡ rule.tx_allowed))))
unfolding observed_resolution
observed_one bus r =
    match_one (observed_ids bus r) (matching bus r)
      (λ e. ap (λ ids. matches ids r.model_rules) e ∙ matches_nothing r.model_rules)

granted :
    (bus : ℕ) (r : BusRoleResolver) (c o : Option FixedRole)
    → find bus r.capability_roles ≡ c
    → find bus r.operator_overrides ≡ o
    → (first_resolution c (observed_resolution bus r) o).resolved ≡ true
    → (first_resolution c (observed_resolution bus r) o).tx_allowed ≡ true
    → IsGranted bus r
unfolding first_resolution fixed_resolution
granted bus r (some role) o e f h k = inl (role, (e, k))
granted bus r none (some role) e f h k = elim (observed_one bus r) [
  | inl (many, shut) ↦ inr (inr (e, (not-IsOnly bus r many, (role, (f, ground (arith, shut, k))))))
  | inr (rule, (one, (yes_, same))) ↦
      inr (inl (e, (rule, (one_left bus r rule r.model_rules one, ground (arith, yes_, same, k)))))
]
granted bus r none none e f h k = elim (observed_one bus r) [
  | inl (many, shut) ↦ absurd (ground (arith, shut, h))
  | inr (rule, (one, (yes_, same))) ↦
      inr (inl (e, (rule, (one_left bus r rule r.model_rules one, ground (arith, yes_, same, k)))))
]

-- A bus may transmit only on one of three grounds: its capability role allows it; or it has none, and
-- one model rule, and no other, has an id observed on the bus among its fingerprints, and allows it; or it
-- has none, no model rule is the only one of that kind, and the operator's override allows it.
pub tx_allowed-IsGranted :
    (bus : ℕ) (r : BusRoleResolver) → tx_allowed bus r ≡ true → IsGranted bus r
unfolding tx_allowed resolve
tx_allowed-IsGranted bus r h =
    granted bus r (find bus r.capability_roles) (find bus r.operator_overrides) refl refl
      (ground (arith, h)) (ground (arith, h))

kept_by :
    (c o p : Option FixedRole) (observed : Resolution)
    → (c ≢ none) ⊎ (observed.resolved ≡ true)
    → first_resolution c observed p ≡ first_resolution c observed o
unfolding first_resolution
kept_by (some role) o p observed h = refl
kept_by none none none observed h = ground arith
kept_by none (some a) none observed h = ground arith
kept_by none none (some b) observed h = ground arith
kept_by none (some a) (some b) observed h = ground arith

-- An override, set to anything on any bus, changes nothing for a bus that has a capability role or that
-- its observed ids resolve.
pub resolve-set_operator_override :
    (qt : Qt) (bus k : ℕ) (role : String) (allowed : Bool) (r : BusRoleResolver)
    → (find bus r.capability_roles ≢ none) ⊎ ((observed_resolution bus r).resolved ≡ true)
    → resolve bus (set_operator_override qt k role allowed r) ≡ resolve bus r
unfolding resolve set_operator_override observed_resolution
resolve-set_operator_override qt bus k role allowed r h =
    kept_by (find bus r.capability_roles) (find bus r.operator_overrides)
      (find bus (set_operator_override qt k role allowed r).operator_overrides)
      (observed_resolution bus r) h
