-- ===== src/Evidence/BusRole.antt =====
-- The role of each bus: src/backend/evidence/BusRoleResolver.h and BusRoleResolver.cpp. A QHash is a
-- list of pairs with one pair for a key, a QSet is a list.
pub mod Matching
pub mod Priority
use Prim.Native.String.{String}
use vsm_field_workstation.Prelude.{
  ℕ, bit_and, Bool, true, false, not, ◌&&◌, ◌||◌, Option, none, some, List, [], ◌∷◌, ◌++◌, ◌==◌,
  if◌then◌else◌, find, remove, insert,
}
use vsm_field_workstation.Foreign.{Qt}
use vsm_field_workstation.HostTx.{is_blank}

pub data Source : Type 0 where
  unresolved : Source
  capability : Source
  model_rule : Source
  observed_fingerprint : Source
  operator_override : Source

pub record Resolution : Type 0 where
  pub resolved : Bool
  pub role : String
  pub tx_allowed : Bool
  pub source : Source
  pub reason : String

pub record RoleRule : Type 0 where
  pub role : String
  pub fingerprints : List ℕ
  pub tx_allowed : Bool

pub record FixedRole : Type 0 where
  pub role : String
  pub tx_allowed : Bool

pub record BusRoleResolver : Type 0 where
  pub model_rules : List RoleRule
  pub capability_roles : List (ℕ × FixedRole)
  pub operator_overrides : List (ℕ × FixedRole)
  pub observed_ids_by_bus : List (ℕ × List ℕ)

-- contains of QSet.
unfoldable pub contains : List ℕ → ℕ → Bool
contains [] id = false
contains (x ∷ xs) id = (x == id) || contains xs id

unfoldable pub clear : BusRoleResolver → BusRoleResolver
clear r = record {
  model_rules = [];
  capability_roles = [];
  operator_overrides = [];
  observed_ids_by_bus = [];
}

unfoldable pub clear_model_rules : BusRoleResolver → BusRoleResolver
clear_model_rules r = record r { model_rules = [] }

unfoldable pub clear_capability_roles : BusRoleResolver → BusRoleResolver
clear_capability_roles r = record r { capability_roles = [] }

unfoldable pub clear_operator_override : ℕ → BusRoleResolver → BusRoleResolver
unfolding remove
clear_operator_override bus r = record r { operator_overrides = remove bus r.operator_overrides }

module _ (qt : Qt) where
  unfoldable pub normalized : String → String
  normalized role = qt.to_lower (qt.trimmed role)

  unfoldable pub add_model_rule : String → List ℕ → Bool → BusRoleResolver → BusRoleResolver
  unfolding normalized
  add_model_rule role fingerprints allowed r = if is_blank (normalized role) then r else record r {
    model_rules =
        r.model_rules
        ++ (record { role = normalized role; fingerprints = fingerprints; tx_allowed = allowed }
            ∷ []);
  }

  unfoldable pub set_capability_role : ℕ → String → Bool → BusRoleResolver → BusRoleResolver
  unfolding normalized remove insert
  set_capability_role bus role allowed r = record r {
    capability_roles =
        if is_blank (normalized role)
        then remove bus r.capability_roles
        else insert bus (record { role = normalized role; tx_allowed = allowed })
            r.capability_roles;
  }

  unfoldable pub set_operator_override : ℕ → String → Bool → BusRoleResolver → BusRoleResolver
  unfolding normalized remove insert
  set_operator_override bus role allowed r = record r {
    operator_overrides =
        if is_blank (normalized role)
        then remove bus r.operator_overrides
        else insert bus (record { role = normalized role; tx_allowed = allowed })
            r.operator_overrides;
  }

-- The observed ids of a bus; none for a bus that is not in the table.
unfoldable pub observed_ids : ℕ → BusRoleResolver → List ℕ
unfolding find
observed_ids bus r = elim (find bus r.observed_ids_by_bus) [ none ↦ [] | some ids ↦ ids ]

unfoldable pub observe_can_id : ℕ → ℕ → BusRoleResolver → BusRoleResolver
unfolding observed_ids insert contains
observe_can_id bus can_id r =
    let id = bit_and can_id 0x1FFFFFFF in
    let ids = observed_ids bus r in
    record r {
      observed_ids_by_bus =
          insert bus (if contains ids id then ids else id ∷ ids) r.observed_ids_by_bus;
    }

unfoldable pub fixed_resolution : FixedRole → Source → String → Resolution
fixed_resolution role source reason = record {
  resolved = true;
  role = role.role;
  tx_allowed = role.tx_allowed;
  source = source;
  reason = reason;
}

abbrev pub open_resolution : String → Resolution
open_resolution reason = record {
  resolved = false;
  role = "";
  tx_allowed = false;
  source = Source.unresolved;
  reason = reason;
}

-- The inner loop over the observed ids, which breaks at the first that the rule names.
unfoldable pub is_match : List ℕ → RoleRule → Bool
unfolding contains
is_match [] rule = false
is_match (id ∷ ids) rule = contains rule.fingerprints id || is_match ids rule

unfoldable pub matches : List ℕ → List RoleRule → List RoleRule
unfolding is_match
matches ids [] = []
matches ids (rule ∷ rules) =
    let rest = matches ids rules in if is_match ids rule then rule ∷ rest else rest

-- What the observed ids and the rules that match them give.
unfoldable pub match_resolution : List ℕ → List RoleRule → Resolution
match_resolution [] rules = open_resolution "no observed fingerprint"
match_resolution (id ∷ ids) [] = open_resolution "no fingerprint match"
match_resolution (id ∷ ids) (rule ∷ []) = record {
  resolved = true;
  role = rule.role;
  tx_allowed = rule.tx_allowed;
  source = Source.observed_fingerprint;
  reason = "observed fingerprint";
}
match_resolution (id ∷ ids) (rule ∷ other ∷ rest) = open_resolution "ambiguous fingerprint match"

unfoldable pub observed_resolution : ℕ → BusRoleResolver → Resolution
unfolding observed_ids matches match_resolution
observed_resolution bus r =
    match_resolution (observed_ids bus r) (matches (observed_ids bus r) r.model_rules)

-- The three sources in their order: the capability role, the observed ids, the override.
unfoldable pub first_resolution : Option FixedRole → Resolution → Option FixedRole → Resolution
unfolding fixed_resolution
first_resolution (some role) observed override =
    fixed_resolution role Source.capability "capability descriptor"
first_resolution none observed (some role) =
    if observed.resolved
    then observed
    else fixed_resolution role Source.operator_override "operator override"
first_resolution none observed none =
    if observed.resolved then observed else open_resolution "bus role unresolved"

unfoldable pub resolve : ℕ → BusRoleResolver → Resolution
unfolding find observed_resolution first_resolution
resolve bus r =
    first_resolution (find bus r.capability_roles) (observed_resolution bus r)
      (find bus r.operator_overrides)

unfoldable pub tx_allowed : ℕ → BusRoleResolver → Bool
unfolding resolve
tx_allowed bus r = (resolve bus r).resolved && (resolve bus r).tx_allowed
