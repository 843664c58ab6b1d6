-- ===== src/Evidence/BusRole/Matching.antt =====
-- The model rules that name an observed id of a bus, against the loops of
-- src/backend/evidence/BusRoleResolver.cpp.
use mathlib.Core.List.{Memᴰ}
use mathlib.Core.List.Memᴰ.{head, tail}
use vsm_field_workstation.Prelude.{
  ℕ, ◌≡◌, refl, ap, ◌∙◌, ◌≢◌, inl, inr, true, false, Bool-cases, none, some, List, [], ◌∷◌, ◌++◌,
  All, sym, subst, Option-cases, drop, get_or, ◌==◌, arith, length, find,
}
use vsm_field_workstation.Evidence.BusRole.{
  RoleRule, BusRoleResolver, contains, observed_ids, is_match, matches,
}

abbrev pub matching : ℕ → BusRoleResolver → List RoleRule
matching bus r = matches (observed_ids bus r) r.model_rules

-- The observed ids and the fingerprints of the rule share an id.
abbrev pub Shares : List ℕ → RoleRule → Type 0
Shares ids rule = (id : ℕ) × (Memᴰ id ids × Memᴰ id rule.fingerprints)

-- The table has observed ids for the bus, and the rule names one of them.
abbrev pub Names : ℕ → BusRoleResolver → RoleRule → Type 0
Names bus r rule = (ids : List ℕ) × ((find bus r.observed_ids_by_bus ≡ some ids) × Shares ids rule)

-- One of the rules names an observed id, and no other does.
abbrev pub Splits : ℕ → BusRoleResolver → List RoleRule → RoleRule → Type 0
Splits bus r rules rule =
    (before : List RoleRule) × (later : List RoleRule) × ((rules ≡ before ++ (rule ∷ later))
      × (Names bus r rule × (All (λ x. ¬ Names bus r x) before × All (λ x. ¬ Names bus r x) later)))

-- Of all the model rules, this one names an observed id, and no other.
abbrev pub IsOnly : ℕ → BusRoleResolver → RoleRule → Type 0
IsOnly bus r rule = Splits bus r r.model_rules rule

contains-Mem : (xs : List ℕ) (id : ℕ) → contains xs id ≡ true → Memᴰ id xs
unfolding contains
contains-Mem [] id h = absurd (ground (arith, h))
contains-Mem (x ∷ xs) id h = elim (Bool-cases (x == id)) [
  | inl e ↦ head (ground (arith, e))
  | inr e ↦ tail (contains-Mem xs id (ground (arith, e, h)))
]

Mem-contains : (xs : List ℕ) (id : ℕ) → Memᴰ id xs → contains xs id ≡ true
unfolding contains
Mem-contains [] id m = elim m [ ]
Mem-contains (x ∷ xs) id (head e) = ground (arith, e)
Mem-contains (x ∷ xs) id (tail m) = ground (arith, Mem-contains xs id m)

is_match-Shares : (ids : List ℕ) (rule : RoleRule) → is_match ids rule ≡ true → Shares ids rule
unfolding is_match
is_match-Shares [] rule h = absurd (ground (arith, h))
is_match-Shares (id ∷ ids) rule h = elim (Bool-cases (contains rule.fingerprints id)) [
  | inl e ↦ (id, (head refl, contains-Mem rule.fingerprints id e))
  | inr e ↦
      let (k, (seen, named)) = is_match-Shares ids rule (ground (arith, e, h)) in
      (k, (tail seen, named))
]

match_of :
    (ids : List ℕ) (rule : RoleRule) (id : ℕ)
    → Memᴰ id ids
    → Memᴰ id rule.fingerprints
    → is_match ids rule ≡ true
unfolding is_match
match_of [] rule id m named = elim m [ ]
match_of (k ∷ ids) rule id (head same) named =
    let e = Mem-contains rule.fingerprints k (subst (λ x. Memᴰ x rule.fingerprints) same named) in
    ground (arith, e)
match_of (k ∷ ids) rule id (tail m) named =
    let e = match_of ids rule id m named in ground (arith, e)

-- The table against the ids that the code looks up.
Names-Shares :
    (bus : ℕ) (r : BusRoleResolver) (rule : RoleRule)
    → Names bus r rule
    → is_match (observed_ids bus r) rule ≡ true
unfolding observed_ids
Names-Shares bus r rule (ids, (e, (id, (seen, named)))) =
    rw (e, observed_ids) (match_of ids rule id seen named)

match-Names :
    (bus : ℕ) (r : BusRoleResolver) (rule : RoleRule)
    → is_match (observed_ids bus r) rule ≡ true
    → Names bus r rule
unfolding observed_ids is_match
match-Names bus r rule h = elim (Option-cases (find bus r.observed_ids_by_bus)) [
  | inl e ↦ absurd (
      ground (
        arith,
        ap (λ o. is_match (elim o as (λ _. List ℕ) [ none ↦ [] | some ids ↦ ids ]) rule) e,
        h,
      ))
  | inr (ids, e) ↦ (
    ids,
    (
      e,
      is_match-Shares ids rule (
          subst (λ o. is_match (elim o as (λ _. List ℕ) [ none ↦ [] | some ids ↦ ids ]) rule ≡ true)
            e h),
    ),
  )
]

no_match :
    (bus : ℕ) (r : BusRoleResolver) (rule : RoleRule)
    → is_match (observed_ids bus r) rule ≡ false
    → ¬ Names bus r rule
no_match bus r rule h n = let e = Names-Shares bus r rule n in ground (arith, e, h)

-- No rule is left.
none_left :
    (bus : ℕ) (r : BusRoleResolver) (rules : List RoleRule)
    → matches (observed_ids bus r) rules ≡ []
    → All (λ x. ¬ Names bus r x) rules
unfolding matches
none_left bus r [] e = tt
none_left bus r (x ∷ xs) e = elim (Bool-cases (is_match (observed_ids bus r) x)) [
  | inl m ↦ absurd (ground (arith, m, ap (λ rs. length rs) e))
  | inr m ↦ (no_match bus r x m, none_left bus r xs (sym (rw m refl) ∙ e))
]

pub one_left :
    (bus : ℕ) (r : BusRoleResolver) (rule : RoleRule) (rules : List RoleRule)
    → matches (observed_ids bus r) rules ≡ rule ∷ []
    → Splits bus r rules rule
unfolding matches
one_left bus r rule [] e = absurd (ground (arith, ap (λ rs. length rs) e))
one_left bus r rule (x ∷ xs) e = elim (Bool-cases (is_match (observed_ids bus r) x)) [
  | inl m ↦
      let kept : x ∷ matches (observed_ids bus r) xs ≡ rule ∷ [] = sym (rw m refl) ∙ e in
      let same : x ≡ rule = ap (λ rs. get_or rs 0 x) kept in
      (
        [],
        xs,
        (
          ap (λ y. y ∷ xs) same,
          (
            subst (λ y. Names bus r y) same (match-Names bus r x m),
            (tt, none_left bus r xs (ap (λ rs. drop 1 rs) kept)),
          ),
        ),
      )
  | inr m ↦
      let (before, later, (split, (named, (first, last)))) =
        one_left bus r rule xs (sym (rw m refl) ∙ e) in
      (x ∷ before, later, (ap (λ ys. x ∷ ys) split, (named, ((no_match bus r x m, first), last))))
]

matches-quiet :
    (bus : ℕ) (r : BusRoleResolver) (rules : List RoleRule)
    → All (λ x. ¬ Names bus r x) rules
    → matches (observed_ids bus r) rules ≡ []
unfolding matches
matches-quiet bus r [] h = refl
matches-quiet bus r (x ∷ xs) h = elim (Bool-cases (is_match (observed_ids bus r) x)) [
  | inl m ↦ absurd (h.0 (match-Names bus r x m))
  | inr m ↦ rw m (matches-quiet bus r xs h.1)
]

matches-only :
    (bus : ℕ) (r : BusRoleResolver) (rule : RoleRule) (before later : List RoleRule)
    → Names bus r rule
    → All (λ x. ¬ Names bus r x) before
    → All (λ x. ¬ Names bus r x) later
    → length (matches (observed_ids bus r) (before ++ (rule ∷ later))) ≡ 1
unfolding matches
matches-only bus r rule [] later named h k =
    rw (Names-Shares bus r rule named, matches-quiet bus r later k) refl
matches-only bus r rule (x ∷ xs) later named h k =
    elim (Bool-cases (is_match (observed_ids bus r) x)) [
      | inl m ↦ absurd (h.0 (match-Names bus r x m))
      | inr m ↦ rw m (matches-only bus r rule xs later named h.1 k)
    ]

pub not-IsOnly :
    (bus : ℕ) (r : BusRoleResolver)
    → length (matching bus r) ≢ 1
    → (rule : RoleRule) → ¬ IsOnly bus r rule
not-IsOnly bus r many rule (before, later, (split, (named, (h, k)))) = many (
    ap (λ rules. length (matches (observed_ids bus r) rules)) split
    ∙ matches-only bus r rule before later named h k)
