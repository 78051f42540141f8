-- ===== src/Core/Outcome/Choice.antt =====
-- The primary outcome is always one of the Activity's, and the exit rule is the first that holds.
use markting_call_center.Base.{
  ℕ, String, string_eq, Bool, true, false, ◌||◌, ◌&&◌, Option, none, some, List, [], ◌∷◌, ◌++◌,
  contains, is_empty, ◌≡◌, refl, ◌∙◌, Bool-cases, inl, inr, beq_refl, All,
}
use markting_call_center.Core.Outcome.{
  OutcomeSchema, SessionFacts, CompletionVerdict, RuleInputs, Ruling, pick, primary_for, by_exit,
  by_rules, by_facts, is_blocked, is_escalated, is_abandoned, has_text, is_yes, evaluate,
  split_exit,
}

-- `_pick` fails only where the Activity allows nothing.
pick-some :
    (c : String) (rest cs : List String)
    → (p : String) × (pick (c ∷ rest) cs ≡ some p) × (contains (c ∷ rest) p ≡ true)
unfolding pick
pick-some c rest [] = (c, refl, rw (beq_refl c) refl)
pick-some c rest (d ∷ cs) = elim (Bool-cases (contains (c ∷ rest) d)) [
  | inl t ↦ (d, rw t refl, t)
  | inr f ↦ let (p, e, a) = pick-some c rest cs in (p, rw f e, a)
]

-- The candidates that a result was picked from.
abbrev Picks : List String → Option String → Type 0
Picks allowed o = (cs : List String) × (o ≡ pick allowed cs)

by_facts-Picks :
    (allowed : List String) (v : CompletionVerdict) (f : SessionFacts) (recorded : List String)
    (first : Option ℕ)
    → Picks allowed (by_facts allowed v f recorded first).0
unfolding by_facts
by_facts-Picks allowed v f recorded none = elim (Bool-cases (is_abandoned f.activity_state)) [
  | inl t ↦ rw t ("abandoned" ∷ [], refl)
  | inr n ↦ rw n ("no_answer" ∷ "abandoned" ∷ [], refl)
]
by_facts-Picks allowed v f recorded (some ms) = elim (Bool-cases (is_abandoned f.activity_state)) [
  | inl t ↦ rw t ("abandoned" ∷ [], refl)
  | inr n ↦ elim (Bool-cases (is_empty recorded)) [
    | inl e ↦ rw (n, e) ("abandoned" ∷ "partially_completed" ∷ [], refl)
    | inr e ↦ rw (n, e) ("partially_completed" ∷ "abandoned" ∷ [], refl)
  ]
]

by_rules-Picks :
    (allowed : List String) (v : CompletionVerdict) (f : SessionFacts) (recorded : List String)
    → Picks allowed (by_rules allowed v f recorded).0
unfolding by_rules
by_rules-Picks allowed v f recorded = elim (Bool-cases (is_yes v.failure)) [
  | inl t ↦ rw t ("rejected" ∷ "not_eligible" ∷ [], refl)
  | inr n ↦ elim (Bool-cases (is_yes v.success)) [
    | inl t ↦ rw (n, t) ("completed" ∷ "accepted" ∷ [], refl)
    | inr k ↦ rw (n, k) (by_facts-Picks allowed v f recorded f.first_user_turn_ms)
  ]
]

by_exit-Picks :
    (allowed : List String) (v : CompletionVerdict) (f : SessionFacts) (recorded : List String)
    (rule value : Option String)
    → Picks allowed (by_exit allowed v f recorded rule value).0
unfolding by_exit
by_exit-Picks allowed v f recorded (some rule) (some value) =
    (value ∷ "rejected" ∷ "abandoned" ∷ [], refl)
by_exit-Picks allowed v f recorded none value = by_rules-Picks allowed v f recorded
by_exit-Picks allowed v f recorded (some rule) none = by_rules-Picks allowed v f recorded

primary_for-Picks :
    (schema : OutcomeSchema) (v : CompletionVerdict) (f : SessionFacts) (recorded : List String)
    → Picks schema.primary (primary_for schema v f recorded).0
unfolding primary_for
primary_for-Picks schema v f recorded = elim (Bool-cases (is_blocked f.activity_state)) [
  | inl t ↦ rw t ("technical_failure" ∷ [], refl)
  | inr n ↦ elim (Bool-cases (is_escalated f.activity_state || has_text f.handoff_ref)) [
    | inl t ↦ rw (n, t) ("human_required" ∷ [], refl)
    | inr k ↦ rw (n, k) (by_exit-Picks schema.primary v f recorded v.exit_rule v.exit_value)
  ]
]

-- An Activity that allows some outcome always gets a primary outcome, and one that it allows: the
-- engine never invents one.
pub primary_for-contains :
    (schema : OutcomeSchema) (v : CompletionVerdict) (f : SessionFacts) (recorded : List String)
    → is_empty schema.primary ≡ false
    → (p : String) × ((primary_for schema v f recorded).0 ≡ some p)
      × (contains schema.primary p ≡ true)
primary_for-contains schema v f recorded h =
    let (cs, e) = primary_for-Picks schema v f recorded in
    let (p, q, a) = some_pick schema.primary cs h in (p, e ∙ q, a)
  where
    some_pick :
        (allowed cs : List String)
        → is_empty allowed ≡ false
        → (p : String) × (pick allowed cs ≡ some p) × (contains allowed p ≡ true)
    some_pick [] cs h = absurd (cc h)
    some_pick (c ∷ rest) cs h = pick-some c rest cs

module _ {V : Type 0} (decide : List String → RuleInputs V → Ruling)
    (split_once : String → Option (String × String)) (strip : String → String) where
  -- The rule can be evaluated and holds.
  abbrev pub is_hit : RuleInputs V → String → Bool
  unfolding evaluate split_exit
  is_hit inputs raw =
      let r =
        evaluate decide split_once strip ((split_exit decide split_once strip raw).0 ∷ []) inputs in
      is_empty r.1 && is_yes r.0

  -- The first of the exit rules that holds, with the value that it names.
  pub record IsFirst (inputs : RuleInputs V) (raws : List String) (raw value : String)
      : Type 0 where
    pub before : List String
    pub after : List String
    pub found : raws ≡ before ++ raw ∷ after
    pub passed : All (λ r. is_hit inputs r ≡ false) before
    pub holds_now : is_hit inputs raw ≡ true
    pub named : value ≡ (split_exit decide split_once strip raw).1
