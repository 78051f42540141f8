-- ===== src/Core/Governance/Claims.antt =====
-- Which claims the governor lets the assistant speak.
use mathlib.Core.Option.{some-injective}
use markting_call_center.Base.{
  All, List, map, Dict, put, get-put, beq_cases, ap, ◌⊎◌, ◌≢◌, ℕ, String, string_eq, Bool, true,
  false, Option, none, some, [], ◌∷◌, ◌++◌, contains, get, ◌≡◌, ◌↔◌, refl, Bool-cases, inl, inr,
}
use markting_call_center.Contracts.Provenance.{Provenance, provenance_value}
use markting_call_center.Core.Governance.{
  SourceRequirement, requirement_value, PolicyBlock, ClaimGovernor, ClaimRuling, ClaimPort, speak,
  undecided, ruled_allowed, ruled_blocked, ClaimRule, allowed_from, allowed_map, prohibited,
  is_sourced, by_source, check_claim, judged, check,
}

-- The provenances that meet a requirement.
abbrev pub Meets : SourceRequirement → Provenance → Type 0
Meets SourceRequirement.knowledge_approved p = p ≡ Provenance.knowledge_approved
Meets SourceRequirement.tool_verified p = p ≡ Provenance.tool_verified
Meets SourceRequirement.any_approved p =
    (p ≡ Provenance.knowledge_approved) ⊎ (p ≡ Provenance.tool_verified)

sourced-Meets :
    (need : SourceRequirement) (p : Provenance)
    → is_sourced (some need) (provenance_value p) ≡ true
    → Meets need p
unfolding requirement_value provenance_value
sourced-Meets SourceRequirement.knowledge_approved Provenance.knowledge_approved h = refl
sourced-Meets SourceRequirement.tool_verified Provenance.tool_verified h = refl
sourced-Meets SourceRequirement.any_approved Provenance.knowledge_approved h = inl refl
sourced-Meets SourceRequirement.any_approved Provenance.tool_verified h = inr refl
sourced-Meets SourceRequirement.knowledge_approved _ h = absurd (cc h)
sourced-Meets SourceRequirement.tool_verified _ h = absurd (cc h)
sourced-Meets SourceRequirement.any_approved _ h = absurd (cc h)

-- The last rule for a claim.
pub record IsLastRule (rules : List ClaimRule) (claim_type : String) (r : ClaimRule) : Type 0 where
  pub before : List ClaimRule
  pub after : List ClaimRule
  pub found : rules ≡ before ++ r ∷ after
  pub about : r.claim_type ≡ claim_type
  pub is_last : All (λ c. c.claim_type ≢ claim_type) after

-- A claim that the rules allow.
pub record IsBacked (p : PolicyBlock) (claim_type : String) (provenance : Provenance) : Type 0 where
  pub not_prohibited : All (λ c. c.claim_type ≢ claim_type) p.prohibited_claims
  pub rule : ClaimRule
  pub allows : IsLastRule p.allowed_claims claim_type rule
  pub sourced :
      (need : SourceRequirement) → rule.source_requirement ≡ some need → Meets need provenance

-- What a map made of rules says of a claim, after what it said before them.
get-allowed_from :
    (d : Dict String (Option SourceRequirement)) (rules : List ClaimRule) (claim_type : String)
    {need : Option SourceRequirement}
    → get (allowed_from d rules) claim_type ≡ some need
    → (get d claim_type ≡ some need) × All (λ c. c.claim_type ≢ claim_type) rules
      ⊎ ((r : ClaimRule) × IsLastRule rules claim_type r × (r.source_requirement ≡ need))
unfolding allowed_from
get-allowed_from d [] claim_type h = inl (h, tt)
get-allowed_from d (c ∷ cs) claim_type {need} h =
    elim (get-allowed_from (put d c.claim_type c.source_requirement) cs claim_type h) [
      | inr (r, last, e) ↦ inr (
        r,
        record {
          before = c ∷ last.before;
          after = last.after;
          found = ap (λ l. c ∷ l) last.found;
          about = last.about;
          is_last = last.is_last;
        },
        e,
      )
      | inl (e, others) ↦ elim (beq_cases c.claim_type claim_type) [
        | inl (t, same) ↦
            let put_here : some c.source_requirement ≡ some need = rw (get-put, t) at e in
            inr (
              c,
              record { before = []; after = cs; found = refl; about = same; is_last = others },
              some-injective c.source_requirement need put_here,
            )
        | inr (f, n) ↦ inl (rw (get-put, f) at e, (n, others))
      ]
    ]

by_source-allowed :
    (o : Option (Option SourceRequirement)) (provenance : Provenance)
    → by_source o (provenance_value provenance) ≡ ruled_allowed
    → (need : Option SourceRequirement) × (o ≡ some need)
      × ((s : SourceRequirement) → need ≡ some s → Meets s provenance)
unfolding requirement_value
by_source-allowed none provenance h = absurd (cc h)
by_source-allowed (some none) provenance h = (none, refl, λ s e. absurd (cc e))
by_source-allowed (some (some need)) provenance h =
    elim (Bool-cases (is_sourced (some need) (provenance_value provenance))) [
      | inl t ↦
          (some need, refl, λ s e. rw (← some-injective need s e) (sourced-Meets need provenance t))
      | inr f ↦ absurd (cc (rw f at h))
    ]

not_prohibited_lem :
    (rules : List ClaimRule) (claim_type : String)
    → contains (map (λ (c : ClaimRule). c.claim_type) rules) claim_type ≡ false
    → All (λ c. c.claim_type ≢ claim_type) rules
not_prohibited_lem [] claim_type h = tt
not_prohibited_lem (c ∷ cs) claim_type h = elim (beq_cases c.claim_type claim_type) [
  | inl (t, same) ↦ absurd (cc (rw t at h))
  | inr (f, n) ↦ (n, not_prohibited_lem cs claim_type (rw f at h))
]

check_claim-allowed :
    (p : PolicyBlock) (claim_type : String) (provenance : Provenance)
    → check_claim claim_type (provenance_value provenance) (allowed_map p) (prohibited p)
      ≡ ruled_allowed
    → IsBacked p claim_type provenance
unfolding check_claim allowed_map prohibited
check_claim-allowed p claim_type provenance h =
    elim (Bool-cases
      (contains (map (λ (c : ClaimRule). c.claim_type) p.prohibited_claims) claim_type)) [
        | inl t ↦ absurd (cc (rw t at h))
        | inr f ↦
            let (need, e, s) =
              by_source-allowed (get (allowed_from [] p.allowed_claims) claim_type) provenance
                (rw f at h) in
            elim (get-allowed_from [] p.allowed_claims claim_type e) [
              | inl (q, others) ↦ absurd (cc q)
              | inr (r, last, q) ↦ record {
                not_prohibited = not_prohibited_lem p.prohibited_claims claim_type f;
                rule = r;
                allows = last;
                sourced = λ k t. s k (rw q at t);
              }
            ]
      ]

module _ (occurs : String → String → Bool) where
  judged-speak :
      (p : PolicyBlock) (claim_type : String) (provenance : Provenance) (r : ClaimRuling)
      → ((judged occurs p claim_type provenance r).action ≡ speak) ↔ (r ≡ ruled_allowed)
  unfolding judged
  judged-speak p claim_type provenance undecided = (λ e. absurd (cc e), λ e. absurd (cc e))
  judged-speak p claim_type provenance ruled_allowed = (λ e. refl, λ e. refl)
  judged-speak p claim_type provenance ruled_blocked = (λ e. absurd (cc e), λ e. absurd (cc e))

  -- With the rules as the decision port, a claim is spoken only if no rule prohibits its type and some
  -- rule allows it, and, where the last such rule asks for a source, on that source: approved knowledge
  -- where it asks for approved knowledge, a verified tool result where it asks for one, and either of
  -- the two where any approved source will do.
  pub check-IsBacked :
      (g : ClaimGovernor) (claim_type : String) (provenance : Provenance) (ts_ms : ℕ)
      → (check occurs check_claim g claim_type provenance ts_ms).1.action ≡ speak
      → IsBacked g.policies claim_type provenance
  unfolding check
  check-IsBacked g claim_type provenance ts_ms h =
      check_claim-allowed g.policies claim_type provenance
        ((judged-speak g.policies claim_type provenance _).0 h)

  -- Whatever port decides, a claim is spoken exactly if the port allows it, and each check adds one
  -- entry to the log, last, with the claim's type, the state and the action that the check returns.
  pub check_logged :
      (decide : ClaimPort) (g : ClaimGovernor) (claim_type : String) (provenance : Provenance)
      (ts_ms : ℕ)
      → let r = check occurs decide g claim_type provenance ts_ms in
        ((r.1.action ≡ speak) ↔ (
          decide claim_type
            (provenance_value provenance)
            (allowed_map g.policies)
            (prohibited g.policies)
          ≡ ruled_allowed))
        × (r.0.log
            ≡ g.log
              ++ (record {
                ts_ms = ts_ms;
                claim_type = claim_type;
                state = r.1.state;
                action = r.1.action;
              })
                ∷ [])
  unfolding check
  check_logged decide g claim_type provenance ts_ms =
      (judged-speak g.policies claim_type provenance _, refl)
