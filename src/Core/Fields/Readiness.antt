-- ===== src/Core/Fields/Readiness.antt =====
-- When the field store lets an Activity execute.
use markting_call_center.Base.{
  ℕ, String, string_eq, Bool, true, false, not, Option, none, some, List, [], ◌∷◌, Memᴰ, Dict, get,
  has_key, ok, is_empty, get-put, All, All-mem, ◌≡◌, ◌↔◌, refl, sym, ◌∙◌, Bool-cases, Option-cases,
  inl, inr, arith, beq_refl, ◌≤◌, subst, ap,
}
use markting_call_center.Contracts.Provenance.{Provenance, strength}
use markting_call_center.Core.Fields.{
  FieldSpec, FieldValue, FieldStore, satisfies, lacks, had, requirement, unsatisfied_among,
  unsatisfied_required, ready_for_execution, reject, reject_over, is_unusable,
}
use markting_call_center.Core.Fields.Invariant.{IsValid, reject-IsValid}
use mathlib.Core.Path.{ap₂}
use mathlib.Core.Option.{some-injective}

-- A provenance that meets a requirement: at least a user statement, and at least as strong.
abbrev pub Meets : Provenance → Provenance → Type 0
Meets actual required = (2 ≤ strength actual) × (strength required ≤ strength actual)

unusable_weak : (p : Provenance) → (is_unusable p ≡ false) ↔ (2 ≤ strength p)
unfolding is_unusable strength
unusable_weak Provenance.unknown = (λ e. cc, λ h. absurd (omega arith))
unusable_weak Provenance.unverified = (λ e. cc, λ h. absurd (omega arith))
unusable_weak _ = (λ e. omega arith, λ h. refl)

satisfies-Meets : (a r : Provenance) → (satisfies a r ≡ true) ↔ Meets a r
unfolding satisfies
satisfies-Meets a r = elim (Bool-cases (is_unusable a)) [
  | inl t ↦ rw t (λ e. cc, λ m. cc ((unusable_weak a).1 m.0))
  | inr f ↦ rw f (λ e. ((unusable_weak a).0 f, ground arith), λ m. ground arith)
]

has_key-some :
    (d : Dict String FieldSpec) (n : String)
    → has_key d n ≡ true
    → (spec : FieldSpec) × (get d n ≡ some spec)
has_key-some d n h = elim (Option-cases (get d n)) [
  | inl e ↦ absurd (cc (rw e at h))
  | inr found ↦ found
]

module _ {V : Type 0} where
  -- A required field with a value in force whose provenance meets the field's requirement.
  abbrev pub IsMet : FieldStore V → String → Type 0
  IsMet s n =
      (spec : FieldSpec) × (fv : FieldValue V) × (get s.specs n ≡ some spec)
      × (get s.current n ≡ some fv)
      × Meets fv.provenance spec.provenance_required

  lacks-IsMet :
      (s : FieldStore V) (n : String) (spec : FieldSpec) (o : Option (FieldValue V))
      → get s.specs n ≡ some spec
      → get s.current n ≡ o
      → (lacks o spec.provenance_required ≡ false) ↔ IsMet s n
  lacks-IsMet s n spec none e c = (λ f. cc, λ (spec', fv, _, c', _). cc)
  lacks-IsMet s n spec (some fv) e c = (
    λ f.
        (spec, fv, e, c, (satisfies-Meets fv.provenance spec.provenance_required).0 (ground arith)),
    λ (spec', fv', e', c', m).
        let same_spec : spec ≡ spec' = some-injective _ _ (sym e ∙ e') in
        let same_value : fv ≡ fv' = some-injective _ _ (sym c ∙ c') in
        ap not (
          ap₂ (λ (w : FieldValue V) (q : FieldSpec). satisfies w.provenance q.provenance_required)
            same_value same_spec
          ∙ (satisfies-Meets fv'.provenance spec'.provenance_required).1 m),
  )

  -- The answer of `unsatisfied_required` over the names `ns`.
  abbrev Answers : FieldStore V → List String → Type 0
  Answers s ns =
      (out : List (String × Provenance × Option Provenance)) × (unsatisfied_among s ns ≡ ok out)
      × ((is_empty out ≡ true) ↔ All (IsMet s) ns)

  Answers-cons :
      (s : FieldStore V) (n : String) (ns : List String) (spec : FieldSpec)
      → get s.specs n ≡ some spec
      → Answers s ns
      → Answers s (n ∷ ns)
  unfolding unsatisfied_among requirement
  Answers-cons s n ns spec e (out, q, iff) =
      let met = lacks-IsMet s n spec (get s.current n) e refl in
      elim (Bool-cases (lacks (get s.current n) spec.provenance_required)) [
        | inl t ↦ (
          (n, spec.provenance_required, had (get s.current n)) ∷ out,
          rw (e, q, t),
          (λ f. cc, λ all. cc (met.1 all.0)),
        )
        | inr f ↦ (out, rw (e, q, f), (λ t. (met.0 f, iff.0 t), λ all. iff.1 all.1))
      ]

  answers :
      (s : FieldStore V) (ns : List String) → All (λ n. has_key s.specs n ≡ true) ns → Answers s ns
  unfolding unsatisfied_among
  answers s [] h = ([], refl, (λ _. tt, λ _. refl))
  answers s (n ∷ ns) h =
      let (spec, e) = has_key-some s.specs n h.0 in Answers-cons s n ns spec e (answers s ns h.1)

  -- On a valid store `ready_for_execution` answers, without a KeyError, and the answer is yes exactly
  -- if every required field has a value in force that meets its requirement.
  pub ready-IsMet :
      (s : FieldStore V)
      → IsValid s
      → (b : Bool) × (ready_for_execution s ≡ ok b) × ((b ≡ true) ↔ All (IsMet s) s.required_names)
  unfolding ready_for_execution unsatisfied_required
  ready-IsMet s v =
      let (out, q, iff) = answers s s.required_names v.specified in (is_empty out, rw q, iff)

  rejected_value :
      (s : FieldStore V) (name : String) (ts_ms : Option ℕ) {cur : FieldValue V}
      → get s.current name ≡ some cur
      → (fv : FieldValue V) × (get (reject s name ts_ms).current name ≡ some fv)
        × (fv.provenance ≡ Provenance.unverified)
        × ((reject s name ts_ms).required_names ≡ s.required_names)
  unfolding reject reject_over
  rejected_value s name ts_ms {cur} e = rw e (
    record cur { provenance = Provenance.unverified; recorded_at_ms = ts_ms },
    rw (get-put, beq_refl name),
    refl,
    refl,
  )

  not-IsMet :
      (s : FieldStore V) (name : String) {fv : FieldValue V}
      → get s.current name ≡ some fv
      → fv.provenance ≡ Provenance.unverified
      → ¬ IsMet s name
  unfolding strength
  not-IsMet s name e u (spec, fv', _, e', m) =
      let weak : fv'.provenance ≡ Provenance.unverified =
        ap (λ (w : FieldValue V). w.provenance) (some-injective _ _ (sym e' ∙ e)) ∙ u in
      absurd (omega (arith, subst (λ p. 2 ≤ strength p) weak m.0))

  -- A store whose required field was rejected is not ready, whatever its other fields hold.
  pub reject_blocks :
      (s : FieldStore V) (name : String) (ts_ms : Option ℕ) {cur : FieldValue V}
      → IsValid s
      → Memᴰ name s.required_names
      → get s.current name ≡ some cur
      → ready_for_execution (reject s name ts_ms) ≡ ok false
  reject_blocks s name ts_ms v m e =
      let (fv, now, weak, names) = rejected_value s name ts_ms e in
      let (b, q, iff) = ready-IsMet (reject s name ts_ms) (reject-IsValid s name ts_ms v) in
      elim (Bool-cases b) [
        | inl t ↦ absurd (
            not-IsMet (reject s name ts_ms) name now weak
              (All-mem (IsMet (reject s name ts_ms)) (iff.0 t) (rw names m)))
        | inr f ↦ q ∙ ap ok f
      ]
