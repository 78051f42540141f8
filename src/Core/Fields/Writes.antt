-- ===== src/Core/Fields/Writes.antt =====
-- What the three writers of the field store do to the value in force and to the history.
use markting_call_center.Base.{
  ℕ, String, string_eq, Bool, true, false, ltb, Option, none, some, List, [], ◌∷◌, ◌++◌, Memᴰ, get,
  has_key, or_else, get-put, get-All, mem-append_left, ◌≡◌, ◌≢◌, refl, sym, Bool-cases, inl, inr,
  arith, append-nil, append_assoc, beq_false, beq_refl, ◌≤◌,
}
use markting_call_center.Contracts.Provenance.{Provenance, strength}
use markting_call_center.Core.Fields.{
  FieldValue, FieldStore, Stamp, store_value, make_value, record_over, record_value, verify_over,
  verify, reject_over, reject, satisfies,
}
use markting_call_center.Core.Fields.Invariant.{IsFiled, IsValid, Call, step, run}

-- The history of a store goes on from that of another.
abbrev pub Extends : {V : Type 0} → FieldStore V → FieldStore V → Type 0
Extends {V} s t = (more : List (FieldValue V)) × (t.history ≡ s.history ++ more)

module _ {V : Type 0} where
  Extends-refl : (s : FieldStore V) → Extends s s
  Extends-refl s = ([], sym (append-nil s.history))

  Extends-trans : (s t u : FieldStore V) → Extends s t → Extends t u → Extends s u
  Extends-trans s t u (xs, p) (ys, q) = (xs ++ ys, rw (q, p) (append_assoc s.history xs ys))

  reject_over-Extends :
      (s : FieldStore V) (name : String) (ts_ms : Option ℕ) (o : Option (FieldValue V))
      → Extends s (reject_over s name ts_ms o)
  unfolding reject_over
  reject_over-Extends s name ts_ms none = Extends-refl s
  reject_over-Extends s name ts_ms (some cur) = (_ ∷ [], refl)

not_stronger : (p : Provenance) → ltb (strength Provenance.tool_verified) (strength p) ≡ false
unfolding strength
not_stronger Provenance.unknown = refl
not_stronger _ = refl

tool_verified_satisfies :
    (required : Provenance) → satisfies Provenance.tool_verified required ≡ true
unfolding satisfies strength
tool_verified_satisfies Provenance.unknown = refl
tool_verified_satisfies _ = refl

module _ {V : Type 0} where
  -- A value that a tool call verified.
  abbrev pub IsVerified : String → V → FieldValue V → Type 0
  IsVerified call_id value fv =
      (fv.provenance ≡ Provenance.tool_verified)
      × (fv.tool_call_id ≡ some call_id)
      × (fv.value ≡ value)

  abbrev IsTagged : V → Stamp → FieldValue V → Type 0
  IsTagged value stamp fv =
      (fv.provenance ≡ Provenance.tool_verified)
      × (fv.tool_call_id ≡ stamp.tool_call_id)
      × (fv.value ≡ value)

module _ {V : Type 0} (same : V → V → Bool) where
  record_over-Extends :
      (s : FieldStore V) (name : String) (value : V) (p : Provenance) (stamp : Stamp)
      (o : Option (FieldValue V))
      → Extends s (record_over same s name value p stamp o).0
  unfolding record_over store_value
  record_over-Extends s name value p stamp none = (_ ∷ [], refl)
  record_over-Extends s name value p stamp (some prev) = elim (Bool-cases (same prev.value value)) [
    | inl t ↦ rw t (elim (Bool-cases (ltb (strength p) (strength prev.provenance))) [
      | inl l ↦ rw l (Extends-refl s)
      | inr l ↦ rw l (_ ∷ [], refl)
    ])
    | inr f ↦ rw f (_ ∷ [], refl)
  ]

  record_value-Extends :
      (s : FieldStore V) (name : String) (value : V) (p : Provenance) (stamp : Stamp)
      → Extends s (record_value same s name value p stamp).0
  unfolding record_value
  record_value-Extends s name value p stamp = elim (Bool-cases (has_key s.specs name)) [
    | inl t ↦ rw t (record_over-Extends s name value p stamp (get s.current name))
    | inr f ↦ rw f (Extends-refl s)
  ]

  verify_over-Extends :
      (s : FieldStore V) (name call_id : String) (ts_ms : Option ℕ) (value : Option V)
      (o : Option (FieldValue V))
      → Extends s (verify_over same s name call_id ts_ms value o).0
  unfolding verify_over
  verify_over-Extends s name call_id ts_ms none none = Extends-refl s
  verify_over-Extends s name call_id ts_ms (some w) o = record_value-Extends s name w _ _
  verify_over-Extends s name call_id ts_ms none (some cur) =
      record_value-Extends s name cur.value _ _

  step-Extends : (s : FieldStore V) (c : Call V) → Extends s (step same s c)
  unfolding step verify reject
  step-Extends s (Call.recording name value p stamp) = record_value-Extends s name value p stamp
  step-Extends s (Call.verifying name call_id ts_ms value) =
      verify_over-Extends s name call_id ts_ms value (get s.current name)
  step-Extends s (Call.rejecting name ts_ms) = reject_over-Extends s name ts_ms (get s.current name)

  -- The history is append-only: no sequence of writes drops or changes an entry.
  pub run-Extends : (s : FieldStore V) (cs : List (Call V)) → Extends s (run same s cs)
  unfolding run
  run-Extends s [] = Extends-refl s
  run-Extends s (c ∷ cs) =
      Extends-trans s (step same s c) (run same (step same s c) cs) (step-Extends s c)
        (run-Extends (step same s c) cs)

  get-record_over :
      (s : FieldStore V) (name other : String) (value : V) (p : Provenance) (stamp : Stamp)
      (o : Option (FieldValue V))
      → name ≢ other
      → get (record_over same s name value p stamp o).0.current other ≡ get s.current other
  unfolding record_over store_value make_value
  get-record_over s name other value p stamp none n = rw (get-put, beq_false name other n)
  get-record_over s name other value p stamp (some prev) n =
      elim (Bool-cases (same prev.value value)) [
        | inl t ↦ rw t (elim (Bool-cases (ltb (strength p) (strength prev.provenance))) [
          | inl l ↦ rw l
          | inr l ↦ rw l (rw (get-put, beq_false name other n))
        ])
        | inr f ↦ rw f (rw (get-put, beq_false name other n))
      ]

  get-record_value :
      (s : FieldStore V) (name other : String) (value : V) (p : Provenance) (stamp : Stamp)
      → name ≢ other
      → get (record_value same s name value p stamp).0.current other ≡ get s.current other
  unfolding record_value
  get-record_value s name other value p stamp n = elim (Bool-cases (has_key s.specs name)) [
    | inl t ↦ rw t (get-record_over s name other value p stamp (get s.current name) n)
    | inr f ↦ rw f
  ]

  strength_over :
      (s : FieldStore V) (name : String) (value : V) (p : Provenance) (stamp : Stamp)
      (prev : FieldValue V)
      → get s.current name ≡ some prev
      → same prev.value value ≡ true
      → (fv : FieldValue V) × (get
            (record_over same s name value p stamp (some prev)).0.current
            name
          ≡ some fv)
        × (strength prev.provenance ≤ strength fv.provenance)
        × (strength p ≤ strength fv.provenance)
  unfolding record_over store_value make_value
  strength_over s name value p stamp prev e q =
      elim (Bool-cases (ltb (strength p) (strength prev.provenance))) [
        | inl l ↦ rw (q, l) (prev, e, omega arith, ground arith)
        | inr l ↦
            rw (q, l)
              (
                make_value name value p stamp none,
                rw (get-put, beq_refl name),
                ground arith,
                omega arith,
              )
      ]

  -- Recording, for a known field, a value equal to the one in force leaves a value that is at least as
  -- strong as the one before and as the provenance that was given, and every other field as it was.
  pub record_value-strength :
      (s : FieldStore V) (name : String) (value : V) (p : Provenance) (stamp : Stamp)
      {prev : FieldValue V}
      → has_key s.specs name ≡ true
      → get s.current name ≡ some prev
      → same prev.value value ≡ true
      → let s' = (record_value same s name value p stamp).0 in
        (fv : FieldValue V) × (get s'.current name ≡ some fv)
        × (strength prev.provenance ≤ strength fv.provenance)
        × (strength p ≤ strength fv.provenance)
        × ((other : String) → name ≢ other → get s'.current other ≡ get s.current other)
  unfolding record_value
  record_value-strength s name value p stamp {prev} h e q =
      let (fv, now, kept, new) = strength_over s name value p stamp prev e q in
      rw (h, e)
        (fv, now, kept, new, λ other n. get-record_over s name other value p stamp (some prev) n)

  -- Recording a different value is a correction: it goes into force, cites the value that it
  -- replaces, and the replaced entry stays in the history.
  pub record_value_correction :
      (s : FieldStore V) (name : String) (value : V) (p : Provenance) (stamp : Stamp)
      {prev : FieldValue V}
      → IsValid s
      → get s.current name ≡ some prev
      → same prev.value value ≡ false
      → let s' = (record_value same s name value p stamp).0 in
        (fv : FieldValue V) × (get s'.current name ≡ some fv)
        × (fv.value ≡ value)
        × (fv.provenance ≡ p)
        × (fv.corrected_from ≡ some prev.value)
        × Memᴰ prev s'.history
  unfolding record_value record_over store_value make_value
  record_value_correction s name value p stamp {prev} v e q =
      let filed = get-All (IsFiled s) s.current name v.filed e in
      rw (filed.1, e, q)
        (
          make_value name value p stamp (some prev.value),
          rw (get-put, beq_refl name),
          refl,
          refl,
          refl,
          mem-append_left _ filed.2,
        )

  verified_over :
      (s : FieldStore V) (name : String) (value : V) (stamp : Stamp) (o : Option (FieldValue V))
      → get s.current name ≡ o
      → (fv : FieldValue V) × (get
            (record_over same s name value Provenance.tool_verified stamp o).0.current
            name
          ≡ some fv)
        × IsTagged value stamp fv
  unfolding record_over store_value make_value
  verified_over s name value stamp none e = (
    make_value name value Provenance.tool_verified stamp none,
    rw (get-put, beq_refl name),
    (refl, refl, refl),
  )
  verified_over s name value stamp (some prev) e = elim (Bool-cases (same prev.value value)) [
    | inl t ↦
        rw (t, not_stronger prev.provenance)
          (
            make_value name value Provenance.tool_verified stamp none,
            rw (get-put, beq_refl name),
            (refl, refl, refl),
          )
    | inr f ↦ rw f (
      make_value name value Provenance.tool_verified stamp (some prev.value),
      rw (get-put, beq_refl name),
      (refl, refl, refl),
    )
  ]

  verified_value :
      (s : FieldStore V) (name : String) (value : V) (stamp : Stamp)
      → has_key s.specs name ≡ true
      → (fv : FieldValue V) × (get
            (record_value same s name value Provenance.tool_verified stamp).0.current
            name
          ≡ some fv)
        × IsTagged value stamp fv
  unfolding record_value
  verified_value s name value stamp h =
      rw h (verified_over s name value stamp (get s.current name) refl)

  verify_over-IsVerified :
      (s : FieldStore V) (name call_id : String) (ts_ms : Option ℕ) (value : Option V)
      (cur : FieldValue V)
      → has_key s.specs name ≡ true
      → (fv : FieldValue V) × (get
            (verify_over same s name call_id ts_ms value (some cur)).0.current
            name
          ≡ some fv)
        × IsVerified call_id (or_else value cur.value) fv
  unfolding verify_over
  verify_over-IsVerified s name call_id ts_ms none cur h = verified_value s name cur.value _ h
  verify_over-IsVerified s name call_id ts_ms (some w) cur h = verified_value s name w _ h

  -- Verifying a field that has a value puts in force the value that is given, or else the one it had, with
  -- the provenance TOOL_VERIFIED, which satisfies every requirement, and with the call that verified
  -- it, whatever provenance and call were there before.
  pub verify-satisfies :
      (s : FieldStore V) (name call_id : String) (ts_ms : Option ℕ) (value : Option V)
      {cur : FieldValue V} (required : Provenance)
      → IsValid s
      → get s.current name ≡ some cur
      → (fv : FieldValue V) × (get (verify same s name call_id ts_ms value).0.current name
          ≡ some fv)
        × IsVerified call_id (or_else value cur.value) fv
        × (satisfies fv.provenance required ≡ true)
  unfolding verify
  verify-satisfies s name call_id ts_ms value {cur} required v e =
      let filed = get-All (IsFiled s) s.current name v.filed e in
      let (fv, now, top) = verify_over-IsVerified s name call_id ts_ms value cur filed.1 in
      rw e (fv, now, top, rw top.0 (tool_verified_satisfies required))
