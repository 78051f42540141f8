-- ===== src/Core/Fields/Invariant.antt =====
-- What the field store keeps over every sequence of writes.
use markting_call_center.Base.{
  ℕ, String, string_eq, Bool, true, ltb, Option, none, some, List, [], ◌∷◌, ◌++◌, map, Memᴰ, Dict,
  get, has_key, put, All, All-map, All-put, has_key-put, get-All, mem-append_left, mem-append_right,
  ◌≡◌, refl, Bool-cases, inl, inr, ◌==◌, beq_refl,
}
use markting_call_center.Contracts.Provenance.{Provenance, strength}
use markting_call_center.Core.Fields.{
  FieldSpec, FieldValue, FieldStore, Stamp, specs_of, from_specs, store_value, make_value,
  record_over, record_value, verify_over, verify, reject_over, reject,
}

-- A value in force is filed under its own name, for a specified field, and stands in the history.
abbrev pub IsFiled : {V : Type 0} → FieldStore V → String → FieldValue V → Type 0
IsFiled s k fv = (fv.name ≡ k) × (has_key s.specs k ≡ true) × Memᴰ fv s.history

pub record IsValid {V : Type 0} (s : FieldStore V) : Type 0 where
  pub specified : All (λ n. has_key s.specs n ≡ true) s.required_names
  pub filed : All (λ p. IsFiled s p.0 p.1) s.current

has_key-specs_of :
    (d : Dict String FieldSpec) (ss : List FieldSpec) (k : String)
    → has_key d k ≡ true
    → has_key (specs_of d ss) k ≡ true
unfolding specs_of
has_key-specs_of d [] k h = h
has_key-specs_of d (s ∷ ss) k h = has_key-specs_of (put d s.name s) ss k (
    rw (has_key-put d s.name k s)
      (elim (Bool-cases (s.name == k)) [ inl t ↦ rw t | inr f ↦ rw f h ]))

specs_of-All :
    (d : Dict String FieldSpec) (ss more : List FieldSpec)
    → All (λ n. has_key (specs_of d (ss ++ more)) n ≡ true) (map (λ s. s.name) ss)
unfolding specs_of
specs_of-All d [] more = tt
specs_of-All d (s ∷ ss) more = (
  has_key-specs_of (put d s.name s) (ss ++ more) s.name
      (rw (has_key-put d s.name s.name s, beq_refl s.name)),
  specs_of-All (put d s.name s) ss more,
)

-- A store made from specifications satisfies the invariant.
pub from_specs-IsValid :
    {V : Type 0} (required optional : List FieldSpec)
    → IsValid (from_specs {V = V} required optional)
unfolding from_specs
from_specs-IsValid required optional = record {
  specified = specs_of-All [] required optional;
  filed = tt;
}

module _ {V : Type 0} where
  -- A write of `fv` under its name.
  write-IsValid :
      (s : FieldStore V) (name : String) (fv : FieldValue V)
      → fv.name ≡ name
      → has_key s.specs name ≡ true
      → IsValid s
      → IsValid (record s { current = put s.current name fv; history = s.history ++ fv ∷ [] })
  write-IsValid s name fv e h v = record {
    specified = v.specified;
    filed =
        All-put (λ k w. (w.name ≡ k) × (has_key s.specs k ≡ true) × Memᴰ w (s.history ++ fv ∷ []))
          s.current name fv (e, h, mem-append_right s.history (Memᴰ.head refl))
          (All-map (λ p q. (q.0, q.1, mem-append_left (fv ∷ []) q.2)) s.current v.filed);
  }

  reject_over-IsValid :
      (s : FieldStore V) (name : String) (ts_ms : Option ℕ) (o : Option (FieldValue V))
      → get s.current name ≡ o
      → IsValid s
      → IsValid (reject_over s name ts_ms o)
  unfolding reject_over
  reject_over-IsValid s name ts_ms none e v = v
  reject_over-IsValid s name ts_ms (some cur) e v =
      let filed = get-All (IsFiled s) s.current name v.filed e in
      write-IsValid s name _ filed.0 filed.1 v

  pub reject-IsValid :
      (s : FieldStore V) (name : String) (ts_ms : Option ℕ)
      → IsValid s
      → IsValid (reject s name ts_ms)
  unfolding reject
  reject-IsValid s name ts_ms v = reject_over-IsValid s name ts_ms (get s.current name) refl v

module _ {V : Type 0} (same : V → V → Bool) where
  record_over-IsValid :
      (s : FieldStore V) (name : String) (value : V) (p : Provenance) (stamp : Stamp)
      (o : Option (FieldValue V))
      → has_key s.specs name ≡ true
      → IsValid s
      → IsValid (record_over same s name value p stamp o).0
  unfolding record_over store_value make_value
  record_over-IsValid s name value p stamp none h v = write-IsValid s name _ refl h v
  record_over-IsValid s name value p stamp (some prev) h v =
      elim (Bool-cases (same prev.value value)) [
        | inl t ↦ rw t (elim (Bool-cases (ltb (strength p) (strength prev.provenance))) [
          | inl l ↦ rw l v
          | inr l ↦ rw l (write-IsValid s name _ refl h v)
        ])
        | inr f ↦ rw f (write-IsValid s name _ refl h v)
      ]

  record_value-IsValid :
      (s : FieldStore V) (name : String) (value : V) (p : Provenance) (stamp : Stamp)
      → IsValid s
      → IsValid (record_value same s name value p stamp).0
  unfolding record_value
  record_value-IsValid s name value p stamp v = elim (Bool-cases (has_key s.specs name)) [
    | inl t ↦ rw t (record_over-IsValid s name value p stamp (get s.current name) t v)
    | inr f ↦ rw f v
  ]

  verify_over-IsValid :
      (s : FieldStore V) (name call_id : String) (ts_ms : Option ℕ) (value : Option V)
      (o : Option (FieldValue V))
      → IsValid s
      → IsValid (verify_over same s name call_id ts_ms value o).0
  unfolding verify_over
  verify_over-IsValid s name call_id ts_ms none none v = v
  verify_over-IsValid s name call_id ts_ms (some w) o v =
      record_value-IsValid s name w Provenance.tool_verified _ v
  verify_over-IsValid s name call_id ts_ms none (some cur) v =
      record_value-IsValid s name cur.value Provenance.tool_verified _ v

-- A call of one of the store's three writers.
pub data Call (V : Type 0) : Type 0 where
  recording : (name : String) (value : V) (p : Provenance) (stamp : Stamp) → Call V
  verifying : (name call_id : String) (ts_ms : Option ℕ) (value : Option V) → Call V
  rejecting : (name : String) (ts_ms : Option ℕ) → Call V

module _ {V : Type 0} (same : V → V → Bool) where
  unfoldable pub step : FieldStore V → Call V → FieldStore V
  step s (recording name value p stamp) = (record_value same s name value p stamp).0
  step s (verifying name call_id ts_ms value) = (verify same s name call_id ts_ms value).0
  step s (rejecting name ts_ms) = reject s name ts_ms

  unfoldable pub run : FieldStore V → List (Call V) → FieldStore V
  unfolding step
  run s [] = s
  run s (c ∷ cs) = run (step s c) cs

  pub step-IsValid : (s : FieldStore V) (c : Call V) → IsValid s → IsValid (step s c)
  unfolding step verify
  step-IsValid s (recording name value p stamp) v = record_value-IsValid same s name value p stamp v
  step-IsValid s (verifying name call_id ts_ms value) v =
      verify_over-IsValid same s name call_id ts_ms value (get s.current name) v
  step-IsValid s (rejecting name ts_ms) v = reject-IsValid s name ts_ms v

  -- Every sequence of writes, refused ones included, keeps the invariant: required fields are
  -- specified, and each value in force is filed under its name, for a specified field, and logged.
  pub run-IsValid : (s : FieldStore V) (cs : List (Call V)) → IsValid s → IsValid (run s cs)
  unfolding run
  run-IsValid s [] v = v
  run-IsValid s (c ∷ cs) v = run-IsValid (step s c) cs (step-IsValid s c v)
