-- ===== src/Core/Fields.antt =====
-- qevion/core/field_store.py: the field store. `V` stands for the values of fields, Python's `Any`,
-- and `same` for its `==`; nothing is assumed of either.
pub mod Invariant
pub mod Readiness
pub mod Writes
use markting_call_center.Base.{
  ℕ, String, string_eq, Bool, true, false, not, ◌&&◌, ◌||◌, ltb, leb, if◌then◌else◌, Option, none,
  some, List, [], ◌∷◌, ◌++◌, map, Dict, get, has_key, put, values, select, contains, is_empty,
  Result, ok, raise, key_error, ◌>>=◌,
}
use markting_call_center.Contracts.Provenance.{Provenance, strength}

-- `FieldSpec`, as far as the store and the session read it.
pub record FieldSpec : Type 0 where
  pub name : String
  pub type : String
  pub provenance_required : Provenance

pub record FieldValue (V : Type 0) : Type 0 where
  pub name : String
  pub value : V
  pub provenance : Provenance
  pub confidence : ℕ  -- in thousandths
  pub turn_id : Option String
  pub tool_call_id : Option String
  pub corrected_from : Option V
  pub recorded_at_ms : Option ℕ

pub record FieldStore (V : Type 0) : Type 0 where
  pub specs : Dict String FieldSpec
  pub required_names : List String
  pub current : Dict String (FieldValue V)
  pub history : List (FieldValue V)

-- The keyword arguments of `record`.
pub record Stamp : Type 0 where
  pub turn_id : Option String
  pub tool_call_id : Option String
  pub ts_ms : Option ℕ
  pub confidence : ℕ

unfoldable pub is_unusable : Provenance → Bool
is_unusable Provenance.unknown = true
is_unusable Provenance.unverified = true
is_unusable _ = false

unfoldable pub satisfies : Provenance → Provenance → Bool
unfolding is_unusable
satisfies actual required =
    if is_unusable actual then false else leb (strength required) (strength actual)

specs_of : Dict String FieldSpec → List FieldSpec → Dict String FieldSpec
specs_of d [] = d
specs_of d (s ∷ ss) = specs_of (put d s.name s) ss

unfoldable pub from_specs : {V : Type 0} → List FieldSpec → List FieldSpec → FieldStore V
unfolding specs_of
from_specs required optional = record {
  specs = specs_of [] (required ++ optional);
  required_names = map (λ s. s.name) required;
  current = [];
  history = [];
}

abbrev pub is_verified : Provenance → Bool
is_verified Provenance.tool_verified = true
is_verified _ = false

abbrev is_derived : Provenance → Bool
is_derived Provenance.system_derived = true
is_derived _ = false

module _ {V : Type 0} where
  -- The end of `record`: the new value is stored and logged.
  store_value : FieldStore V → FieldValue V → FieldStore V
  store_value s fv = record s { current = put s.current fv.name fv; history = s.history ++ fv ∷ [] }

  make_value : String → V → Provenance → Stamp → Option V → FieldValue V
  make_value name value provenance stamp corrected_from = record {
    name = name;
    value = value;
    provenance = provenance;
    confidence = stamp.confidence;
    turn_id = stamp.turn_id;
    tool_call_id = stamp.tool_call_id;
    corrected_from = corrected_from;
    recorded_at_ms = stamp.ts_ms;
  }

module _ {V : Type 0} (same : V → V → Bool) where
  -- `record` of a known field, once the previous value has been read.
  record_over :
      FieldStore V
      → String
      → V
      → Provenance
      → Stamp
      → Option (FieldValue V)
      → FieldStore V × Result (FieldValue V)
  unfolding store_value make_value
  record_over s name value provenance stamp none =
      let fv = make_value name value provenance stamp none in (store_value s fv, ok fv)
  record_over s name value provenance stamp (some prev) =
      if same prev.value value
      then if ltb (strength provenance) (strength prev.provenance)
        then (s, ok prev)
        else (let fv = make_value name value provenance stamp none in (store_value s fv, ok fv))
      else (let fv = make_value name value provenance stamp (some prev.value) in
          (store_value s fv, ok fv))

  -- `FieldStore.record`
  unfoldable pub record_value :
      FieldStore V → String → V → Provenance → Stamp → FieldStore V × Result (FieldValue V)
  unfolding record_over
  record_value s name value provenance stamp =
      if has_key s.specs name
      then record_over s name value provenance stamp (get s.current name)
      else (s, raise (key_error name))

  -- `verify`, once the current value has been read; no value stands for `...`.
  verify_over :
      FieldStore V
      → String
      → String
      → Option ℕ
      → Option V
      → Option (FieldValue V)
      → FieldStore V × Result (FieldValue V)
  unfolding record_value
  verify_over s name call_id ts_ms none none = (s, raise (key_error name))
  verify_over s name call_id ts_ms (some v) cur =
      record_value s name v Provenance.tool_verified
        (record { turn_id = none; tool_call_id = some call_id; ts_ms = ts_ms; confidence = 1000 })
  verify_over s name call_id ts_ms none (some cur) =
      record_value s name cur.value Provenance.tool_verified
        (record { turn_id = none; tool_call_id = some call_id; ts_ms = ts_ms; confidence = 1000 })

  unfoldable pub verify :
      FieldStore V → String → String → Option ℕ → Option V → FieldStore V × Result (FieldValue V)
  unfolding verify_over
  verify s name call_id ts_ms value = verify_over s name call_id ts_ms value (get s.current name)

module _ {V : Type 0} where
  reject_over : FieldStore V → String → Option ℕ → Option (FieldValue V) → FieldStore V
  reject_over s name ts_ms none = s
  reject_over s name ts_ms (some cur) =
      let fv : FieldValue V = record cur {
        provenance = Provenance.unverified;
        recorded_at_ms = ts_ms;
      } in
      record s { current = put s.current name fv; history = s.history ++ fv ∷ [] }

  unfoldable pub reject : FieldStore V → String → Option ℕ → FieldStore V
  unfolding reject_over
  reject s name ts_ms = reject_over s name ts_ms (get s.current name)

  unfoldable pub recorded_names : FieldStore V → List String
  unfolding is_unusable
  recorded_names s = map (λ p. p.0) (select (λ p. not (is_unusable p.1.provenance)) s.current)

  unfoldable pub missing_required : FieldStore V → List String
  unfolding recorded_names
  missing_required s = select (λ n. not (contains (recorded_names s) n)) s.required_names

  -- `fv is None or not satisfies(fv.provenance, req)`
  abbrev pub lacks : Option (FieldValue V) → Provenance → Bool
  lacks none req = true
  lacks (some fv) req = not (satisfies fv.provenance req)

  abbrev had : Option (FieldValue V) → Option Provenance
  had none = none
  had (some fv) = some fv.provenance

  -- `self.specs[n].provenance_required`
  requirement : FieldStore V → String → Option FieldSpec → Result Provenance
  requirement s n none = raise (key_error n)
  requirement s n (some spec) = ok spec.provenance_required

  unsatisfied_among :
      FieldStore V → List String → Result (List (String × Provenance × Option Provenance))
  unfolding requirement
  unsatisfied_among s [] = ok []
  unsatisfied_among s (n ∷ ns) = do
    req ← requirement s n (get s.specs n)
    out ← unsatisfied_among s ns
    ok (if lacks (get s.current n) req then (n, req, had (get s.current n)) ∷ out else out)

  unfoldable pub unsatisfied_required :
      FieldStore V → Result (List (String × Provenance × Option Provenance))
  unfolding unsatisfied_among
  unsatisfied_required s = unsatisfied_among s s.required_names

  unfoldable pub ready_for_execution : FieldStore V → Result Bool
  unfolding unsatisfied_required
  ready_for_execution s = do out ← unsatisfied_required s; ok (is_empty out)

  unfoldable pub next_required : FieldStore V → Option String
  unfolding missing_required
  next_required s = elim (missing_required s) [ [] ↦ none | n ∷ ns ↦ some n ]

  unfoldable pub verified_names : FieldStore V → List String
  verified_names s = map (λ p. p.0) (select (λ p. is_verified p.1.provenance) s.current)

  unfoldable pub inferred_names : FieldStore V → List String
  inferred_names s = map (λ p. p.0) (select (λ p. is_derived p.1.provenance) s.current)

  unfoldable pub rejected_names : FieldStore V → List String
  unfolding is_unusable
  rejected_names s = map (λ p. p.0) (select (λ p. is_unusable p.1.provenance) s.current)
