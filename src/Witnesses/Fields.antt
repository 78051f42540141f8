-- ===== src/Witnesses/Fields.antt =====
-- The field store at concrete inputs: texts as values, compared by `==`.
use markting_call_center.Base.{
  String, List, [], ◌∷◌, none, some, ◌≡◌, ◌≢◌, refl, ◌↔◌, Memᴰ, false, true, Bool, All, ok, get,
  string_eq, ◌==◌, ◌≤◌,
}
use markting_call_center.Contracts.Provenance.{Provenance, strength}
use markting_call_center.Core.Fields.{
  FieldSpec, FieldValue, FieldStore, Stamp, from_specs, record_value, verify, reject, satisfies,
  ready_for_execution,
}
use markting_call_center.Core.Fields.Invariant.{IsValid, from_specs-IsValid, Call, run, run-IsValid}
use markting_call_center.Core.Fields.Writes.{
  Extends, run-Extends, record_value-strength, IsVerified, verify-satisfies,
}
use markting_call_center.Core.Fields.Readiness.{IsMet, ready-IsMet, reject_blocks}

abbrev phone : FieldSpec
phone = record { name = "phone"; type = "string"; provenance_required = Provenance.tool_verified }

abbrev city : FieldSpec
city = record { name = "city"; type = "string"; provenance_required = Provenance.user_stated }

abbrev heard : Stamp
heard = record { turn_id = some "t1"; tool_call_id = none; ts_ms = some 40; confidence = 900 }

abbrev text_eq : String → String → Bool
text_eq a b = a == b

empty_store : FieldStore String
empty_store = from_specs (phone ∷ []) (city ∷ [])

empty-IsValid : IsValid empty_store
unfolding empty_store
empty-IsValid = from_specs-IsValid (phone ∷ []) (city ∷ [])

abbrev calls : List (Call String)
calls =
    Call.recording "phone" "0100" Provenance.user_stated heard
    ∷ Call.verifying "phone" "c1" (some 60) (some "+20100")
    ∷ Call.recording "shoe" "44" Provenance.user_stated heard
    ∷ []

stored : FieldStore String
unfolding run
stored = run text_eq empty_store calls

stored-IsValid : IsValid stored
unfolding stored
stored-IsValid = run-IsValid text_eq empty_store calls empty-IsValid

stored_value : (fv : FieldValue String) × (get stored.current "phone" ≡ some fv)
unfolding stored empty_store from_specs record_value verify strength
stored_value = (_, refl)

ready_now : ready_for_execution stored ≡ ok true
unfolding stored empty_store from_specs record_value verify strength ready_for_execution satisfies
ready_now = refl

not_ready_at_first : ready_for_execution empty_store ≡ ok false
unfolding empty_store from_specs ready_for_execution satisfies
not_ready_at_first = refl

run-IsValid_example : IsValid (run text_eq empty_store calls)
run-IsValid_example = run-IsValid text_eq empty_store calls empty-IsValid

run-Extends_example : Extends empty_store (run text_eq empty_store calls)
run-Extends_example = run-Extends text_eq empty_store calls

record_value-strength_example :
    let s' = (record_value text_eq stored "phone" "+20100" Provenance.user_stated heard).0 in
    (fv : FieldValue String) × (get s'.current "phone" ≡ some fv)
    × (strength stored_value.0.provenance ≤ strength fv.provenance)
    × (strength Provenance.user_stated ≤ strength fv.provenance)
    × ((other : String) → "phone" ≢ other → get s'.current other ≡ get stored.current other)
unfolding stored empty_store from_specs record_value verify strength stored_value
record_value-strength_example =
    record_value-strength text_eq stored "phone" "+20100" Provenance.user_stated heard
      {prev = stored_value.0} refl stored_value.1 refl

verify-satisfies_example :
    (fv : FieldValue String) × (get (verify text_eq stored "phone" "c2" none none).0.current "phone"
      ≡ some fv)
    × IsVerified "c2" stored_value.0.value fv
    × (satisfies fv.provenance Provenance.tool_verified ≡ true)
verify-satisfies_example =
    verify-satisfies text_eq stored "phone" "c2" none none {cur = stored_value.0}
      Provenance.tool_verified stored-IsValid stored_value.1

ready-IsMet_example :
    (b : Bool) × (ready_for_execution stored ≡ ok b)
    × ((b ≡ true) ↔ All (IsMet stored) stored.required_names)
ready-IsMet_example = ready-IsMet stored stored-IsValid

reject_blocks_example : ready_for_execution (reject stored "phone" none) ≡ ok false
unfolding stored empty_store from_specs record_value verify strength
reject_blocks_example =
    reject_blocks stored "phone" none {cur = stored_value.0} stored-IsValid (Memᴰ.head refl)
      stored_value.1
