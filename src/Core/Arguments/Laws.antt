-- ===== src/Core/Arguments/Laws.antt =====
-- What `validate_args` accepts.
use mathlib.Core.Path.{subst}
use mathlib.Core.Option.{some-injective}
use markting_call_center.Base.{
  String, string_eq, Bool, true, false, not, ◌&&◌, ◌||◌, if◌then◌else◌, none, some, get, ◌≡◌, ◌↔◌,
  refl, arith, all-get, append-eq-nil, beq_cases, Bool-cases, inl, inr, has_key, All, List, [], ◌∷◌,
  Dict, Option,
}
use markting_call_center.Contracts.Values.{Value, bool, int, float, str, list, dict}
use markting_call_center.Contracts.Tools.{Schema}
use markting_call_center.Core.Arguments.{
  PyType, py_str, py_int, py_number, py_bool, py_dict, py_list, types, is_instance, is_bool,
  is_numeric, argument_errors, missing, validate_args, mismatches, arguments_errors,
}

-- The values of a JSON type: a Boolean is no number.
abbrev pub HasType : PyType → Value → Type 0
HasType py_str (str s) = Unit {0}
HasType py_int (int n) = Unit {0}
HasType py_number (int n) = Unit {0}
HasType py_number (float x) = Unit {0}
HasType py_bool (bool b) = Unit {0}
HasType py_dict (dict d) = Unit {0}
HasType py_list (list l) = Unit {0}
HasType _ _ = ⊥

-- An argument that the schema takes: one of a type that the schema names, or of none, or one that it
-- does not list, if it is open.
abbrev pub IsAccepted : Schema → String → Value → Type 0
IsAccepted schema k v =
    (get schema.properties k ≡ none → schema.closed ≡ false)
    × ((t : String) (p : PyType)
        → get schema.properties k ≡ some (some t)
        → get types t ≡ some p
        → HasType p v)

numeric_type : PyType → Bool
numeric_type py_int = true
numeric_type py_number = true
numeric_type _ = false

agrees : String × PyType → Bool
unfolding numeric_type is_numeric
agrees (t, p) = if numeric_type p then is_numeric t else not (is_numeric t)

agrees-get : (t : String) (p : PyType) → get types t ≡ some p → agrees (t, p) ≡ true
unfolding agrees types
agrees-get t p h = all-get agrees types t refl h

-- A value against a type, with the test that keeps a Boolean from being a number.
fits :
    (v : Value) (p : PyType) (numeric : Bool)
    → (if numeric_type p then numeric else not numeric) ≡ true
    → (not (is_instance v p) || numeric && is_bool v ≡ false) ↔ HasType p v
unfolding numeric_type is_instance is_bool
fits (str s) py_str numeric h = ground arith
fits _ _ numeric h = ground arith

unknown-is_numeric : (t : String) → get types t ≡ none → is_numeric t ≡ false
unfolding is_numeric types
unknown-is_numeric t h = elim (beq_cases t "integer") [
  | inl (e, p) ↦ absurd (cc (rw p at h))
  | inr (e, n) ↦ elim (beq_cases t "number") [
    | inl (f, p) ↦ absurd (cc (rw p at h))
    | inr (f, m) ↦ rw (e, f)
  ]
]

mismatches-HasType :
    (v : Value) (t : String) (o : Option PyType)
    → get types t ≡ o
    → (mismatches v t o ≡ false) ↔ ((p : PyType) → o ≡ some p → HasType p v)
unfolding mismatches
mismatches-HasType v t none e = (λ h p q. cc, λ h. rw (unknown-is_numeric t e))
mismatches-HasType v t (some p) e =
    let fit = fits v p (is_numeric t) (unfold agrees in agrees-get t p e) in
    (
      λ h q same. subst (λ r. HasType r v) (some-injective p q same) (fit.0 h),
      λ h. fit.1 (h p refl),
    )

accepted_entry :
    (schema : Schema) (k : String) (v : Value) (o : Option (Option String))
    → get schema.properties k ≡ o
    → (argument_errors schema k v o ≡ []) ↔ (
        (o ≡ none → schema.closed ≡ false)
        × ((t : String) (p : PyType) → o ≡ some (some t) → get types t ≡ some p → HasType p v))
unfolding argument_errors
accepted_entry schema k v none e = elim (Bool-cases schema.closed) [
  | inl c ↦ rw c (λ h. cc, λ h. cc (h.0 refl))
  | inr o ↦ rw o (λ h. (λ _. refl, λ t p q. cc), λ h. refl)
]
accepted_entry schema k v (some none) e = (λ h. (λ q. cc, λ t p q. cc), λ h. refl)
accepted_entry schema k v (some (some t)) e =
    let typed = mismatches-HasType v t (get types t) refl in
    elim (Bool-cases (mismatches v t (get types t))) [
      | inl m ↦ rw m (λ h. cc, λ h. cc (typed.1 (λ p q. h.1 t p refl q)))
      | inr m ↦ rw m (
        λ h. (
          λ q. cc,
          λ u p same q.
              typed.0 m p (rw (some-injective t u (some-injective (some t) (some u) same)) q),
        ),
        λ h. refl,
      )
    ]

arguments_errors-nil :
    (schema : Schema) (args : Dict String Value)
    → (arguments_errors schema args ≡ []) ↔ All (λ a. IsAccepted schema a.0 a.1) args
unfolding arguments_errors
arguments_errors-nil schema [] = (λ h. tt, λ h. refl)
arguments_errors-nil schema ((k, v) ∷ args) =
    let entry = accepted_entry schema k v (get schema.properties k) refl in
    let rest = arguments_errors-nil schema args in
    (
      λ h.
          let (here, more) =
            append-eq-nil (argument_errors schema k v (get schema.properties k)) h in
          (entry.0 here, rest.0 more),
      λ h. rw (entry.1 h.0, rest.1 h.1),
    )

missing-nil :
    (args : Dict String Value) (rs : List String)
    → (missing args rs ≡ []) ↔ All (λ r. has_key args r ≡ true) rs
unfolding missing
missing-nil args [] = (λ h. tt, λ h. refl)
missing-nil args (r ∷ rs) = elim (Bool-cases (has_key args r)) [
  | inl t ↦ rw t ((λ h. (refl, (missing-nil args rs).0 h)), λ h. (missing-nil args rs).1 h.1)
  | inr f ↦ rw f (λ h. cc, λ h. cc h.0)
]

-- `validate_args` reports nothing exactly if every required argument is there and the schema takes
-- every argument.
pub validate_args-nil :
    (schema : Schema) (args : Dict String Value)
    → (validate_args schema args ≡ []) ↔ (
        All (λ r. has_key args r ≡ true) schema.required
        × All (λ a. IsAccepted schema a.0 a.1) args)
unfolding validate_args
validate_args-nil schema args =
    let required = missing-nil args schema.required in
    let accepted = arguments_errors-nil schema args in
    (
      λ h.
          let (none_missing, none_wrong) = append-eq-nil (missing args schema.required) h in
          (required.0 none_missing, accepted.0 none_wrong),
      λ h. rw (required.1 h.0, accepted.1 h.1),
    )
