-- ===== src/Core/Arguments.antt =====
-- qevion/core/tool_pipeline.py, validate_args: the checks of a tool call's arguments.
pub mod Laws
use markting_call_center.Base.{
  String, string_eq, Bool, true, false, not, ◌&&◌, ◌||◌, ◌==◌, if◌then◌else◌, Option, none, some,
  List, [], ◌∷◌, ◌++◌, Dict, get, has_key,
}
use markting_call_center.Contracts.Values.{Value, null, bool, int, float, str, list, dict}
use markting_call_center.Contracts.Tools.{
  Schema, ArgumentError, missing_argument, unexpected_argument, wrong_type,
}

-- The Python types that `types` names.
pub data PyType : Type 0 where
  py_str py_int py_number py_bool py_dict py_list : PyType

unfoldable pub types : Dict String PyType
types =
    ("string", py_str)
    ∷ ("integer", py_int)
    ∷ ("number", py_number)
    ∷ ("boolean", py_bool)
    ∷ ("object", py_dict)
    ∷ ("array", py_list)
    ∷ []

-- `isinstance(v, py)`, where a bool is an int too.
is_instance : Value → PyType → Bool
is_instance (str s) py_str = true
is_instance (int n) py_int = true
is_instance (bool b) py_int = true
is_instance (int n) py_number = true
is_instance (float x) py_number = true
is_instance (bool b) py_number = true
is_instance (bool b) py_bool = true
is_instance (dict d) py_dict = true
is_instance (list l) py_list = true
is_instance _ _ = false

is_bool : Value → Bool
is_bool (bool b) = true
is_bool _ = false

-- `t in ("integer", "number")`
is_numeric : String → Bool
is_numeric t = t == "integer" || t == "number"

-- `(py is not None and not isinstance(v, py)) or bad_bool`
mismatches : Value → String → Option PyType → Bool
unfolding is_instance is_bool is_numeric
mismatches v t none = is_numeric t && is_bool v
mismatches v t (some py) = not (is_instance v py) || is_numeric t && is_bool v

missing : Dict String Value → List String → List ArgumentError
missing args [] = []
missing args (r ∷ rs) =
    if has_key args r then missing args rs else missing_argument r ∷ missing args rs

-- One round of the loop over the arguments: `k not in props`, a property with no type, a typed one.
argument_errors : Schema → String → Value → Option (Option String) → List ArgumentError
unfolding mismatches types
argument_errors schema k v none = if schema.closed then unexpected_argument k ∷ [] else []
argument_errors schema k v (some none) = []
argument_errors schema k v (some (some t)) =
    if mismatches v t (get types t) then wrong_type k t ∷ [] else []

arguments_errors : Schema → Dict String Value → List ArgumentError
unfolding argument_errors
arguments_errors schema [] = []
arguments_errors schema ((k, v) ∷ args) =
    argument_errors schema k v (get schema.properties k) ++ arguments_errors schema args

unfoldable pub validate_args : Schema → Dict String Value → List ArgumentError
unfolding missing arguments_errors
validate_args schema args = missing args schema.required ++ arguments_errors schema args
