-- ===== src/Core/Focus.antt =====
-- qevion/core/context.py, EntityFocusStack: the entities mentioned last, the latest first.
pub mod Recency
use markting_call_center.Base.{
  ℕ, ◌-◌, String, string_eq, Bool, true, false, not, ◌&&◌, leb, ltb, ◌==◌, if◌then◌else◌, Option,
  none, some, List, [], ◌∷◌, take, select, length, get_elem?,
}

pub record FocusEntry : Type 0 where
  pub entity_id : String
  pub entity_type : String
  pub ts_ms : ℕ
  pub source : String
  pub label : Option String

pub record EntityFocusStack : Type 0 where
  pub max_depth : ℕ
  pub stack : List FocusEntry

-- `e.entity_id != entity_id`
abbrev pub differs : String → FocusEntry → Bool
differs entity_id e = not (e.entity_id == entity_id)

-- `entity_type is None or e.entity_type == entity_type`
abbrev pub has_type : Option String → FocusEntry → Bool
has_type none e = true
has_type (some t) e = e.entity_type == t

unfoldable pub push : EntityFocusStack → FocusEntry → EntityFocusStack
push s entry = record s {
  stack = take s.max_depth (entry ∷ select (differs entry.entity_id) s.stack);
}

-- The loop of `current`.
first_of_type : Option String → List FocusEntry → Option FocusEntry
first_of_type t [] = none
first_of_type t (e ∷ es) = let rest = first_of_type t es in if has_type t e then some e else rest

unfoldable pub current : EntityFocusStack → Option String → Option FocusEntry
unfolding first_of_type
current s t = first_of_type t s.stack

unfoldable pub candidates : EntityFocusStack → Option String → List FocusEntry
candidates s t = select (has_type t) s.stack

unfoldable pub nth : EntityFocusStack → ℕ → Option String → Option FocusEntry
nth s n t =
    let items = select (has_type t) s.stack in
    if ltb 0 n && leb n (length items) then get_elem? items (n - 1) else none

unfoldable pub is_ambiguous : EntityFocusStack → Option String → ℕ → Bool
unfolding candidates
is_ambiguous s t window = leb 2 (length (take window (candidates s t)))

unfoldable pub clear : EntityFocusStack → EntityFocusStack
clear s = record s { stack = [] }
