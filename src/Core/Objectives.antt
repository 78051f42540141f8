-- ===== src/Core/Objectives.antt =====
-- qevion/core/context.py, PendingObjectives: what the user raised, parked in priority order.
pub mod Order
use markting_call_center.Base.{
  ℕ, suc, ◌+◌, String, string_eq, Bool, true, false, not, ◌&&◌, ◌||◌, leb, ltb, ◌==◌, Eq, holds,
  holds_iff, if◌then◌else◌, Option, none, some, List, [], ◌∷◌, ◌++◌, select, length, any, nat_eq,
}

pub data ObjectiveKind : Type 0 where
  collect_field answer_question confirm execute_tool : ObjectiveKind
  resolve_ambiguity deliver_disclosure close : ObjectiveKind

pub ObjectiveKind-discrete : Discrete ObjectiveKind
ObjectiveKind-discrete = hlevel

unfoldable pub kind_beq : ObjectiveKind → ObjectiveKind → Bool
kind_beq a b = holds (ObjectiveKind-discrete a b)

pub record Objective : Type 0 where
  pub kind : ObjectiveKind
  pub ref : String
  pub priority : ℕ
  pub created_ms : ℕ
  pub attempts : ℕ
  pub note : Option String

pub record PendingObjectives : Type 0 where
  pub items : List Objective
  pub max_attempts : ℕ

-- `o.kind == kind and o.ref == ref`
unfoldable pub is_same : ObjectiveKind → String → Objective → Bool
unfolding kind_beq
is_same kind ref o = kind_beq o.kind kind && o.ref == ref

-- `a` comes before `b` by the key `(o.priority, o.created_ms)`, strictly.
unfoldable pub before : Objective → Objective → Bool
before a b =
    ltb a.priority b.priority || (a.priority == b.priority && ltb a.created_ms b.created_ms)

-- `list.sort` is stable: an element stays behind those that its key does not precede.
insert : Objective → List Objective → List Objective
unfolding before
insert a [] = a ∷ []
insert a (b ∷ bs) = let rest = insert a bs in if before b a then b ∷ rest else a ∷ (b ∷ bs)

sort : List Objective → List Objective
unfolding insert
sort [] = []
sort (a ∷ xs) = insert a (sort xs)

-- The loop of `add` over what is there already.
find : ObjectiveKind → String → List Objective → Option Objective
unfolding is_same
find kind ref [] = none
find kind ref (o ∷ os) = let rest = find kind ref os in if is_same kind ref o then some o else rest

-- `add`, once the loop has ended.
add_new : PendingObjectives → Objective → Option Objective → PendingObjectives × Objective
unfolding sort
add_new p obj (some o) = (p, o)
add_new p obj none = (record p { items = sort (p.items ++ obj ∷ []) }, obj)

unfoldable pub add :
    PendingObjectives
    → ObjectiveKind
    → String
    → ℕ
    → ℕ
    → Option String
    → PendingObjectives × Objective
unfolding add_new find
add p kind ref priority ts_ms note =
    let obj : Objective = record {
      kind = kind;
      ref = ref;
      priority = priority;
      created_ms = ts_ms;
      attempts = 0;
      note = note;
    } in
    add_new p obj (find kind ref p.items)

abbrev head? : List Objective → Option Objective
head? [] = none
head? (o ∷ os) = some o

unfoldable pub peek : PendingObjectives → Option Objective
peek p = head? p.items

-- `top.attempts += 1`: the object stands in the list, so the list shows the change.
attempt_top : List Objective → List Objective × Option Objective
attempt_top [] = ([], none)
attempt_top (o ∷ os) =
    let top : Objective = record o { attempts = o.attempts + 1 } in (top ∷ os, some top)

unfoldable pub attempt : PendingObjectives → PendingObjectives × Option Objective
unfolding attempt_top
attempt p = let (items, top) = attempt_top p.items in (record p { items = items }, top)

unfoldable pub exhausted : PendingObjectives → List Objective
exhausted p = select (λ o. leb p.max_attempts o.attempts) p.items

unfoldable pub complete : PendingObjectives → ObjectiveKind → String → PendingObjectives × Bool
unfolding is_same
complete p kind ref =
    let rest = select (λ o. not (is_same kind ref o)) p.items in
    (record p { items = rest }, not (length rest == length p.items))

-- `ref is None or o.ref == ref`
abbrev any_ref : Option String → Objective → Bool
any_ref none o = true
any_ref (some ref) o = o.ref == ref

unfoldable pub has : PendingObjectives → ObjectiveKind → Option String → Bool
unfolding kind_beq
has p kind ref = any (λ o. kind_beq o.kind kind && any_ref ref o) p.items
