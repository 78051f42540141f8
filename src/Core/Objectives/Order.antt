-- ===== src/Core/Objectives/Order.antt =====
-- The order and the uniqueness of the pending objectives.
use markting_call_center.Base.{
  ℕ, ◌≤◌, ◌<◌, String, string_eq, nat_eq, Bool, true, false, not, ◌||◌, ◌==◌, Option, none, some,
  List, [], ◌∷◌, ◌++◌, select, length, any, All, All-append, All-select, All-map, ◌≡◌, ◌≢◌, ◌↔◌,
  ◌⊎◌, refl, sym, ◌∙◌, ap, arith, Bool-cases, inl, inr, eq_iff, holds_iff, and_true,
}
use markting_call_center.Core.Objectives.{
  ObjectiveKind, ObjectiveKind-discrete, kind_beq, Objective, PendingObjectives, is_same, before,
  insert, sort, find, add_new, add, head?, peek, attempt_top, attempt, complete, has,
}

-- A smaller priority, or the same priority and no later creation.
abbrev pub Precedes : Objective → Objective → Type 0
Precedes a b = (a.priority < b.priority) ⊎ (a.priority ≡ b.priority) × (a.created_ms ≤ b.created_ms)

-- Each objective precedes those behind it.
abbrev pub IsSorted : List Objective → Type 0
IsSorted [] = Unit
IsSorted (a ∷ xs) = All (Precedes a) xs × IsSorted xs

-- No two objectives of one kind and reference.
abbrev pub IsUnique : List Objective → Type 0
IsUnique [] = Unit
IsUnique (a ∷ xs) = All (λ b. is_same a.kind a.ref b ≡ false) xs × IsUnique xs

before-Precedes : (a b : Objective) → before b a ≡ true → Precedes b a
unfolding before
before-Precedes a b h = ground arith

not_before-Precedes : (a b : Objective) → before b a ≡ false → Precedes a b
unfolding before
not_before-Precedes a b h = ground arith

Precedes-trans : (a b c : Objective) → Precedes a b → Precedes b c → Precedes a c
Precedes-trans a b c h k = ground arith

is_same_iff :
    (kind : ObjectiveKind) (ref : String) (o : Objective)
    → (is_same kind ref o ≡ true) ↔ ((o.kind ≡ kind) × (o.ref ≡ ref))
unfolding is_same
is_same_iff kind ref o = (
  λ t.
      let (k, r) = and_true (kind_beq o.kind kind) (o.ref == ref) t in
      ((holds_iff (ObjectiveKind-discrete o.kind kind)).0 k, (eq_iff o.ref ref).0 r),
  λ (k, r). rw ((holds_iff (ObjectiveKind-discrete o.kind kind)).1 k, (eq_iff o.ref ref).1 r),
)

is_same_symm : (a b : Objective) → is_same a.kind a.ref b ≡ false → is_same b.kind b.ref a ≡ false
is_same_symm a b h = elim (Bool-cases (is_same b.kind b.ref a)) [
  | inl t ↦
      let (k, r) = (is_same_iff b.kind b.ref a).0 t in
      let back : is_same a.kind a.ref b ≡ true = (is_same_iff a.kind a.ref b).1 (sym k, sym r) in cc
  | inr f ↦ f
]

All-insert :
    (P : Objective → Type 0) (a : Objective) (xs : List Objective)
    → P a
    → All P xs
    → All P (insert a xs)
unfolding insert
All-insert P a [] h k = (h, tt)
All-insert P a (b ∷ bs) h k = elim (Bool-cases (before b a)) [
  | inl t ↦ rw t (k.0, All-insert P a bs h k.1)
  | inr f ↦ rw f (h, k)
]

All-sort : (P : Objective → Type 0) (xs : List Objective) → All P xs → All P (sort xs)
unfolding sort
All-sort P [] h = tt
All-sort P (a ∷ xs) h = All-insert P a (sort xs) h.0 (All-sort P xs h.1)

insert-IsSorted : (a : Objective) (xs : List Objective) → IsSorted xs → IsSorted (insert a xs)
unfolding insert
insert-IsSorted a [] h = (tt, tt)
insert-IsSorted a (b ∷ bs) h = elim (Bool-cases (before b a)) [
  | inl t ↦
      rw t (All-insert (Precedes b) a bs (before-Precedes a b t) h.0, insert-IsSorted a bs h.1)
  | inr f ↦
      let p = not_before-Precedes a b f in
      rw f ((p, All-map (λ c k. Precedes-trans a b c p k) bs h.0), h)
]

sort-IsSorted : (xs : List Objective) → IsSorted (sort xs)
unfolding sort
sort-IsSorted [] = tt
sort-IsSorted (a ∷ xs) = insert-IsSorted a (sort xs) (sort-IsSorted xs)

insert-IsUnique :
    (a : Objective) (xs : List Objective)
    → All (λ b. is_same a.kind a.ref b ≡ false) xs
    → IsUnique xs
    → IsUnique (insert a xs)
unfolding insert
insert-IsUnique a [] h u = (tt, tt)
insert-IsUnique a (b ∷ bs) h u = elim (Bool-cases (before b a)) [
  | inl t ↦ rw t (
    All-insert (λ c. is_same b.kind b.ref c ≡ false) a bs (is_same_symm a b h.0) u.0,
    insert-IsUnique a bs h.1 u.1,
  )
  | inr f ↦ rw f (h, u)
]

sort-IsUnique : (xs : List Objective) → IsUnique xs → IsUnique (sort xs)
unfolding sort
sort-IsUnique [] u = tt
sort-IsUnique (a ∷ xs) u =
    insert-IsUnique a (sort xs) (All-sort (λ b. is_same a.kind a.ref b ≡ false) xs u.0)
      (sort-IsUnique xs u.1)

abbrev pub IsOrdered : PendingObjectives → Type 0
IsOrdered p = IsSorted p.items × IsUnique p.items

IsUnique-append :
    (xs : List Objective) (o : Objective)
    → All (λ b. is_same o.kind o.ref b ≡ false) xs
    → IsUnique xs
    → IsUnique (xs ++ o ∷ [])
IsUnique-append [] o h u = (tt, tt)
IsUnique-append (x ∷ xs) o h u = (
  All-append (λ b. is_same x.kind x.ref b ≡ false) xs (o ∷ []) u.0 (is_same_symm o x h.0, tt),
  IsUnique-append xs o h.1 u.1,
)

find-none :
    (kind : ObjectiveKind) (ref : String) (xs : List Objective)
    → find kind ref xs ≡ none
    → All (λ b. is_same kind ref b ≡ false) xs
unfolding find
find-none kind ref [] h = tt
find-none kind ref (o ∷ os) h = elim (Bool-cases (is_same kind ref o)) [
  | inl t ↦ absurd (cc (rw t at h))
  | inr f ↦ (f, find-none kind ref os (rw f at h))
]

add_new-IsOrdered :
    (p : PendingObjectives) (obj : Objective) (o : Option Objective)
    → find obj.kind obj.ref p.items ≡ o
    → IsOrdered p
    → IsOrdered (add_new p obj o).0
unfolding add_new
add_new-IsOrdered p obj (some o) e h = h
add_new-IsOrdered p obj none e h = (
  sort-IsSorted (p.items ++ obj ∷ []),
  sort-IsUnique (p.items ++ obj ∷ [])
      (IsUnique-append p.items obj (find-none obj.kind obj.ref p.items e) h.1),
)

add-IsOrdered :
    (p : PendingObjectives) (kind : ObjectiveKind) (ref : String) (priority ts_ms : ℕ)
    (text : Option String)
    → IsOrdered p
    → IsOrdered (add p kind ref priority ts_ms text).0
unfolding add
add-IsOrdered p kind ref priority ts_ms text h =
    add_new-IsOrdered p _ (find kind ref p.items) refl h

attempt_top-IsOrdered :
    (xs : List Objective)
    → IsSorted xs × IsUnique xs
    → let ys = (attempt_top xs).0 in IsSorted ys × IsUnique ys
unfolding attempt_top is_same
attempt_top-IsOrdered [] h = h
attempt_top-IsOrdered (o ∷ os) h = h

select-IsSorted :
    (q : Objective → Bool) (xs : List Objective) → IsSorted xs → IsSorted (select q xs)
select-IsSorted q [] h = tt
select-IsSorted q (a ∷ xs) h = elim (Bool-cases (q a)) [
  | inl t ↦ rw t (All-select (Precedes a) q xs h.0, select-IsSorted q xs h.1)
  | inr f ↦ rw f (select-IsSorted q xs h.1)
]

select-IsUnique :
    (q : Objective → Bool) (xs : List Objective) → IsUnique xs → IsUnique (select q xs)
select-IsUnique q [] h = tt
select-IsUnique q (a ∷ xs) h = elim (Bool-cases (q a)) [
  | inl t ↦
      rw t (All-select (λ b. is_same a.kind a.ref b ≡ false) q xs h.0, select-IsUnique q xs h.1)
  | inr f ↦ rw f (select-IsUnique q xs h.1)
]

-- A call of one of the methods that change the objectives.
pub data Call : Type 0 where
  adding : ObjectiveKind → String → (priority ts_ms : ℕ) → Option String → Call
  attempting : Call
  completing : ObjectiveKind → String → Call

unfoldable pub step : PendingObjectives → Call → PendingObjectives
step p (adding kind ref priority ts_ms note) = (add p kind ref priority ts_ms note).0
step p attempting = (attempt p).0
step p (completing kind ref) = (complete p kind ref).0

unfoldable pub run : PendingObjectives → List Call → PendingObjectives
run p [] = p
run p (c ∷ cs) = run (step p c) cs

step-IsOrdered : (p : PendingObjectives) (c : Call) → IsOrdered p → IsOrdered (step p c)
unfolding step attempt complete
step-IsOrdered p (adding kind ref priority ts_ms text) h =
    add-IsOrdered p kind ref priority ts_ms text h
step-IsOrdered p attempting h = attempt_top-IsOrdered p.items h
step-IsOrdered p (completing kind ref) h =
    (select-IsSorted _ p.items h.0, select-IsUnique _ p.items h.1)

-- Every sequence of calls keeps the objectives sorted, the smallest priority first and of one priority
-- the oldest first, with no kind and reference twice.
pub run-IsOrdered : (p : PendingObjectives) (cs : List Call) → IsOrdered p → IsOrdered (run p cs)
unfolding run
run-IsOrdered p [] h = h
run-IsOrdered p (c ∷ cs) h = run-IsOrdered (step p c) cs (step-IsOrdered p c h)

any-select :
    (q r : Objective → Bool) (xs : List Objective)
    → ((o : Objective) → q o ≡ true → r o ≡ true)
    → any q (select r xs) ≡ any q xs
any-select q r [] h = refl
any-select q r (a ∷ xs) h = elim (Bool-cases (r a)) [
  | inl t ↦ rw t (ap (λ b. q a || b) (any-select q r xs h))
  | inr f ↦ elim (Bool-cases (q a)) [
    | inl t ↦ absurd (cc (h a t))
    | inr n ↦ rw (f, n) (any-select q r xs h)
  ]
]

any-select-not :
    (q : Objective → Bool) (xs : List Objective) → any q (select (λ o. not (q o)) xs) ≡ false
any-select-not q [] = refl
any-select-not q (a ∷ xs) = elim (Bool-cases (q a)) [
  | inl t ↦ rw t (any-select-not q xs)
  | inr f ↦ rw f (rw f (any-select-not q xs))
]

length-select-not :
    (q : Objective → Bool) (xs : List Objective)
    → (length (select (λ o. not (q o)) xs) ≤ length xs)
      × (not (length (select (λ o. not (q o)) xs) == length xs) ≡ any q xs)
length-select-not q [] = (omega arith, refl)
length-select-not q (a ∷ xs) =
    let (shorter, same) = length-select-not q xs in
    elim (Bool-cases (q a)) [
      | inl t ↦ rw t (omega (arith, shorter), ground (arith, shorter))
      | inr f ↦ rw f (omega (arith, shorter), ground (arith, same))
    ]

other_objective :
    (kind k : ObjectiveKind) (ref r : String)
    → (k ≢ kind) ⊎ (r ≢ ref)
    → (o : Objective) → is_same k r o ≡ true
    → not (is_same kind ref o) ≡ true
other_objective kind k ref r other o h = elim (Bool-cases (is_same kind ref o)) [
  | inl t ↦
      let (k', r') = (is_same_iff k r o).0 h in
      let (kind', ref') = (is_same_iff kind ref o).0 t in
      absurd (elim other [ inl n ↦ n (sym k' ∙ kind') | inr n ↦ n (sym r' ∙ ref') ])
  | inr f ↦ rw f
]

-- `complete` reports whether the objective was there, and then it is gone while every objective of
-- another kind or reference is still there if it was.
pub complete-has :
    (p : PendingObjectives) (kind : ObjectiveKind) (ref : String)
    → ((complete p kind ref).1 ≡ has p kind (some ref))
      × (has (complete p kind ref).0 kind (some ref) ≡ false)
      × ((k : ObjectiveKind) (r : String)
          → (k ≢ kind) ⊎ (r ≢ ref)
          → has (complete p kind ref).0 k (some r) ≡ has p k (some r))
unfolding complete has is_same
complete-has p kind ref = (
  (length-select-not (is_same kind ref) p.items).1,
  any-select-not (is_same kind ref) p.items,
  λ k r other.
      any-select (is_same k r) (λ o. not (is_same kind ref o)) p.items
        (other_objective kind k ref r other),
)

attempt_top-count :
    (xs : List Objective)
    → (length (attempt_top xs).0 ≡ length xs) × ((attempt_top xs).1 ≡ head? (attempt_top xs).0)
unfolding attempt_top
attempt_top-count [] = (refl, refl)
attempt_top-count (o ∷ os) = (refl, refl)

-- `attempt` drops nothing: as many objectives stay, and the one it returns is still the first, also
-- when its attempts are exhausted.
pub attempt-keeps :
    (p : PendingObjectives)
    → (length (attempt p).0.items ≡ length p.items) × ((attempt p).1 ≡ peek (attempt p).0)
unfolding attempt peek
attempt-keeps p = attempt_top-count p.items
