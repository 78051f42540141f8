-- ===== src/Core/Focus/Recency.antt =====
-- The focus stack against an unbounded list of all entities mentioned.
use markting_call_center.Base.{
  ℕ, zero, suc, String, string_eq, Bool, true, false, ◌&&◌, leb, ltb, if◌then◌else◌, Option, none,
  List, [], ◌∷◌, take, select, length, get_elem?, All, All-select, select_holds, ◌≡◌, refl, ap,
  arith, Bool-cases, inl, inr, beq_cases, is_some, ◌∙◌,
}
use markting_call_center.Core.Focus.{
  FocusEntry, EntityFocusStack, differs, has_type, push, first_of_type, current, candidates, nth,
  is_ambiguous,
}

-- No entity stands in the list twice.
abbrev pub IsDistinct : List FocusEntry → Type 0
IsDistinct [] = Unit
IsDistinct (e ∷ es) = All (λ f. differs e.entity_id f ≡ true) es × IsDistinct es

-- The specification: every entity mentioned, the latest mention first, with no bound.
abbrev pub mention : List FocusEntry → FocusEntry → List FocusEntry
mention es e = e ∷ select (differs e.entity_id) es

abbrev pub mentions : List FocusEntry → List FocusEntry → List FocusEntry
mentions es [] = es
mentions es (e ∷ later) = mentions (mention es e) later

unfoldable pub push_all : EntityFocusStack → List FocusEntry → EntityFocusStack
push_all s [] = s
push_all s (e ∷ later) = push_all (push s e) later

select-All :
    (p : FocusEntry → Bool) (es : List FocusEntry) → All (λ f. p f ≡ true) es → select p es ≡ es
select-All p [] h = refl
select-All p (e ∷ es) h = rw h.0 (ap (λ r. e ∷ r) (select-All p es h.1))

IsDistinct-select :
    (p : FocusEntry → Bool) (es : List FocusEntry) → IsDistinct es → IsDistinct (select p es)
IsDistinct-select p [] h = tt
IsDistinct-select p (e ∷ es) h = elim (Bool-cases (p e)) [
  | inl t ↦
      rw t (All-select (λ f. differs e.entity_id f ≡ true) p es h.0, IsDistinct-select p es h.1)
  | inr f ↦ rw f (IsDistinct-select p es h.1)
]

mention-IsDistinct :
    (es : List FocusEntry) (e : FocusEntry) → IsDistinct es → IsDistinct (mention es e)
mention-IsDistinct es e h =
    (select_holds (differs e.entity_id) es, IsDistinct-select (differs e.entity_id) es h)

-- `differs` by a name equal to the head's keeps the rest of a distinct list.
differs-head :
    (x : String) (e : FocusEntry) (es : List FocusEntry)
    → differs x e ≡ false
    → All (λ f. differs e.entity_id f ≡ true) es
    → All (λ f. differs x f ≡ true) es
differs-head x e es f h = elim (beq_cases e.entity_id x) [
  | inl (t, p) ↦ rw p at h
  | inr (n, q) ↦ absurd (ground (arith, n, f))
]

All-take : (P : FocusEntry → Type 0) (n : ℕ) (es : List FocusEntry) → All P es → All P (take n es)
All-take P zero es h = tt
All-take P (suc n) [] h = tt
All-take P (suc n) (e ∷ es) h = (h.0, All-take P n es h.1)

take-take : (n : ℕ) (es : List FocusEntry) → take n (take n es) ≡ take n es
take-take zero es = refl
take-take (suc n) [] = refl
take-take (suc n) (e ∷ es) = ap (λ r. e ∷ r) (take-take n es)

-- Cutting before or after an entity is taken out comes to the same, one place further.
take-select :
    (n : ℕ) (x : String) (es : List FocusEntry)
    → IsDistinct es
    → take n (select (differs x) (take (suc n) es)) ≡ take n (select (differs x) es)
take-select zero x es h = refl
take-select (suc n) x [] h = refl
take-select (suc n) x (e ∷ es) h = elim (Bool-cases (differs x e)) [
  | inl t ↦ rw t (ap (λ r. e ∷ r) (take-select n x es h.1))
  | inr f ↦
      let same = differs-head x e es f h.0 in
      rw f (
        rw (select-All (differs x) es same) (
          rw
            (select-All (differs x) (take (suc n) es)
              (All-take (λ g. differs x g ≡ true) (suc n) es same))
            (take-take (suc n) es)))
]

push-mention :
    (s : EntityFocusStack) (es : List FocusEntry) (e : FocusEntry)
    → IsDistinct es
    → s.stack ≡ take s.max_depth es
    → (push s e).stack ≡ take s.max_depth (mention es e)
unfolding push
push-mention s es e h q = rw q (cut s.max_depth)
  where
    cut : (d : ℕ) → take d (e ∷ select (differs e.entity_id) (take d es)) ≡ take d (mention es e)
    cut zero = refl
    cut (suc n) = ap (λ r. e ∷ r) (take-select n e.entity_id es h)

push_all_from :
    (s : EntityFocusStack) (es later : List FocusEntry)
    → IsDistinct es
    → s.stack ≡ take s.max_depth es
    → ((push_all s later).stack ≡ take s.max_depth (mentions es later))
      × ((push_all s later).max_depth ≡ s.max_depth)
unfolding push_all push
push_all_from s es [] h q = (q, refl)
push_all_from s es (e ∷ later) h q =
    push_all_from (push s e) (mention es e) later (mention-IsDistinct es e h)
      (push-mention s es e h q)

-- Pushing onto an empty stack keeps exactly the `max_depth` entities mentioned last, the latest
-- first, each once and with its latest mention: cutting at every push loses nothing.
pub push_all-mentions :
    (max_depth : ℕ) (later : List FocusEntry)
    → (push_all (record { max_depth = max_depth; stack = [] }) later).stack
      ≡ take max_depth (mentions [] later)
push_all-mentions max_depth later =
    (push_all_from (record { max_depth = max_depth; stack = [] }) [] later tt (nothing max_depth)).0
  where
    nothing : (d : ℕ) → [] ≡ take {A = FocusEntry} d []
    nothing zero = refl
    nothing (suc d) = refl

first-get :
    (t : Option String) (es : List FocusEntry)
    → first_of_type t es ≡ get_elem? (select (has_type t) es) 0
unfolding first_of_type
first-get t [] = refl
first-get t (e ∷ es) = elim (Bool-cases (has_type t e)) [
  | inl p ↦ rw p
  | inr p ↦ rw p (first-get t es)
]

nth_first :
    (items : List FocusEntry)
    → get_elem? items 0 ≡ (if ltb 0 1 && leb 1 (length items) then get_elem? items 0 else none)
nth_first [] = refl
nth_first (e ∷ items) = ground arith

nth_second :
    (items : List FocusEntry)
    → leb 2 (length (take 2 items))
      ≡ is_some (if ltb 0 2 && leb 2 (length items) then get_elem? items 1 else none)
nth_second [] = refl
nth_second (e ∷ []) = refl
nth_second (e ∷ f ∷ items) = ground arith

-- `current` is the first entity that `nth` counts, and with the default window a reference is
-- ambiguous exactly if `nth` finds a second one.
pub current-nth :
    (s : EntityFocusStack) (t : Option String)
    → (current s t ≡ nth s 1 t) × (is_ambiguous s t 2 ≡ is_some (nth s 2 t))
unfolding current nth is_ambiguous candidates
current-nth s t = (
  first-get t s.stack ∙ nth_first (select (has_type t) s.stack),
  nth_second (select (has_type t) s.stack),
)
