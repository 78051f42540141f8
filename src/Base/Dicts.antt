-- ===== src/Base/Dicts.antt =====
-- Python dictionaries: association lists in insertion order, a write in place or at the end.
use mathlib.Core.Path.{◌≡◌, refl}
use mathlib.Core.Logic.{inl, inr}
use mathlib.Core.Bool.{Bool, true}
use mathlib.Core.Option.{Option, none, some}
use mathlib.Core.List.{List, [], ◌∷◌, map, Memᴰ}
use markting_call_center.Base.Tests.{
  Eq, ◌==◌, beq_cases, beq_false, if◌then◌else◌, is_some, Bool-cases,
}
use markting_call_center.Base.Lists.{All, All-mem, all, all_sound}

abbrev pub Dict {ℓ κ} : Type ℓ → Type κ → Type (ℓ ⊔ κ)
Dict K V = List (K × V)

module _ {ℓ κ} {K : Type ℓ} ⦃e : Eq K⦄ {V : Type κ} where
  -- `d.get(k)`
  abbrev pub get : Dict K V → K → Option V
  get [] k = none
  get ((j, v) ∷ d) k = let rest = get d k in if j == k then some v else rest

  -- `k in d`
  abbrev pub has_key : Dict K V → K → Bool
  has_key d k = is_some (get d k)

  -- `d[k] = v`
  abbrev pub put : Dict K V → K → V → Dict K V
  put [] k v = (k, v) ∷ []
  put ((j, w) ∷ d) k v = let rest = put d k v in if j == k then (j, v) ∷ d else (j, w) ∷ rest

  abbrev pub values : Dict K V → List V
  values d = map (λ p. p.1) d

  pub get-put :
      (d : Dict K V) (k j : K) (v : V) → get (put d k v) j ≡ (if k == j then some v else get d j)
  get-put [] k j v = refl
  get-put ((i, w) ∷ d) k j v = elim (beq_cases i k) [
    | inl (t, p) ↦ rw (t, p) (elim (Bool-cases (k == j)) [ inl s ↦ rw s | inr s ↦ rw s ])
    | inr (f, n) ↦ rw f (elim (beq_cases i j) [
      | inl (s, q) ↦ rw s (rw (beq_false k j (λ r. n (cc))) refl)
      | inr (s, m) ↦ rw s (get-put d k j v)
    ])
  ]

  pub get_mem : (d : Dict K V) (k : K) {v : V} → get d k ≡ some v → Memᴰ (k, v) d
  get_mem [] k h = cc
  get_mem ((j, w) ∷ d) k {v} h = elim (beq_cases j k) [
    | inl (t, p) ↦ Memᴰ.head (let some_eq : some w ≡ some v = (rw t at h) in cc)
    | inr (f, n) ↦ Memᴰ.tail (get_mem d k (rw f at h))
  ]

  -- A test that all entries pass holds of each lookup.
  pub all-get :
      (p : K × V → Bool) (d : Dict K V) (k : K) {v : V}
      → all p d ≡ true
      → get d k ≡ some v
      → p (k, v) ≡ true
  all-get p d k a h = All-mem (λ x. p x ≡ true) (all_sound p d a) (get_mem d k h)

  pub has_key-put :
      (d : Dict K V) (k j : K) (v : V)
      → has_key (put d k v) j ≡ (if k == j then true else has_key d j)
  has_key-put d k j v =
      rw (get-put d k j v) (elim (Bool-cases (k == j)) [ inl t ↦ rw t | inr f ↦ rw f ])

  -- A write keeps what holds of all entries, if it holds of the new one under the key.
  pub All-put {μ} :
      (P : K → V → Type μ) (d : Dict K V) (k : K) (v : V)
      → P k v
      → All (λ p. P p.0 p.1) d
      → All (λ p. P p.0 p.1) (put d k v)
  All-put P [] k v h a = (h, tt)
  All-put P ((j, w) ∷ d) k v h a = elim (beq_cases j k) [
    | inl (t, p) ↦ rw t (rw p h, a.1)
    | inr (f, n) ↦ rw f (a.0, All-put P d k v h a.1)
  ]

  pub get-All {μ} :
      (P : K → V → Type μ) (d : Dict K V) (k : K) {v : V}
      → All (λ p. P p.0 p.1) d
      → get d k ≡ some v
      → P k v
  get-All P d k a h = All-mem (λ p. P p.0 p.1) a (get_mem d k h)
