-- ===== src/Control/Preflight/Clear.antt =====
-- Findings none of which blocks.
use markting_call_center.Base.{
  string_eq, Bool, true, false, any, List, [], ◌∷◌, ◌++◌, All, All-map, ◌≡◌, refl, Bool-cases, inl,
  inr,
}
use markting_call_center.Contracts.Readiness.{PreflightReason}
use markting_call_center.Control.Preflight.Checks.{Findings, block_if, each}

-- No finding blocks.
unfoldable pub IsClear : Findings → Type 0
IsClear fs = any (λ x. x.is_blocking) fs ≡ false

pub IsClear-append : (us vs : Findings) → IsClear (us ++ vs) → IsClear us × IsClear vs
unfolding IsClear
IsClear-append [] vs h = (refl, h)
IsClear-append (u ∷ us) vs h = elim (Bool-cases u.is_blocking) [
  | inl t ↦ absurd (cc (rw t at h))
  | inr f ↦ let (first, second) = IsClear-append us vs (rw f at h) in (rw f first, second)
]

-- The first of the four parts of a check.
pub IsClear-first : (us vs ws zs : Findings) → IsClear (us ++ vs ++ ws ++ zs) → IsClear us
IsClear-first us vs ws zs h =
    (IsClear-append us vs
      (IsClear-append (us ++ vs) ws (IsClear-append (us ++ vs ++ ws) zs h).0).0).0

pub IsClear-each {ℓ} :
    {A : Type ℓ} (f : A → Findings) (xs : List A)
    → IsClear (each f xs)
    → All (λ x. IsClear (f x)) xs
unfolding IsClear
IsClear-each f [] h = tt
IsClear-each f (x ∷ xs) h =
    let (first, rest) = IsClear-append (f x) (each f xs) h in (first, IsClear-each f xs rest)

pub IsClear-block_if : (b : Bool) (r : PreflightReason) → IsClear (block_if b r) → b ≡ false
unfolding IsClear
IsClear-block_if true r h = absurd (cc h)
IsClear-block_if false r h = refl

-- Of a loop that blocks where a test holds.
pub IsClear-each_block {ℓ} :
    {A : Type ℓ} (p : A → Bool) (r : PreflightReason) (xs : List A)
    → IsClear (each (λ x. block_if (p x) r) xs)
    → All (λ x. p x ≡ false) xs
IsClear-each_block p r xs h = All-map (λ x. IsClear-block_if (p x) r) xs (IsClear-each _ xs h)
