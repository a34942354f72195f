-- ===== src/Lifecycle/Totals.antt =====
-- armatureanalytics/recorder.go: sums over goroutines, and the reservations that nobody has claimed.
use mcp_analytics_go.Prelude.{
  ℕ, zero, suc, ◌+◌, ◌≡◌, refl, ap, inl, inr, Bool, false, none, some, List, [], ◌∷◌, ◌++◌,
  if◌then◌else◌, Option-cases, arith,
}
use mcp_analytics_go.Lifecycle.{flag_at, set_flag, pick}

-- A sum over the goroutines.
unfoldable pub total : {A : Type 0} → (A → ℕ) → List A → ℕ
total f [] = 0
total f (t ∷ ts) = f t + total f ts

pub total-append :
    {A : Type 0} (f : A → ℕ) (ts us : List A) → total f (ts ++ us) ≡ total f ts + total f us
unfolding total
total-append f [] us = omega arith
total-append f (t ∷ ts) us = omega (arith, total-append f ts us)

pub total-snoc :
    {A : Type 0} (f : A → ℕ) (ts : List A) (t : A) → total f (ts ++ t ∷ []) ≡ total f ts + f t
unfolding total
total-snoc f [] t = omega arith
total-snoc f (u ∷ ts) t = omega (arith, total-snoc f ts t)

pub total-pick :
    {A : Type 0} (f : A → ℕ) (i : ℕ) (ts us : List A) (t : A)
    → pick i ts ≡ some (t, us)
    → total f ts ≡ f t + total f us
unfolding total pick
total-pick f i [] us t h = absurd (cc)
total-pick f zero (u ∷ us) us' t h =
    let both : (u ≡ t) × (us ≡ us') = (cc, cc) in rw (both.0, both.1) refl
total-pick f (suc i) (u ∷ ts) us t h = elim (Option-cases (pick i ts)) [
  | inl out ↦ let no_pick : none ≡ some (t, us) = rw out at h in absurd (cc)
  | inr ((v, vs), found) ↦
      let picked : some (v, u ∷ vs) ≡ some (t, us) = rw found at h in
      let first : v ≡ t = cc in
      let others : u ∷ vs ≡ us = cc in
      omega (arith, ap f first, ap (total f) others, total-pick f i ts vs v found)
]

-- The reservations that nobody has claimed.
unfoldable pub unclaimed : List Bool → ℕ
unclaimed [] = 0
unclaimed (b ∷ bs) = let rest = unclaimed bs in if b then rest else suc rest

pub unclaimed-snoc : (bs : List Bool) → unclaimed (bs ++ false ∷ []) ≡ suc (unclaimed bs)
unfolding unclaimed
unclaimed-snoc [] = refl
unclaimed-snoc (b ∷ bs) = ground (arith, unclaimed-snoc bs)

pub unclaimed-set_flag :
    (i : ℕ) (bs : List Bool)
    → flag_at i bs ≡ some false
    → unclaimed bs ≡ suc (unclaimed (set_flag i bs))
unfolding unclaimed flag_at set_flag
unclaimed-set_flag i [] h = absurd (cc)
unclaimed-set_flag zero (b ∷ bs) h = ground (arith, h)
unclaimed-set_flag (suc i) (b ∷ bs) h = ground (arith, unclaimed-set_flag i bs h)
