-- ===== src/Session/Shape.antt =====
-- armatureanalytics/stateless_http.go: the shape of slugs and of UUIDs.
use mathlib.Core.List.{reverse, reverse-append}
use mcp_analytics_go.Prelude.{
  ℕ, suc, ◌≤◌, ◌≡◌, refl, ◌∙◌, Bool, true, false, not, ◌&&◌, [], ◌∷◌, ◌++◌, Text, is_empty, length,
  length-append, all, all-append, ltb, leb, &&-eq-true, if_cases, arith,
}
use mcp_analytics_go.Session.{
  is_slug_char, is_dash, trim_left_dashes, trim_dashes, slug_step, slug_loop, or_fallback,
  slug_session_part, trim_space,
}

reverse-cons : (c : ℕ) (s : Text) → reverse (c ∷ s) ≡ reverse s ++ c ∷ []
reverse-cons c s = reverse-append (c ∷ []) s

all-reverse : (p : ℕ → Bool) (s : Text) → all p (reverse s) ≡ all p s
unfolding all
all-reverse p [] = refl
all-reverse p (c ∷ s) =
    rw (reverse-cons c s, all-append p (reverse s) (c ∷ []), all-reverse p s)
      (unfold all in ground arith)

length-reverse : (s : Text) → length (reverse s) ≡ length s
length-reverse [] = refl
length-reverse (c ∷ s) =
    rw (reverse-cons c s) (omega (arith, length-append (reverse s) (c ∷ []), length-reverse s))

-- Slug characters only, and no more of them than the bound.
abbrev pub IsSlug : ℕ → Text → Type 0
IsSlug n s = (all is_slug_char s ≡ true) × (length s ≤ n)

trim_left_dashes-IsSlug : (n : ℕ) (s : Text) → IsSlug n s → IsSlug n (trim_left_dashes s)
unfolding trim_left_dashes all
trim_left_dashes-IsSlug n [] h = h
trim_left_dashes-IsSlug n (c ∷ s) h =
    if_cases (IsSlug n) (is_dash c)
      (λ _.
        trim_left_dashes-IsSlug n s
          ((&&-eq-true (is_slug_char c) (all is_slug_char s) h.0).1, omega arith))
      (λ _. h)

reverse-IsSlug : (n : ℕ) (s : Text) → IsSlug n s → IsSlug n (reverse s)
reverse-IsSlug n s h = (all-reverse is_slug_char s ∙ h.0, rw (length-reverse s) h.1)

trim_dashes-IsSlug : (n : ℕ) (s : Text) → IsSlug n s → IsSlug n (trim_dashes s)
unfolding trim_dashes
trim_dashes-IsSlug n s h =
    reverse-IsSlug n _
      (trim_left_dashes-IsSlug n _ (reverse-IsSlug n _ (trim_left_dashes-IsSlug n s h)))

snoc-IsSlug :
    (n c : ℕ) (out : Text) → is_slug_char c ≡ true → IsSlug n out → IsSlug (suc n) (out ++ c ∷ [])
unfolding all
snoc-IsSlug n c out h v = (
  rw (all-append is_slug_char out (c ∷ []), v.0) (unfold all in ground arith),
  omega (arith, length-append out (c ∷ [])),
)

slug_step-IsSlug :
    (n c : ℕ) (out : Text) (last_dash : Bool)
    → IsSlug n out
    → IsSlug (suc n) (slug_step c out last_dash).0
unfolding slug_step
slug_step-IsSlug n c out last_dash v =
    if_cases (λ (r : Text × Bool). IsSlug (suc n) r.0) (is_slug_char c)
      (λ h. snoc-IsSlug n c out h v)
      (λ _.
        if_cases (λ (r : Text × Bool). IsSlug (suc n) r.0) (ltb 0 (length out) && not last_dash)
          (λ _. snoc-IsSlug n b'-' out refl v) (λ _. (v.0, omega arith)))

slug_loop-IsSlug :
    (value out : Text) (last_dash : Bool)
    → IsSlug 47 out
    → IsSlug 48 (slug_loop value out last_dash)
unfolding slug_loop
slug_loop-IsSlug [] out last_dash v = (v.0, omega arith)
slug_loop-IsSlug (c ∷ value) out last_dash v =
    let step = slug_step-IsSlug 47 c out last_dash v in
    if_cases (IsSlug 48) (leb 48 (length (slug_step c out last_dash).0)) (λ _. step)
      (λ few. slug_loop-IsSlug value _ _ (step.0, ground arith))

-- A slug has letters, digits, dots and dashes only and at most 48 of them; it is the fallback if
-- nothing is left of the value.
pub slug_session_part-IsSlug :
    (value fallback : Text) → IsSlug 48 fallback → IsSlug 48 (slug_session_part value fallback)
unfolding slug_session_part or_fallback all
slug_session_part-IsSlug value fallback h =
    let slug =
      trim_dashes-IsSlug 48 _ (slug_loop-IsSlug (trim_space value) [] false (refl, omega arith)) in
    if_cases (IsSlug 48) (is_empty (trim_dashes (slug_loop (trim_space value) [] false))) (λ _. h)
      (λ _. slug)

-- A slug is not empty if its fallback is not.
pub slug_session_part-nonempty :
    (value fallback : Text)
    → is_empty fallback ≡ false
    → is_empty (slug_session_part value fallback) ≡ false
unfolding slug_session_part or_fallback
slug_session_part-nonempty value fallback h =
    if_cases (λ s. is_empty s ≡ false)
      (is_empty (trim_dashes (slug_loop (trim_space value) [] false))) (λ _. h) (λ e. e)
