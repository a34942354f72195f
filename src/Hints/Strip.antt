-- ===== src/Hints/Strip.antt =====
-- armatureanalytics/tools.go: stripping the legacy hints ends, removes nothing but hints and leaves
-- none of them at the end.
use mcp_analytics_go.Prelude.{
  ℕ, zero, suc, ◌-◌, ◌<◌, ◌≡◌, refl, sym, ap, ◌∙◌, ◌⊎◌, inl, inr, true, false, Option, some, List,
  [], ◌∷◌, ◌++◌, Text, is_empty, text_eq, text_eq_iff, length, length-append, take, drop,
  take-append-drop, leb, lt→leb, if_cases, &&-eq-true, arith,
}
use mcp_analytics_go.Hints.{
  has_suffix, trim_suffix, trim_left_newlines, Pass, whole, stripped, unchanged, strip_pass,
  strip_loop,
}

abbrev pub Member : Text → List Text → Type 0
Member s [] = ⊥
Member s (x ∷ xs) = (x ≡ s) ⊎ Member s xs

-- From a description to what is left of it, one piece of SDK text at a time.
pub data Strips (suffixes : List Text) : Text → Text → Type 0 where
  done : (d : Text) → Strips suffixes d d
  all_of_it : (d s : Text) → Member s suffixes → d ≡ trim_left_newlines s → Strips suffixes d []
  one_suffix :
      (d e s r : Text) → Member s suffixes → d ≡ e ++ s → Strips suffixes e r → Strips suffixes d r

-- A suffix is not made of line feeds only.
abbrev pub AllVisible : List Text → Type 0
AllVisible [] = Unit
AllVisible (s ∷ suffixes) = (is_empty (trim_left_newlines s) ≡ false) × AllVisible suffixes

has_suffix-append : (d s : Text) → has_suffix d s ≡ true → d ≡ trim_suffix d s ++ s
unfolding has_suffix trim_suffix
has_suffix-append d s h =
    let (_, same) =
      &&-eq-true (leb (length s) (length d)) (text_eq (drop (length d - length s) d) s) h in
    let tail_is : drop (length d - length s) d ≡ s = (text_eq_iff _ s).0 same in
    sym (take-append-drop (length d - length s) d)
    ∙ ap (◌++◌ (take (length d - length s) d)) tail_is

-- What a pass has found, for each outcome.
abbrev Found : List Text → Text → Pass → Type 0
Found suffixes d whole = (s : Text) × Member s suffixes × (d ≡ trim_left_newlines s)
Found suffixes d (stripped e) = (s : Text) × Member s suffixes × (d ≡ e ++ s)
Found suffixes d unchanged = Unit

Found-cons :
    (x : Text) (suffixes : List Text) (d : Text) (p : Pass)
    → Found suffixes d p
    → Found (x ∷ suffixes) d p
Found-cons x suffixes d whole (s, m, e) = (s, inr m, e)
Found-cons x suffixes d (stripped _) (s, m, e) = (s, inr m, e)
Found-cons x suffixes d unchanged h = tt

strip_pass-Found : (suffixes : List Text) (d : Text) → Found suffixes d (strip_pass suffixes d)
unfolding strip_pass
strip_pass-Found [] d = tt
strip_pass-Found (x ∷ suffixes) d =
    if_cases (Found (x ∷ suffixes) d) (text_eq d (trim_left_newlines x))
      (λ h. (x, inl refl, (text_eq_iff d _).0 h))
      (λ _.
        if_cases (Found (x ∷ suffixes) d) (has_suffix d x)
          (λ h. (x, inl refl, has_suffix-append d x h))
          (λ _. Found-cons x suffixes d (strip_pass suffixes d) (strip_pass-Found suffixes d)))

-- A visible suffix has at least one byte.
visible_pos : (s : Text) → is_empty (trim_left_newlines s) ≡ false → 0 < length s
unfolding trim_left_newlines is_empty
visible_pos [] h = absurd (cc)
visible_pos (c ∷ s) h = omega arith

suffix_pos :
    (s : Text) (suffixes : List Text) → AllVisible suffixes → Member s suffixes → 0 < length s
suffix_pos s [] v m = absurd m
suffix_pos s (x ∷ xs) v (inl e) = rw (← e) (visible_pos x v.0)
suffix_pos s (x ∷ xs) v (inr m) = suffix_pos s xs v.1 m

text_eq-nil : (t : Text) → text_eq [] t ≡ is_empty t
unfolding text_eq is_empty
text_eq-nil [] = refl
text_eq-nil (c ∷ t) = refl

-- No hint is left on an empty description.
strip_pass-nil : (suffixes : List Text) → AllVisible suffixes → strip_pass suffixes [] ≡ unchanged
unfolding strip_pass has_suffix
strip_pass-nil [] v = refl
strip_pass-nil (x ∷ xs) v =
    rw (text_eq-nil, v.0, lt→leb (length x) 0 (visible_pos x v.0)) (strip_pass-nil xs v.1)

-- The loop returns with a result that is stripped and has no hint left.
abbrev Returns : List Text → Text → Option Text → Type 0
Returns suffixes d result =
    (r : Text) × (result ≡ some r) × Strips suffixes d r × (strip_pass suffixes r ≡ unchanged)

one_round :
    (suffixes : List Text) (fuel : ℕ) (d : Text) (p : Pass)
    → AllVisible suffixes
    → strip_pass suffixes d ≡ p
    → Found suffixes d p
    → ((e : Text) → length e < length d → Returns suffixes e (strip_loop suffixes fuel e))
    → Returns suffixes d (strip_loop suffixes (suc fuel) d)
unfolding strip_loop
one_round suffixes fuel d whole v e (s, m, eq) again =
    ([], rw (e, strip_loop), all_of_it d s m eq, strip_pass-nil suffixes v)
one_round suffixes fuel d (stripped x) v e (s, m, eq) again =
    let shorter : length x < length d =
      omega (arith, suffix_pos s suffixes v m, ap length eq, length-append x s) in
    let (r, returns, strips, final) = again x shorter in
    (r, rw (e, strip_loop) returns, one_suffix d x s r m eq strips, final)
one_round suffixes fuel d unchanged v e f again = (d, rw (e, strip_loop), done d, e)

-- With more fuel than the description has bytes the loop ends. What it returns is the description
-- less one known suffix after the other, or nothing where what is left is a suffix less its
-- leading line feeds, and another pass over the result would find nothing.
pub strip_loop-Strips :
    (suffixes : List Text) (fuel : ℕ) (d : Text)
    → AllVisible suffixes
    → length d < fuel
    → (r : Text) × (strip_loop suffixes fuel d ≡ some r)
      × Strips suffixes d r
      × (strip_pass suffixes r ≡ unchanged)
strip_loop-Strips suffixes zero d v h = absurd (omega arith)
strip_loop-Strips suffixes (suc fuel) d v h =
    one_round suffixes fuel d (strip_pass suffixes d) v refl (strip_pass-Found suffixes d)
      (λ e shorter. strip_loop-Strips suffixes fuel e v (omega arith))

-- With enough fuel for the first run, stripping what has been stripped changes nothing.
pub strip_loop_idem :
    (suffixes : List Text) (fuel fuel' : ℕ) (d r : Text)
    → AllVisible suffixes
    → length d < fuel
    → strip_loop suffixes fuel d ≡ some r
    → strip_loop suffixes (suc fuel') r ≡ some r
unfolding strip_loop
strip_loop_idem suffixes fuel fuel' d r v enough e =
    let (r', e', strips, final) = strip_loop-Strips suffixes fuel d v enough in
    let same : r' ≡ r = cc in rw (rw same at final, strip_loop)
