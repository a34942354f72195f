-- ===== src/Truncate/Whole.antt =====
-- armatureanalytics/event.go: truncation keeps as many whole characters as fit.
use mathlib.Core.List.{flatten}
use mcp_analytics_go.Prelude.{
  ℕ, zero, suc, ◌+◌, ◌-◌, ◌≤◌, ◌<◌, ◌≡◌, refl, ap, ◌∙◌, sym, inl, inr, true, false, not, List, [],
  ◌∷◌, ◌++◌, append-nil, Text, length, take, all, length-append, ltb, leb, leb→le, leb→lt,
  &&-eq-true, Bool-cases, arith,
}
use mcp_analytics_go.Truncate.{is_utf8_rune_start, byte_at, walk_back, truncate_utf8}

-- Characters: a first byte that starts one, and bytes that start none.
abbrev pub IsCharacter : Text → Type 0
IsCharacter [] = ⊥
IsCharacter (c ∷ s) =
    (is_utf8_rune_start c ≡ true) × (all (λ b. not (is_utf8_rune_start b)) s ≡ true)

abbrev pub AllCharacters : List Text → Type 0
AllCharacters [] = Unit
AllCharacters (r ∷ rs) = IsCharacter r × AllCharacters rs

-- Nothing is left, or the first character that is left does not fit.
abbrev pub NoMoreFits : ℕ → ℕ → List Text → Type 0
NoMoreFits used max_bytes [] = Unit
NoMoreFits used max_bytes (r ∷ rs) = max_bytes < used + length r

-- The characters that are kept, and those that are cut.
pub record KeepsWhole (rs : List Text) (max_bytes : ℕ) (t : Text) : Type 0 where
  pub kept : List Text
  pub cut : List Text
  pub split : rs ≡ kept ++ cut
  pub keeps : t ≡ flatten kept
  pub fits : length t ≤ max_bytes
  pub no_more : NoMoreFits (length t) max_bytes cut

byte_at-append : (t s : Text) (k : ℕ) → byte_at (length t + k) (t ++ s) ≡ byte_at k s
unfolding byte_at
byte_at-append [] s k = let e : 0 + k ≡ k = omega arith in ap (λ n. byte_at n s) e
byte_at-append (c ∷ t) s k =
    let e : suc (length t) + k ≡ suc (length t + k) = omega arith in
    ap (λ n. byte_at n (c ∷ (t ++ s))) e ∙ byte_at-append t s k

byte_at-inside :
    (t s : Text) (j : ℕ)
    → all (λ b. not (is_utf8_rune_start b)) t ≡ true
    → j < length t
    → is_utf8_rune_start (byte_at j (t ++ s)) ≡ false
unfolding byte_at all
byte_at-inside [] s j h l = absurd (omega (arith, l))
byte_at-inside (c ∷ t) s zero h l =
    let first = (&&-eq-true (not (is_utf8_rune_start c)) _ h).0 in ground (arith, first)
byte_at-inside (c ∷ t) s (suc j) h l =
    byte_at-inside t s j (&&-eq-true (not (is_utf8_rune_start c)) _ h).1 (omega arith)

walk_back-inside :
    (c : ℕ) (t s : Text) (i : ℕ)
    → all (λ b. not (is_utf8_rune_start b)) t ≡ true
    → i ≤ length t
    → walk_back (c ∷ (t ++ s)) i ≡ 0
unfolding walk_back byte_at
walk_back-inside c t s zero h l = refl
walk_back-inside c t s (suc i) h l =
    rw (byte_at-inside t s i h (omega arith)) (walk_back-inside c t s i h (omega arith))

walk_back-past :
    (c : ℕ) (t s : Text) (k : ℕ)
    → is_utf8_rune_start (byte_at 0 s) ≡ true
    → walk_back (c ∷ (t ++ s)) (suc (length t + k)) ≡ suc (length t + walk_back s k)
unfolding walk_back byte_at
walk_back-past c t s zero h = rw (byte_at-append t s 0, h) refl
walk_back-past c t s (suc k) h =
    let more : length t + suc k ≡ suc (length t + k) = omega arith in
    let here : byte_at (suc (length t + k)) (t ++ s) ≡ byte_at (suc k) s =
      ap (λ n. byte_at n (t ++ s)) (sym more) ∙ byte_at-append t s (suc k) in
    rw more (elim (Bool-cases (is_utf8_rune_start (byte_at (suc k) s))) [
      | inl start ↦ rw (here, start) (omega arith)
      | inr inner ↦ rw (here, inner) (walk_back-past c t s k h)
    ])

take-append-past : (t s : Text) (j : ℕ) → take (length t + j) (t ++ s) ≡ t ++ take j s
take-append-past [] s j = let e : 0 + j ≡ j = omega arith in ap (λ n. take n s) e
take-append-past (c ∷ t) s j =
    let e : suc (length t) + j ≡ suc (length t + j) = omega arith in
    ap (λ n. take n (c ∷ (t ++ s))) e ∙ ap (◌∷◌ c) (take-append-past t s j)

NoMoreFits-shift :
    (n used k max_bytes used' : ℕ) (cut : List Text)
    → max_bytes ≡ n + k
    → used' ≡ n + used
    → NoMoreFits used k cut
    → NoMoreFits used' max_bytes cut
NoMoreFits-shift n used k max_bytes used' [] e e' h = tt
NoMoreFits-shift n used k max_bytes used' (r ∷ rs) e e' h = omega (arith, h)

KeepsWhole-cons :
    (r : Text) (rs : List Text) (max_bytes k : ℕ) (t : Text)
    → max_bytes ≡ length r + k
    → KeepsWhole rs k t
    → KeepsWhole (r ∷ rs) max_bytes (r ++ t)
unfolding flatten
KeepsWhole-cons r rs max_bytes k t e v = record {
  kept = r ∷ v.kept;
  cut = v.cut;
  split = ap (◌∷◌ r) v.split;
  keeps = ap (◌++◌ r) v.keeps;
  fits = omega (arith, length-append r t, v.fits);
  no_more =
      NoMoreFits-shift (length r) (length t) k max_bytes (length (r ++ t)) v.cut e
        (length-append r t) v.no_more;
}

-- Characters that are not the end start with a first byte.
next_starts :
    (rs : List Text)
    → AllCharacters rs
    → 0 < length (flatten rs)
    → is_utf8_rune_start (byte_at 0 (flatten rs)) ≡ true
unfolding flatten byte_at
next_starts [] v l = absurd (omega (arith, l))
next_starts ([] ∷ rs) v l = absurd v.0
next_starts ((c ∷ t) ∷ rs) v l = v.0.0

cut-KeepsWhole :
    (rs : List Text) (i : ℕ)
    → AllCharacters rs
    → i < length (flatten rs)
    → KeepsWhole rs i (take (walk_back (flatten rs) i) (flatten rs))
unfolding flatten
cut-KeepsWhole [] i v l = absurd (omega (arith, l))
cut-KeepsWhole ([] ∷ rs) i v l = absurd v.0
cut-KeepsWhole ((c ∷ t) ∷ rs) i v l = elim (Bool-cases (leb i (length t))) [
  | inl inside ↦ rw (walk_back-inside c t (flatten rs) i v.0.1 (leb→le _ _ inside)) (record {
    kept = [];
    cut = (c ∷ t) ∷ rs;
    split = refl;
    keeps = refl;
    fits = omega arith;
    no_more = omega (arith, leb→le _ _ inside);
  })
  | inr past ↦
      let k = i - suc (length t) in
      let split : i ≡ suc (length t + k) = omega (arith, leb→lt _ _ past) in
      let inner : k < length (flatten rs) =
        omega (arith, l, length-append t (flatten rs), leb→lt _ _ past) in
      let rest = cut-KeepsWhole rs k v.1 inner in
      let back : walk_back (c ∷ (t ++ flatten rs)) i ≡ suc (length t + walk_back (flatten rs) k) =
        ap (walk_back (c ∷ (t ++ flatten rs))) split
        ∙ walk_back-past c t (flatten rs) k (next_starts rs v.1 (omega (arith, inner))) in
      rw back (
        rw (take-append-past t (flatten rs) (walk_back (flatten rs) k))
          (KeepsWhole-cons (c ∷ t) rs i k _ (omega (arith, split)) rest))
]

-- Of a string that is a sequence of characters, truncation keeps the first characters, as many as
-- fit into the bytes allowed, and says if it has cut any bytes.
pub truncate_utf8-KeepsWhole :
    (rs : List Text) (max_bytes : ℕ)
    → AllCharacters rs
    → KeepsWhole rs max_bytes (truncate_utf8 (flatten rs) max_bytes).0
      × ((truncate_utf8 (flatten rs) max_bytes).1 ≡ ltb max_bytes (length (flatten rs)))
unfolding truncate_utf8
truncate_utf8-KeepsWhole rs max_bytes v = elim (Bool-cases (leb (length (flatten rs)) max_bytes)) [
  | inl fits ↦ rw fits (
    record {
      kept = rs;
      cut = [];
      split = sym (append-nil rs);
      keeps = refl;
      fits = leb→le _ _ fits;
      no_more = tt;
    },
    ground (arith, fits),
  )
  | inr cuts ↦ rw cuts (cut-KeepsWhole rs max_bytes v (leb→lt _ _ cuts), ground (arith, cuts))
]
