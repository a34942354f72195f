-- ===== src/KeySet/Refines.antt =====
-- The key set refines a window: a list of keys, the newest last, of which only the last `max` stay.
use mcp_analytics_go.Prelude.{
  ℕ, zero, suc, ◌-◌, ◌<◌, ◌≡◌, refl, sym, ap, ◌∙◌, inl, inr, Bool, true, false, Option, some, List,
  [], ◌∷◌, ◌++◌, length, length-append, drop, tail, leb, leb→le, leb→lt, if◌then◌else◌, Eq,
  Bool-cases, ◌>>=◌, arith,
}
use mcp_analytics_go.KeySet.{BoundedKeySet, new_bounded_key_set, add, delete, remove_first}
use mcp_analytics_go.KeySet.Valid.{
  IsValid, Distinct, contains, survivors, add-IsValid, delete-IsValid,
}
use mcp_analytics_go.KeySet.Window.{new_bounded_key_set-IsValid}

-- A call of the key set.
pub data Op {ℓ} (K : Type ℓ) : Type ℓ where
  add_key : K → Op K
  delete_key : K → Op K

module _ {ℓ} {K : Type ℓ} ⦃e : Eq K⦄ where
  -- The answers of `Add` in a run of calls; `none` is a panic.
  unfoldable pub answers : List (Op K) → BoundedKeySet K → Option (List Bool)
  answers [] s = some []
  answers (add_key key ∷ ops) s = do
    (t, fresh) ← add key s
    rest ← answers ops t
    some (fresh ∷ rest)
  answers (delete_key key ∷ ops) s = answers ops (delete key s)

  -- The last `max` elements.
  abbrev pub last_of : ℕ → List K → List K
  last_of max xs = drop (length xs - max) xs

  abbrev pub without_key : K → List K → List K
  without_key key [] = []
  without_key key (k ∷ ks) = let rest = without_key key ks in if e.beq k key then rest else k ∷ rest

  -- The answers of the window.
  unfoldable pub window_answers : ℕ → List (Op K) → List K → List Bool
  window_answers max [] window = []
  window_answers max (add_key key ∷ ops) window =
      let same = window_answers max ops window in
      let shifted = window_answers max ops (last_of max (window ++ key ∷ [])) in
      if contains key window then false ∷ same else true ∷ shifted
  window_answers max (delete_key key ∷ ops) window = window_answers max ops (without_key key window)

  drop-zero : (xs : List K) (n : ℕ) → n ≡ 0 → drop n xs ≡ xs
  drop-zero xs zero h = refl
  drop-zero xs (suc n) h = absurd (omega (arith, h))

  drop-one : (xs : List K) (n : ℕ) → n ≡ 1 → drop n xs ≡ tail xs
  drop-one xs zero h = absurd (omega (arith, h))
  drop-one [] (suc n) h = refl
  drop-one (x ∷ xs) (suc n) h = drop-zero xs n (omega (arith, h))

  tail-snoc : (xs : List K) (key : K) → 0 < length xs → tail (xs ++ key ∷ []) ≡ tail xs ++ key ∷ []
  tail-snoc [] key h = absurd (omega (arith, h))
  tail-snoc (x ∷ xs) key h = refl

  survivors-last_of :
      (key : K) (s : BoundedKeySet K)
      → IsValid s
      → survivors s ++ key ∷ [] ≡ last_of s.max (s.order ++ key ∷ [])
  survivors-last_of key s v =
      let total = length-append s.order (key ∷ []) in
      elim (Bool-cases (leb s.max (length s.order))) [
        | inl full ↦ rw full (
            sym (tail-snoc s.order key (omega (arith, v.positive, leb→le _ _ full)))
            ∙ sym (
                drop-one (s.order ++ key ∷ []) _
                  (omega (arith, total, v.bounded, leb→le _ _ full))))
        | inr room ↦
            rw room
              (sym (drop-zero (s.order ++ key ∷ []) _ (omega (arith, total, leb→lt _ _ room))))
      ]

  without_key-absent : (key : K) (xs : List K) → contains key xs ≡ false → without_key key xs ≡ xs
  unfolding contains
  without_key-absent key [] h = refl
  without_key-absent key (x ∷ xs) h = ground (arith, h, without_key-absent key xs)

  remove_first-without_key :
      (key : K) (xs : List K) → Distinct xs → remove_first key xs ≡ without_key key xs
  unfolding remove_first
  remove_first-without_key key [] d = refl
  remove_first-without_key key (x ∷ xs) d = elim (Bool-cases (e.beq x key)) [
    | inl here ↦
        let gone : contains key xs ≡ false = rw (← (e.beq_iff x key).0 here) d.0 in
        rw here (sym (without_key-absent key xs gone))
    | inr there ↦ rw there (ap (λ rest. x ∷ rest) (remove_first-without_key key xs d.1))
  ]

  delete_order :
      (key : K) (s : BoundedKeySet K)
      → IsValid s
      → ((delete key s).order ≡ without_key key s.order) × ((delete key s).max ≡ s.max)
  unfolding delete
  delete_order key s v = elim (Bool-cases (s.keys key)) [
    | inl here ↦ rw here (remove_first-without_key key s.order v.distinct, refl)
    | inr gone ↦
        let absent : contains key s.order ≡ false = sym (v.indexed key) ∙ gone in
        rw gone (sym (without_key-absent key s.order absent), refl)
  ]

  -- On a valid set that holds the keys of a window in its order, no sequence of calls of `Add` and
  -- `Delete` panics, and the answers are those of the window: a key is new unless the window has
  -- it, a new key goes to the end, and only the last `max` keys stay.
  pub answers-window_answers :
      (ops : List (Op K)) (s : BoundedKeySet K)
      → IsValid s
      → answers ops s ≡ some (window_answers s.max ops s.order)
  unfolding answers window_answers
  answers-window_answers [] s v = refl
  answers-window_answers (add_key key ∷ ops) s v =
      let (t, added, valid, max, _, order) = add-IsValid key s v in
      let rest = answers-window_answers ops t valid in
      elim (Bool-cases (s.keys key)) [
        | inl old ↦
            let member : contains key s.order ≡ true = sym (v.indexed key) ∙ old in
            let order' : t.order ≡ s.order = order ∙ rw old refl in
            rw (added, rest, member, old, max, order') refl
        | inr new ↦
            let absent : contains key s.order ≡ false = sym (v.indexed key) ∙ new in
            let order' : t.order ≡ last_of s.max (s.order ++ key ∷ []) =
              order ∙ rw new (survivors-last_of key s v) in
            rw (added, rest, absent, new, max, order') refl
      ]
  answers-window_answers (delete_key key ∷ ops) s v =
      let (valid, _) = delete-IsValid key s v in
      let (order, max) = delete_order key s v in
      answers-window_answers ops (delete key s) valid ∙ rw (order, max) refl

  -- The key set that the recorder makes, for a positive bound, answers every sequence of calls as a
  -- window does that starts with no key.
  pub new-window_answers :
      (max : ℕ) (ops : List (Op K))
      → 0 < max
      → answers ops (new_bounded_key_set max) ≡ some (window_answers max ops [])
  unfolding new_bounded_key_set
  new-window_answers max ops h =
      answers-window_answers ops (new_bounded_key_set max) (new_bounded_key_set-IsValid max h)
