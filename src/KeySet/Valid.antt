-- ===== src/KeySet/Valid.antt =====
-- The invariant of the key set, and what `Add` and `Delete` do to the members.
use mcp_analytics_go.Prelude.{
  ◌≤◌, ◌<◌, ◌≡◌, refl, ap, inl, inr, Bool, true, false, not, ◌||◌, some, List, [], ◌∷◌, ◌++◌,
  length, length-append, tail, leb, if◌then◌else◌, Eq, beq_refl, Bool-cases, leb→le, leb→lt, arith,
}
use mcp_analytics_go.KeySet.{
  BoundedKeySet, write_key, evict_oldest, remember, remembered, add, remove_first, delete,
}

module _ {ℓ} {K : Type ℓ} ⦃e : Eq K⦄ where
  unfoldable pub contains : K → List K → Bool
  contains key [] = false
  contains key (k ∷ order) = e.beq k key || contains key order

  abbrev pub Distinct : List K → Type 0
  Distinct [] = Unit
  Distinct (k ∷ order) = (contains k order ≡ false) × Distinct order

  -- The order lists each member once, and never holds more than `max` keys.
  pub record IsValid (s : BoundedKeySet K) : Type ℓ where
    pub positive : 0 < s.max
    pub bounded : length s.order ≤ s.max
    pub indexed : (k : K) → s.keys k ≡ contains k s.order
    pub distinct : Distinct s.order

  pub contains-append :
      (k : K) (xs ys : List K) → contains k (xs ++ ys) ≡ (contains k xs || contains k ys)
  unfolding contains
  contains-append k [] ys = refl
  contains-append k (x ∷ xs) ys = ground (arith, contains-append k xs ys)

  Distinct-snoc :
      (k : K) (xs : List K) → Distinct xs → contains k xs ≡ false → Distinct (xs ++ k ∷ [])
  unfolding contains
  Distinct-snoc k [] d h = (refl, tt)
  Distinct-snoc k (x ∷ xs) d h =
      ground
        (arith, contains-append x xs (k ∷ []), e.beq_iff k x, e.beq_iff x k, Distinct-snoc k xs d.1)

  length-remove_first-le : (k : K) (xs : List K) → length (remove_first k xs) ≤ length xs
  unfolding remove_first
  length-remove_first-le k [] = omega arith
  length-remove_first-le k (x ∷ xs) = ground (arith, length-remove_first-le k xs)

  contains-remove_first :
      (k j : K) (xs : List K)
      → Distinct xs
      → contains j (remove_first k xs) ≡ (if e.beq k j then false else contains j xs)
  unfolding contains remove_first
  contains-remove_first k j [] d = ground arith
  contains-remove_first k j (x ∷ xs) d =
      ground (arith, contains-remove_first k j xs, e.beq_iff x k, e.beq_iff k j, e.beq_iff x j)

  remove_first-Distinct : (k : K) (xs : List K) → Distinct xs → Distinct (remove_first k xs)
  unfolding contains remove_first
  remove_first-Distinct k [] d = d
  remove_first-Distinct k (x ∷ xs) d =
      ground (arith, contains-remove_first k x xs d.1, remove_first-Distinct k xs d.1)

  -- `Add` on a valid set that does not hold the key: the oldest key goes if the set is full.
  abbrev pub survivors : BoundedKeySet K → List K
  survivors s = if leb s.max (length s.order) then tail s.order else s.order

  evict_oldest-IsValid :
      (x : K) (rest : List K) (s : BoundedKeySet K)
      → s.order ≡ x ∷ rest
      → IsValid s
      → IsValid (record s { keys = write_key x false s.keys; order = rest })
  unfolding contains
  evict_oldest-IsValid x rest s p v =
      let d : Distinct (x ∷ rest) = rw p at v.distinct in
      record {
        positive = v.positive;
        bounded = ground arith;
        indexed = λ k. ground (arith, v.indexed k, e.beq_iff x k);
        distinct = d.1;
      }

  remember-IsValid :
      (key : K) (s : BoundedKeySet K)
      → length s.order < s.max
      → s.keys key ≡ false
      → IsValid s
      → IsValid (remember key s)
  unfolding remember contains
  remember-IsValid key s room fresh v = record {
    positive = v.positive;
    bounded = omega (arith, length-append s.order (key ∷ []));
    indexed = λ k. ground (arith, v.indexed k, contains-append k s.order (key ∷ []));
    distinct = Distinct-snoc key s.order v.distinct (ground (arith, v.indexed key));
  }

  evicted_lem :
      (o : List K) (s : BoundedKeySet K)
      → s.order ≡ o
      → s.max ≤ length o
      → IsValid s
      → (t : BoundedKeySet K) × (evict_oldest o s ≡ some t)
        × (t.max ≡ s.max)
        × (t.order ≡ tail o)
        × IsValid t
        × (length t.order < t.max)
        × ((k : K) → s.keys k ≡ false → t.keys k ≡ false)
  unfolding evict_oldest
  evicted_lem [] s p full v = absurd (omega (arith, v.positive))
  evicted_lem (x ∷ rest) s p full v = (
    record s { keys = write_key x false s.keys; order = rest },
    refl,
    refl,
    refl,
    evict_oldest-IsValid x rest s p v,
    omega (arith, v.bounded, ap length p),
    λ k h. ground arith,
  )

  survivors_lem :
      (s : BoundedKeySet K)
      → IsValid s
      → (t : BoundedKeySet K) × ((if leb s.max (length s.order)
            then evict_oldest s.order s
            else some s)
          ≡ some t)
        × (t.max ≡ s.max)
        × (t.order ≡ survivors s)
        × IsValid t
        × (length t.order < t.max)
        × ((k : K) → s.keys k ≡ false → t.keys k ≡ false)
  survivors_lem s v = elim (Bool-cases (leb s.max (length s.order))) [
    | inl full ↦ rw full (evicted_lem s.order s refl (leb→le _ _ full) v)
    | inr room ↦ rw room (s, refl, refl, refl, v, leb→lt _ _ room, λ k h. h)
  ]

  -- `Add` never panics on a valid set and keeps it valid. It answers whether the key was new; the
  -- key is a member afterwards, at the end of the order if it was new, and only the oldest key
  -- of a full set is evicted.
  pub add-IsValid :
      (key : K) (s : BoundedKeySet K)
      → IsValid s
      → (t : BoundedKeySet K) × (add key s ≡ some (t, not (s.keys key)))
        × IsValid t
        × (t.max ≡ s.max)
        × (t.keys key ≡ true)
        × (t.order ≡ (if s.keys key then s.order else survivors s ++ key ∷ []))
  unfolding add
  add-IsValid key s v = elim (Bool-cases (s.keys key)) [
    | inl old ↦ rw old (s, refl, v, refl, old, refl)
    | inr new ↦
        let (t, evicted, same_max, order, valid, room, stays) = survivors_lem s v in
        rw (new, evicted)
          (
            remember key t,
            unfold remembered in refl,
            remember-IsValid key t room (stays key new) valid,
            unfold remember in same_max,
            unfold remember in ground (arith, beq_refl key),
            unfold remember in ground arith,
          )
  ]

  -- `Delete` keeps a valid set valid, forgets its key and leaves every other key alone.
  pub delete-IsValid :
      (key : K) (s : BoundedKeySet K)
      → IsValid s
      → IsValid (delete key s)
        × ((j : K) → (delete key s).keys j ≡ (if e.beq key j then false else s.keys j))
  unfolding delete
  delete-IsValid key s v = elim (Bool-cases (s.keys key)) [
    | inl old ↦ rw old (
      record {
        positive = v.positive;
        bounded = omega (arith, length-remove_first-le key s.order);
        indexed = λ k. ground (arith, v.indexed k, contains-remove_first key k s.order v.distinct);
        distinct = remove_first-Distinct key s.order v.distinct;
      },
      λ j. refl,
    )
    | inr new ↦ rw new (v, λ j. ground (arith, e.beq_iff key j))
  ]
