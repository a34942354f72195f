-- ===== src/KeySet/Window.antt =====
-- How long the key set remembers: a key is forgotten only after `max` other keys were added.
use mcp_analytics_go.Prelude.{
  ℕ, suc, ◌+◌, ◌≤◌, ◌<◌, ◌≡◌, refl, ap, inl, inr, Bool, true, false, not, Option, none, some, List,
  [], ◌∷◌, ◌++◌, append_assoc, length, length-append, tail, leb, Eq, beq_refl, Bool-cases, leb→le,
  arith,
}
use mcp_analytics_go.KeySet.{BoundedKeySet, new_bounded_key_set, add}
use mcp_analytics_go.KeySet.Valid.{IsValid, contains, contains-append, survivors, add-IsValid}

-- The constructor gives a valid set with no members.
pub new_bounded_key_set-IsValid {ℓ} :
    {K : Type ℓ} ⦃e : Eq K⦄ (max : ℕ) → 0 < max → IsValid (new_bounded_key_set {K = K} max)
unfolding new_bounded_key_set contains
new_bounded_key_set-IsValid max h = record {
  positive = h;
  bounded = omega arith;
  indexed = λ k. refl;
  distinct = tt;
}

module _ {ℓ} {K : Type ℓ} ⦃e : Eq K⦄ where
  -- A run of `Add` calls.
  unfoldable pub add_all : List K → BoundedKeySet K → Option (BoundedKeySet K)
  add_all [] s = some s
  add_all (k ∷ ks) s = elim (add k s) [ none ↦ none | some (t, _) ↦ add_all ks t ]

  -- The key is a member, and at most `n` keys were added after it.
  record Recent (key : K) (n : ℕ) (s : BoundedKeySet K) : Type ℓ where
    before : List K
    after : List K
    split : s.order ≡ before ++ key ∷ after
    few : length after ≤ n

  survivors-Recent :
      (key : K) (n : ℕ) (s : BoundedKeySet K) (before after : List K)
      → s.order ≡ before ++ key ∷ after
      → length after ≤ n
      → suc n < s.max
      → (before' : List K) × (survivors s ≡ before' ++ key ∷ after)
  survivors-Recent key n s before after p few h = elim (Bool-cases (leb s.max (length s.order))) [
    | inl full ↦ rw full (full_case before p (leb→le _ _ full))
    | inr room ↦ rw room (before, p)
  ]
    where
      full_case :
          (b : List K)
          → s.order ≡ b ++ key ∷ after
          → s.max ≤ length s.order
          → (before' : List K) × (tail s.order ≡ before' ++ key ∷ after)
      full_case [] q full = absurd (omega (arith, ap length q))
      full_case (x ∷ b) q full = (b, rw q)

  Recent-add :
      (key k : K) (n : ℕ) (s : BoundedKeySet K)
      → IsValid s
      → Recent key n s
      → suc n < s.max
      → (t : BoundedKeySet K) × (b : Bool) × (add k s ≡ some (t, b))
        × IsValid t
        × (t.max ≡ s.max)
        × Recent key (suc n) t
  Recent-add key k n s v r h =
      let (t, added, valid, same_max, member, order) = add-IsValid k s v in
      (
        t,
        not (s.keys k),
        added,
        valid,
        same_max,
        elim (Bool-cases (s.keys k)) [
          | inl old ↦ record {
            before = r.before;
            after = r.after;
            split = ground (arith, r.split);
            few = omega (arith, r.few);
          }
          | inr new ↦
              let (before', kept) = survivors-Recent key n s r.before r.after r.split r.few h in
              record {
                before = before';
                after = r.after ++ k ∷ [];
                split = rw (order, new, kept, append_assoc);
                few = omega (arith, r.few, length-append r.after (k ∷ []));
              }
        ],
      )

  Recent-keys :
      (key : K) (n : ℕ) (s : BoundedKeySet K) → IsValid s → Recent key n s → s.keys key ≡ true
  unfolding contains
  Recent-keys key n s v r =
      ground
        (arith, v.indexed key, r.split, contains-append key r.before (key ∷ r.after), beq_refl key)

  Recent-add_all :
      (key : K) (ks : List K) (n : ℕ) (s : BoundedKeySet K)
      → IsValid s
      → Recent key n s
      → n + length ks < s.max
      → (t : BoundedKeySet K) × (add_all ks s ≡ some t) × IsValid t × (t.keys key ≡ true)
  unfolding add_all
  Recent-add_all key [] n s v r h = (s, refl, v, Recent-keys key n s v r)
  Recent-add_all key (k ∷ ks) n s v r h =
      let (t, b, added, valid, same_max, recent) = Recent-add key k n s v r (omega arith) in
      rw (added, add_all) (Recent-add_all key ks (suc n) t valid recent (omega arith))

  add_member : (key : K) (s : BoundedKeySet K) → s.keys key ≡ true → add key s ≡ some (s, false)
  unfolding add
  add_member key s h = rw h

  -- A key that `Add` has just taken in is still a member after fewer than `max` further calls of
  -- `Add`, whatever their keys, and none of the calls panics: the next `Add` of it answers false
  -- and changes nothing.
  pub add-add_all :
      (key : K) (ks : List K) (s s' : BoundedKeySet K)
      → IsValid s
      → add key s ≡ some (s', true)
      → length ks < s.max
      → (t : BoundedKeySet K) × (add_all ks s' ≡ some t) × (add key t ≡ some (t, false))
  add-add_all key ks s s' v added h =
      let (s0, again, valid, same_max, member, order) = add-IsValid key s v in
      let fresh : s.keys key ≡ false = ground (arith, added, again) in
      let same : s0 ≡ s' = ground (arith, added, again) in
      let recent : Recent key 0 s0 = record {
        before = survivors s;
        after = [];
        split = rw (order, fresh);
        few = omega arith;
      } in
      let (t, done, valid', here) = Recent-add_all key ks 0 s0 valid recent (omega arith) in
      (t, rw (← same) done, add_member key t here)
