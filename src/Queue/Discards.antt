-- ===== src/Queue/Discards.antt =====
-- armatureanalytics/queue.go: what the callers of `enqueue` do behind the unlock that have dropped an
-- item or were rejected.
use mathlib.Core.List.{Perm, perm_middle}
use mathlib.Core.List.Perm
use mcp_analytics_go.Prelude.{
  ℕ, zero, suc, ◌+◌, ◌≡◌, refl, Bool, true, false, Option, none, some, List, [], ◌∷◌, ◌++◌,
  append-nil, append_assoc, arith,
}
use mcp_analytics_go.Queue.World.{
  Discard, finishing, noting, warning, World, as_number, to_list, discard_of, account, step_discard,
}

module _ {ℓ} {I : Type ℓ} where
  -- The dropped items that are not finished yet.
  abbrev pub discarded : List (Discard I) → List I
  discarded [] = []
  discarded (finishing item should_warn ∷ ds) = item ∷ discarded ds
  discarded (noting should_warn ∷ ds) = discarded ds
  discarded (warning ∷ ds) = discarded ds

  -- The warnings that are still to come.
  abbrev pub warning_of : Discard I → ℕ
  warning_of (finishing item should_warn) = as_number should_warn
  warning_of (noting should_warn) = as_number should_warn
  warning_of warning = 1

  abbrev pub warnings_due : List (Discard I) → ℕ
  warnings_due [] = 0
  warnings_due (d ∷ ds) = warning_of d + warnings_due ds

  pub discarded-discard_of :
      (ds : List (Discard I)) (o : Option I) (warn : Bool)
      → discarded (ds ++ discard_of o warn) ≡ discarded ds ++ to_list o
  discarded-discard_of [] none warn = refl
  discarded-discard_of [] (some item) warn = refl
  discarded-discard_of (finishing item w ∷ ds) o warn = rw (discarded-discard_of ds o warn) refl
  discarded-discard_of (noting w ∷ ds) o warn = discarded-discard_of ds o warn
  discarded-discard_of (warning ∷ ds) o warn = discarded-discard_of ds o warn

  pub discarded-noting :
      (ds : List (Discard I)) (warn : Bool) → discarded (ds ++ noting warn ∷ []) ≡ discarded ds
  discarded-noting [] warn = refl
  discarded-noting (finishing item w ∷ ds) warn = rw (discarded-noting ds warn) refl
  discarded-noting (noting w ∷ ds) warn = discarded-noting ds warn
  discarded-noting (warning ∷ ds) warn = discarded-noting ds warn

  pub warnings_due-append :
      (ds es : List (Discard I)) → warnings_due (ds ++ es) ≡ warnings_due ds + warnings_due es
  warnings_due-append [] es = omega arith
  warnings_due-append (d ∷ ds) es = omega (arith, warnings_due-append ds es)

module _ {ℓ} {I E : Type ℓ} where
  -- What such a caller leaves alone, and that it finishes and warns of exactly what was due.
  pub record Accounted (ds ds' : List (Discard I)) (w w' : World I E) : Type ℓ where
    pub same_queue : w'.queue ≡ w.queue
    pub same_workers : w'.workers ≡ w.workers
    pub same_sent : w'.sent ≡ w.sent
    pub same_admitted : w'.admitted ≡ w.admitted
    pub warned : w'.overflow_warnings + warnings_due ds' ≡ w.overflow_warnings + warnings_due ds
    pub settled : Perm (discarded ds ++ w.finished) (discarded ds' ++ w'.finished)

  account-Accounted :
      (d : Discard I) (ds : List (Discard I)) (w : World I E)
      → Accounted (d ∷ ds) (to_list (account d w).1 ++ ds) w (account d w).0
  unfolding account
  account-Accounted (finishing item warn) ds w = record {
    same_queue = refl;
    same_workers = refl;
    same_sent = refl;
    same_admitted = refl;
    warned = refl;
    settled = Perm.symm (
        simp (append_assoc, append-nil) at
          (perm_middle {a = item} (discarded ds ++ w.finished) []));
  }
  account-Accounted (noting true) ds w = record {
    same_queue = refl;
    same_workers = refl;
    same_sent = refl;
    same_admitted = refl;
    warned = refl;
    settled = Perm.refl _;
  }
  account-Accounted (noting false) ds w = record {
    same_queue = refl;
    same_workers = refl;
    same_sent = refl;
    same_admitted = refl;
    warned = omega arith;
    settled = Perm.refl _;
  }
  account-Accounted warning ds w = record {
    same_queue = refl;
    same_workers = refl;
    same_sent = refl;
    same_admitted = refl;
    warned = omega arith;
    settled = Perm.refl _;
  }

  cons-Accounted :
      (d : Discard I) (ds ds' : List (Discard I)) (w w' : World I E)
      → Accounted ds ds' w w'
      → Accounted (d ∷ ds) (d ∷ ds') w w'
  cons-Accounted d ds ds' w w' a = record {
    same_queue = a.same_queue;
    same_workers = a.same_workers;
    same_sent = a.same_sent;
    same_admitted = a.same_admitted;
    warned = omega (arith, a.warned);
    settled = cons_settled d a.settled;
  }
    where
      cons_settled :
          (d : Discard I)
          → Perm (discarded ds ++ w.finished) (discarded ds' ++ w'.finished)
          → Perm (discarded (d ∷ ds) ++ w.finished) (discarded (d ∷ ds') ++ w'.finished)
      cons_settled (finishing item warn) p = Perm.append_left (item ∷ []) p
      cons_settled (noting warn) p = p
      cons_settled warning p = p

  pub step_discard-Accounted :
      (n : ℕ) (ds : List (Discard I)) (w : World I E)
      → Accounted ds (step_discard n ds w).1 w (step_discard n ds w).0
  unfolding step_discard
  step_discard-Accounted n [] w = record {
    same_queue = refl;
    same_workers = refl;
    same_sent = refl;
    same_admitted = refl;
    warned = refl;
    settled = Perm.refl _;
  }
  step_discard-Accounted zero (d ∷ ds) w = account-Accounted d ds w
  step_discard-Accounted (suc n) (d ∷ ds) w =
      cons-Accounted d ds _ w _ (step_discard-Accounted n ds w)
