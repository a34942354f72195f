-- ===== src/Official/Remembered.antt =====
-- armatureanalytics/official/official.go: one session_init for a connection.
use mcp_analytics_go.Prelude.{
  ◌≡◌, refl, sym, ap, ◌∙◌, inl, inr, Bool, true, false, not, ◌&&◌, Option, none, some, List, [],
  ◌∷◌, Text, if◌then◌else◌, Eq, beq_refl, Bool-cases, if_cases, &&-eq-true, arith,
}
use mcp_analytics_go.Client.{ClientInfo}
use mcp_analytics_go.Official.Sessions.{
  SessionInfo, Sessions, find_session, delete_session, already_emitted, fresh_info,
  remember_session, forget_if, forget_session_when_closed,
}

-- What happens to the sessions, under their lock.
pub data SessionTurn (K S : Type 0) : Type 0 where
  remember : K → Option S → Text → Option ClientInfo → SessionTurn K S
  ended : K → S → SessionTurn K S

module _ {K S : Type 0} ⦃e : Eq K⦄ where
  find-delete_other :
      (key k : K) (m : Sessions K S)
      → e.beq key k ≡ false
      → find_session k (delete_session key m) ≡ find_session k m
  unfolding find_session delete_session
  find-delete_other key k [] h = refl
  find-delete_other key k ((j, info) ∷ m) h = elim (Bool-cases (e.beq j key)) [
    | inl same ↦
        let j_is : j ≡ key = (e.beq_iff j key).0 same in
        let other : e.beq j k ≡ false = rw j_is h in rw (same, other) (find-delete_other key k m h)
    | inr differ ↦
        rw differ (ap (λ rest. if e.beq j k then some info else rest) (find-delete_other key k m h))
  ]

  -- A write under a key that has no emitted session leaves the emitted ones.
  written-find :
      (key k : K) (info new : SessionInfo S) (m : Sessions K S)
      → info.emitted ≡ true
      → already_emitted (find_session k m) ≡ false
      → find_session key m ≡ some info
      → find_session key ((k, new) ∷ delete_session k m) ≡ some info
  unfolding find_session
  written-find key k info new m em fresh found = elim (Bool-cases (e.beq k key)) [
    | inl same ↦
        let k_is : k ≡ key = (e.beq_iff k key).0 same in
        let none_there : already_emitted (find_session key m) ≡ false = rw (← k_is) fresh in
        let there : info.emitted ≡ false = rw found at none_there in
        absurd (ground (arith, em, there))
    | inr differ ↦ rw differ (find-delete_other k key m differ ∙ found)
  ]

  remembered-again :
      (key : K) (session : S) (id : Text) (i : Option ClientInfo) (info : SessionInfo S)
      (m : Sessions K S)
      → info.emitted ≡ true
      → find_session key m ≡ some info
      → remember_session key (some session) id i m ≡ (m, false)
  unfolding remember_session
  remembered-again key session id i info m em found = rw (found, em) refl

module _ {K S : Type 0} ⦃e : Eq K⦄ ⦃f : Eq S⦄ where
  -- The end of another session, or of one under another key, leaves the session.
  forget-find :
      (o : Option (SessionInfo S)) (key k : K) (session s : S) (info : SessionInfo S)
      (m : Sessions K S)
      → find_session k m ≡ o
      → info.session ≡ session
      → not (e.beq k key && f.beq s session) ≡ true
      → find_session key m ≡ some info
      → find_session key (forget_if o k s m) ≡ some info
  forget-find none key k session s info m there own h found = found
  forget-find (some current) key k session s info m there own h found =
      if_cases (λ r. find_session key r ≡ some info) (f.beq current.session s)
        (λ his. elim (Bool-cases (e.beq k key)) [
          | inl same ↦ absurd (not_his current key k session s info m there own h found his same)
          | inr differ ↦ find-delete_other k key m differ ∙ found
        ])
        (λ _. found)
    where
      not_his :
          (current : SessionInfo S) (key k : K) (session s : S) (info : SessionInfo S)
          (m : Sessions K S)
          → find_session k m ≡ some current
          → info.session ≡ session
          → not (e.beq k key && f.beq s session) ≡ true
          → find_session key m ≡ some info
          → f.beq current.session s ≡ true
          → e.beq k key ≡ true
          → ⊥
      not_his current key k session s info m there own h found his same =
          let k_is : k ≡ key = (e.beq_iff k key).0 same in
          let one : some current ≡ some info =
            sym there ∙ ap (λ j. find_session j m) k_is ∙ found in
          let same_info : current ≡ info = cc in
          let s_is : current.session ≡ s = (f.beq_iff current.session s).0 his in
          let mine : s ≡ session = sym s_is ∙ ap (λ c. c.session) same_info ∙ own in
          let eq : f.beq s session ≡ true = (f.beq_iff s session).1 mine in
          let no : not (true && true) ≡ true = rw (same, eq) at h in absurd (ground (arith, no))

  unfoldable pub session_turn : SessionTurn K S → Sessions K S → Sessions K S
  session_turn (remember key session id info) m = (remember_session key session id info m).0
  session_turn (ended key session) m = forget_session_when_closed key session m

  unfoldable pub session_turns : List (SessionTurn K S) → Sessions K S → Sessions K S
  session_turns [] m = m
  session_turns (turn ∷ turns) m = session_turns turns (session_turn turn m)

  -- Every turn but the end of this session under this key.
  abbrev pub leaves : K → S → SessionTurn K S → Bool
  leaves key session (remember k s id info) = true
  leaves key session (ended k s) = not (e.beq k key && f.beq s session)

  abbrev pub all_leave : K → S → List (SessionTurn K S) → Bool
  all_leave key session [] = true
  all_leave key session (turn ∷ turns) = leaves key session turn && all_leave key session turns

  turn-find :
      (key : K) (session : S) (info : SessionInfo S) (turn : SessionTurn K S) (m : Sessions K S)
      → info.emitted ≡ true
      → info.session ≡ session
      → leaves key session turn ≡ true
      → find_session key m ≡ some info
      → find_session key (session_turn turn m) ≡ some info
  unfolding session_turn remember_session
  turn-find key session info (remember k none id i) m em own h found = found
  turn-find key session info (remember k (some s) id i) m em own h found =
      if_cases (λ (r : Sessions K S × Bool). find_session key r.0 ≡ some info)
        (already_emitted (find_session k m)) (λ _. found)
        (λ fresh. written-find key k info (fresh_info s id i) m em fresh found)
  turn-find key session info (ended k s) m em own h found =
      unfold forget_session_when_closed in
      forget-find (find_session k m) key k session s info m refl own h found

  turns-find :
      (key : K) (session : S) (info : SessionInfo S) (turns : List (SessionTurn K S))
      (m : Sessions K S)
      → info.emitted ≡ true
      → info.session ≡ session
      → all_leave key session turns ≡ true
      → find_session key m ≡ some info
      → find_session key (session_turns turns m) ≡ some info
  unfolding session_turns
  turns-find key session info [] m em own h found = found
  turns-find key session info (turn ∷ turns) m em own h found =
      let both = &&-eq-true (leaves key session turn) (all_leave key session turns) h in
      turns-find key session info turns (session_turn turn m) em own both.1
        (turn-find key session info turn m em own both.0 found)

  remember-find :
      (key : K) (session : S) (id : Text) (i : Option ClientInfo) (m : Sessions K S)
      → (remember_session key (some session) id i m).1 ≡ true
      → find_session key (remember_session key (some session) id i m).0
        ≡ some (fresh_info session id i)
  unfolding remember_session find_session
  remember-find key session id i m new = elim (Bool-cases (already_emitted (find_session key m))) [
    | inl old ↦ let no : false ≡ true = rw old at new in absurd (cc)
    | inr fresh ↦ rw (fresh, beq_refl key) refl
  ]

  -- Once a session is remembered under a key, which records its session_init, then as long as it
  -- has not ended, whatever other sessions are remembered or end: it is found with the client and
  -- the session id of that time, and remembering any session under the key again changes nothing
  -- and records no session_init.
  pub remember_session-session_turns :
      (key : K) (session again : S) (id id' : Text) (i i' : Option ClientInfo) (m : Sessions K S)
      (turns : List (SessionTurn K S))
      → (remember_session key (some session) id i m).1 ≡ true
      → all_leave key session turns ≡ true
      → (find_session key (session_turns turns (remember_session key (some session) id i m).0)
          ≡ some (fresh_info session id i))
        × (remember_session key
              (some again)
              id'
              i'
              (session_turns turns (remember_session key (some session) id i m).0)
            ≡ (session_turns turns (remember_session key (some session) id i m).0, false))
  remember_session-session_turns key session again id id' i i' m turns new h =
      let found =
        turns-find key session (fresh_info session id i) turns
          (remember_session key (some session) id i m).0 refl refl h
          (remember-find key session id i m new) in
      (found, remembered-again key again id' i' _ _ refl found)
