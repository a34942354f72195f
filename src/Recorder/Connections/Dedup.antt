-- ===== src/Recorder/Connections/Dedup.antt =====
-- armatureanalytics/recorder.go: an initialize after the session was unregistered.
use mcp_analytics_go.Prelude.{
  ◌≡◌, refl, ap, ◌∙◌, inl, inr, Bool, true, false, not, none, some, List, [], ◌∷◌, if◌then◌else◌,
  Eq, beq_refl, Bool-cases, arith,
}
use mcp_analytics_go.Client.{ClientInfo}
use mcp_analytics_go.KeySet.{delete}
use mcp_analytics_go.KeySet.Valid.{IsValid, add-IsValid, delete-IsValid}
use mcp_analytics_go.Recorder.Connections.{
  Connections, find_info, delete_info, store_info, on_after_initialize, client_info_for,
  on_unregister_session,
}

module _ {K : Type 0} ⦃e : Eq K⦄ where
  find-delete :
      (key j : K) (m : List (K × ClientInfo))
      → find_info j (delete_info key m) ≡ (if e.beq key j then none else find_info j m)
  unfolding find_info delete_info
  find-delete key j [] = ground arith
  find-delete key j ((k, info) ∷ m) =
      ground (arith, find-delete key j m, e.beq_iff k key, e.beq_iff key j, e.beq_iff k j)

module _ {K : Type 0} ⦃e : Eq K⦄ (is_shared : K → Bool) where
  find-store :
      (key j : K) (info : ClientInfo) (m : List (K × ClientInfo))
      → is_shared key ≡ false
      → find_info j (store_info is_shared key info m)
        ≡ (if e.beq key j then some info else find_info j m)
  unfolding store_info find_info
  find-store key j info m own = rw own (elim (Bool-cases (e.beq key j)) [
    | inl same ↦ rw same refl
    | inr differ ↦ rw differ (find-delete key j m ∙ rw differ refl)
  ])

  -- With a valid set of emitted sessions and a key that sessions do not share, an initialize does not
  -- panic. It calls RecordSessionInit exactly when the set does not hold the key at that time, and
  -- after the session was unregistered it calls it in any case. Its client is then the one of the new
  -- initialize, and that of every other session stays.
  pub on_after_initialize-on_unregister_session :
      (key : K) (info : ClientInfo) (c : Connections K)
      → IsValid c.emitted_session
      → is_shared key ≡ false
      → (d d' : Connections K) × (on_after_initialize is_shared key info c
          ≡ some (d, not (c.emitted_session.keys key)))
        × (on_after_initialize is_shared key info (on_unregister_session key c) ≡ some (d', true))
        × (client_info_for is_shared key d' ≡ some info)
        × ((j : K)
            → client_info_for is_shared j d' ≡ (
                if is_shared j
                then none
                else if e.beq key j
                then some info
                else find_info j c.session_info))
  unfolding on_after_initialize on_unregister_session client_info_for
  on_after_initialize-on_unregister_session key info c v own =
      let (s, added, _, _, _, _) = add-IsValid key c.emitted_session v in
      let (deleted, gone) = delete-IsValid key c.emitted_session v in
      let (s', again, _, _, _, _) = add-IsValid key (delete key c.emitted_session) deleted in
      let forgotten : (delete key c.emitted_session).keys key ≡ false =
        gone key ∙ rw (beq_refl key) refl in
      (
        record { session_info = store_info is_shared key info c.session_info; emitted_session = s },
        record {
          session_info = store_info is_shared key info (delete_info key c.session_info);
          emitted_session = s';
        },
        rw added refl,
        rw (again, forgotten) refl,
        rw own
            (find-store key key info (delete_info key c.session_info) own ∙ rw (beq_refl key) refl),
        λ j.
            ap (λ r. if is_shared j then none else r)
              (find-store key j info (delete_info key c.session_info) own
                ∙ elim (Bool-cases (e.beq key j)) [
                  | inl same ↦ rw same refl
                  | inr differ ↦ rw differ (find-delete key j c.session_info ∙ rw differ refl)
                ]),
      )
