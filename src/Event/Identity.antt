-- ===== src/Event/Identity.antt =====
-- armatureanalytics/event.go: what an event id stands for.
use mcp_analytics_go.Prelude.{
  ℕ, ◌≡◌, ◌≢◌, ◌⊎◌, inl, inr, Bool-cases, text_eq, text_eq_iff, refl, ◌∙◌, sym, Bool, true, false,
  not, [], ◌∷◌, ◌++◌, Text, bytes, is_empty, length, all, ◌==◌, &&-eq-true, arith,
}
use mcp_analytics_go.Event.{Env, actor_id_of, event_id_of, kind_tool_call}
use mcp_analytics_go.Event.Prepare.{ToolCallInput}
use mcp_analytics_go.Event.Build.{
  scoped_request_id, assemble_tool_call_event, build_tool_call_event,
}

cons_injective : (c d : ℕ) (s t : Text) → c ∷ s ≡ d ∷ t → (c ≡ d) × (s ≡ t)
cons_injective c d s t e = (cc, cc)

append_injective :
    (s s' t t' : Text) → length s ≡ length s' → s ++ t ≡ s' ++ t' → (s ≡ s') × (t ≡ t')
append_injective [] [] t t' l e = (refl, e)
append_injective (c ∷ s) (d ∷ s') t t' l e =
    let both = cons_injective c d (s ++ t) (s' ++ t') e in
    let rest = append_injective s s' t t' (omega (arith, l)) both.1 in
    (rw (both.0, rest.0) refl, rest.1)
append_injective [] (d ∷ s') t t' l e = absurd (omega (arith, l))
append_injective (c ∷ s) [] t t' l e = absurd (omega (arith, l))

abbrev pub is_hash : ℕ → Bool
is_hash c = c == b'#'

abbrev pub no_hash : Text → Bool
no_hash s = all (λ c. not (is_hash c)) s

split_at_hash :
    (s s' r r' : Text)
    → no_hash s ≡ true
    → no_hash s' ≡ true
    → s ++ b'#' ∷ r ≡ s' ++ b'#' ∷ r'
    → (s ≡ s') × (r ≡ r')
unfolding all
split_at_hash [] [] r r' h h' e = (refl, (cons_injective b'#' b'#' r r' e).1)
split_at_hash (c ∷ s) (d ∷ s') r r' h h' e =
    let both = cons_injective c d (s ++ b'#' ∷ r) (s' ++ b'#' ∷ r') e in
    let rest = split_at_hash s s' r r' (&&-eq-true _ _ h).1 (&&-eq-true _ _ h').1 both.1 in
    (rw (both.0, rest.0) refl, rest.1)
split_at_hash [] (d ∷ s') r r' h h' e =
    let same = (cons_injective b'#' d r (s' ++ b'#' ∷ r') e).0 in
    let other = (&&-eq-true (not (is_hash d)) _ h').0 in absurd (ground (arith, same, other))
split_at_hash (c ∷ s) [] r r' h h' e =
    let same = (cons_injective c b'#' (s ++ b'#' ∷ r) r' e).0 in
    let other = (&&-eq-true (not (is_hash c)) _ h).0 in absurd (ground (arith, same, other))

-- Two texts that the hash does not take apart.
pub record Collision (hash : Text → Text) : Type 0 where
  pub one : Text
  pub other : Text
  pub differ : one ≢ other
  pub same : hash one ≡ hash other

-- Texts with one hash are one text, or a collision.
same_or_Collision : (hash : Text → Text) (s t : Text) → hash s ≡ hash t → (s ≡ t) ⊎ Collision hash
same_or_Collision hash s t e = elim (Bool-cases (text_eq s t)) [
  | inl same ↦ inl ((text_eq_iff s t).0 same)
  | inr differ ↦ inr (record {
    one = s;
    other = t;
    differ = λ same. ground (arith, differ, (text_eq_iff s t).1 same);
    same = e;
  })
]

module _ {T D : Type 0} (env : Env T D) where
  scoped_same :
      (a a' kind r r' : Text)
      → length a ≡ length a'
      → a ++ (bytes " " ++ (kind ++ (bytes " " ++ r)))
        ≡ a' ++ (bytes " " ++ (kind ++ (bytes " " ++ r')))
      → (a ≡ a') × (r ≡ r')
  scoped_same a a' kind r r' l e =
      let outer = append_injective a a' _ _ l e in
      let inner = append_injective (bytes " ") (bytes " ") _ _ refl outer.1 in
      let after_kind = append_injective kind kind _ _ refl inner.1 in
      (outer.0, (append_injective (bytes " ") (bytes " ") _ _ refl after_kind.1).1)

  event_id_of-injective :
      (a a' kind r r' : Text)
      → length a ≡ length a'
      → event_id_of env a kind r ≡ event_id_of env a' kind r'
      → ((a ≡ a') × (r ≡ r')) ⊎ Collision env.sha256_hex
  unfolding event_id_of
  event_id_of-injective a a' kind r r' l e = elim (same_or_Collision env.sha256_hex _ _ e) [
    | inl same ↦ inl (scoped_same a a' kind r r' l same)
    | inr collision ↦ inr collision
  ]

  -- With a hash whose results have one length: two tool calls that bring request ids of their own
  -- and have session ids without a `#` get the same event id only if the actor, the session and
  -- the request id are the same, whatever else they hold, or else two texts are at hand that the
  -- hash does not take apart.
  pub event_id-injective :
      (input input' : ToolCallInput T) (raw raw' : ℕ → ℕ) (size : ℕ)
      → ((s : Text) → length (env.sha256_hex s) ≡ size)
      → is_empty input.request_id ≡ false
      → is_empty input'.request_id ≡ false
      → is_empty input.session_id ≡ false
      → is_empty input'.session_id ≡ false
      → no_hash input.session_id ≡ true
      → no_hash input'.session_id ≡ true
      → (build_tool_call_event env input raw).event_id
        ≡ (build_tool_call_event env input' raw').event_id
      → (((build_tool_call_event env input raw).actor_id
            ≡ (build_tool_call_event env input' raw').actor_id)
          × (input.session_id ≡ input'.session_id)
          × (input.request_id ≡ input'.request_id))
        ⊎ Collision env.sha256_hex
  unfolding build_tool_call_event assemble_tool_call_event scoped_request_id bytes actor_id_of
  event_id-injective input input' raw raw' size sized r r' s s' n n' e =
      elim (event_id_of-injective (actor_id_of env input.actor_seed)
        (actor_id_of env input'.actor_seed) kind_tool_call _ _ (sized _ ∙ sym (sized _)) e) [
          | inl ids ↦
              let scoped : input.session_id ++ b'#' ∷ input.request_id
                  ≡ input'.session_id ++ b'#' ∷ input'.request_id =
                rw (r, r', s, s') at ids.1 in
              let both = split_at_hash input.session_id input'.session_id _ _ n n' scoped in
              inl (ids.0, both.0, both.1)
          | inr collision ↦ inr collision
        ]
