-- ===== src/Session/RoundTrip.antt =====
-- armatureanalytics/stateless_http.go: an id that is built is parsed back.
use mcp_analytics_go.Prelude.{
  ℕ, ◌<◌, ◌≡◌, refl, ◌∙◌, true, false, Option, none, some, [], ◌∷◌, ◌++◌, Text, bytes, is_empty,
  text_eq, ◌>>=◌, all, ==_iff, &&-eq-true, if◌then◌else◌, arith,
}
use mcp_analytics_go.Session.{
  is_slug_char, is_session_uuid, ClientName, slug_session_part, anonymous_stateless_client,
  session_name, session_version, session_uuid, session_id_of, build_stateless_session_id,
  strip_prefix, span_slug, match_session_id, named_client, parse_stateless_session_client_info,
}
use mcp_analytics_go.Session.Shape.{slug_session_part-IsSlug, slug_session_part-nonempty}
use mcp_analytics_go.Session.Uuid.{session_uuid-is_session_uuid}

strip_prefix-append : (p s : Text) → strip_prefix p (p ++ s) ≡ some s
unfolding strip_prefix
strip_prefix-append [] s = refl
strip_prefix-append (c ∷ p) s = rw ((==_iff c c).1 refl) (strip_prefix-append p s)

span_slug-append :
    (name rest : Text)
    → all is_slug_char name ≡ true
    → span_slug rest ≡ ([], rest)
    → span_slug (name ++ rest) ≡ (name, rest)
unfolding span_slug all
span_slug-append [] rest h n = n
span_slug-append (d ∷ name) rest h n =
    let both = &&-eq-true (is_slug_char d) (all is_slug_char name) h in
    rw (both.0, span_slug-append name rest both.1 n) refl

span_slug-underscore : (s : Text) → span_slug (b'_' ∷ s) ≡ ([], b'_' ∷ s)
unfolding span_slug
span_slug-underscore s = refl

bind-some :
    {x : Option Text} {a : Text} (f : Text → Option ClientName) → x ≡ some a → (x >>= f) ≡ f a
bind-some f e = rw e refl

match_session_id-session_id_of :
    (name version uuid : Text)
    → all is_slug_char name ≡ true
    → is_empty name ≡ false
    → all is_slug_char version ≡ true
    → is_session_uuid uuid ≡ true
    → match_session_id (session_id_of name version uuid)
      ≡ some (record { name = name; version = version })
unfolding match_session_id session_id_of span_slug bytes
match_session_id-session_id_of name version uuid n e v u =
    bind-some _ (
      strip_prefix-append (bytes "mcp_")
        (name ++ (bytes "_v_" ++ (version ++ (bytes "_" ++ uuid)))))
    ∙ rw
        (span_slug-append name (bytes "_v_" ++ (version ++ (bytes "_" ++ uuid))) n
          (span_slug-underscore _))
        (bind-some _ (strip_prefix-append (bytes "_v_") (version ++ (bytes "_" ++ uuid)))
          ∙ rw (span_slug-append version (bytes "_" ++ uuid) v (span_slug-underscore _))
              (bind-some _ (strip_prefix-append (bytes "_") uuid) ∙ rw (e, u) refl))

-- The name and the version that the id of a client holds: their slugs, with nothing for the
-- name "unknown", which stands for an anonymous client.
unfoldable pub expected_client : Option ClientName → Option ClientName
expected_client none = none
expected_client (some c) =
    let name = slug_session_part c.name anonymous_stateless_client in
    if text_eq name anonymous_stateless_client
    then none
    else some (record { name = name; version = slug_session_part c.version [] })

-- Parsing the id that is built for a client gives the slugs of its name and version, whatever
-- the seed; it gives nothing for no client and for one whose name's slug is "unknown". The
-- random bytes have to be below 256.
pub parse-build :
    (client : Option ClientName) (seed : Text) (raw : ℕ → ℕ)
    → ((i : ℕ) → raw i < 256)
    → parse_stateless_session_client_info (build_stateless_session_id client seed raw)
      ≡ expected_client client
unfolding parse_stateless_session_client_info build_stateless_session_id session_name
    session_version expected_client named_client all anonymous_stateless_client bytes is_empty
    text_eq
parse-build none seed raw h =
    rw
      (match_session_id-session_id_of anonymous_stateless_client [] (session_uuid seed raw) refl
        refl refl (session_uuid-is_session_uuid seed raw h))
      refl
parse-build (some c) seed raw h =
    rw
      (match_session_id-session_id_of (slug_session_part c.name anonymous_stateless_client)
        (slug_session_part c.version []) (session_uuid seed raw)
        (slug_session_part-IsSlug c.name anonymous_stateless_client (refl, omega arith)).0
        (slug_session_part-nonempty c.name anonymous_stateless_client refl)
        (slug_session_part-IsSlug c.version [] (refl, omega arith)).0
        (session_uuid-is_session_uuid seed raw h))
      refl
