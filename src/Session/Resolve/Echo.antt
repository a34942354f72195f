-- ===== src/Session/Resolve/Echo.antt =====
-- armatureanalytics/stateless_http.go: a client that echoes its session id stays in its session.
use mathlib.Core.List.{reverse, reverse-append}
use mcp_analytics_go.Prelude.{
  ℕ, ◌<◌, ◌≡◌, refl, sym, ap, ◌∙◌, Bool, true, false, Option, none, some, List, [], ◌∷◌, ◌++◌,
  append_assoc, Text, bytes, is_empty, &&-eq-true, arith,
}
use mcp_analytics_go.Json.{Value, Fields}
use mcp_analytics_go.Session.{
  is_lower_hex, is_dash, matches, is_session_uuid, ClientName, session_name, session_version,
  session_uuid, session_id_of, build_stateless_session_id, trim_space, IsPlain, trim_space-plain,
}
use mcp_analytics_go.Session.RoundTrip.{expected_client, parse-build}
use mcp_analytics_go.Session.Uuid.{session_uuid-is_session_uuid}
use mcp_analytics_go.Session.Resolve.{
  Body, find_initialize_message, client_info_from_initialize, resolve_message,
  decode_stateless_body, resolve_stateless_http_session,
}

-- A last byte, and that it passes the test.
record LastFits (p : ℕ → Bool) (s : Text) : Type 0 where
  front : Text
  last : ℕ
  ends : s ≡ front ++ last ∷ []
  fits : p last ≡ true

matches-LastFits :
    (ps : List (ℕ → Bool)) (p : ℕ → Bool) (s : Text)
    → matches (ps ++ p ∷ []) s ≡ true
    → LastFits p s
unfolding matches
matches-LastFits [] p (c ∷ []) h = record {
  front = [];
  last = c;
  ends = refl;
  fits = (&&-eq-true (p c) true h).0;
}
matches-LastFits (q ∷ ps) p (c ∷ s) h =
    let rest = matches-LastFits ps p s (&&-eq-true (q c) (matches (ps ++ p ∷ []) s) h).1 in
    record {
      front = c ∷ rest.front;
      last = rest.last;
      ends = ap (λ t. c ∷ t) rest.ends;
      fits = rest.fits;
    }
matches-LastFits [] p [] h = cc
matches-LastFits (q ∷ ps) p [] h = cc
matches-LastFits [] p (c ∷ d ∷ s) h = ground (arith, h)

LastFits-append : {p : ℕ → Bool} (s : Text) {t : Text} → LastFits p t → LastFits p (s ++ t)
LastFits-append s v = record {
  front = s ++ v.front;
  last = v.last;
  ends = ap (λ u. s ++ u) v.ends ∙ sym (append_assoc s v.front (v.last ∷ []));
  fits = v.fits;
}

session_id_of-LastFits :
    (name version uuid : Text)
    → is_session_uuid uuid ≡ true
    → LastFits is_lower_hex (session_id_of name version uuid)
unfolding session_id_of is_session_uuid
session_id_of-LastFits name version uuid h =
    let hex = is_lower_hex in
    LastFits-append (bytes "mcp_") (
      LastFits-append name (
        LastFits-append (bytes "_v_") (
          LastFits-append version (
            LastFits-append (bytes "_") (
              matches-LastFits
                (hex ∷ hex ∷ hex ∷ hex ∷ hex ∷ hex ∷ hex ∷ hex ∷ is_dash ∷ hex ∷ hex ∷ hex ∷ hex
                  ∷ is_dash ∷ hex ∷ hex ∷ hex ∷ hex ∷ is_dash ∷ hex ∷ hex ∷ hex ∷ hex ∷ is_dash
                  ∷ hex ∷ hex ∷ hex ∷ hex ∷ hex ∷ hex ∷ hex ∷ hex ∷ hex ∷ hex ∷ hex ∷ [])
                hex uuid h)))))

lower_hex-IsPlain : (c : ℕ) → is_lower_hex c ≡ true → IsPlain c
lower_hex-IsPlain c h = record { ascii = ground (arith, h); no_space = ground (arith, h) }

letter-IsPlain : IsPlain b'm'
letter-IsPlain = record { ascii = omega arith; no_space = refl }

trim_space-session_id_of :
    (name version uuid : Text)
    → is_session_uuid uuid ≡ true
    → trim_space (session_id_of name version uuid) ≡ session_id_of name version uuid
unfolding session_id_of bytes
trim_space-session_id_of name version uuid h =
    let v = session_id_of-LastFits name version uuid h in
    trim_space-plain b'm' v.last _ (reverse v.front)
      (ap reverse v.ends ∙ reverse-append v.front (v.last ∷ [])) letter-IsPlain
      (lower_hex-IsPlain v.last v.fits)

session_id_of-nonempty :
    (name version uuid : Text) → is_empty (session_id_of name version uuid) ≡ false
unfolding session_id_of bytes is_empty
session_id_of-nonempty name version uuid = refl

-- An id has nothing to trim.
pub trim_space-build :
    (client : Option ClientName) (seed : Text) (raw : ℕ → ℕ)
    → ((i : ℕ) → raw i < 256)
    → trim_space (build_stateless_session_id client seed raw)
      ≡ build_stateless_session_id client seed raw
unfolding build_stateless_session_id
trim_space-build client seed raw h =
    trim_space-session_id_of (session_name client) (session_version client) (session_uuid seed raw)
      (session_uuid-is_session_uuid seed raw h)

-- An id is never empty.
pub build-nonempty :
    (client : Option ClientName) (seed : Text) (raw : ℕ → ℕ)
    → is_empty (build_stateless_session_id client seed raw) ≡ false
unfolding build_stateless_session_id
build-nonempty client seed raw = session_id_of-nonempty _ _ _

module _ (unmarshal : Text → Option Value) where
  -- After a request with an initialize message, a request without one that sends back the id it
  -- got is in the session of that id, with the client's name and version as slugs, and starts no
  -- session, whatever the other headers and random bytes. The first request's random bytes have
  -- to be below 256.
  pub resolve-echo :
      (body : Body) (seed echo : Text) (raw : ℕ → ℕ) (initialize : Fields) (later : Body)
      (later_seed : Text) (later_raw : ℕ → ℕ)
      → find_initialize_message (decode_stateless_body unmarshal body) ≡ some initialize
      → find_initialize_message (decode_stateless_body unmarshal later) ≡ none
      → ((i : ℕ) → raw i < 256)
      → resolve_stateless_http_session unmarshal later later_seed
          (resolve_stateless_http_session unmarshal body seed echo raw).session_id
          later_raw
        ≡ record {
          session_id = build_stateless_session_id (client_info_from_initialize initialize) seed raw;
          client_info = expected_client (client_info_from_initialize initialize);
          is_initialize = false;
        }
  unfolding resolve_stateless_http_session resolve_message
  resolve-echo body seed echo raw initialize later later_seed later_raw first second h =
      let client = client_info_from_initialize initialize in
      rw (first, second)
        (rw (trim_space-build client seed raw h)
          (rw (build-nonempty client seed raw, parse-build client seed raw h) refl))
