-- ===== src/Session/Uuid.antt =====
-- armatureanalytics/stateless_http.go: the UUID of an id, random or from a seed.
use Prim.Native.Nat.{bit_and, bit_or}
use mcp_analytics_go.Prelude.{
  ℕ, zero, suc, ◌/◌, ◌%◌, ◌<◌, ◌≡◌, refl, ap, ◌∙◌, inl, inr, Bool, true, false, not, ◌&&◌, List, [],
  ◌∷◌, Text, all, ltb, leb, ◌==◌, ltb→lt, ==_iff, &&-eq-true, if_cases, Bool-cases, arith,
}
use mcp_analytics_go.Session.{
  is_lower_hex, is_hex, is_dash, matches, uuid_pattern, is_version, is_variant, is_session_seed,
  is_session_uuid, to_lower, hex_digit, hex_encode, stamp_uuid, random_uuid, session_uuid,
  trim_space,
}

hex_digit-is_lower_hex : (n : ℕ) → n < 16 → is_lower_hex (hex_digit n) ≡ true
hex_digit-is_lower_hex n h = ground arith

-- The bytes of the second list pass the tests of the first.
data Fits : List (ℕ → Bool) → Text → Type 0 where
  end : Fits [] []
  char :
      {p : ℕ → Bool} {ps : List (ℕ → Bool)} {c : ℕ} {s : Text}
      → p c ≡ true
      → Fits ps s
      → Fits (p ∷ ps) (c ∷ s)

Fits-matches : {ps : List (ℕ → Bool)} {s : Text} → Fits ps s → matches ps s ≡ true
unfolding matches
Fits-matches end = refl
Fits-matches (char h f) = rw h (Fits-matches f)

byte-Fits :
    {ps : List (ℕ → Bool)} {s : Text} {b : ℕ}
    → b < 256
    → Fits ps s
    → Fits (is_lower_hex ∷ is_lower_hex ∷ ps) (hex_digit (b / 16) ∷ hex_digit (b % 16) ∷ s)
byte-Fits {b = b} h f =
    char (hex_digit-is_lower_hex (b / 16) (omega arith))
      (char (hex_digit-is_lower_hex (b % 16) (omega arith)) f)

unfoldable all_below : (ℕ → Bool) → ℕ → Bool
all_below p zero = true
all_below p (suc n) = p n && all_below p n

all_below-elem : (p : ℕ → Bool) (n k : ℕ) → all_below p n ≡ true → k < n → p k ≡ true
unfolding all_below
all_below-elem p zero k h l = absurd (omega (arith, l))
all_below-elem p (suc n) k h l =
    let both = &&-eq-true (p n) (all_below p n) h in
    elim (Bool-cases (k == n)) [
      | inl e ↦ ap p ((==_iff k n).0 e) ∙ both.0
      | inr d ↦ all_below-elem p n k both.1 (ground arith)
    ]

version_table : all_below (λ b. ltb (bit_or (bit_and b 0x0f) 0x40) 256) 256 ≡ true
unfolding all_below
version_table = refl

variant_table : all_below (λ b. ltb (bit_or (bit_and b 0x3f) 0x80) 256) 256 ≡ true
unfolding all_below
variant_table = refl

stamp_uuid_lt : (raw : ℕ → ℕ) → ((i : ℕ) → raw i < 256) → (i : ℕ) → stamp_uuid raw i < 256
unfolding stamp_uuid
stamp_uuid_lt raw h i =
    if_cases (λ n. n < 256) (i == 6)
      (λ _. ltb→lt _ _ (all_below-elem _ 256 (raw 6) version_table (h 6)))
      (λ _.
        if_cases (λ n. n < 256) (i == 8)
          (λ _. ltb→lt _ _ (all_below-elem _ 256 (raw 8) variant_table (h 8))) (λ _. h i))

random_uuid-is_session_uuid :
    (raw : ℕ → ℕ) → ((i : ℕ) → raw i < 256) → is_session_uuid (random_uuid raw) ≡ true
unfolding is_session_uuid random_uuid hex_encode
random_uuid-is_session_uuid raw h =
    let b = stamp_uuid_lt raw h in
    Fits-matches {ps = uuid_pattern is_lower_hex is_lower_hex is_lower_hex} {s = random_uuid raw} (
      byte-Fits (b 0) (
        byte-Fits (b 1) (
          byte-Fits (b 2) (
            byte-Fits (b 3) (
              char refl (
                byte-Fits (b 4) (
                  byte-Fits (b 5) (
                    char refl (
                      byte-Fits (b 6) (
                        byte-Fits (b 7) (
                          char refl (
                            byte-Fits (b 8) (
                              byte-Fits (b 9) (
                                char refl (
                                  byte-Fits (b 10) (
                                    byte-Fits (b 11) (
                                      byte-Fits (b 12) (
                                        byte-Fits (b 13) (
                                          byte-Fits (b 14) (byte-Fits (b 15) end))))))))))))))))))))

abbrev is_upper : ℕ → Bool
is_upper c = leb b'A' c && leb c b'Z'

-- Each test of the first pattern implies the second's on a byte that is no capital letter.
data Weaker : List (ℕ → Bool) → List (ℕ → Bool) → Type 0 where
  done : Weaker [] []
  next :
      {p q : ℕ → Bool} {ps qs : List (ℕ → Bool)}
      → ((c : ℕ) → is_upper c ≡ false → p c ≡ true → q c ≡ true)
      → Weaker ps qs
      → Weaker (p ∷ ps) (q ∷ qs)

matches-Weaker :
    {ps qs : List (ℕ → Bool)} (s : Text)
    → Weaker ps qs
    → all (λ c. not (is_upper c)) s ≡ true
    → matches ps s ≡ true
    → matches qs s ≡ true
unfolding matches all
matches-Weaker [] done a m = refl
matches-Weaker [] (next f w) a m = cc
matches-Weaker (c ∷ s) done a m = cc
matches-Weaker (c ∷ s) (next {p} {q} {ps} {qs} f w) a m =
    let here = &&-eq-true (p c) (matches ps s) m in
    let low = &&-eq-true (not (is_upper c)) (all (λ d. not (is_upper d)) s) a in
    rw (f c (ground (arith, low.0)) here.0, matches-Weaker s w low.1 here.1) refl

hex_next : {ps qs : List (ℕ → Bool)} → Weaker ps qs → Weaker (is_hex ∷ ps) (is_lower_hex ∷ qs)
hex_next w = next (λ c low h. ground arith) w

hex_next_4 :
    {ps qs : List (ℕ → Bool)}
    → Weaker ps qs
    → Weaker
        (is_hex ∷ is_hex ∷ is_hex ∷ is_hex ∷ ps)
        (is_lower_hex ∷ is_lower_hex ∷ is_lower_hex ∷ is_lower_hex ∷ qs)
hex_next_4 w = hex_next (hex_next (hex_next (hex_next w)))

dash_next : {ps qs : List (ℕ → Bool)} → Weaker ps qs → Weaker (is_dash ∷ ps) (is_dash ∷ qs)
dash_next w = next (λ c low h. h) w

seed_Weaker :
    Weaker
      (uuid_pattern is_hex is_version is_variant)
      (uuid_pattern is_lower_hex is_lower_hex is_lower_hex)
seed_Weaker = hex_next_4 (
    hex_next_4 (
      dash_next (
        hex_next_4 (
          dash_next (
            next (λ c low h. ground arith)
              (hex_next (
                hex_next (
                  hex_next (
                    dash_next (
                      next (λ c low h. ground arith)
                        (hex_next (
                          hex_next (
                            hex_next
                              (dash_next (hex_next_4 (hex_next_4 (hex_next_4 done)))))))))))))))))

to_lower-no_upper : (s : Text) → all (λ c. not (is_upper c)) (to_lower s) ≡ true
unfolding to_lower all
to_lower-no_upper [] = refl
to_lower-no_upper (c ∷ s) = rw (to_lower-no_upper s) (ground arith)

-- The UUID of an id has the shape that the pattern of ids wants, when the random bytes are bytes.
pub session_uuid-is_session_uuid :
    (seed : Text) (raw : ℕ → ℕ)
    → ((i : ℕ) → raw i < 256)
    → is_session_uuid (session_uuid seed raw) ≡ true
unfolding session_uuid is_session_uuid is_session_seed
session_uuid-is_session_uuid seed raw h =
    elim (Bool-cases (is_session_seed (to_lower (trim_space seed)))) [
      | inl e ↦ rw e (matches-Weaker _ seed_Weaker (to_lower-no_upper (trim_space seed)) e)
      | inr e ↦ rw e (random_uuid-is_session_uuid raw h)
    ]
