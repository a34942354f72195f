-- ===== src/Session/Space.antt =====
-- `strings.TrimSpace` on the bytes of a string: the white space of Unicode, in UTF-8.
use mathlib.Core.List.{reverse, reverse-reverse}
use mcp_analytics_go.Prelude.{
  ℕ, ◌<◌, ◌≡◌, sym, ap, ◌∙◌, Bool, false, ◌&&◌, ◌||◌, [], ◌∷◌, Text, leb, ◌==◌, if◌then◌else◌,
  arith,
}

abbrev pub is_ascii_space : ℕ → Bool
is_ascii_space c = leb 9 c && leb c 13 || c == 32

-- U+0085 and U+00A0.
abbrev is_space_pair : ℕ → ℕ → Bool
is_space_pair c d = c == 0xC2 && (d == 0x85 || d == 0xA0)

-- U+1680, U+2000 to U+200A, U+2028, U+2029, U+202F, U+205F and U+3000.
abbrev is_space_triple : ℕ → ℕ → ℕ → Bool
is_space_triple c d e =
    (c == 0xE1 && (d == 0x9A && e == 0x80))
    || ((c == 0xE2
          && (d == 0x80 && (leb 0x80 e && leb e 0x8A || (e == 0xA8 || (e == 0xA9 || e == 0xAF)))))
        || ((c == 0xE2 && (d == 0x81 && e == 0x9F)) || (c == 0xE3 && (d == 0x80 && e == 0x80))))

-- Trims at the front; a reversed text is trimmed with the tests reversed.
module _ (pair : ℕ → ℕ → Bool) (triple : ℕ → ℕ → ℕ → Bool) where
  unfoldable pub trim_front : Text → Text
  trim_front [] = []
  trim_front (c ∷ []) = if is_ascii_space c then [] else c ∷ []
  trim_front (c ∷ d ∷ []) =
      let one = trim_front (d ∷ []) in
      if is_ascii_space c then one else if pair c d then [] else c ∷ d ∷ []
  trim_front (c ∷ d ∷ e ∷ s) =
      let one = trim_front (d ∷ e ∷ s) in
      let two = trim_front (e ∷ s) in
      let three = trim_front s in
      if is_ascii_space c
      then one
      else if pair c d
      then two
      else if triple c d e
      then three
      else c ∷ d ∷ e ∷ s

unfoldable pub trim_space : Text → Text
trim_space s = reverse (
    trim_front (λ c d. is_space_pair d c) (λ c d e. is_space_triple e d c)
      (reverse (trim_front is_space_pair is_space_triple s)))

trim_front-plain :
    (pair : ℕ → ℕ → Bool) (triple : ℕ → ℕ → ℕ → Bool) (c : ℕ) (s : Text)
    → is_ascii_space c ≡ false
    → ((d : ℕ) → pair c d ≡ false)
    → ((d e : ℕ) → triple c d e ≡ false)
    → trim_front pair triple (c ∷ s) ≡ c ∷ s
unfolding trim_front
trim_front-plain pair triple c [] n p t = rw n
trim_front-plain pair triple c (d ∷ []) n p t = rw (n, p d)
trim_front-plain pair triple c (d ∷ e ∷ s) n p t = rw (n, p d, t d e)

-- A printable ASCII byte.
pub record IsPlain (c : ℕ) : Type 0 where
  pub ascii : c < 128
  pub no_space : is_ascii_space c ≡ false

-- A text whose first and last bytes are printable ASCII has nothing to trim.
pub trim_space-plain :
    (c l : ℕ) (s t : Text)
    → reverse (c ∷ s) ≡ l ∷ t
    → IsPlain c
    → IsPlain l
    → trim_space (c ∷ s) ≡ c ∷ s
unfolding trim_space
trim_space-plain c l s t last pc pl =
    rw
      (trim_front-plain is_space_pair is_space_triple c s pc.no_space
        (λ d. ground (arith, pc.ascii)) (λ d e. ground (arith, pc.ascii)))
      (rw last (
        rw
          (trim_front-plain (λ c d. is_space_pair d c) (λ c d e. is_space_triple e d c) l t
            pl.no_space (λ d. ground (arith, pl.ascii)) (λ d e. ground (arith, pl.ascii)))
          (ap reverse (sym last) ∙ reverse-reverse (c ∷ s))))
