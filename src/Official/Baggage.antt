-- ===== src/Official/Baggage.antt =====
-- armatureanalytics/official/modern_protocol.go: reading back the baggage that a client wrote.
use mcp_analytics_go.Prelude.{
  ℕ, ◌≡◌, refl, ap, ◌∙◌, inl, inr, Bool, true, false, not, Option, none, some, List, [], ◌∷◌, ◌++◌,
  append-nil, Text, text_eq, ◌==◌, ==_iff, all, all-append, &&-eq-true, Bool-cases, if◌then◌else◌,
  arith,
}
use mcp_analytics_go.Session.{trim_space}
use mcp_analytics_go.Official.Modern.{
  split_commas, cut_at, before_or_all, member_value, unescaped, find_member, baggage_member,
}

-- A text without a byte.
abbrev pub lacks : ℕ → Text → Bool
lacks b s = all (λ c. not (c == b)) s

lacks-append : (b : ℕ) (s t : Text) → lacks b s ≡ true → lacks b t ≡ true → lacks b (s ++ t) ≡ true
lacks-append b s t h k = all-append (λ c. not (c == b)) s t ∙ rw (h, k) refl

lacks-cons : (b c : ℕ) (s : Text) → lacks b (c ∷ s) ≡ true → ((c == b) ≡ false) × (lacks b s ≡ true)
unfolding all
lacks-cons b c s h =
    let both = &&-eq-true (not (c == b)) (lacks b s) h in (ground (arith, both.0), both.1)

split-last : (s : Text) → lacks b',' s ≡ true → split_commas s ≡ s ∷ []
unfolding split_commas all
split-last [] h = refl
split-last (c ∷ s) h =
    let (other, both) = lacks-cons b',' c s h in rw (other, split-last s both) refl

split-first :
    (s rest : Text) → lacks b',' s ≡ true → split_commas (s ++ b',' ∷ rest) ≡ s ∷ split_commas rest
unfolding split_commas all
split-first [] rest h = refl
split-first (c ∷ s) rest h =
    let (other, both) = lacks-cons b',' c s h in rw (other, split-first s rest both) refl

cut-absent : (b : ℕ) (s : Text) → lacks b s ≡ true → cut_at b s ≡ none
unfolding cut_at all
cut-absent b [] h = refl
cut-absent b (c ∷ s) h =
    let (other, both) = lacks-cons b c s h in rw (other, cut-absent b s both) refl

cut-present : (b : ℕ) (s t : Text) → lacks b s ≡ true → cut_at b (s ++ b ∷ t) ≡ some (s, t)
unfolding cut_at all
cut-present b [] t h = rw (((==_iff b b).1 refl)) refl
cut-present b (c ∷ s) t h =
    let (other, both) = lacks-cons b c s h in rw (other, cut-present b s t both) refl

-- One member, as it is written.
pub record Member : Type 0 where
  pub name : Text
  pub value : Text
  pub properties : Option Text

-- Its parts hold none of the bytes that end them, and no space at the ends.
pub record IsWritten (m : Member) : Type 0 where
  pub name_ends : lacks b'=' m.name ≡ true
  pub name_member : lacks b';' m.name ≡ true
  pub name_list : lacks b',' m.name ≡ true
  pub name_trimmed : trim_space m.name ≡ m.name
  pub value_member : lacks b';' m.value ≡ true
  pub value_list : lacks b',' m.value ≡ true
  pub value_trimmed : trim_space m.value ≡ m.value

-- Properties hold no comma.
abbrev pub PropertiesWritten : Option Text → Type 0
PropertiesWritten none = Unit
PropertiesWritten (some p) = lacks b',' p ≡ true

abbrev pub AllWritten : List Member → Type 0
AllWritten [] = Unit
AllWritten (m ∷ ms) = IsWritten m × PropertiesWritten m.properties × AllWritten ms

abbrev pub print_properties : Option Text → Text
print_properties none = []
print_properties (some p) = b';' ∷ p

abbrev pub print_member : Member → Text
print_member m = (m.name ++ b'=' ∷ m.value) ++ print_properties m.properties

unfoldable pub print_baggage : List Member → Text
print_baggage [] = []
print_baggage (m ∷ []) = print_member m
print_baggage (m ∷ n ∷ ms) = print_member m ++ b',' ∷ print_baggage (n ∷ ms)

core-lacks :
    (b : ℕ) (m : Member)
    → (b'=' == b) ≡ false
    → lacks b m.name ≡ true
    → lacks b m.value ≡ true
    → lacks b (m.name ++ b'=' ∷ m.value) ≡ true
unfolding all
core-lacks b m other name value = lacks-append b m.name (b'=' ∷ m.value) name (rw other value)

properties-lack : (p : Option Text) → PropertiesWritten p → lacks b',' (print_properties p) ≡ true
unfolding all
properties-lack none h = refl
properties-lack (some p) h = h

member-lacks :
    (m : Member) → IsWritten m → PropertiesWritten m.properties → lacks b',' (print_member m) ≡ true
member-lacks m w p =
    lacks-append b',' _ (print_properties m.properties)
      (core-lacks b',' m refl w.name_list w.value_list) (properties-lack m.properties p)

without_properties :
    (core : Text) (p : Option Text)
    → lacks b';' core ≡ true
    → before_or_all (cut_at b';' (core ++ print_properties p)) (core ++ print_properties p) ≡ core
without_properties core none h = rw (append-nil core, cut-absent b';' core h) refl
without_properties core (some p) h = rw (cut-present b';' core p h) refl

module _ (path_unescape : Text → Option Text) where
  -- The value of the first member with the name.
  unfoldable pub value_of : Text → List Member → Text
  value_of key [] = []
  value_of key (m ∷ ms) =
      let rest = value_of key ms in
      if text_eq m.name key then unescaped path_unescape m.value else rest

  read-member :
      (key : Text) (m : Member) (members : List Text)
      → IsWritten m
      → find_member path_unescape key (print_member m ∷ members) ≡ (
          if text_eq m.name key
          then unescaped path_unescape m.value
          else find_member path_unescape key members)
  unfolding find_member member_value
  read-member key m members w =
      rw
        (
          without_properties (m.name ++ b'=' ∷ m.value) m.properties
              (core-lacks b';' m refl w.name_member w.value_member),
          cut-present b'=' m.name m.value w.name_ends,
          w.name_trimmed,
          w.value_trimmed,
        )
        (elim (Bool-cases (text_eq m.name key)) [ inl h ↦ rw h refl | inr h ↦ rw h refl ])

  find-print :
      (ms : List Member) (key : Text)
      → AllWritten ms
      → find_member path_unescape key (split_commas (print_baggage ms)) ≡ value_of key ms
  unfolding print_baggage value_of
  find-print [] key w = unfold split_commas find_member member_value cut_at in refl
  find-print (m ∷ []) key (w, p, _) =
      ap (find_member path_unescape key) (split-last (print_member m) (member-lacks m w p))
      ∙ read-member key m [] w
      ∙ unfold find_member in refl
  find-print (m ∷ n ∷ ms) key (w, p, rest) =
      let later = find-print (n ∷ ms) key rest in
      ap (find_member path_unescape key)
        (split-first (print_member m) (print_baggage (n ∷ ms)) (member-lacks m w p))
      ∙ read-member key m (split_commas (print_baggage (n ∷ ms))) w
      ∙ ap (λ r. if text_eq m.name key then unescaped path_unescape m.value else r) later

  -- The members of a baggage header that are written with their names and values trimmed and free
  -- of the bytes that end them, with properties or without, are read back: the value of the first
  -- member with the name, percent-decoded where it can be, and nothing if there is none.
  pub baggage_member-print_baggage :
      (ms : List Member) (key : Text)
      → AllWritten ms
      → baggage_member path_unescape (print_baggage ms) key ≡ value_of key ms
  unfolding baggage_member
  baggage_member-print_baggage ms key w = find-print ms key w
