-- ===== src/Collector/Keys/RoundTrip.antt =====
-- Parsing a key of the contract's state against building one.
use multichain_liquidator_bo.Base.{
  ℕ, zero, suc, subst, ◌+◌, ◌*◌, ◌/◌, ◌%◌, ◌<◌, ◌≤◌, ◌≡◌, refl, sym, ap, ◌∙◌, true, Option, none,
  some, [], ◌∷◌, ◌++◌, arith, Bool-cases, inl, inr, length, length-append, length-take, take, drop,
  take-append, drop-append, take-append-drop, All, leb, ltb, le→leb, leb→le, le→not_ltb, not_ltb→le,
  ap₂,
}
use multichain_liquidator_bo.Base.Text.{Text, contains}
use multichain_liquidator_bo.Collector.Keys.{
  skip, entry, section, name_section, address_section, parse_key,
}

-- A section as cw-storage-plus writes it: the length in two bytes, big endian, and the bytes.
abbrev pub prefixed : Text → Text
prefixed s = (length s / 256) ∷ (length s % 256) ∷ s

abbrev pub build_key : Text → Text → Text → Text
build_key name address denom = prefixed name ++ (prefixed address ++ denom)

section-prefixed : (s rest : Text) → section (prefixed s ++ rest) ≡ some (s, rest)
unfolding section
section-prefixed s rest =
    let e : length s / 256 * 256 + length s % 256 ≡ length s = omega arith in
    rw (e, length-append {0}, take-append, drop-append)
      (rw (le→leb (length s) (length s + length rest) (omega arith)) refl)

section_pieces :
    (a b : ℕ) (key s rest : Text)
    → a < 256
    → b < 256
    → a * 256 + b ≤ length key
    → take (a * 256 + b) key ≡ s
    → drop (a * 256 + b) key ≡ rest
    → a ∷ b ∷ key ≡ prefixed s ++ rest
section_pieces a b key s rest ha hb h es er =
    let n : length s ≡ a * 256 + b =
      ap length (sym es) ∙ length-take (a * 256 + b) key ∙ omega arith in
    let hi : a ≡ length s / 256 = omega arith in
    let lo : b ≡ length s % 256 = omega arith in
    ap₂ (λ (x y : ℕ). x ∷ y ∷ key) hi lo
    ∙ ap (λ (t : Text). (length s / 256) ∷ (length s % 256) ∷ t)
        (sym (take-append-drop (a * 256 + b) key) ∙ ap₂ (λ (x y : Text). x ++ y) es er)

-- What a section was read from.
section_inv :
    (key s rest : Text)
    → All (λ b. b < 256) key
    → section key ≡ some (s, rest)
    → key ≡ prefixed s ++ rest
unfolding section
section_inv [] s rest bytes h = cc
section_inv (a ∷ []) s rest bytes h = cc
section_inv (a ∷ b ∷ key) s rest bytes h = elim (Bool-cases (leb (a * 256 + b) (length key))) [
  | inl fits ↦
      let e : ◌≡◌ {A = Option (Text × Text)} (some (take (a * 256 + b) key, drop (a * 256 + b) key))
          (some (s, rest)) =
        rw fits at h in
      section_pieces a b key s rest bytes.0 bytes.1.0 (leb→le _ _ fits) (cc) (cc)
  | inr short ↦ let e : ◌≡◌ {A = Option (Text × Text)} none (some (s, rest)) = rw short at h in cc
]

-- A key that cw-storage-plus wrote for a map whose name stands in the prefix of the work item, 50
-- bytes long or more, is parsed into that name, the address and the denom.
pub parse_key-build_key :
    (prefix name address denom : Text)
    → 50 ≤ length (build_key name address denom)
    → contains prefix name ≡ true
    → parse_key prefix (build_key name address denom) ≡ entry name address denom
unfolding parse_key
parse_key-build_key prefix name address denom long wanted =
    rw (le→not_ltb (length (build_key name address denom)) 50 long) (
      rw (section-prefixed name (prefixed address ++ denom), wanted)
        (rw (section-prefixed address denom) refl))

-- The bytes of the rest are bytes too.
All-drop : (n : ℕ) (key : Text) → All (λ b. b < 256) key → All (λ b. b < 256) (drop n key)
All-drop zero key h = h
All-drop (suc n) [] h = tt
All-drop (suc n) (b ∷ key) h = All-drop n key h.1

section_bytes :
    (key s rest : Text)
    → All (λ b. b < 256) key
    → section key ≡ some (s, rest)
    → All (λ b. b < 256) rest
unfolding section
section_bytes [] s rest bytes h = cc
section_bytes (a ∷ []) s rest bytes h = cc
section_bytes (a ∷ b ∷ key) s rest bytes h = elim (Bool-cases (leb (a * 256 + b) (length key))) [
  | inl fits ↦
      let e : ◌≡◌ {A = Option (Text × Text)} (some (take (a * 256 + b) key, drop (a * 256 + b) key))
          (some (s, rest)) =
        rw fits at h in
      let r : drop (a * 256 + b) key ≡ rest = cc in
      subst (All (λ b. b < 256)) r (All-drop (a * 256 + b) key bytes.1.1)
  | inr short ↦ let e : ◌≡◌ {A = Option (Text × Text)} none (some (s, rest)) = rw short at h in cc
]

address_section_inv :
    (name rest n a d : Text)
    → All (λ b. b < 256) rest
    → address_section name (section rest) ≡ entry n a d
    → (name ≡ n) × (rest ≡ prefixed a ++ d)
unfolding address_section
address_section_inv name rest n a d bytes h = go (section rest) refl h
  where
    go :
        (r : Option (Text × Text))
        → section rest ≡ r
        → address_section name r ≡ entry n a d
        → (name ≡ n) × (rest ≡ prefixed a ++ d)
    go none e g = cc
    go (some (x, y)) e g =
        let (en, ex, ey) : (name ≡ n) × (x ≡ a) × (y ≡ d) = (cc, cc, cc) in
        (en, section_inv rest x y bytes e ∙ ap₂ (λ (u v : Text). prefixed u ++ v) ex ey)

name_section_inv :
    (prefix key n a d : Text)
    → All (λ b. b < 256) key
    → name_section prefix (section key) ≡ entry n a d
    → (key ≡ build_key n a d) × (contains prefix n ≡ true)
unfolding name_section
name_section_inv prefix key n a d bytes h = go (section key) refl h
  where
    go :
        (r : Option (Text × Text))
        → section key ≡ r
        → name_section prefix r ≡ entry n a d
        → (key ≡ build_key n a d) × (contains prefix n ≡ true)
    go none e g = cc
    go (some (x, rest)) e g = elim (Bool-cases (contains prefix x)) [
      | inl wanted ↦
          let (en, er) =
            address_section_inv x rest n a d (section_bytes key x rest bytes e) (rw wanted at g) in
          (
            section_inv key x rest bytes e ∙ ap₂ (λ (u v : Text). prefixed u ++ v) en er,
            ap (contains prefix) (sym en) ∙ wanted,
          )
      | inr other ↦ let f : skip ≡ entry n a d = rw other at g in cc
    ]

-- A key that is parsed into a name, an address and a denom is the one that cw-storage-plus writes
-- for them, it is 50 bytes long or more, and the name stands in the prefix.
pub parse_key_inv :
    (prefix key n a d : Text)
    → All (λ b. b < 256) key
    → parse_key prefix key ≡ entry n a d
    → (key ≡ build_key n a d) × (50 ≤ length key) × (contains prefix n ≡ true)
unfolding parse_key
parse_key_inv prefix key n a d bytes h = elim (Bool-cases (ltb (length key) 50)) [
  | inl short ↦ let f : skip ≡ entry n a d = rw short at h in cc
  | inr long ↦
      let (e, w) = name_section_inv prefix key n a d bytes (rw long at h) in
      (e, not_ltb→le (length key) 50 long, w)
]

address_section_name :
    (name : Text) (r : Option (Text × Text)) (n a d : Text)
    → address_section name r ≡ entry n a d
    → name ≡ n
unfolding address_section
address_section_name name none n a d h = cc
address_section_name name (some (x, y)) n a d h = cc

-- Whatever the key's bytes: a map's name that is found stands in the prefix.
pub parse_key_wanted :
    (prefix key n a d : Text) → parse_key prefix key ≡ entry n a d → contains prefix n ≡ true
unfolding parse_key
parse_key_wanted prefix key n a d h = elim (Bool-cases (ltb (length key) 50)) [
  | inl short ↦ let f : skip ≡ entry n a d = rw short at h in cc
  | inr long ↦ go (section key) (rw long at h)
]
  where
    go : (r : Option (Text × Text)) → name_section prefix r ≡ entry n a d → contains prefix n ≡ true
    go none g = cc
    go (some (x, rest)) g = elim (Bool-cases (contains prefix x)) [
      | inl wanted ↦
          ap (contains prefix) (sym (address_section_name x (section rest) n a d (rw wanted at g)))
          ∙ wanted
      | inr other ↦ let f : skip ≡ entry n a d = rw other at g in cc
    ]
