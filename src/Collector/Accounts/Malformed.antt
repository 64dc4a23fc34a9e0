-- ===== src/Collector/Accounts/Malformed.antt =====
-- Keys at which the loop over a page panics.
use multichain_liquidator_bo.Base.{
  ℕ, ◌+◌, ◌*◌, ◌<◌, ◌≤◌, ◌≡◌, refl, sym, true, Option, none, some, List, [], ◌∷◌, ◌++◌, arith,
  length, length-append, take-append, drop-append, le→leb, lt→not_leb, le→not_ltb,
}
use multichain_liquidator_bo.Base.Text.{Text, contains}
use multichain_liquidator_bo.Base.Action.{Result}
use multichain_liquidator_bo.Runtime.Types.{WorkItem}
use multichain_liquidator_bo.Collector.Keys.{malformed, section, parse_key}
use multichain_liquidator_bo.Collector.Accounts.{Model, Accounts, track_key, gather}

-- A key whose sections reach past its end. Its first two bytes announce a name that is longer than
-- what follows them; or the name is there and wanted, and behind it are less than two bytes, or two
-- that announce an address that is longer than what follows them.
pub data Overruns (prefix : Text) : Text → Type 0 where
  name_cut : (a b : ℕ) (rest : Text) → length rest < a * 256 + b → Overruns prefix (a ∷ b ∷ rest)
  no_address :
      (a b : ℕ) (name rest : Text)
      → length name ≡ a * 256 + b
      → contains prefix name ≡ true
      → length rest < 2
      → Overruns prefix (a ∷ b ∷ (name ++ rest))
  address_cut :
      (a b c d : ℕ) (name rest : Text)
      → length name ≡ a * 256 + b
      → contains prefix name ≡ true
      → length rest < c * 256 + d
      → Overruns prefix (a ∷ b ∷ (name ++ c ∷ d ∷ rest))

section_cut : (a b : ℕ) (rest : Text) → length rest < a * 256 + b → section (a ∷ b ∷ rest) ≡ none
unfolding section
section_cut a b rest h = rw (lt→not_leb (a * 256 + b) (length rest) h) refl

section_short : (rest : Text) → length rest < 2 → section rest ≡ none
unfolding section
section_short [] h = refl
section_short (a ∷ []) h = refl
section_short (a ∷ b ∷ rest) h = absurd (omega arith)

section_whole :
    (a b : ℕ) (s rest : Text)
    → length s ≡ a * 256 + b
    → section (a ∷ b ∷ (s ++ rest)) ≡ some (s, rest)
unfolding section
section_whole a b s rest h =
    rw (sym h, length-append {0}, take-append, drop-append)
      (rw (le→leb (length s) (length s + length rest) (omega arith)) refl)

parse_key-Overruns :
    (prefix key : Text) → Overruns prefix key → 50 ≤ length key → parse_key prefix key ≡ malformed
unfolding parse_key
parse_key-Overruns prefix _ (name_cut a b rest h) long =
    rw (le→not_ltb (length (a ∷ b ∷ rest)) 50 long) (rw (section_cut a b rest h) refl)
parse_key-Overruns prefix _ (no_address a b name rest e wanted h) long =
    rw (le→not_ltb (length (a ∷ b ∷ (name ++ rest))) 50 long)
      (rw (section_whole a b name rest e, wanted) (rw (section_short rest h) refl))
parse_key-Overruns prefix _ (address_cut a b c d name rest e wanted h) long =
    rw (le→not_ltb (length (a ∷ b ∷ (name ++ c ∷ d ∷ rest))) 50 long)
      (rw (section_whole a b name (c ∷ d ∷ rest) e, wanted) (rw (section_cut c d rest h) refl))

module _ (item : WorkItem) (unmarshal : Text → Result Text) where
  gather_stop :
      (m : Model) (ms : List Model) (before : Accounts)
      → parse_key item.contract_item_prefix m.key ≡ malformed
      → gather item unmarshal (m ∷ ms) before ≡ none
  unfolding gather track_key
  gather_stop m ms before e = rw (e, gather) refl

  -- Where the rest of a page panics whatever was gathered, the page does.
  gather_on :
      (m : Model) (ms : List Model) (before : Accounts)
      → ((middle : Accounts) → gather item unmarshal ms middle ≡ none)
      → gather item unmarshal (m ∷ ms) before ≡ none
  unfolding gather
  gather_on m ms before h =
      go (track_key item unmarshal (parse_key item.contract_item_prefix m.key) m.value before)
    where
      go :
          (o : Option Accounts)
          → elim o [ none ↦ none | some middle ↦ gather item unmarshal ms middle ] ≡ none
      go none = refl
      go (some middle) = h middle

  -- One key of 50 bytes or more whose name, or behind a wanted name the address with the two bytes of
  -- its length, reaches past the end of the key panics the whole page, wherever on it the key stands
  -- and whatever the other models and the decoding of the values are.
  pub gather_malformed :
      (ms : List Model) (m : Model) (rest : List Model) (before : Accounts)
      → 50 ≤ length m.key
      → Overruns item.contract_item_prefix m.key
      → gather item unmarshal (ms ++ m ∷ rest) before ≡ none
  gather_malformed [] m rest before long overruns =
      gather_stop m rest before (parse_key-Overruns item.contract_item_prefix m.key overruns long)
  gather_malformed (x ∷ ms) m rest before long overruns =
      gather_on x (ms ++ m ∷ rest) before
        (λ middle. gather_malformed ms m rest middle long overruns)
