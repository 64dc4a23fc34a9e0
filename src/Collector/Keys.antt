-- ===== src/Collector/Keys.antt =====
-- collector/src/collector/collector.go: taking a key of the contract's state apart.
pub mod RoundTrip
use multichain_liquidator_bo.Base.{
  ℕ, ◌+◌, ◌*◌, Bool, Option, none, some, List, [], ◌∷◌, length, take, drop, leb, ltb, if◌then◌else◌,
}
use multichain_liquidator_bo.Base.Text.{Text, contains}

-- What the loop makes of a key: it passes over it, panics by a slice out of range, or finds the
-- map's name, the address and the denom.
pub data Key : Type 0 where
  skip malformed : Key
  entry : Text → Text → Text → Key

-- Two bytes as hexadecimal text, read by ParseInt in base 16, which cannot fail.
abbrev pub section_length : ℕ → ℕ → ℕ
section_length a b = a * 256 + b

-- A section is its length in two bytes, then that many bytes; what follows is the rest. `none` is a
-- panic. A slice expression may reach past the length up to the capacity, but `key[length:]` comes
-- next and is held to the length, so the capacity plays no part.
unfoldable pub section : Text → Option (Text × Text)
section [] = none
section (a ∷ []) = none
section (a ∷ b ∷ rest) =
    if leb (section_length a b) (length rest)
    then some (take (section_length a b) rest, drop (section_length a b) rest)
    else none

address_section : Text → Option (Text × Text) → Key
address_section name none = malformed
address_section name (some (address, denom)) = entry name address denom

-- `strings.Contains(workItem.ContractItemPrefix, string(mapName))`.
name_section : Text → Option (Text × Text) → Key
unfolding address_section
name_section prefix none = malformed
name_section prefix (some (name, rest)) =
    if contains prefix name then address_section name (section rest) else skip

unfoldable pub parse_key : Text → Text → Key
unfolding name_section
parse_key prefix key = if ltb (length key) 50 then skip else name_section prefix (section key)
