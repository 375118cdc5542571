-- ===== src/Simulator/Config/Names.antt =====
-- internal/simulator/config.go: IED names, GOOSE application ids, MAC addresses and IEC 61850
-- addresses. White space is that of ASCII.
use virtual_bess.Prelude.{
  ℕ, ◌+◌, ◌/◌, ◌%◌, List, [], ◌∷◌, ◌++◌, Bool, true, false, not, ◌&&◌, ◌||◌, Option, none, some,
  ltb, ◌==◌, if◌then◌else◌, length,
}
use virtual_bess.Prelude.Integer.{ℤ, pos, negsuc, is_positive, atoi}
use virtual_bess.Prelude.Text.{
  Text, codes, is_empty, is_digit, is_alpha, trim_space, trim_prefix, remove_all, parse_hex_u16,
  hex_decode,
}
use virtual_bess.Prelude.HostPort.{split_host_port}
use virtual_bess.Simulator.Config.{Iec61850Config, Iec61850DeviceConfig}

-- `%02d` of a `uint8`
abbrev pub two_digits : ℕ → Text
two_digits id =
    let last = (b'0' + id / 10 % 10) ∷ (b'0' + id % 10) ∷ [] in
    if ltb id 100 then last else (b'0' + id / 100) ∷ last

-- `effectiveIEDName`, which `EffectiveIEDName` calls
unfoldable pub effective_ied_name : Iec61850Config → Iec61850DeviceConfig → Bool → Text
effective_ied_name cfg device multi =
    if not (is_empty device.ied_name)
    then device.ied_name
    else if not (is_empty cfg.ied_name)
    then cfg.ied_name
    else if multi
    then codes "PCS" ++ two_digits device.pcs_slave_id
    else codes "TEMPLATE"

-- a letter, a digit or an underscore; a byte of a character beyond ASCII is none of them
abbrev pub is_ied_byte : ℕ → Bool
is_ied_byte c = is_alpha c || is_digit c || (c == b'_')

abbrev pub all_ied_bytes : Text → Bool
all_ied_bytes [] = true
all_ied_bytes (c ∷ s) = if is_ied_byte c then all_ied_bytes s else false

abbrev pub starts_alpha : Text → Bool
starts_alpha [] = false
starts_alpha (c ∷ s) = is_alpha c

-- `isValidIEDName`
unfoldable pub is_valid_ied_name : Text → Bool
is_valid_ied_name name =
    if is_empty name || ltb 32 (length name) then false else starts_alpha name && all_ied_bytes name

-- `parseIEC61850AppID`, which `ParseIEC61850AppID` calls
unfoldable pub parse_iec61850_app_id : Text → Option ℕ
parse_iec61850_app_id value =
    let text = trim_space value in
    if is_empty text
    then none
    else parse_hex_u16 (trim_prefix b'0' b'X' (trim_prefix b'0' b'x' text))

abbrev pub six_octets : Option (List ℕ) → Option (List ℕ)
six_octets none = none
six_octets (some bytes) = if length bytes == 6 then some bytes else none

-- `parseIEC61850MAC`, which `ParseIEC61850MAC` calls
unfoldable pub parse_iec61850_mac : Text → Option (List ℕ)
parse_iec61850_mac value =
    let text = remove_all b':' (remove_all b'-' (trim_space value)) in
    if not (length text == 12) then none else six_octets (hex_decode text)

abbrev pub above_port : ℤ → Bool
above_port (pos n) = ltb 65535 n
above_port (negsuc n) = false

abbrev pub with_port : Text → Option ℤ → Option (Text × ℤ)
with_port host none = none
with_port host (some port) =
    if not (is_positive port) || above_port port then none else some (host, port)

-- `splitIEC61850Address`, which `SplitIEC61850Address` calls
unfoldable pub split_iec61850_address : Text → Option (Text × ℤ)
split_iec61850_address address = elim (split_host_port address) [
  | none ↦ none
  | some (host, port_text) ↦ with_port host (atoi port_text)
]
