-- ===== src/Gvcp/Discovery.antt =====
-- `gvcp_discovery_ack` of capture/src/gvcp.c: what a device says of itself in its answer to a discovery.
pub mod Answers
use mathlib.Core.List.{append-nil, append_assoc}
use multiprocessor.Common.{
  if_true, drop, take, c_string, ◌∙◌, true, sym, Option, length-append, none, ok, ◌++◌, [], ap, ltb,
  if◌then◌else◌, zero, ◌%◌, refl, length, ◌+◌, Run, some, fault, ℕ, arith, ◌==◌, ◌/◌, count, ◌>>=◌,
  ◌≡◌, List, suc, ◌∷◌, ◌&&◌,
}
use multiprocessor.Gvcp.{Packet}

-- `GVCP_COMMAND_DISCOVERY_ACK`.
abbrev pub discovery_ack_cmd : ℕ
discovery_ack_cmd = 0x0003

-- The places and sizes of the texts in the answer's data.
abbrev pub vendor_offset : ℕ
vendor_offset = 0x48

abbrev pub vendor_size : ℕ
vendor_size = 32

abbrev pub model_offset : ℕ
model_offset = 0x68

abbrev pub model_size : ℕ
model_size = 32

abbrev pub serial_offset : ℕ
serial_offset = 0xd8

abbrev pub serial_size : ℕ
serial_size = 16

abbrev pub user_offset : ℕ
user_offset = 0xe8

abbrev pub user_size : ℕ
user_size = 16

abbrev pub mac_offset : ℕ
mac_offset = 0x08

-- The texts of `struct device` that the function sets.
pub record Identity : Type 0 where
  pub vendor : List ℕ
  pub model : List ℕ
  pub serial : List ℕ
  pub user_id : List ℕ
  pub mac : List ℕ

abbrev pub identity : (vendor model serial user_id mac : List ℕ) → Identity
identity vendor model serial user_id mac = record {
  vendor = vendor;
  model = model;
  serial = serial;
  user_id = user_id;
  mac = mac;
}

-- `strcpy` of a text into an array with one byte more than the field's size.
abbrev pub copy_found : (size : ℕ) → Option (List ℕ) → Run (List ℕ)
copy_found size none = fault
copy_found size (some text) = if ltb (length text) (size + 1) then ok text else fault

-- The text at a place of the data.
abbrev pub copy_text : (offset size : ℕ) → List ℕ → Run (List ℕ)
copy_text offset size payload = copy_found size (c_string (drop offset payload))

-- `%02hhx`, with the codes of the digits.
abbrev pub hex_digit : ℕ → ℕ
hex_digit n = if ltb n 10 then 48 + n else 87 + n

abbrev pub hex_byte : ℕ → List ℕ
hex_byte b = hex_digit (b / 16 % 16) ∷ hex_digit (b % 16) ∷ []

-- Bytes with a colon between each two.
abbrev pub hex_bytes : List ℕ → List ℕ
hex_bytes [] = []
hex_bytes (b ∷ []) = hex_byte b
hex_bytes (b ∷ c ∷ bytes) = hex_byte b ++ 58 ∷ hex_bytes (c ∷ bytes)

-- The six bytes; data that end before them are read behind.
abbrev pub print_mac : List ℕ → Run (List ℕ)
print_mac payload =
    let bytes = take 6 (drop (mac_offset + 2) payload) in
    if length bytes == 6 then ok (hex_bytes bytes) else fault

-- All of the texts.
unfoldable pub read_identity : List ℕ → Run Identity
read_identity payload = copy_text vendor_offset vendor_size payload >>= λ vendor.
    copy_text model_offset model_size payload >>= λ model.
    copy_text serial_offset serial_size payload >>= λ serial.
    copy_text user_offset user_size payload >>= λ user_id. print_mac payload >>= λ mac.
    ok (record { vendor = vendor; model = model; serial = serial; user_id = user_id; mac = mac })

-- `gvcp_discovery_ack`, given all of its arrays: what it leaves in them. No packet, or one of another
-- kind, leaves them alone.
unfoldable pub discovery_ack : Identity → Option Packet → Run Identity
unfolding read_identity
discovery_ack before none = ok before
discovery_ack before (some p) =
    if p.command == discovery_ack_cmd && p.id == 0xffff then read_identity p.payload else ok before

-- A field of the data: a text, a byte 0, and what fills it up.
pub record Field (size : ℕ) : Type 0 where
  pub text : List ℕ
  pub fill : List ℕ
  pub no_zero : count 0 text ≡ 0
  pub filled : length text + 1 + length fill ≡ size

abbrev pub bytes_of : {size : ℕ} → Field size → List ℕ
bytes_of f = f.text ++ 0 ∷ f.fill

-- What a device puts into its answer: the texts, the six bytes of its address, and the rest.
pub record Announcement : Type 0 where
  pub before : List ℕ
  pub address : List ℕ
  pub behind : List ℕ
  pub vendor : Field 32
  pub model : Field 32
  pub between : List ℕ
  pub serial : Field 16
  pub user_id : Field 16
  pub before_size : length before ≡ 10
  pub address_size : length address ≡ 6
  pub behind_size : length behind ≡ 56
  pub between_size : length between ≡ 80

abbrev pub behind_model : Announcement → List ℕ
behind_model a = a.between ++ (bytes_of a.serial ++ bytes_of a.user_id)

abbrev pub behind_vendor : Announcement → List ℕ
behind_vendor a = bytes_of a.model ++ behind_model a

abbrev pub behind_address : Announcement → List ℕ
behind_address a = a.behind ++ (bytes_of a.vendor ++ behind_vendor a)

abbrev pub data_of : Announcement → List ℕ
data_of a = a.before ++ (a.address ++ behind_address a)
