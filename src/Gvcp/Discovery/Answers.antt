-- ===== src/Gvcp/Discovery/Answers.antt =====
-- What `gvcp_discovery_ack` of capture/src/gvcp.c reads from an answer.
use mathlib.Core.List.{append_assoc, append-nil}
use multiprocessor.Common.{
  if_false, c_string, drop, if_true, take, ap, some, zero, fault, ℕ, suc, count, length-append,
  ◌>>=◌, true, [], ◌∙◌, ◌∷◌, ◌+◌, List, ◌++◌, false, ◌<◌, arith, ltb, ◌==◌, sym, ok, refl, length,
  ◌≡◌, ◌&&◌,
}
use multiprocessor.Gvcp.{Packet}
use multiprocessor.Messenger.Extract.{c_string-append}
use multiprocessor.Gvcp.Discovery.{
  discovery_ack_cmd, vendor_offset, vendor_size, model_offset, model_size, serial_offset,
  serial_size, user_offset, user_size, Identity, identity, copy_found, copy_text, hex_bytes,
  print_mac, read_identity, discovery_ack, Field, Announcement, bytes_of, behind_model,
  behind_vendor, behind_address, data_of,
}

pub drop-past : (k m : ℕ) (xs ys : List ℕ) → k ≡ length xs + m → drop k (xs ++ ys) ≡ drop m ys
drop-past k m [] ys e = let same : k ≡ m = omega (arith, e) in ap (λ t. drop t ys) same
drop-past zero m (x ∷ xs) ys e = absurd (omega (arith, e))
drop-past (suc k) m (x ∷ xs) ys e = drop-past k m xs ys (omega (arith, e))

take-past : (n : ℕ) (xs ys : List ℕ) → length xs ≡ n → take n (xs ++ ys) ≡ xs
take-past zero [] ys e = refl
take-past zero (x ∷ xs) ys e = absurd (omega (arith, e))
take-past (suc n) [] ys e = absurd (omega (arith, e))
take-past (suc n) (x ∷ xs) ys e = ap (λ t. x ∷ t) (take-past n xs ys (omega (arith, e)))

bytes_of-length : {size : ℕ} (f : Field size) → length (bytes_of f) ≡ size
bytes_of-length f = omega (arith, f.filled, length-append f.text (0 ∷ f.fill))

-- A field is copied whole, wherever it stands.
copy-Field :
    (offset : ℕ) {size : ℕ} (f : Field size) (payload more : List ℕ)
    → drop offset payload ≡ bytes_of f ++ more
    → copy_text offset size payload ≡ ok f.text
copy-Field offset {size = size} f payload more at =
    let copied : c_string (drop offset payload) ≡ some f.text =
      ap c_string at
      ∙ ap c_string (append_assoc f.text (0 ∷ f.fill) more)
      ∙ c_string-append f.text (f.fill ++ more) f.no_zero in
    let fits : ltb (length f.text) (size + 1) ≡ true = ground (arith, f.filled) in
    ap (copy_found size) copied ∙ if_true (ltb (length f.text) (size + 1)) (ok f.text) fault fits

print_mac_lem : (a : Announcement) → print_mac (data_of a) ≡ ok (hex_bytes a.address)
print_mac_lem a =
    let there : take 6 (drop 10 (data_of a)) ≡ a.address =
      ap (take 6)
        (drop-past 10 0 a.before (a.address ++ behind_address a) (omega (arith, a.before_size)))
      ∙ take-past 6 a.address (behind_address a) a.address_size in
    let six : (length a.address == 6) ≡ true = ground (arith, a.address_size) in
    rw (there, six) refl

-- What stands behind the parts before each text.
at_vendor :
    (k m : ℕ) (a : Announcement)
    → k ≡ 72 + m
    → drop k (data_of a) ≡ drop m (bytes_of a.vendor ++ behind_vendor a)
at_vendor k m a e =
    drop-past k (62 + m) a.before (a.address ++ behind_address a) (omega (arith, e, a.before_size))
    ∙ drop-past (62 + m) (56 + m) a.address (behind_address a) (omega (arith, a.address_size))
    ∙ drop-past (56 + m) m a.behind (bytes_of a.vendor ++ behind_vendor a)
        (omega (arith, a.behind_size))

at_model :
    (k m : ℕ) (a : Announcement) → k ≡ 104 + m → drop k (data_of a) ≡ drop m (behind_vendor a)
at_model k m a e =
    at_vendor k (32 + m) a (omega (arith, e))
    ∙ drop-past (32 + m) m (bytes_of a.vendor) (behind_vendor a)
        (omega (arith, bytes_of-length a.vendor))

at_serial :
    (k m : ℕ) (a : Announcement)
    → k ≡ 216 + m
    → drop k (data_of a) ≡ drop m (bytes_of a.serial ++ bytes_of a.user_id)
at_serial k m a e =
    at_model k (112 + m) a (omega (arith, e))
    ∙ drop-past (112 + m) (80 + m) (bytes_of a.model) (behind_model a)
        (omega (arith, bytes_of-length a.model))
    ∙ drop-past (80 + m) m a.between (bytes_of a.serial ++ bytes_of a.user_id)
        (omega (arith, a.between_size))

at_user : (a : Announcement) → drop 232 (data_of a) ≡ bytes_of a.user_id ++ []
at_user a =
    at_serial 232 16 a (omega arith)
    ∙ drop-past 16 0 (bytes_of a.serial) (bytes_of a.user_id)
        (omega (arith, bytes_of-length a.serial))
    ∙ sym (append-nil (bytes_of a.user_id))

read_identity_lem :
    (payload vendor model serial user_id mac : List ℕ)
    → copy_text vendor_offset vendor_size payload ≡ ok vendor
    → copy_text model_offset model_size payload ≡ ok model
    → copy_text serial_offset serial_size payload ≡ ok serial
    → copy_text user_offset user_size payload ≡ ok user_id
    → print_mac payload ≡ ok mac
    → read_identity payload
      ≡ ok
          (record { vendor = vendor; model = model; serial = serial; user_id = user_id; mac = mac })
unfolding read_identity
read_identity_lem payload vendor model serial user_id mac v m s u c =
    ap
      (λ r. r >>= λ vendor. copy_text model_offset model_size payload >>= λ model.
        copy_text serial_offset serial_size payload >>= λ serial.
        copy_text user_offset user_size payload >>= λ user_id.
        print_mac payload >>= λ mac. ok (identity vendor model serial user_id mac))
      v
    ∙ ap
        (λ r. r >>= λ model. copy_text serial_offset serial_size payload >>= λ serial.
          copy_text user_offset user_size payload >>= λ user_id.
          print_mac payload >>= λ mac. ok (identity vendor model serial user_id mac))
        m
    ∙ ap
        (λ r. r >>= λ serial. copy_text user_offset user_size payload >>= λ user_id.
          print_mac payload >>= λ mac. ok (identity vendor model serial user_id mac))
        s
    ∙ ap
        (λ r. r >>= λ user_id.
          print_mac payload >>= λ mac. ok (identity vendor model serial user_id mac))
        u
    ∙ ap (λ r. r >>= λ mac. ok (identity vendor model serial user_id mac)) c

-- An acknowledgement of a discovery whose texts each end within their field is read back: the vendor, the
-- model, the serial number and the name, and the six bytes of the address in two digits each with colons
-- between, whatever was in the arrays before and whatever fills up the fields.
pub discovery_ack-answer :
    (before : Identity) (p : Packet) (a : Announcement)
    → p.command ≡ discovery_ack_cmd
    → p.id ≡ 0xffff
    → p.payload ≡ data_of a
    → discovery_ack before (some p)
      ≡ ok (record {
        vendor = a.vendor.text;
        model = a.model.text;
        serial = a.serial.text;
        user_id = a.user_id.text;
        mac = hex_bytes a.address;
      })
unfolding discovery_ack
discovery_ack-answer before p a command id holds =
    let vendor : copy_text vendor_offset vendor_size (data_of a) ≡ ok a.vendor.text =
      copy-Field 72 a.vendor (data_of a) (behind_vendor a) (at_vendor 72 0 a (omega arith)) in
    let model : copy_text model_offset model_size (data_of a) ≡ ok a.model.text =
      copy-Field 104 a.model (data_of a) (behind_model a) (at_model 104 0 a (omega arith)) in
    let serial : copy_text serial_offset serial_size (data_of a) ≡ ok a.serial.text =
      copy-Field 216 a.serial (data_of a) (bytes_of a.user_id) (at_serial 216 0 a (omega arith)) in
    let user_id : copy_text user_offset user_size (data_of a) ≡ ok a.user_id.text =
      copy-Field 232 a.user_id (data_of a) [] (at_user a) in
    let known : (p.command == discovery_ack_cmd && p.id == 0xffff) ≡ true = rw (command, id) refl in
    if_true (p.command == discovery_ack_cmd && p.id == 0xffff) (read_identity p.payload) (ok before)
      known
    ∙ ap read_identity holds
    ∙ read_identity_lem (data_of a) a.vendor.text a.model.text a.serial.text a.user_id.text
        (hex_bytes a.address) vendor model serial user_id (print_mac_lem a)

-- A vendor's text that is longer than its field, since no byte 0 ends it there, is written behind the
-- end of its array.
pub discovery_ack-overflow :
    (before : Identity) (p : Packet) (text more : List ℕ)
    → p.command ≡ discovery_ack_cmd
    → p.id ≡ 0xffff
    → drop vendor_offset p.payload ≡ text ++ 0 ∷ more
    → count 0 text ≡ 0
    → vendor_size < length text
    → discovery_ack before (some p) ≡ fault
unfolding discovery_ack read_identity
discovery_ack-overflow before p text more command id holds no_zero long =
    let copied : c_string (drop vendor_offset p.payload) ≡ some text =
      ap c_string holds ∙ c_string-append text more no_zero in
    let wide : ltb (length text) 33 ≡ false = ground (arith, long) in
    let known : (p.command == discovery_ack_cmd && p.id == 0xffff) ≡ true = rw (command, id) refl in
    let found : copy_text vendor_offset vendor_size p.payload ≡ fault =
      ap (copy_found vendor_size) copied ∙ if_false (ltb (length text) 33) (ok text) fault wide in
    if_true (p.command == discovery_ack_cmd && p.id == 0xffff) (read_identity p.payload) (ok before)
      known
    ∙ ap
        (λ r. r >>= λ vendor. copy_text model_offset model_size p.payload >>= λ model.
          copy_text serial_offset serial_size p.payload >>= λ serial.
          copy_text user_offset user_size p.payload >>= λ user_id.
          print_mac p.payload >>= λ mac. ok (identity vendor model serial user_id mac))
        found
