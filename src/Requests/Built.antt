-- ===== src/Requests/Built.antt =====
-- The packets that ScanUtils builds, against the attributes that they are meant to carry.
use dumbos_platform_system_c.Base.{
  ℕ, suc, ltb, ltb→lt, ◌+◌, ◌<◌, ◌≤◌, ◌≡◌, refl, ap, sym, ◌∙◌, Bool, true, false, List, [], ◌∷◌,
  ◌++◌, arith, length, Bytes, ◌==◌, is_empty, le_bytes, append-nil, append_assoc, length-append,
  bit_or,
}
use dumbos_platform_system_c.Uapi.{nla_hdrlen, nlm_f_request, nlm_f_ack}
use dumbos_platform_system_c.Nl80211
use dumbos_platform_system_c.Attribute
use dumbos_platform_system_c.Attribute.{new_raw, new_int, new_nested}
use dumbos_platform_system_c.Attribute.Layout.{
  Attr, Fits, encode, encode_all, new_raw-encode, new_int-encode,
}
use dumbos_platform_system_c.Attribute.Nested.{
  nested, encode_all-append, new_nested-encode, add_attribute-encode,
}
use dumbos_platform_system_c.Attribute.Indexed.{indexed, indexed-AllFit}
use dumbos_platform_system_c.Attribute.Lookup.{AllFit}
use dumbos_platform_system_c.Packet.Layout.{Header, encode_packet}
use dumbos_platform_system_c.Packet.Build.{
  IsBuilt, unless, add_attribute-IsBuilt, skip-IsBuilt, flagged-IsBuilt,
}
use dumbos_platform_system_c.Manager.Calls.{Origin}
use dumbos_platform_system_c.Scanner.Request.{ScanParams}
use dumbos_platform_system_c.Requests.{add_indexed, add_unless, ssids_attr, freqs_attr, scan_packet}

-- The values fit the widths of the header's fields.
pub record FitsOrigin (o : Origin) : Type 0 where
  pub family_fits : o.family_id < 65536
  pub sequence_fits : o.sequence < 4294967296
  pub pid_fits : o.pid < 4294967296

-- The header of a request that asks for an acknowledgement.
abbrev pub ack_header : Origin → ℕ → Header
ack_header o command = record {
  type = o.family_id;
  flags = bit_or nlm_f_request nlm_f_ack;
  sequence = o.sequence;
  pid = o.pid;
  command = command;
}

pub add_unless-IsBuilt :
    (condition : Bool) (n : ℕ) (h : Header) (l : List Attr) (a : Attr) (attribute packet : Bytes)
    → IsBuilt n h l packet
    → attribute ≡ encode a
    → Fits a
    → ltb n 60000 ≡ true
    → IsBuilt (suc n) h (l ++ unless condition a) (add_unless condition attribute packet)
add_unless-IsBuilt true n h l a attribute packet b e f lt = skip-IsBuilt n h l packet b
add_unless-IsBuilt false n h l a attribute packet b e f lt =
    add_attribute-IsBuilt n h l a attribute packet b e f lt

module _ {ℓ} {A : Type ℓ} (make : ℕ → A → Bytes) (content : A → Bytes) where
  -- The loop appends one attribute for each element, in order.
  add_indexed-encode :
      (id i : ℕ) (l : List Attr) (xs : List A)
      → ((j : ℕ) (x : A)
          → Fits (record { id = j; content = content x })
          → make j x ≡ encode (record { id = j; content = content x }))
      → AllFit (indexed content i xs)
      → nla_hdrlen + length (encode_all (l ++ indexed content i xs)) < 65536
      → add_indexed make i xs (encode (nested id l))
        ≡ encode (nested id (l ++ indexed content i xs))
  unfolding add_indexed
  add_indexed-encode id i l [] m f h = ap (λ k. encode (nested id k)) (sym (append-nil l))
  add_indexed-encode id i l (x ∷ xs) m f h =
      let a : Attr = record { id = i; content = content x } in
      let later = indexed content (suc i) xs in
      let split : (l ++ a ∷ []) ++ later ≡ l ++ a ∷ later = append_assoc l (a ∷ []) later in
      let whole : length (encode_all ((l ++ a ∷ []) ++ later))
          ≡ length (encode_all (l ++ a ∷ later)) =
        ap (λ k. length (encode_all k)) split in
      let front : length (encode_all (l ++ a ∷ [])) ≤ length (encode_all (l ++ a ∷ later)) = omega (
        arith,
        whole,
        ap length (encode_all-append (l ++ a ∷ []) later),
        length-append (encode_all (l ++ a ∷ [])) (encode_all later),
      ) in
      ap (λ b. add_indexed make (suc i) xs (Attribute.add_attribute b (encode (nested id l))))
        (m i x f.0)
      ∙ ap (add_indexed make (suc i) xs) (add_attribute-encode id l a (omega (arith, h, front)))
      ∙ add_indexed-encode id (suc i) (l ++ a ∷ []) xs m f.1 (omega (arith, h, whole))
      ∙ ap (λ k. encode (nested id k)) split

  pub add_indexed-nested :
      (id i : ℕ) (xs : List A)
      → ((j : ℕ) (x : A)
          → Fits (record { id = j; content = content x })
          → make j x ≡ encode (record { id = j; content = content x }))
      → i ≤ 4
      → Fits (nested id (indexed content i xs))
      → add_indexed make i xs (new_nested id) ≡ encode (nested id (indexed content i xs))
  add_indexed-nested id i xs m small f =
      ap (add_indexed make i xs) (new_nested-encode id)
      ∙ add_indexed-encode id i [] xs m (indexed-AllFit content id i xs small f) f.len_fits

abbrev pub same_bytes : Bytes → Bytes
same_bytes bs = bs

-- The nested attribute of a list of ssids, and of a list of frequencies.
abbrev pub ssids_meant : ℕ → List Bytes → Attr
ssids_meant id ssids = nested id (indexed same_bytes 0 ssids)

abbrev pub freqs_meant : ℕ → List ℕ → Attr
freqs_meant id freqs = nested id (indexed (le_bytes 4) 0 freqs)

pub ssids_attr-encode :
    (id : ℕ) (ssids : List Bytes)
    → Fits (ssids_meant id ssids)
    → ssids_attr id ssids ≡ encode (ssids_meant id ssids)
unfolding ssids_attr
ssids_attr-encode id ssids f =
    add_indexed-nested new_raw same_bytes id 0 ssids (λ j x g. new_raw-encode j x) (omega arith) f

pub freqs_attr-encode :
    (id : ℕ) (freqs : List ℕ)
    → Fits (freqs_meant id freqs)
    → freqs_attr id freqs ≡ encode (freqs_meant id freqs)
unfolding freqs_attr
freqs_attr-encode id freqs f =
    add_indexed-nested (new_int 4) (le_bytes 4) id 0 freqs (λ j x g. new_int-encode 4 j x)
      (omega arith) f

-- An integer of 32 bits.
abbrev pub word : ℕ → ℕ → Attr
word id value = record { id = id; content = le_bytes 4 value }

pub word-Fits : (id value : ℕ) → ltb id 65536 ≡ true → Fits (word id value)
word-Fits id value h = record { id_fits = ltb→lt id 65536 h; len_fits = omega arith }

-- What a scan request means.
abbrev pub scan_attributes : ScanParams → ℕ → List Attr
scan_attributes p scan_flags =
    ((word Nl80211.attr_ifindex p.interface_index ∷ ssids_meant Nl80211.attr_scan_ssids p.ssids ∷ []
        ++ unless (is_empty p.freqs) (freqs_meant Nl80211.attr_scan_frequencies p.freqs))
      ++ unless (scan_flags == 0) (word Nl80211.attr_scan_flags scan_flags))
    ++ unless (is_empty p.vendor_ies) (record { id = Nl80211.attr_ie; content = p.vendor_ies })

pub record FitsScan (p : ScanParams) : Type 0 where
  pub ssids_fit : Fits (ssids_meant Nl80211.attr_scan_ssids p.ssids)
  pub freqs_fit : Fits (freqs_meant Nl80211.attr_scan_frequencies p.freqs)
  pub ies_fit : Fits (record { id = Nl80211.attr_ie; content = p.vendor_ies })

pub scan_packet-IsBuilt :
    (o : Origin) (p : ScanParams) (scan_flags : ℕ)
    → FitsOrigin o
    → FitsScan p
    → IsBuilt 5
        (ack_header o Nl80211.cmd_trigger_scan)
        (scan_attributes p scan_flags)
        (scan_packet o p scan_flags)
unfolding scan_packet
scan_packet-IsBuilt o p scan_flags fo fp =
    let start =
      flagged-IsBuilt o.family_id Nl80211.cmd_trigger_scan o.sequence o.pid nlm_f_ack fo.family_fits
        refl fo.sequence_fits fo.pid_fits in
    let with_index =
      add_attribute-IsBuilt 0 _ [] (word Nl80211.attr_ifindex p.interface_index) _ _ start
        (new_int-encode 4 _ _) (word-Fits _ _ refl) refl in
    let with_ssids =
      add_attribute-IsBuilt 1 _ _ (ssids_meant Nl80211.attr_scan_ssids p.ssids) _ _ with_index
        (ssids_attr-encode _ _ fp.ssids_fit) fp.ssids_fit refl in
    let with_freqs =
      add_unless-IsBuilt (is_empty p.freqs) 2 _ _
        (freqs_meant Nl80211.attr_scan_frequencies p.freqs) _ _ with_ssids
        (freqs_attr-encode _ _ fp.freqs_fit) fp.freqs_fit refl in
    let with_flags =
      add_unless-IsBuilt (scan_flags == 0) 3 _ _ (word Nl80211.attr_scan_flags scan_flags) _ _
        with_freqs (new_int-encode 4 _ _) (word-Fits _ _ refl) refl in
    add_unless-IsBuilt (is_empty p.vendor_ies) 4 _ _
      (record { id = Nl80211.attr_ie; content = p.vendor_ies }) _ _ with_flags (new_raw-encode _ _)
      fp.ies_fit refl

-- The packet of Scan is the packet of the attributes that its parameters mean, in order: the interface,
-- the ssids, and, where they are not empty, the frequencies, the flags and the vendor's elements.
pub scan_packet-encode :
    (o : Origin) (p : ScanParams) (scan_flags : ℕ)
    → FitsOrigin o
    → FitsScan p
    → scan_packet o p scan_flags
      ≡ encode_packet (ack_header o Nl80211.cmd_trigger_scan) (scan_attributes p scan_flags)
scan_packet-encode o p scan_flags fo fp = (scan_packet-IsBuilt o p scan_flags fo fp).bytes
