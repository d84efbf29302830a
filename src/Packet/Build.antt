-- ===== src/Packet/Build.antt =====
-- A packet that is built step by step, from attributes that fit their 16-bit fields.
use dumbos_platform_system_c.Base.{
  ℕ, suc, ltb, ltb→lt, ◌*◌, ◌≤◌, ◌<◌, ◌≡◌, ap, ◌∙◌, Bool, true, false, List, [], ◌∷◌, ◌++◌, arith,
  length, Bytes, append-nil, length-append, bit_or,
}
use dumbos_platform_system_c.Uapi.{nlm_f_request}
use dumbos_platform_system_c.Attribute.Layout.{Attr, Fits, encode, encode_all, length-encode}
use dumbos_platform_system_c.Attribute.Lookup.{AllFit}
use dumbos_platform_system_c.Packet.{new_packet, add_flag, add_attribute}
use dumbos_platform_system_c.Packet.Layout.{
  Header, encode_packet, new_packet-encode, add_attribute-encode,
}
use dumbos_platform_system_c.Packet.Fields.{add_flag-encode}

pub AllFit-append : (l m : List Attr) → AllFit l → AllFit m → AllFit (l ++ m)
AllFit-append [] m f g = g
AllFit-append (a ∷ l) m f g = (f.0, AllFit-append l m f.1 g)

-- An attribute takes at most 2 ^ 16 bytes.
pub length-encode_all_bound : (l : List Attr) → AllFit l → length (encode_all l) ≤ 65536 * length l
length-encode_all_bound [] f = omega arith
length-encode_all_bound (a ∷ l) f =
    let own = f.0.len_fits in
    omega (
      arith,
      own,
      length-encode a,
      length-append (encode a) (encode_all l),
      length-encode_all_bound l f.1,
    )

-- AddAttribute on such a packet of fewer than 60000 attributes.
pub add_attribute-fitting :
    (h : Header) (l : List Attr) (a : Attr)
    → AllFit l
    → Fits a
    → length l < 60000
    → add_attribute (encode a) (encode_packet h l) ≡ encode_packet h (l ++ a ∷ [])
add_attribute-fitting h l a f g n =
    let bound = length-encode_all_bound (l ++ a ∷ []) (AllFit-append l (a ∷ []) f (g, tt)) in
    add_attribute-encode h l a (omega (arith, bound, length-append l (a ∷ [])))

-- What a sequence of AddAttribute calls has built: the packet of a list of at most `n` attributes.
pub record IsBuilt (n : ℕ) (h : Header) (l : List Attr) (packet : Bytes) : Type 0 where
  pub fit : AllFit l
  pub short : length l ≤ n
  pub bytes : packet ≡ encode_packet h l

pub add_attribute-IsBuilt :
    (n : ℕ) (h : Header) (l : List Attr) (a : Attr) (attribute packet : Bytes)
    → IsBuilt n h l packet
    → attribute ≡ encode a
    → Fits a
    → ltb n 60000 ≡ true
    → IsBuilt (suc n) h (l ++ a ∷ []) (add_attribute attribute packet)
add_attribute-IsBuilt n h l a attribute packet b e f lt = record {
  fit = AllFit-append l (a ∷ []) b.fit (f, tt);
  short = omega (arith, b.short, length-append l (a ∷ []));
  bytes =
      rw (e, b.bytes)
        (add_attribute-fitting h l a b.fit f
          (let few = ltb→lt n 60000 lt in omega (arith, b.short, few)));
}

-- An attribute that is there unless a condition holds.
abbrev pub unless : Bool → Attr → List Attr
unless true a = []
unless false a = a ∷ []

pub skip-IsBuilt :
    (n : ℕ) (h : Header) (l : List Attr) (packet : Bytes)
    → IsBuilt n h l packet
    → IsBuilt (suc n) h (l ++ []) packet
skip-IsBuilt n h l packet b =
    rw append-nil (record { fit = b.fit; short = omega (arith, b.short); bytes = b.bytes })

-- A new packet with one more flag.
pub flagged-IsBuilt :
    (type command sequence pid flag : ℕ)
    → type < 65536
    → ltb command 256 ≡ true
    → sequence < 4294967296
    → pid < 4294967296
    → IsBuilt 0
        (record {
          type = type;
          flags = bit_or nlm_f_request flag;
          sequence = sequence;
          pid = pid;
          command = command;
        })
        []
        (add_flag flag (new_packet type command sequence pid))
flagged-IsBuilt type command sequence pid flag t c s p = record {
  fit = tt;
  short = omega arith;
  bytes =
      ap (add_flag flag) (new_packet-encode type command sequence pid)
      ∙ add_flag-encode _ [] flag (record {
        type_fits = t;
        flags_fit = omega arith;
        sequence_fits = s;
        pid_fits = p;
        command_fits = ltb→lt command 256 c;
      });
}

-- The same without a flag.
pub new_packet-IsBuilt :
    (type command sequence pid : ℕ)
    → IsBuilt 0
        (record {
          type = type;
          flags = nlm_f_request;
          sequence = sequence;
          pid = pid;
          command = command;
        })
        []
        (new_packet type command sequence pid)
new_packet-IsBuilt type command sequence pid = record {
  fit = tt;
  short = omega arith;
  bytes = new_packet-encode type command sequence pid;
}
