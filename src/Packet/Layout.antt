-- ===== src/Packet/Layout.antt =====
-- What a packet means, and its bytes.
use dumbos_platform_system_c.Base.{
  ℕ, ◌+◌, ◌<◌, ◌≡◌, refl, ap, sym, ◌∙◌, List, [], ◌∷◌, ◌++◌, arith, length, Bytes, le_bytes,
  append-nil, length-append,
}
use dumbos_platform_system_c.Uapi.{nlmsg_hdrlen, genl_hdrlen, nlm_f_request}
use dumbos_platform_system_c.Attribute.{flag_header}
use dumbos_platform_system_c.Attribute.Layout.{Attr, encode, encode_all}
use dumbos_platform_system_c.Attribute.Nested.{encode_all-append, flag_header-encode}
use dumbos_platform_system_c.Packet.{nlmsg_len, new_packet, add_attribute, add_flag_attribute}

-- The header fields that a caller chooses.
pub record Header : Type 0 where
  pub type : ℕ
  pub flags : ℕ
  pub sequence : ℕ
  pub pid : ℕ
  pub command : ℕ

abbrev pub headers : ℕ → Header → Bytes → Bytes
headers len h body =
    le_bytes 4 len
    ++ (le_bytes 2 h.type
        ++ (le_bytes 2 h.flags
            ++ (le_bytes 4 h.sequence
                ++ (le_bytes 4 h.pid ++ (le_bytes 1 h.command ++ (1 ∷ 0 ∷ 0 ∷ body))))))

abbrev pub encode_packet : Header → List Attr → Bytes
encode_packet h l = headers (nlmsg_hdrlen + genl_hdrlen + length (encode_all l)) h (encode_all l)

pub new_packet-encode :
    (type command sequence pid : ℕ)
    → new_packet type command sequence pid
      ≡ encode_packet
          (record {
            type = type;
            flags = nlm_f_request;
            sequence = sequence;
            pid = pid;
            command = command;
          })
          []
unfolding new_packet
new_packet-encode type command sequence pid = refl

add_to_packet :
    (n : ℕ) (h : Header) (body attribute : Bytes)
    → n < 4294967296
    → add_attribute attribute (headers n h body)
      ≡ headers (n + length attribute) h (body ++ attribute)
unfolding add_attribute
add_to_packet n h body attribute lt =
    let len : nlmsg_len (headers n h (body ++ attribute)) ≡ n = omega arith in
    ap (λ v. headers (v + length attribute) h (body ++ attribute)) len

-- AddAttribute appends to the list of attributes that a packet carries.
pub add_attribute-encode :
    (h : Header) (l : List Attr) (a : Attr)
    → nlmsg_hdrlen + genl_hdrlen + length (encode_all (l ++ a ∷ [])) < 4294967296
    → add_attribute (encode a) (encode_packet h l) ≡ encode_packet h (l ++ a ∷ [])
add_attribute-encode h l a lt =
    let whole : encode_all (l ++ a ∷ []) ≡ encode_all l ++ encode a =
      encode_all-append l (a ∷ []) ∙ ap (◌++◌ (encode_all l)) (append-nil (encode a)) in
    let size : length (encode_all (l ++ a ∷ [])) ≡ length (encode_all l) + length (encode a) =
      ap length whole ∙ length-append (encode_all l) (encode a) in
    let start = nlmsg_hdrlen + genl_hdrlen in
    let total : start + length (encode_all l) + length (encode a)
        ≡ start + length (encode_all (l ++ a ∷ [])) =
      omega (arith, size) in
    add_to_packet (start + length (encode_all l)) h (encode_all l) (encode a) (omega (arith, size))
    ∙ ap (λ v. headers v h (encode_all l ++ encode a)) total
    ∙ ap (headers (start + length (encode_all (l ++ a ∷ []))) h) (sym whole)

add_flag-eq-add :
    (flag : ℕ) (data_ : Bytes)
    → add_flag_attribute flag data_ ≡ add_attribute (flag_header flag) data_
unfolding add_flag_attribute add_attribute flag_header
add_flag-eq-add flag data_ = refl

-- AddFlagAttribute appends an attribute with no content.
pub add_flag_attribute-encode :
    (h : Header) (l : List Attr) (flag : ℕ)
    → nlmsg_hdrlen
        + genl_hdrlen
        + length (encode_all (l ++ (record { id = flag; content = [] }) ∷ []))
      < 4294967296
    → add_flag_attribute flag (encode_packet h l)
      ≡ encode_packet h (l ++ (record { id = flag; content = [] }) ∷ [])
add_flag_attribute-encode h l flag lt =
    add_flag-eq-add flag (encode_packet h l)
    ∙ ap (λ a. add_attribute a (encode_packet h l)) (flag_header-encode flag)
    ∙ add_attribute-encode h l (record { id = flag; content = [] }) lt
