-- ===== src/Examples/Bytes.antt =====
-- Concrete attributes and packets: an interface index, a name, and lists of them.
use dumbos_platform_system_c.Base.{
  ◌≡◌, ◌↔◌, ◌<◌, refl, arith, List, [], ◌∷◌, map, Bytes, ok, hangs, faults, false, le_bytes,
}
use dumbos_platform_system_c.Attribute
use dumbos_platform_system_c.Attribute.{
  nla_len, get_attribute_loop, get_attribute_impl, has_attribute_impl, merge,
  get_list_of_attributes, string_value, raw_value, int_value, get_int, get_raw,
}
use dumbos_platform_system_c.Attribute.Layout.{Attr, Fits, encode, encode_all}
use dumbos_platform_system_c.Attribute.Lookup.{AllFit, get_attribute_impl-encode_all}
use dumbos_platform_system_c.Attribute.Stalls.{
  Stalls, IsPiece, get_attribute_impl-hangs_iff, get_attribute_loop-eq-impl,
  get_attribute_impl-IsPiece,
}
use dumbos_platform_system_c.Attribute.Values.{raw_value-faults_iff}
use dumbos_platform_system_c.Attribute.Nested.{nested, merge-encode, get_list_of_attributes-encode}
use dumbos_platform_system_c.Attribute.Getters.{has_attribute_impl-encode_all}
use dumbos_platform_system_c.Packet.{
  add_attribute, get_all_attributes, set_command, set_flags, set_message_type, set_message_sequence,
  set_port_id,
}
use dumbos_platform_system_c.Packet.Layout.{Header, encode_packet, add_attribute-encode}
use dumbos_platform_system_c.Packet.Fields.{FitsHeader, setters-encode}
use dumbos_platform_system_c.Packet.Contents.{get_all_attributes-encode}

abbrev ifindex : Attr
ifindex = record { id = 3; content = le_bytes 4 2 }

abbrev ifname : Attr
ifname = record { id = 4; content = 119 ∷ 48 ∷ 0 ∷ [] }

abbrev two : List Attr
two = ifindex ∷ ifname ∷ []

ifindex-Fits : Fits ifindex
ifindex-Fits = record { id_fits = omega arith; len_fits = omega arith }

ifname-Fits : Fits ifname
ifname-Fits = record { id_fits = omega arith; len_fits = omega arith }

two_fit : AllFit two
two_fit = (ifindex-Fits, (ifname-Fits, tt))

abbrev request : Header
request = record { type = 20; flags = 1; sequence = 7; pid = 0; command = 5 }

request_fits : FitsHeader request
request_fits = record {
  type_fits = omega arith;
  flags_fit = omega arith;
  sequence_fits = omega arith;
  pid_fits = omega arith;
  command_fits = omega arith;
}

get_all_attributes-encode_example :
    get_all_attributes (encode_packet request two) ≡ ok (map encode two)
get_all_attributes-encode_example = get_all_attributes-encode request two two_fit

add_attribute-encode_example :
    add_attribute (encode ifname) (encode_packet request (ifindex ∷ [])) ≡ encode_packet request two
add_attribute-encode_example = add_attribute-encode request (ifindex ∷ []) ifname (omega arith)

get_attribute_impl-encode_all_example : get_attribute_impl (encode_all two) 4 ≡ ok (encode ifname)
get_attribute_impl-encode_all_example = get_attribute_impl-encode_all 4 two two_fit

-- An attribute of id 9 whose length field is 0.
abbrev stalled : Bytes
stalled = 0 ∷ 0 ∷ 9 ∷ 0 ∷ []

get_attribute_impl-hangs_iff_example : (get_attribute_impl stalled 4 ≡ hangs) ↔ Stalls 4 stalled
get_attribute_impl-hangs_iff_example = get_attribute_impl-hangs_iff 4 stalled

get_attribute_impl-IsPiece_example : IsPiece 4 (encode_all two) (encode ifname)
get_attribute_impl-IsPiece_example =
    get_attribute_impl-IsPiece 4 (encode_all two) get_attribute_impl-encode_all_example

get_attribute_loop-eq-impl_example :
    get_attribute_loop 100 (encode_all two) 4 ≡ get_attribute_impl (encode_all two) 4
get_attribute_loop-eq-impl_example = get_attribute_loop-eq-impl 100 4 (encode_all two) (omega arith)

merge-encode_example :
    merge
      (encode (record { id = 22; content = 7 ∷ 8 ∷ 9 ∷ 10 ∷ [] }))
      (encode (record { id = 22; content = 1 ∷ 2 ∷ 3 ∷ 4 ∷ [] }))
    ≡ ok (encode (record { id = 22; content = 1 ∷ 2 ∷ 3 ∷ 4 ∷ 7 ∷ 8 ∷ 9 ∷ 10 ∷ [] }))
merge-encode_example =
    merge-encode 22 (1 ∷ 2 ∷ 3 ∷ 4 ∷ []) (7 ∷ 8 ∷ 9 ∷ 10 ∷ []) (omega arith) (omega arith)

get_list_of_attributes-encode_example :
    get_list_of_attributes Attribute.is_valid (encode (nested 22 two)) ≡ ok (map encode two)
get_list_of_attributes-encode_example = get_list_of_attributes-encode 22 two two_fit

raw_value-faults_iff_example :
    (raw_value (2 ∷ 0 ∷ 9 ∷ 0 ∷ []) ≡ faults) ↔ (nla_len (2 ∷ 0 ∷ 9 ∷ 0 ∷ []) < 4)
raw_value-faults_iff_example =
    raw_value-faults_iff (2 ∷ 0 ∷ 9 ∷ 0 ∷ []) (unfold Attribute.is_valid in refl)

has_attribute_impl-encode_all_example : has_attribute_impl (encode_all two) 5 ≡ ok false
has_attribute_impl-encode_all_example = has_attribute_impl-encode_all 5 two two_fit

setters-encode_example :
    (set_message_type 9 (encode_packet request two)
      ≡ encode_packet (record request { type = 9 }) two)
    × (set_flags 9 (encode_packet request two) ≡ encode_packet (record request { flags = 9 }) two)
    × (set_message_sequence 9 (encode_packet request two)
        ≡ encode_packet (record request { sequence = 9 }) two)
    × (set_port_id 9 (encode_packet request two) ≡ encode_packet (record request { pid = 9 }) two)
    × (set_command 9 (encode_packet request two)
        ≡ encode_packet (record request { command = 9 }) two)
setters-encode_example = setters-encode request two 9
