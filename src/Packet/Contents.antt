-- ===== src/Packet/Contents.antt =====
-- GetAllAttributes on the packets that AddAttribute builds.
use dumbos_platform_system_c.Base.{
  ℕ, zero, suc, ◌-◌, ◌<◌, ◌≡◌, refl, ◌∙◌, List, [], ◌∷◌, arith, length, map, take, drop, Bytes, ok,
  ◌>>=◌, leb-true, ltb-false, append_assoc, take-append, ==_ne,
}
use dumbos_platform_system_c.Uapi.{nla_hdrlen}
use dumbos_platform_system_c.Attribute.{nla_len}
use dumbos_platform_system_c.Attribute.Layout.{Attr, encode, encode_all, new_raw-encode}
use dumbos_platform_system_c.Attribute.Lookup.{
  AllFit, StartsWith, StartsWith-encode, length-encode_all,
}
use dumbos_platform_system_c.Packet.{get_all_loop, get_all_attributes}
use dumbos_platform_system_c.Packet.Layout.{Header, encode_packet}

all_front :
    (fuel : ℕ) (a : Attr) (rest buf : Bytes)
    → StartsWith a rest buf
    → take (length a.content) (drop nla_hdrlen buf) ≡ a.content
    → get_all_loop (suc fuel) buf ≡ (get_all_loop fuel rest >>= λ later. ok (encode a ∷ later))
unfolding get_all_loop
all_front fuel a rest buf s c =
    let own : nla_len buf - nla_hdrlen ≡ length a.content = omega (arith, s.len) in
    rw
      (
        leb-true _ _ s.room,
        ltb-false _ _ s.within,
        s.type,
        s.later,
        ==_ne (nla_len buf) 0 (omega (arith, s.len)),
        ltb-false (nla_len buf) nla_hdrlen (omega (arith, s.len)),
        own,
        c,
      )
      (rw (new_raw-encode a.id a.content) refl)

all-encode_all :
    (fuel : ℕ) (l : List Attr)
    → AllFit l
    → length l < fuel
    → get_all_loop fuel (encode_all l) ≡ ok (map encode l)
all-encode_all zero l f h = absurd (omega arith)
all-encode_all (suc fuel) [] f h = unfold get_all_loop in refl
all-encode_all (suc fuel) (a ∷ l) f h =
    all_front fuel a (encode_all l) _ (StartsWith-encode a (encode_all l) f.0)
      (rw append_assoc (take-append (length a.content) a.content _ refl))
    ∙ rw (all-encode_all fuel l f.1 (omega arith)) refl

-- GetAllAttributes returns the attributes of a packet, in the order in which they were added.
pub get_all_attributes-encode :
    (h : Header) (l : List Attr)
    → AllFit l
    → get_all_attributes (encode_packet h l) ≡ ok (map encode l)
unfolding get_all_attributes
get_all_attributes-encode h l f = all-encode_all _ l f (omega (arith, length-encode_all l))
