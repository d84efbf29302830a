-- ===== src/Utils/Packets.antt =====
-- The packets that MergePacketsForSplitWiphyDump returns.
use dumbos_platform_system_c.Base.{
  ℕ, ◌+◌, ◌<◌, ◌≡◌, refl, ap, sym, ◌∙◌, Bool, true, false, not, ◌&&◌, List, [], ◌∷◌, ◌++◌, arith,
  length, map, Bytes, Option, some, if◌then◌else◌, ◌==◌, Bool-cases, inl, inr, append-nil,
  append_assoc, length-append, le_bytes,
}
use dumbos_platform_system_c.Base.Assoc.{lookup, insert, lookup-insert}
use dumbos_platform_system_c.Uapi.{nlm_f_request}
use dumbos_platform_system_c.Nl80211
use dumbos_platform_system_c.Attribute.Layout.{Attr, Fits, encode, new_int-encode}
use dumbos_platform_system_c.Attribute.Lookup.{AllFit}
use dumbos_platform_system_c.Packet.{new_packet, add_attribute}
use dumbos_platform_system_c.Packet.Layout.{Header, encode_packet, new_packet-encode}
use dumbos_platform_system_c.Packet.Build.{AllFit-append, add_attribute-fitting}
use dumbos_platform_system_c.Utils.Split.{or_empty, filters, add_attributes, wiphy_packet}
use dumbos_platform_system_c.Utils.Merged.{
  Contents, Piece, own_bytes, all_bytes, join_attr, join_attrs, join_pieces, joined_content,
}

abbrev pub attrs_of : Contents → List Attr
attrs_of [] = []
attrs_of ((id, content) ∷ own) = (record { id = id; content = content }) ∷ attrs_of own

abbrev pub merged_header : Header
merged_header = record {
  type = 0;
  flags = nlm_f_request;
  sequence = 0;
  pid = 0;
  command = Nl80211.cmd_new_wiphy;
}

-- The packet of a wiphy: its index, and the joined attributes in the order of their ids.
abbrev pub wiphy_attributes : ℕ × Contents → List Attr
wiphy_attributes (w, own) =
    (record { id = Nl80211.attr_wiphy; content = le_bytes 4 w }) ∷ attrs_of own

abbrev pub merged_packet : ℕ × Contents → Bytes
merged_packet entry = encode_packet merged_header (wiphy_attributes entry)

-- The attributes of each packet fit, and are fewer than there could be ids.
abbrev pub PacketsFit : List (ℕ × Contents) → Type 0
PacketsFit [] = Unit
PacketsFit ((w, own) ∷ m) = AllFit (attrs_of own) × (length own < 50000) × PacketsFit m

add_attributes-encode :
    (w : ℕ) (h : Header) (l : List Attr) (own : Contents)
    → AllFit l
    → AllFit (attrs_of own)
    → length l + length own < 60000
    → add_attributes (own_bytes w own) (encode_packet h l) ≡ encode_packet h (l ++ attrs_of own)
unfolding add_attributes
add_attributes-encode w h l [] f g n = ap (encode_packet h) (sym (append-nil l))
add_attributes-encode w h l ((id, content) ∷ own) f g n =
    let a : Attr = record { id = id; content = content } in
    let longer = length-append l (a ∷ []) in
    ap (add_attributes (own_bytes w own)) (add_attribute-fitting h l a f g.0 (omega arith))
    ∙ add_attributes-encode w h (l ++ a ∷ []) own (AllFit-append l (a ∷ []) f (g.0, tt)) g.1
        (omega (arith, longer))
    ∙ ap (encode_packet h) (append_assoc l (a ∷ []) (attrs_of own))

wiphy_packet-encode :
    (w : ℕ) (own : Contents)
    → AllFit (attrs_of own)
    → length own < 50000
    → wiphy_packet (w, own_bytes w own) ≡ merged_packet (w, own)
unfolding wiphy_packet
wiphy_packet-encode w own f n =
    let index : Attr = record { id = Nl80211.attr_wiphy; content = le_bytes 4 w } in
    let index_fits : Fits index = record { id_fits = omega arith; len_fits = omega arith } in
    ap (add_attributes (own_bytes w own)) (
      ap (λ a. add_attribute a (new_packet 0 Nl80211.cmd_new_wiphy 0 0))
        (new_int-encode 4 Nl80211.attr_wiphy w)
      ∙ ap (add_attribute (encode index)) (new_packet-encode 0 Nl80211.cmd_new_wiphy 0 0)
      ∙ add_attribute-fitting merged_header [] index tt index_fits (omega arith))
    ∙ add_attributes-encode w merged_header (index ∷ []) own (index_fits, tt) f (omega arith)

pub map-wiphy_packet :
    (m : List (ℕ × Contents)) → PacketsFit m → map wiphy_packet (all_bytes m) ≡ map merged_packet m
map-wiphy_packet [] f = refl
map-wiphy_packet ((w, own) ∷ m) f =
    rw (wiphy_packet-encode w own f.0 f.1)
      (ap (◌∷◌ (merged_packet (w, own))) (map-wiphy_packet m f.2))

-- What the dump says under an id: the contents with that id, one after the other.
abbrev pub collect : ℕ → List Attr → Option Bytes → Option Bytes
collect id [] found = found
collect id (a ∷ l) found =
    collect id l
      (if not (filters a.id) && (a.id == id) then some (or_empty found ++ a.content) else found)

abbrev pub collect_pieces : ℕ → ℕ → List Piece → Option Bytes → Option Bytes
collect_pieces w id [] found = found
collect_pieces w id (p ∷ ps) found =
    collect_pieces w id ps (if p.wiphy == w then collect id p.attributes found else found)

abbrev pub content_of : ℕ → ℕ → List (ℕ × Contents) → Option Bytes
content_of w id m = lookup id (or_empty (lookup w m))

content_of-join_attr :
    (w v id : ℕ) (a : Attr) (m : List (ℕ × Contents))
    → content_of v id (join_attr w a m) ≡ (
        if (w == v) && (a.id == id)
        then some (or_empty (content_of v id m) ++ a.content)
        else content_of v id m)
content_of-join_attr w v id a m =
    let own = or_empty (lookup w m) in
    ground (
      arith,
      lookup-insert w v (insert a.id (joined_content a own) own) m,
      lookup-insert a.id id (joined_content a own) own,
    )

content_of-next :
    (w v id : ℕ) (a : Attr) (m : List (ℕ × Contents))
    → content_of v id (if filters a.id then m else join_attr w a m) ≡ (
        if w == v
        then (if not (filters a.id) && (a.id == id)
            then some (or_empty (content_of v id m) ++ a.content)
            else content_of v id m)
        else content_of v id m)
content_of-next w v id a m = elim (Bool-cases (filters a.id)) [
  | inl skip ↦ rw skip (same (w == v) (content_of v id m))
  | inr keep ↦
      rw keep
        (content_of-join_attr w v id a m ∙ nested_if (w == v) (a.id == id) _ (content_of v id m))
]
  where
    same : (b : Bool) (o : Option Bytes) → o ≡ (if b then o else o)
    same true o = refl
    same false o = refl

    nested_if :
        (b c : Bool) (o p : Option Bytes)
        → (if b && c then o else p) ≡ (if b then (if c then o else p) else p)
    nested_if true c o p = refl
    nested_if false c o p = refl

content_of-join_attrs :
    (w v id : ℕ) (l : List Attr) (m : List (ℕ × Contents))
    → content_of v id (join_attrs w l m)
      ≡ (if w == v then collect id l (content_of v id m) else content_of v id m)
unfolding join_attrs
content_of-join_attrs w v id [] m = elim (Bool-cases (w == v)) [
  | inl e ↦ rw e refl
  | inr e ↦ rw e refl
]
content_of-join_attrs w v id (a ∷ l) m =
    let m' = if filters a.id then m else join_attr w a m in
    let next = content_of-next w v id a m in
    content_of-join_attrs w v id l m' ∙ elim (Bool-cases (w == v)) [
      | inl e ↦ rw e (ap (collect id l) (rw e at next))
      | inr e ↦ rw e (rw e at next)
    ]

pub content_of-join_pieces :
    (w id : ℕ) (ps : List Piece) (m : List (ℕ × Contents))
    → content_of w id (join_pieces ps m) ≡ collect_pieces w id ps (content_of w id m)
unfolding join_pieces
content_of-join_pieces w id [] m = refl
content_of-join_pieces w id (p ∷ ps) m =
    content_of-join_pieces w id ps (join_attrs p.wiphy p.attributes m)
    ∙ ap (collect_pieces w id ps) (content_of-join_attrs p.wiphy w id p.attributes m)
