-- ===== src/Utils/Merged.antt =====
-- MergePacketsForSplitWiphyDump, against the plain joining of contents that its comment describes.
use dumbos_platform_system_c.Base.{
  ℕ, ◌+◌, ◌<◌, ◌≡◌, refl, ap, ◌∙◌, List, [], ◌∷◌, ◌++◌, arith, length, map, Bytes, Option, none,
  some, ok, ◌>>=◌, if◌then◌else◌, Bool-cases, inl, inr, le_bytes, length-append,
}
use mathlib.Core.Option
use dumbos_platform_system_c.Base.Assoc.{
  lookup, insert, map_entries, lookup-map_entries, insert-map_entries,
}
use dumbos_platform_system_c.Uapi.{nla_hdrlen}
use dumbos_platform_system_c.Nl80211
use dumbos_platform_system_c.Attribute.{get_attribute_id}
use dumbos_platform_system_c.Attribute.Layout.{Attr, Fits, encode, nla_type-encode_alone}
use dumbos_platform_system_c.Attribute.Lookup.{AllFit, find_attr}
use dumbos_platform_system_c.Attribute.Nested.{merge-encode}
use dumbos_platform_system_c.Attribute.Getters.{get_int-encode_all}
use dumbos_platform_system_c.Packet
use dumbos_platform_system_c.Packet.Layout.{Header, encode_packet}
use dumbos_platform_system_c.Packet.Contents.{get_all_attributes-encode}
use dumbos_platform_system_c.Utils.Split.{
  AttrMap, or_empty, filters, merge_into, merge_attribute, merge_attributes, merge_packets,
}

-- The contents that belong to each id, for each wiphy.
abbrev pub Contents : Type 0
Contents = List (ℕ × Bytes)

abbrev pub joined_content : Attr → Contents → Bytes
joined_content a own = or_empty (lookup a.id own) ++ a.content

-- The specification: the content goes behind what the wiphy has under the id.
abbrev pub join_attr : ℕ → Attr → List (ℕ × Contents) → List (ℕ × Contents)
join_attr w a m =
    let own = or_empty (lookup w m) in insert w (insert a.id (joined_content a own) own) m

unfoldable pub join_attrs : ℕ → List Attr → List (ℕ × Contents) → List (ℕ × Contents)
join_attrs w [] m = m
join_attrs w (a ∷ l) m = join_attrs w l (if filters a.id then m else join_attr w a m)

-- A packet of the dump.
pub record Piece : Type 0 where
  pub header : Header
  pub wiphy : ℕ
  pub attributes : List Attr

unfoldable pub join_pieces : List Piece → List (ℕ × Contents) → List (ℕ × Contents)
unfolding join_attrs
join_pieces [] m = m
join_pieces (p ∷ ps) m = join_pieces ps (join_attrs p.wiphy p.attributes m)

-- Every attribute fits its header, and so does every joined one.
abbrev pub AttrsRoom : ℕ → List Attr → List (ℕ × Contents) → Type 0
AttrsRoom w [] m = Unit
AttrsRoom w (a ∷ l) m =
    Fits a
    × (nla_hdrlen + length (joined_content a (or_empty (lookup w m))) < 65536)
    × AttrsRoom w l (if filters a.id then m else join_attr w a m)

-- The bytes that stand for the contents.
abbrev pub attr_bytes : ℕ → Bytes → Bytes
attr_bytes id content = encode (record { id = id; content = content })

abbrev pub own_bytes : ℕ → Contents → List (ℕ × Bytes)
own_bytes w own = map_entries attr_bytes own

abbrev pub all_bytes : List (ℕ × Contents) → AttrMap
all_bytes m = map_entries own_bytes m

or_empty-map :
    (w : ℕ) (o : Option Contents) → or_empty (Option.map (own_bytes w) o) ≡ own_bytes w (or_empty o)
or_empty-map w none = refl
or_empty-map w (some own) = refl

merge_into-attr :
    (a : Attr) (o : Option Bytes)
    → Fits a
    → nla_hdrlen + length (or_empty o ++ a.content) < 65536
    → merge_into (encode a) (Option.map (attr_bytes a.id) o)
      ≡ ok (attr_bytes a.id (or_empty o ++ a.content))
unfolding merge_into
merge_into-attr a none f r = refl
merge_into-attr a (some c) f r =
    let size = length-append c a.content in
    rw (merge-encode a.id c a.content f.id_fits (omega (arith, size, r))) refl

merge_attribute_parts :
    (w : ℕ) (attr : Bytes) (id : ℕ) (m : AttrMap) (own : List (ℕ × Bytes)) (o : Option Bytes)
    (merged : Bytes)
    → get_attribute_id attr ≡ id
    → or_empty (lookup w m) ≡ own
    → lookup id own ≡ o
    → merge_into attr o ≡ ok merged
    → merge_attribute w attr m ≡ ok (insert w (insert id merged own) m)
unfolding merge_attribute
merge_attribute_parts w attr id m own o merged i e l g = rw (i, e, l, g) refl

merge_attribute-join :
    (w : ℕ) (a : Attr) (m : List (ℕ × Contents))
    → Fits a
    → nla_hdrlen + length (joined_content a (or_empty (lookup w m))) < 65536
    → merge_attribute w (encode a) (all_bytes m) ≡ ok (all_bytes (join_attr w a m))
merge_attribute-join w a m f r =
    let own = or_empty (lookup w m) in
    let c = joined_content a own in
    merge_attribute_parts w (encode a) a.id (all_bytes m) (own_bytes w own) _ _
      (nla_type-encode_alone a f)
      (ap or_empty (lookup-map_entries own_bytes w m) ∙ or_empty-map w (lookup w m))
      (lookup-map_entries attr_bytes a.id own) (merge_into-attr a (lookup a.id own) f r)
    ∙ ap (λ k. ok (insert w k (all_bytes m))) (insert-map_entries attr_bytes a.id c own)
    ∙ ap ok (insert-map_entries own_bytes w (insert a.id c own) m)

merge_attributes-front :
    (w : ℕ) (a : Attr) (attrs : List Bytes) (m : AttrMap)
    → Fits a
    → merge_attributes w (encode a ∷ attrs) m ≡ (
        if filters a.id
        then merge_attributes w attrs m
        else (merge_attribute w (encode a) m >>= merge_attributes w attrs))
unfolding merge_attributes
merge_attributes-front w a attrs m f =
    let id : get_attribute_id (encode a) ≡ a.id = nla_type-encode_alone a f in rw id refl

merge_attributes-join :
    (w : ℕ) (l : List Attr) (m : List (ℕ × Contents))
    → AttrsRoom w l m
    → merge_attributes w (map encode l) (all_bytes m) ≡ ok (all_bytes (join_attrs w l m))
unfolding join_attrs
merge_attributes-join w [] m r = unfold merge_attributes in refl
merge_attributes-join w (a ∷ l) m r =
    merge_attributes-front w a (map encode l) (all_bytes m) r.0 ∙ elim (Bool-cases (filters a.id)) [
      | inl skip ↦ rw skip (merge_attributes-join w l m (rw skip at r.2))
      | inr keep ↦ rw keep (
          rw (merge_attribute-join w a m r.0 r.1)
            (merge_attributes-join w l (join_attr w a m) (rw keep at r.2)))
    ]

-- A packet that names its wiphy, and has room for what it adds.
abbrev pub PiecesRoom : List Piece → List (ℕ × Contents) → Type 0
PiecesRoom [] m = Unit
PiecesRoom (p ∷ ps) m =
    AllFit p.attributes
    × (p.wiphy < 4294967296)
    × (find_attr Nl80211.attr_wiphy p.attributes
        ≡ some (record { id = Nl80211.attr_wiphy; content = le_bytes 4 p.wiphy }))
    × AttrsRoom p.wiphy p.attributes m
    × PiecesRoom ps (join_attrs p.wiphy p.attributes m)

abbrev pub piece_bytes : Piece → Bytes
piece_bytes p = encode_packet p.header p.attributes

-- The maps of the loops hold, for each wiphy and each id, the attribute whose content is all the contents
-- with that id in the packets of that wiphy, one after the other.
pub merge_packets-join :
    (ps : List Piece) (m : List (ℕ × Contents))
    → PiecesRoom ps m
    → merge_packets (map piece_bytes ps) (all_bytes m) ≡ ok (all_bytes (join_pieces ps m))
unfolding merge_packets join_pieces
merge_packets-join [] m r = refl
merge_packets-join (p ∷ ps) m r =
    let named : Packet.get_int 4 (piece_bytes p) Nl80211.attr_wiphy ≡ ok p.wiphy =
      get_int-encode_all 4 Nl80211.attr_wiphy p.wiphy p.attributes r.0 r.1 r.2 in
    rw
      (
        named,
        get_all_attributes-encode p.header p.attributes r.0,
        merge_attributes-join p.wiphy p.attributes m r.3,
      )
      (merge_packets-join ps (join_attrs p.wiphy p.attributes m) r.4)
