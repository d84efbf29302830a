-- ===== src/Utils/Whole.antt =====
-- MergePacketsForSplitWiphyDump: which packets it returns, and what they hold.
use dumbos_platform_system_c.Base.{
  ℕ, ◌≡◌, refl, ap, ◌∙◌, Bool, true, false, not, ◌&&◌, ◌||◌, List, [], ◌∷◌, arith, map, Option,
  none, some, ok, ◌==◌, ltb, Bool-cases, inl, inr,
}
use dumbos_platform_system_c.Base.Assoc.{
  lookup, insert, lookup-insert, IsAscending, IsAscending-insert,
}
use dumbos_platform_system_c.Attribute.Layout.{Attr}
use dumbos_platform_system_c.Utils.Split.{or_empty, filters, merge_packets_for_split_wiphy_dump}
use dumbos_platform_system_c.Utils.Merged.{
  Contents, Piece, PiecesRoom, piece_bytes, join_attr, join_attrs, join_pieces, joined_content,
  merge_packets-join,
}
use dumbos_platform_system_c.Utils.Packets.{
  merged_packet, PacketsFit, map-wiphy_packet, content_of, collect_pieces, content_of-join_pieces,
}

-- The ids of each wiphy are in ascending order.
abbrev pub OwnAscending : List (ℕ × Contents) → Type 0
OwnAscending [] = Unit
OwnAscending ((w, own) ∷ m) = IsAscending own × OwnAscending m

own-IsAscending :
    (w : ℕ) (m : List (ℕ × Contents)) → OwnAscending m → IsAscending (or_empty (lookup w m))
own-IsAscending w [] a = tt
own-IsAscending w ((v, own) ∷ m) a = elim (Bool-cases (v == w)) [
  | inl e ↦ rw e a.0
  | inr e ↦ rw e (own-IsAscending w m a.1)
]

OwnAscending-insert :
    (w : ℕ) (own : Contents) (m : List (ℕ × Contents))
    → IsAscending own
    → OwnAscending m
    → OwnAscending (insert w own m)
OwnAscending-insert w own [] h a = (h, tt)
OwnAscending-insert w own ((v, other) ∷ m) h a = elim (Bool-cases (v == w)) [
  | inl e ↦ rw e (h, a.1)
  | inr e ↦ elim (Bool-cases (ltb w v)) [
    | inl l ↦ rw (e, l) (h, a)
    | inr l ↦ rw (e, l) (a.0, OwnAscending-insert w own m h a.1)
  ]
]

-- No wiphy has two packets, and no packet has two attributes with one id.
pub record NoneTwice (m : List (ℕ × Contents)) : Type 0 where
  pub wiphys : IsAscending m
  pub ids : OwnAscending m

join_attr-NoneTwice :
    (w : ℕ) (a : Attr) (m : List (ℕ × Contents)) → NoneTwice m → NoneTwice (join_attr w a m)
join_attr-NoneTwice w a m n =
    let own = or_empty (lookup w m) in
    let next = insert a.id (joined_content a own) own in
    record {
      wiphys = IsAscending-insert w next m n.wiphys;
      ids =
          OwnAscending-insert w next m
            (IsAscending-insert a.id (joined_content a own) own (own-IsAscending w m n.ids)) n.ids;
    }

join_attrs-NoneTwice :
    (w : ℕ) (l : List Attr) (m : List (ℕ × Contents)) → NoneTwice m → NoneTwice (join_attrs w l m)
unfolding join_attrs
join_attrs-NoneTwice w [] m n = n
join_attrs-NoneTwice w (a ∷ l) m n = elim (Bool-cases (filters a.id)) [
  | inl skip ↦ rw skip (join_attrs-NoneTwice w l m n)
  | inr keep ↦ rw keep (join_attrs-NoneTwice w l (join_attr w a m) (join_attr-NoneTwice w a m n))
]

join_pieces-NoneTwice :
    (ps : List Piece) (m : List (ℕ × Contents)) → NoneTwice m → NoneTwice (join_pieces ps m)
unfolding join_pieces
join_pieces-NoneTwice [] m n = n
join_pieces-NoneTwice (p ∷ ps) m n =
    join_pieces-NoneTwice ps (join_attrs p.wiphy p.attributes m)
      (join_attrs-NoneTwice p.wiphy p.attributes m n)

abbrev pub is_there {ℓ} : {A : Type ℓ} → Option A → Bool
is_there none = false
is_there (some a) = true

-- Some attribute besides those of the wiphy, the interface and the device.
abbrev pub carries : List Attr → Bool
carries [] = false
carries (a ∷ l) = not (filters a.id) || carries l

-- Some packet of the wiphy has such an attribute.
abbrev pub described : ℕ → List Piece → Bool
described w [] = false
described w (p ∷ ps) = ((p.wiphy == w) && carries p.attributes) || described w ps

there-join_attr :
    (w v : ℕ) (a : Attr) (m : List (ℕ × Contents))
    → is_there (lookup v (join_attr w a m)) ≡ ((w == v) || is_there (lookup v m))
there-join_attr w v a m =
    let own = or_empty (lookup w m) in
    ap is_there (lookup-insert w v (insert a.id (joined_content a own) own) m) ∙ ground arith

there-join_attrs :
    (w v : ℕ) (l : List Attr) (m : List (ℕ × Contents))
    → is_there (lookup v (join_attrs w l m)) ≡ (((w == v) && carries l) || is_there (lookup v m))
unfolding join_attrs
there-join_attrs w v [] m = ground arith
there-join_attrs w v (a ∷ l) m = elim (Bool-cases (filters a.id)) [
  | inl skip ↦ rw skip (there-join_attrs w v l m)
  | inr keep ↦ rw keep (
      there-join_attrs w v l (join_attr w a m)
      ∙ rw (there-join_attr w v a m) (absorbed (w == v) (carries l) (is_there (lookup v m))))
]
  where
    absorbed : (b c d : Bool) → ((b && c) || (b || d)) ≡ ((b && true) || d)
    absorbed true true d = refl
    absorbed true false d = refl
    absorbed false c d = refl

there-join_pieces :
    (v : ℕ) (ps : List Piece) (m : List (ℕ × Contents))
    → is_there (lookup v (join_pieces ps m)) ≡ (described v ps || is_there (lookup v m))
unfolding join_pieces
there-join_pieces v [] m = refl
there-join_pieces v (p ∷ ps) m =
    there-join_pieces v ps (join_attrs p.wiphy p.attributes m)
    ∙ rw (there-join_attrs p.wiphy v p.attributes m)
        (turned (described v ps) ((p.wiphy == v) && carries p.attributes) (is_there (lookup v m)))
  where
    turned : (a b c : Bool) → (a || (b || c)) ≡ ((b || a) || c)
    turned true true c = refl
    turned true false c = refl
    turned false true c = refl
    turned false false c = refl

-- MergePacketsForSplitWiphyDump, on packets that name their wiphy and whose joined attributes fit, returns
-- the packets of some wiphys: exactly one for a wiphy of which some packet has an attribute besides those
-- that tell the wiphy, the interface and the device, and none for any other; no packet has two attributes
-- with one id besides the index of the wiphy at its front; and its content under an id is all the contents
-- under that id in the packets of that wiphy, one after the other, but for those three ids.
pub merge_packets_for_split_wiphy_dump-joins :
    (ps : List Piece)
    → PiecesRoom ps []
    → PacketsFit (join_pieces ps [])
    → (m : List (ℕ × Contents)) × (merge_packets_for_split_wiphy_dump (map piece_bytes ps)
        ≡ ok (map merged_packet m))
      × NoneTwice m
      × ((w : ℕ) → is_there (lookup w m) ≡ described w ps)
      × ((w id : ℕ) → content_of w id m ≡ collect_pieces w id ps none)
unfolding merge_packets_for_split_wiphy_dump
merge_packets_for_split_wiphy_dump-joins ps r f = (
  join_pieces ps [],
  rw (merge_packets-join ps [] r) (ap ok (map-wiphy_packet (join_pieces ps []) f)),
  join_pieces-NoneTwice ps [] (record { wiphys = tt; ids = tt }),
  λ w. there-join_pieces w ps [] ∙ nothing (described w ps),
  λ w id. content_of-join_pieces w id ps [],
)
  where
    nothing : (b : Bool) → (b || false) ≡ b
    nothing true = refl
    nothing false = refl
