-- ===== src/Attribute/Nested.antt =====
-- Building and merging attributes: AddAttribute, AddFlagAttribute, Merge, and the list getters.
use dumbos_platform_system_c.Base.{
  ℕ, zero, suc, ◌+◌, ◌-◌, ◌<◌, ◌≤◌, ◌≡◌, refl, sym, ap, ◌∙◌, Bool, true, List, [], ◌∷◌, ◌++◌, arith,
  length, take, drop, Bytes, map, ok, ◌>>=◌, leb-true, ==_refl, append_assoc, append-nil,
  length-append, zeros, resize, resize-append, resize_pad, ltb-false, take-append,
}
use dumbos_platform_system_c.Uapi.{nla_hdrlen, nla_align}
use dumbos_platform_system_c.Attribute.{
  payload, nla_len, nla_type, set_nla_len, is_valid, new_nested, add_attribute, flag_header,
  add_flag_attribute, merge, get_list_loop, get_list_of_attributes,
}
use dumbos_platform_system_c.Attribute.Layout.{
  Attr, Fits, encode, encode_all, padding, header, length-encode, nla_len-encode_alone,
  nla_type-encode_alone, is_valid-encode, init_header_lem,
}
use dumbos_platform_system_c.Attribute.Lookup.{
  AllFit, StartsWith, StartsWith-encode, length-encode_all,
}

-- The attribute that holds a list of attributes.
abbrev pub nested : ℕ → List Attr → Attr
nested id l = record { id = id; content = encode_all l }

pub encode_all-append : (l m : List Attr) → encode_all (l ++ m) ≡ encode_all l ++ encode_all m
encode_all-append [] m = refl
encode_all-append (a ∷ l) m =
    ap (◌++◌ (encode a)) (encode_all-append l m) ∙ sym (append_assoc (encode a) _ _)

-- Sub-attributes keep the payload aligned.
pub encode_all_aligned : (l : List Attr) → nla_align (length (encode_all l)) ≡ length (encode_all l)
encode_all_aligned [] = refl
encode_all_aligned (a ∷ l) =
    omega (arith, length-append (encode a) (encode_all l), length-encode a, encode_all_aligned l)

-- Nested attributes have no padding.
pub encode-nested :
    (id : ℕ) (l : List Attr)
    → encode (nested id l) ≡ header (nla_hdrlen + length (encode_all l)) id (encode_all l)
encode-nested id l =
    let e : padding (length (encode_all l)) ≡ 0 = omega (arith, encode_all_aligned l) in
    rw (e, append-nil) refl

pub payload-nested : (id : ℕ) (l : List Attr) → payload (encode (nested id l)) ≡ encode_all l
payload-nested id l = ap payload (encode-nested id l)

pub new_nested-encode : (id : ℕ) → new_nested id ≡ encode (nested id [])
unfolding new_nested
new_nested-encode id = init_header_lem id 0

add_to_header :
    (n id : ℕ) (body attribute : Bytes)
    → nla_hdrlen + n < 65536
    → add_attribute attribute (header (nla_hdrlen + n) id body)
      ≡ header (nla_hdrlen + n + length attribute) id (body ++ attribute)
unfolding add_attribute
add_to_header n id body attribute h =
    let len : nla_len (header (nla_hdrlen + n) id (body ++ attribute)) ≡ nla_hdrlen + n =
      omega (arith, h) in
    ap (λ v. header (v + length attribute) id (body ++ attribute)) len

-- Appending an attribute to a nested attribute appends it to the list that it means; the stated
-- length stays right while it fits 16 bits.
pub add_attribute-encode :
    (id : ℕ) (l : List Attr) (a : Attr)
    → nla_hdrlen + length (encode_all (l ++ a ∷ [])) < 65536
    → add_attribute (encode a) (encode (nested id l)) ≡ encode (nested id (l ++ a ∷ []))
add_attribute-encode id l a h =
    let whole : encode_all (l ++ a ∷ []) ≡ encode_all l ++ encode a =
      encode_all-append l (a ∷ []) ∙ ap (◌++◌ (encode_all l)) (append-nil (encode a)) in
    let size : length (encode_all (l ++ a ∷ [])) ≡ length (encode_all l) + length (encode a) =
      ap length whole ∙ length-append (encode_all l) (encode a) in
    let total : nla_hdrlen + length (encode_all l) + length (encode a)
        ≡ nla_hdrlen + length (encode_all (l ++ a ∷ [])) =
      omega (arith, size) in
    ap (add_attribute (encode a)) (encode-nested id l)
    ∙ add_to_header (length (encode_all l)) id (encode_all l) (encode a) (omega (arith, size))
    ∙ ap (λ v. header v id (encode_all l ++ encode a)) total
    ∙ ap (header (nla_hdrlen + length (encode_all (l ++ a ∷ []))) id) (sym whole)
    ∙ sym (encode-nested id (l ++ a ∷ []))

pub flag_header-encode : (id : ℕ) → flag_header id ≡ encode (record { id = id; content = [] })
unfolding flag_header
flag_header-encode id = refl

add_flag-eq-add :
    (flag : ℕ) (data_ : Bytes)
    → add_flag_attribute flag data_ ≡ add_attribute (flag_header flag) data_
unfolding add_flag_attribute add_attribute
add_flag-eq-add flag data_ = refl

-- A flag is an attribute with no content.
pub add_flag_attribute-encode :
    (id flag : ℕ) (l : List Attr)
    → nla_hdrlen + length (encode_all (l ++ (record { id = flag; content = [] }) ∷ [])) < 65536
    → add_flag_attribute flag (encode (nested id l))
      ≡ encode (nested id (l ++ (record { id = flag; content = [] }) ∷ []))
add_flag_attribute-encode id flag l h =
    add_flag-eq-add flag (encode (nested id l))
    ∙ ap (λ a. add_attribute a (encode (nested id l))) (flag_header-encode flag)
    ∙ add_attribute-encode id l (record { id = flag; content = [] }) h

-- Merge in terms of the two stated lengths.
merge_steps :
    (other data_ : Bytes) (t m n : ℕ)
    → is_valid other ≡ true
    → nla_hdrlen ≤ length data_
    → nla_type data_ ≡ t
    → nla_type other ≡ t
    → nla_len other ≡ nla_hdrlen + m
    → nla_len data_ ≡ n
    → merge other data_
      ≡ ok (
          resize
            (nla_align (n + m))
            (resize n (set_nla_len (n + m) data_) ++ take m (drop nla_hdrlen other)))
unfolding merge
merge_steps other data_ t m n v there td to lo ld =
    let merged = λ (total len k : ℕ). ok (
      resize (nla_align total)
        (resize len (set_nla_len total data_) ++ take k (drop nla_hdrlen other))) in
    let total : nla_len data_ + nla_len other - nla_hdrlen ≡ n + m = omega (arith, lo, ld) in
    let own : nla_len other - nla_hdrlen ≡ m = omega (arith, lo) in
    rw
      (
        v,
        ltb-false (length data_) nla_hdrlen there,
        td,
        to,
        ==_refl t,
        ltb-false (nla_len other) nla_hdrlen (omega (arith, lo)),
      )
      (ap (λ s. merged s (nla_len data_) (nla_len other - nla_hdrlen)) total
        ∙ ap (λ k. merged (n + m) k (nla_len other - nla_hdrlen)) ld
        ∙ ap (merged (n + m) n) own)

-- Cutting an attribute to its stated length takes the padding off.
resize_header :
    (len id : ℕ) (p rest : Bytes)
    → resize (nla_hdrlen + length p) (header len id (p ++ rest)) ≡ header len id p
resize_header len id p rest =
    let e : nla_hdrlen + length p ≡ suc (suc (suc (suc (length p)))) = omega arith in
    rw e (ap (header len id) (resize-append (length p) p rest refl))

-- Merging two attributes of one id joins their contents, without the padding between them.
pub merge-encode :
    (id : ℕ) (p q : Bytes)
    → id < 65536
    → nla_hdrlen + length p + length q < 65536
    → merge (encode (record { id = id; content = q })) (encode (record { id = id; content = p }))
      ≡ ok (encode (record { id = id; content = p ++ q }))
merge-encode id p q f h =
    let a : Attr = record { id = id; content = p } in
    let b : Attr = record { id = id; content = q } in
    let fa : Fits a = record { id_fits = f; len_fits = omega arith } in
    let fb : Fits b = record { id_fits = f; len_fits = omega arith } in
    let total = nla_hdrlen + length p + length q in
    let joined : length (p ++ q) ≡ length p + length q = length-append p q in
    let same : total ≡ nla_hdrlen + length (p ++ q) = omega (arith, joined) in
    let size : length (header total id (p ++ q)) ≡ nla_hdrlen + length (p ++ q) = omega arith in
    let rest : nla_align total - length (header total id (p ++ q)) ≡ padding (length (p ++ q)) =
      omega (arith, same, size) in
    merge_steps (encode b) (encode a) id (length q) (nla_hdrlen + length p) (is_valid-encode b fb)
      (omega (arith, length-encode a)) (nla_type-encode_alone a fa) (nla_type-encode_alone b fb)
      (nla_len-encode_alone b fb) (nla_len-encode_alone a fa)
    ∙ ap ok (
        rw
          (
            resize_header total id p (zeros (padding (length p))),
            take-append (length q) q (zeros (padding (length q))) refl,
          )
          (resize_pad (nla_align total) (header total id (p ++ q)) (omega (arith, size, same))
            ∙ ap (λ n. header total id (p ++ q) ++ zeros n) rest
            ∙ ap (λ n. header n id ((p ++ q) ++ zeros (padding (length (p ++ q))))) same))

list_front :
    (fuel : ℕ) (valid : Bytes → Bool) (a : Attr) (rest buf : Bytes)
    → StartsWith a rest buf
    → valid (encode a) ≡ true
    → get_list_loop (suc fuel) valid buf
      ≡ (get_list_loop fuel valid rest >>= λ later. ok (encode a ∷ later))
unfolding get_list_loop
list_front fuel valid a rest buf s v =
    rw (leb-true _ _ s.room, ltb-false _ _ s.within, s.here, s.later, v) refl

-- Every sub-attribute passes a test.
abbrev pub AllValid : (Bytes → Bool) → List Attr → Type 0
AllValid valid [] = Unit
AllValid valid (a ∷ l) = (valid (encode a) ≡ true) × AllValid valid l

list-encode_all :
    (fuel : ℕ) (valid : Bytes → Bool) (l : List Attr)
    → AllFit l
    → AllValid valid l
    → length l < fuel
    → get_list_loop fuel valid (encode_all l) ≡ ok (map encode l)
list-encode_all zero valid l f v h = absurd (omega arith)
list-encode_all (suc fuel) valid [] f v h = unfold get_list_loop in refl
list-encode_all (suc fuel) valid (a ∷ l) f v h =
    list_front fuel valid a (encode_all l) _ (StartsWith-encode a (encode_all l) f.0) v.0
    ∙ rw (list-encode_all fuel valid l f.1 v.1 (omega arith)) refl

pub get_list-encode_valid :
    (valid : Bytes → Bool) (id : ℕ) (l : List Attr)
    → AllFit l
    → AllValid valid l
    → get_list_of_attributes valid (encode (nested id l)) ≡ ok (map encode l)
unfolding get_list_of_attributes
get_list-encode_valid valid id l f v =
    ap (get_list_of_attributes valid) (encode-nested id l)
    ∙ list-encode_all _ valid l f v (omega (arith, length-encode_all l))

pub AllValid-is_valid : (l : List Attr) → AllFit l → AllValid is_valid l
AllValid-is_valid [] f = tt
AllValid-is_valid (a ∷ l) f = (is_valid-encode a f.0, AllValid-is_valid l f.1)

-- A nested attribute gives back the sub-attributes that were put in, in order.
pub get_list_of_attributes-encode :
    (id : ℕ) (l : List Attr)
    → AllFit l
    → get_list_of_attributes is_valid (encode (nested id l)) ≡ ok (map encode l)
get_list_of_attributes-encode id l f = get_list-encode_valid is_valid id l f (AllValid-is_valid l f)
