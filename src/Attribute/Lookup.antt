-- ===== src/Attribute/Lookup.antt =====
-- BaseNL80211Attr::GetAttributeImpl: what it finds, in a well-formed buffer and in any buffer.
use dumbos_platform_system_c.Base.{
  ℕ, zero, suc, ◌+◌, ◌≤◌, ◌<◌, ◌≡◌, inl, inr, refl, sym, ap, ◌∙◌, Option, none, some, List, [], ◌∷◌,
  ◌++◌, arith, length, take, drop, take-append, drop-append, length-append, Bytes, ok, ◌==◌,
  if◌then◌else◌, Bool-cases, leb-true, from_option,
}
use mathlib.Core.Option
use dumbos_platform_system_c.Uapi.{nla_hdrlen, nla_align}
use dumbos_platform_system_c.Attribute.{nla_len, nla_type, get_attribute_loop, get_attribute_impl}
use dumbos_platform_system_c.Attribute.Layout.{
  Attr, Fits, encode, encode_all, length-encode, nla_len-encode, nla_type-encode,
}

-- The attributes of a list fit their headers.
abbrev pub AllFit : List Attr → Type 0
AllFit [] = Unit
AllFit (a ∷ l) = Fits a × AllFit l

-- The first attribute with an id.
abbrev pub find_attr : ℕ → List Attr → Option Attr
find_attr id [] = none
find_attr id (a ∷ l) = if a.id == id then some a else find_attr id l

-- What the loops read of a buffer whose first attribute is `a`.
pub record StartsWith (a : Attr) (rest buf : Bytes) : Type 0 where
  pub len : nla_len buf ≡ nla_hdrlen + length a.content
  pub type : nla_type buf ≡ a.id
  pub room : nla_hdrlen ≤ length buf
  pub within : nla_align (nla_len buf) ≤ length buf
  pub here : take (nla_align (nla_len buf)) buf ≡ encode a
  pub later : drop (nla_align (nla_len buf)) buf ≡ rest

pub StartsWith-encode : (a : Attr) (rest : Bytes) → Fits a → StartsWith a rest (encode a ++ rest)
StartsWith-encode a rest f =
    let len : nla_len (encode a ++ rest) ≡ nla_hdrlen + length a.content =
      nla_len-encode a rest f in
    let size : nla_align (nla_len (encode a ++ rest)) ≡ length (encode a) =
      ap nla_align len ∙ sym (length-encode a) in
    record {
      len = len;
      type = nla_type-encode a rest f;
      room = omega arith;
      within = omega (arith, size, length-append (encode a) rest);
      here = take-append _ (encode a) rest size;
      later = drop-append _ (encode a) rest size;
    }

loop_front :
    (fuel id : ℕ) (a : Attr) (rest buf : Bytes)
    → StartsWith a rest buf
    → get_attribute_loop (suc fuel) buf id
      ≡ (if a.id == id then ok (encode a) else get_attribute_loop fuel rest id)
unfolding get_attribute_loop
loop_front fuel id a rest buf s =
    rw (leb-true _ _ s.room, leb-true _ _ s.within, s.type, s.here, s.later) refl

pub length-encode_all : (l : List Attr) → length l ≤ length (encode_all l)
length-encode_all [] = omega arith
length-encode_all (a ∷ l) =
    omega (arith, length-append (encode a) (encode_all l), length-encode_all l)

loop-encode_all :
    (fuel id : ℕ) (l : List Attr)
    → AllFit l
    → length l < fuel
    → get_attribute_loop fuel (encode_all l) id ≡ from_option (Option.map encode (find_attr id l))
loop-encode_all zero id l f h = absurd (omega arith)
loop-encode_all (suc fuel) id [] f h = unfold get_attribute_loop in refl
loop-encode_all (suc fuel) id (a ∷ l) f h =
    loop_front fuel id a (encode_all l) _ (StartsWith-encode a (encode_all l) f.0)
    ∙ elim (Bool-cases (a.id == id)) [
      | inl e ↦ rw e refl
      | inr e ↦ rw e (loop-encode_all fuel id l f.1 (omega arith))
    ]

-- In a buffer of attributes that fit, GetAttributeImpl returns the bytes of the first attribute with
-- the id, and false when there is none.
pub get_attribute_impl-encode_all :
    (id : ℕ) (l : List Attr)
    → AllFit l
    → get_attribute_impl (encode_all l) id ≡ from_option (Option.map encode (find_attr id l))
unfolding get_attribute_impl
get_attribute_impl-encode_all id l f =
    loop-encode_all (suc (length (encode_all l))) id l f (omega (arith, length-encode_all l))
