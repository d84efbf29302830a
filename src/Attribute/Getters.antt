-- ===== src/Attribute/Getters.antt =====
-- GetAttribute, GetAttributeValue and HasAttribute on a payload that holds a list of attributes.
use dumbos_platform_system_c.Base.{
  ℕ, ◌^◌, ◌<◌, ◌≡◌, ◌≢◌, refl, ◌∙◌, inl, inr, Bool, true, false, Option, none, some, List, [], ◌∷◌,
  arith, Bytes, ◌++◌, zeros, le_bytes, length-le_bytes, Outcome, ok, fails, hangs, faults, ◌==◌,
  Bool-cases, Option-cases, from_option, Bool-cases,
}
use mathlib.Core.Option
use mathlib.Core.Path.{subst}
use dumbos_platform_system_c.Attribute.Stalls.{get_attribute_impl-ne-faults}
use dumbos_platform_system_c.Attribute.{
  is_valid_int, get_attribute_impl, has_attribute_impl, get_valid, get_nested, get_int, get_raw,
  get_string,
}
use dumbos_platform_system_c.Attribute.Layout.{Attr, Fits, encode, encode_all, is_valid-encode}
use dumbos_platform_system_c.Attribute.Lookup.{AllFit, find_attr, get_attribute_impl-encode_all}
use dumbos_platform_system_c.Attribute.Values.{
  int_value-encode, is_valid_int-encode, raw_value-encode, int_value_safe, EndsNonzero,
  string_value-encode,
}

-- The attribute found is one of the list.
find_attr-Fits : (id : ℕ) (l : List Attr) {a : Attr} → AllFit l → find_attr id l ≡ some a → Fits a
find_attr-Fits id [] f e = cc
find_attr-Fits id (b ∷ l) {a} f e = elim (Bool-cases (b.id == id)) [
  | inl t ↦
      let found : some b ≡ some a = rw t at e in let same : b ≡ a = cc found in subst Fits same f.0
  | inr t ↦ find_attr-Fits id l f.1 (rw t at e)
]

-- The bytes that the getters look at first.
found :
    (id : ℕ) (l : List Attr) {a : Attr}
    → AllFit l
    → find_attr id l ≡ some a
    → get_attribute_impl (encode_all l) id ≡ ok (encode a)
found id l f e = get_attribute_impl-encode_all id l f ∙ rw e refl

missing :
    (id : ℕ) (l : List Attr)
    → AllFit l
    → find_attr id l ≡ none
    → get_attribute_impl (encode_all l) id ≡ fails
missing id l f e = get_attribute_impl-encode_all id l f ∙ rw e refl

abbrev is_some {ℓ} : {A : Type ℓ} → Option A → Bool
is_some none = false
is_some (some a) = true

-- HasAttribute tells whether some attribute of the list has the id.
pub has_attribute_impl-encode_all :
    (id : ℕ) (l : List Attr)
    → AllFit l
    → has_attribute_impl (encode_all l) id ≡ ok (is_some (find_attr id l))
unfolding has_attribute_impl
has_attribute_impl-encode_all id l f = elim (Option-cases (find_attr id l)) [
  | inl e ↦ rw (missing id l f e, has_attribute_impl) (rw e refl)
  | inr (a, e) ↦ rw (found id l f e, has_attribute_impl) (rw e refl)
]

-- Each getter on the attribute found: its content, decoded.
pub get_nested-encode_all :
    (id : ℕ) (l : List Attr)
    → AllFit l
    → get_nested (encode_all l) id ≡ from_option (Option.map encode (find_attr id l))
unfolding get_nested get_valid
get_nested-encode_all id l f = elim (Option-cases (find_attr id l)) [
  | inl e ↦ rw (missing id l f e, e) refl
  | inr (a, e) ↦ rw (found id l f e, e) (rw (is_valid-encode a (find_attr-Fits id l f e)) refl)
]

pub get_raw-encode_all :
    (id : ℕ) (l : List Attr)
    → AllFit l
    → get_raw (encode_all l) id ≡ from_option (Option.map (λ a. a.content) (find_attr id l))
unfolding get_raw get_valid
get_raw-encode_all id l f = elim (Option-cases (find_attr id l)) [
  | inl e ↦ rw (missing id l f e, e) refl
  | inr (a, e) ↦
      let fa = find_attr-Fits id l f e in
      rw (found id l f e, e) (rw (is_valid-encode a fa) (raw_value-encode a fa))
]

pub get_int-encode_all :
    (w id v : ℕ) (l : List Attr)
    → AllFit l
    → v < 256 ^ w
    → find_attr id l ≡ some (record { id = id; content = le_bytes w v })
    → get_int w (encode_all l) id ≡ ok v
unfolding get_int get_valid
get_int-encode_all w id v l f h e =
    let fa = find_attr-Fits id l f e in
    let valid =
      is_valid_int-encode w id v fa.id_fits (omega (arith, fa.len_fits, length-le_bytes w v)) in
    rw (found id l f e) (rw valid (int_value-encode w id v h))

-- A string, with any number of zero bytes behind it.
pub get_string-encode_all :
    (id n : ℕ) (str : Bytes) (l : List Attr)
    → AllFit l
    → EndsNonzero str
    → find_attr id l ≡ some (record { id = id; content = str ++ zeros n })
    → get_string (encode_all l) id ≡ ok str
unfolding get_string get_valid
get_string-encode_all id n str l f h e =
    let fa = find_attr-Fits id l f e in
    rw (found id l f e) (rw (is_valid-encode _ fa) (string_value-encode id n str fa h))

-- GetAttributeValue of an integer type returns a value or false or loops, and never reads outside.
pub get_int-ne-faults : (w : ℕ) (buf : Bytes) (id : ℕ) → get_int w buf id ≢ faults
unfolding get_int get_valid
get_int-ne-faults w buf id e = search_result (get_attribute_impl buf id) refl
  where
    search_result : (o : Outcome Bytes) → get_attribute_impl buf id ≡ o → ⊥
    search_result (ok a) s = elim (Bool-cases (is_valid_int w a)) [
      | inl v ↦ cc (rw (s, v, int_value_safe w a v) at e)
      | inr v ↦ cc (rw (s, v) at e)
    ]
    search_result fails s = cc (rw s at e)
    search_result hangs s = cc (rw s at e)
    search_result faults s = get_attribute_impl-ne-faults buf id s
