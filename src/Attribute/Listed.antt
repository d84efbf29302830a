-- ===== src/Attribute/Listed.antt =====
-- The list of the values of a nested attribute.
use dumbos_platform_system_c.Base.{
  ℕ, zero, suc, ◌<◌, ◌≡◌, refl, ap, ◌∙◌, Bool, true, List, [], ◌∷◌, arith, length, Bytes, leb-true,
  ltb-false, Outcome, ok, ◌>>=◌,
}
use dumbos_platform_system_c.Attribute.{get_values_loop, get_list_of_attribute_values}
use dumbos_platform_system_c.Attribute.Layout.{Attr, encode, encode_all}
use dumbos_platform_system_c.Attribute.Lookup.{
  AllFit, StartsWith, StartsWith-encode, length-encode_all,
}
use dumbos_platform_system_c.Attribute.Nested.{nested, encode-nested, AllValid}

-- Each attribute of a list has a value.
abbrev pub HaveValues : {A : Type 0} → (Bytes → Outcome A) → List Attr → List A → Type 0
HaveValues value [] [] = Unit
HaveValues value [] (v ∷ vs) = ⊥
HaveValues value (a ∷ l) [] = ⊥
HaveValues value (a ∷ l) (v ∷ vs) = (value (encode a) ≡ ok v) × HaveValues value l vs

values_front :
    {A : Type 0} (fuel : ℕ) (valid : Bytes → Bool) (value : Bytes → Outcome A) (a : Attr)
    (rest buf : Bytes) {v : A}
    → StartsWith a rest buf
    → valid (encode a) ≡ true
    → value (encode a) ≡ ok v
    → get_values_loop (suc fuel) valid value buf
      ≡ (get_values_loop fuel valid value rest >>= λ later. ok (v ∷ later))
unfolding get_values_loop
values_front fuel valid value a rest buf s t e =
    rw (leb-true _ _ s.room, ltb-false _ _ s.within, s.here, s.later, t) (rw e refl)

values-encode_all :
    {A : Type 0} (fuel : ℕ) (valid : Bytes → Bool) (value : Bytes → Outcome A) (l : List Attr)
    (vs : List A)
    → AllFit l
    → AllValid valid l
    → HaveValues value l vs
    → length l < fuel
    → get_values_loop fuel valid value (encode_all l) ≡ ok vs
values-encode_all zero valid value l vs f t e h = absurd (omega arith)
values-encode_all (suc fuel) valid value [] [] f t e h = unfold get_values_loop in refl
values-encode_all (suc fuel) valid value [] (v ∷ vs) f t e h = elim e [ ]
values-encode_all (suc fuel) valid value (a ∷ l) [] f t e h = elim e [ ]
values-encode_all (suc fuel) valid value (a ∷ l) (v ∷ vs) f t e h =
    values_front fuel valid value a (encode_all l) _ (StartsWith-encode a (encode_all l) f.0) t.0
      e.0
    ∙ rw (values-encode_all fuel valid value l vs f.1 t.1 e.1 (omega arith)) refl

-- GetListOfAttributeValues on a nested attribute whose sub-attributes fit, are valid and have values.
pub get_values-encode :
    {A : Type 0} (valid : Bytes → Bool) (value : Bytes → Outcome A) (id : ℕ) (l : List Attr)
    (vs : List A)
    → AllFit l
    → AllValid valid l
    → HaveValues value l vs
    → get_list_of_attribute_values valid value (encode (nested id l)) ≡ ok vs
unfolding get_list_of_attribute_values
get_values-encode valid value id l vs f t e =
    ap (get_list_of_attribute_values valid value) (encode-nested id l)
    ∙ values-encode_all _ valid value l vs f t e (omega (arith, length-encode_all l))
