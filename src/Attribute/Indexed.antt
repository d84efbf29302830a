-- ===== src/Attribute/Indexed.antt =====
-- Nested attributes that hold one attribute for each element of a list, numbered from some index.
use dumbos_platform_system_c.Base.{
  ℕ, suc, ◌+◌, ◌<◌, ◌≤◌, ◌≡◌, refl, ap, List, [], ◌∷◌, arith, length, Bytes, length-append,
}
use dumbos_platform_system_c.Uapi.{nla_hdrlen}
use dumbos_platform_system_c.Attribute.Layout.{Attr, Fits, encode, encode_all, length-encode}
use dumbos_platform_system_c.Attribute.Lookup.{AllFit, length-encode_all}
use dumbos_platform_system_c.Attribute.Nested.{nested}

module _ {ℓ} {A : Type ℓ} (content : A → Bytes) where
  abbrev pub indexed : ℕ → List A → List Attr
  indexed i [] = []
  indexed i (x ∷ xs) = (record { id = i; content = content x }) ∷ indexed (suc i) xs

  pub length-indexed : (i : ℕ) (xs : List A) → length (indexed i xs) ≡ length xs
  length-indexed i [] = refl
  length-indexed i (x ∷ xs) = ap suc (length-indexed (suc i) xs)

  fit_all :
      (i : ℕ) (xs : List A)
      → i + length xs < 65536
      → nla_hdrlen + length (encode_all (indexed i xs)) < 65536
      → AllFit (indexed i xs)
  fit_all i [] n h = tt
  fit_all i (x ∷ xs) n h =
      let a : Attr = record { id = i; content = content x } in
      let size = length-append (encode a) (encode_all (indexed (suc i) xs)) in
      let own = length-encode a in
      (
        record { id_fits = omega arith; len_fits = omega (arith, size, own) },
        fit_all (suc i) xs (omega arith) (omega (arith, size, own)),
      )

  -- Where the whole fits its header, so do the parts.
  pub indexed-AllFit :
      (id i : ℕ) (xs : List A) → i ≤ 4 → Fits (nested id (indexed i xs)) → AllFit (indexed i xs)
  indexed-AllFit id i xs small f =
      let count = length-indexed i xs in
      let bytes = length-encode_all (indexed i xs) in
      let total = f.len_fits in fit_all i xs (omega (arith, count, bytes, total)) total
