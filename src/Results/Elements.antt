-- ===== src/Results/Elements.antt =====
-- GetSSIDFromInfoElement on well-formed information elements, and on any bytes.
use dumbos_platform_system_c.Base.{
  ℕ, zero, suc, ◌+◌, ◌≤◌, ◌<◌, ◌≡◌, ◌≢◌, refl, ap, sym, ◌∙◌, List, [], ◌∷◌, ◌++◌, arith, length,
  take, drop, get_or, Bytes, Option, none, some, ok, fails, hangs, ◌==◌, ltb, leb, if◌then◌else◌,
  Bool-cases, inl, inr, take-append, drop-append, length-append, length-drop, length-take, ==_true,
  drop-drop, from_option, ltb-true, leb-false,
}
use dumbos_platform_system_c.Results.{elem_id_ssid, ssid_loop, get_ssid_from_info_element}

-- An information element: its id and its value.
pub record Element : Type 0 where
  pub id : ℕ
  pub value : Bytes

abbrev pub encode_elements : List Element → Bytes
encode_elements [] = []
encode_elements (x ∷ l) = x.id ∷ length x.value ∷ (x.value ++ encode_elements l)

-- The value of the first SSID element.
abbrev pub find_ssid : List Element → Option Bytes
find_ssid [] = none
find_ssid (x ∷ l) = if x.id == elem_id_ssid then some x.value else find_ssid l

loop_element :
    (fuel : ℕ) (x : Element) (rest : Bytes)
    → ssid_loop (suc fuel) (x.id ∷ length x.value ∷ (x.value ++ rest))
      ≡ (if x.id == elem_id_ssid then ok x.value else ssid_loop fuel rest)
unfolding ssid_loop
loop_element fuel x rest =
    let n = length x.value in
    let size = length-append x.value rest in
    let later : drop (2 + n) (x.id ∷ n ∷ (x.value ++ rest)) ≡ rest =
      ap (λ k. drop k (x.id ∷ n ∷ (x.value ++ rest))) two_more ∙ drop-append n x.value rest refl in
    simp
      (
        ltb-true 1 (suc (suc (length (x.value ++ rest)))) (omega arith),
        leb-false (suc (suc (length (x.value ++ rest)))) (1 + n) (omega (arith, size)),
        take-append n x.value rest refl,
        later,
      )
      refl
  where
    two_more : 2 + length x.value ≡ suc (suc (length x.value))
    two_more = omega arith

loop-encode_elements :
    (fuel : ℕ) (l : List Element)
    → length l < fuel
    → ssid_loop fuel (encode_elements l) ≡ from_option (find_ssid l)
loop-encode_elements zero l h = absurd (omega arith)
loop-encode_elements (suc fuel) [] h = unfold ssid_loop in refl
loop-encode_elements (suc fuel) (x ∷ l) h =
    loop_element fuel x (encode_elements l) ∙ ground (arith, loop-encode_elements fuel l)

length-encode_elements : (l : List Element) → length l ≤ length (encode_elements l)
length-encode_elements [] = omega arith
length-encode_elements (x ∷ l) =
    omega (arith, length-encode_elements l, length-append x.value (encode_elements l))

-- GetSSIDFromInfoElement on a sequence of information elements returns the value of the first SSID
-- element, and fails if there is none.
pub get_ssid_from_info_element-encode_elements :
    (l : List Element) → get_ssid_from_info_element (encode_elements l) ≡ from_option (find_ssid l)
unfolding get_ssid_from_info_element
get_ssid_from_info_element-encode_elements l =
    loop-encode_elements _ l (omega (arith, length-encode_elements l))

-- The value of an SSID element inside some bytes.
pub record IsInside (skipped : ℕ) (ie ssid : Bytes) : Type 0 where
  pub is_ssid : get_or (drop skipped ie) 0 0 ≡ elem_id_ssid
  pub stated : get_or (drop skipped ie) 1 0 ≡ length ssid
  pub within : skipped + 2 + length ssid ≤ length ie
  pub is_value : ssid ≡ take (length ssid) (drop 2 (drop skipped ie))

-- What the loop does: it fails, or finds the element at the front, or goes on.
data Round (fuel : ℕ) (ie : Bytes) : Type 0 where
  short : ssid_loop (suc fuel) ie ≡ fails → Round fuel ie
  found : (ssid : Bytes) → IsInside 0 ie ssid → ssid_loop (suc fuel) ie ≡ ok ssid → Round fuel ie
  onward :
      (step : ℕ)
      → 2 ≤ step
      → step ≤ length ie
      → ssid_loop (suc fuel) ie ≡ ssid_loop fuel (drop step ie)
      → Round fuel ie

Round-cases : (fuel : ℕ) (ie : Bytes) → Round fuel ie
unfolding ssid_loop
Round-cases fuel ie = elim (Bool-cases (ltb 1 (length ie))) [
  | inr a ↦ short (rw a refl)
  | inl a ↦ elim (Bool-cases (leb (length ie) (1 + get_or ie 1 0))) [
    | inl b ↦ short (rw (a, b) refl)
    | inr b ↦ elim (Bool-cases (get_or ie 0 0 == elem_id_ssid)) [
      | inl c ↦
          found (take (get_or ie 1 0) (drop 2 ie))
            (front (==_true (get_or ie 0 0) elem_id_ssid c) (ground arith)) (rw (a, b, c) refl)
      | inr c ↦ onward (2 + get_or ie 1 0) (omega arith) (ground arith) (rw (a, b, c) refl)
    ]
  ]
]
  where
    front :
        get_or ie 0 0 ≡ elem_id_ssid
        → 2 + get_or ie 1 0 ≤ length ie
        → IsInside 0 ie (take (get_or ie 1 0) (drop 2 ie))
    front t h =
        let size : length (take (get_or ie 1 0) (drop 2 ie)) ≡ get_or ie 1 0 =
          omega (arith, length-take (get_or ie 1 0) (drop 2 ie), length-drop 2 ie) in
        record {
          is_ssid = t;
          stated = sym size;
          within = omega (arith, size);
          is_value = ap (λ k. take k (drop 2 ie)) (sym size);
        }

loop-ne-hangs : (fuel : ℕ) (ie : Bytes) → length ie < fuel → ssid_loop fuel ie ≢ hangs
loop-ne-hangs zero ie h e = absurd (omega arith)
loop-ne-hangs (suc fuel) ie h e = elim (Round-cases fuel ie) [
  | short s ↦ cc
  | found ssid f s ↦ cc
  | onward step two most s ↦
      loop-ne-hangs fuel (drop step ie) (omega (arith, length-drop step ie)) (sym s ∙ e)
]

loop-IsInside :
    (fuel : ℕ) (ie : Bytes) {ssid : Bytes}
    → ssid_loop fuel ie ≡ ok ssid
    → (skipped : ℕ) × IsInside skipped ie ssid
loop-IsInside zero ie e = unfold ssid_loop in cc
loop-IsInside (suc fuel) ie {ssid} e = elim (Round-cases fuel ie) [
  | short s ↦ cc
  | found front f s ↦ (0, ground (arith, f))
  | onward step two most s ↦
      let (skipped, inside) = loop-IsInside fuel (drop step ie) (sym s ∙ e) in
      let same = drop-drop step skipped ie in
      let size = length-drop step ie in
      (
        step + skipped,
        record {
          is_ssid = ap (λ b. get_or b 0 0) (sym same) ∙ inside.is_ssid;
          stated = ap (λ b. get_or b 1 0) (sym same) ∙ inside.stated;
          within = omega (arith, size, inside.within);
          is_value = inside.is_value ∙ ap (λ b. take (length ssid) (drop 2 b)) same;
        },
      )
]

-- Whatever the bytes are, GetSSIDFromInfoElement ends.
pub get_ssid_from_info_element-ne-hangs : (ie : Bytes) → get_ssid_from_info_element ie ≢ hangs
unfolding get_ssid_from_info_element
get_ssid_from_info_element-ne-hangs ie = loop-ne-hangs _ ie (omega arith)

-- Whatever the bytes are, an ssid that GetSSIDFromInfoElement returns is the value of an SSID element
-- that lies inside them, with the length that the element states.
pub get_ssid_from_info_element-IsInside :
    (ie : Bytes) {ssid : Bytes}
    → get_ssid_from_info_element ie ≡ ok ssid
    → (skipped : ℕ) × IsInside skipped ie ssid
unfolding get_ssid_from_info_element
get_ssid_from_info_element-IsInside ie e = loop-IsInside _ ie e
