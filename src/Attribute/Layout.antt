-- ===== src/Attribute/Layout.antt =====
-- The bytes that the constructors of nl80211_attribute.cpp produce: one form, `encode`, for all.
use dumbos_platform_system_c.Base.{
  ℕ, suc, ◌+◌, ◌-◌, ◌<◌, ◌≡◌, refl, true, List, [], ◌∷◌, ◌++◌, append_assoc, arith, length,
  replicate_split, length-append, length-replicate, length-le_bytes, Bytes, le_bytes, resize-nil,
  overwrite-zeros, zeros,
}
use dumbos_platform_system_c.Uapi.{nla_hdrlen, nla_align}
use dumbos_platform_system_c.Attribute.{
  nla_len, nla_type, init_header_and_resize, new_raw, new_int, new_string, is_valid,
}

-- What an attribute means: its id and its content, without header and padding.
pub record Attr : Type 0 where
  pub id : ℕ
  pub content : Bytes

-- The header fields of an attribute take 16 bits each.
pub record Fits (a : Attr) : Type 0 where
  pub id_fits : a.id < 65536
  pub len_fits : nla_hdrlen + length a.content < 65536

abbrev pub header : ℕ → ℕ → Bytes → Bytes
header len id rest = le_bytes 2 len ++ (le_bytes 2 id ++ rest)

abbrev pub padding : ℕ → ℕ
padding n = nla_align n - n

abbrev pub encode : Attr → Bytes
encode a =
    header (nla_hdrlen + length a.content) a.id (a.content ++ zeros (padding (length a.content)))

abbrev pub encode_all : List Attr → Bytes
encode_all [] = []
encode_all (a ∷ l) = encode a ++ encode_all l

pub init_header_lem :
    (id n : ℕ) → init_header_and_resize id n ≡ header (nla_hdrlen + n) id (zeros (nla_align n))
unfolding init_header_and_resize
init_header_lem id n =
    let e : nla_hdrlen + nla_align n ≡ suc (suc (suc (suc (nla_align n)))) = omega arith in
    rw (e, resize-nil)

-- The constructor from raw bytes lays out the header, the bytes and the padding.
pub new_raw-encode :
    (id : ℕ) (raw : Bytes) → new_raw id raw ≡ encode (record { id = id; content = raw })
unfolding new_raw
new_raw-encode id raw =
    rw init_header_lem (rw (overwrite-zeros raw (nla_align (length raw)) (omega arith)) refl)

-- An integer attribute is the raw attribute of its bytes.
pub new_int-encode :
    (w id v : ℕ) → new_int w id v ≡ encode (record { id = id; content = le_bytes w v })
unfolding new_int
new_int-encode w id v = rw init_header_lem (
    rw
      (
        overwrite-zeros (le_bytes w v) (nla_align w) (omega (arith, length-le_bytes w v)),
        length-le_bytes w v,
      )
      refl)

-- A string attribute is the raw attribute of its text and a null byte.
pub new_string-encode :
    (id : ℕ) (str : Bytes)
    → new_string id str ≡ encode (record { id = id; content = str ++ 0 ∷ [] })
unfolding new_string
new_string-encode id str =
    let n = length str in
    let pad = nla_align (n + 1) in
    let split : zeros (pad - n) ≡ (0 ∷ []) ++ zeros (pad - (n + 1)) =
      replicate_split {A = ℕ} 1 (pad - (n + 1)) 0 (pad - n) (omega arith) in
    let len : length (str ++ 0 ∷ []) ≡ n + 1 = length-append str (0 ∷ []) in
    rw init_header_lem
      (rw (overwrite-zeros str pad (omega arith), split, len) (rw append_assoc refl))

pub length-encode : (a : Attr) → length (encode a) ≡ nla_align (nla_hdrlen + length a.content)
length-encode a = omega (
  arith,
  length-append a.content (zeros (padding (length a.content))),
  length-replicate {A = ℕ} (padding (length a.content)) 0,
)

pub nla_len-encode :
    (a : Attr) (rest : Bytes) → Fits a → nla_len (encode a ++ rest) ≡ nla_hdrlen + length a.content
nla_len-encode a rest f = omega (arith, f.len_fits)

pub nla_type-encode : (a : Attr) (rest : Bytes) → Fits a → nla_type (encode a ++ rest) ≡ a.id
nla_type-encode a rest f = omega (arith, f.id_fits)

-- The same with nothing behind the attribute.
pub nla_len-encode_alone : (a : Attr) → Fits a → nla_len (encode a) ≡ nla_hdrlen + length a.content
nla_len-encode_alone a f = omega (arith, f.len_fits)

pub nla_type-encode_alone : (a : Attr) → Fits a → nla_type (encode a) ≡ a.id
nla_type-encode_alone a f = omega (arith, f.id_fits)

pub is_valid-encode : (a : Attr) → Fits a → is_valid (encode a) ≡ true
unfolding is_valid
is_valid-encode a f = ground (arith, length-encode a, nla_len-encode_alone a f)
