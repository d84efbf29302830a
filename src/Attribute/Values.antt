-- ===== src/Attribute/Values.antt =====
-- The GetValue functions: what they return for attributes that the constructors lay out, and when
-- they are safe on attributes that came from outside.
use dumbos_platform_system_c.Base.{
  ℕ, zero, suc, ◌+◌, ◌-◌, ◌^◌, ◌≤◌, ◌<◌, ◌≡◌, ◌≢◌, ◌↔◌, refl, sym, ap, true, [], ◌∷◌, ◌++◌, arith,
  length, Bytes, ok, faults, leb-true, ==_ne, append_assoc, length-append, zeros, length-replicate,
  le_bytes, read_uint-le_bytes, length-le_bytes, take-append, get_or, field,
}
use dumbos_platform_system_c.Uapi.{nla_hdrlen}
use dumbos_platform_system_c.Attribute.{
  nla_len, is_valid, is_valid_int, int_value, raw_value, array_value, string_value, trimmed_length,
}
use dumbos_platform_system_c.Attribute.Layout.{
  Attr, Fits, encode, padding, length-encode, nla_len-encode_alone, is_valid-encode,
}

-- An integer written by the constructor is read back, if it fits its type.
pub int_value-encode :
    (w id v : ℕ)
    → v < 256 ^ w
    → int_value w (encode (record { id = id; content = le_bytes w v })) ≡ ok v
int_value-encode w id v h =
    let a : Attr = record { id = id; content = le_bytes w v } in
    let fits : nla_hdrlen + w ≤ length (encode a) =
      omega (arith, length-encode a, length-le_bytes w v) in
    rw (leb-true (nla_hdrlen + w) (length (encode a)) fits) (rw (read_uint-le_bytes w v _ h) refl)

pub is_valid_int-encode :
    (w id v : ℕ)
    → id < 65536
    → nla_hdrlen + w < 65536
    → is_valid_int w (encode (record { id = id; content = le_bytes w v })) ≡ true
unfolding is_valid_int
is_valid_int-encode w id v h k =
    let a : Attr = record { id = id; content = le_bytes w v } in
    let len : length (le_bytes w v) ≡ w = length-le_bytes w v in
    let f : Fits a = record { id_fits = h; len_fits = omega arith } in
    ground (arith, is_valid-encode a f, length-encode a, nla_len-encode_alone a f, len)

-- The content of a raw attribute is read back, without the padding.
pub raw_value-encode : (a : Attr) → Fits a → raw_value (encode a) ≡ ok a.content
unfolding raw_value
raw_value-encode a f =
    let len = nla_len-encode_alone a f in
    let fits : nla_len (encode a) ≤ length (encode a) = omega (arith, len, length-encode a) in
    rw (leb-true nla_hdrlen (nla_len (encode a)) (omega (arith, len)), leb-true _ _ fits)
      (ap ok (take-append (nla_len (encode a) - nla_hdrlen) a.content _ (omega (arith, len))))

-- The text does not end with a null byte.
abbrev pub EndsNonzero : Bytes → Type 0
EndsNonzero [] = Unit {0}
EndsNonzero (b ∷ []) = b ≢ 0
EndsNonzero (b ∷ c ∷ s) = EndsNonzero (c ∷ s)

get_or-zeros :
    (str rest : Bytes) (n i : ℕ)
    → length str ≤ i
    → i < length str + n
    → get_or (str ++ (zeros n ++ rest)) i 0 ≡ 0
get_or-zeros [] rest zero i h k = absurd (omega arith)
get_or-zeros [] rest (suc n) zero h k = refl
get_or-zeros [] rest (suc n) (suc i) h k = get_or-zeros [] rest n i (omega arith) (omega arith)
get_or-zeros (b ∷ str) rest n zero h k = absurd (omega arith)
get_or-zeros (b ∷ str) rest n (suc i) h k = get_or-zeros str rest n i (omega arith) (omega arith)

get_or_last :
    (str rest : Bytes) (i : ℕ) → suc i ≡ length str → EndsNonzero str → get_or (str ++ rest) i 0 ≢ 0
get_or_last [] rest i e h = absurd (omega arith)
get_or_last (b ∷ []) rest zero e h = h
get_or_last (b ∷ []) rest (suc i) e h = absurd (omega arith)
get_or_last (b ∷ c ∷ s) rest zero e h = absurd (omega arith)
get_or_last (b ∷ c ∷ s) rest (suc i) e h = get_or_last (c ∷ s) rest i (omega arith) h

-- The loop stops at the end of the text, wherever in the zeros behind it it starts.
trimmed_zeros :
    (str rest : Bytes) (n j k : ℕ)
    → j ≤ n
    → k ≡ length str + j
    → EndsNonzero str
    → trimmed_length k (str ++ (zeros n ++ rest)) ≡ length str
trimmed_zeros str rest n j zero h e s = omega arith
trimmed_zeros str rest n zero (suc k) h e s =
    rw (==_ne _ _ (get_or_last str (zeros n ++ rest) k (omega arith) s)) (omega arith)
trimmed_zeros str rest n (suc j) (suc k) h e s =
    rw (get_or-zeros str rest n k (omega arith) (omega arith))
      (trimmed_zeros str rest n j k (omega arith) (omega arith) s)

-- A string attribute gives its text back, with all the null bytes behind it trimmed.
pub string_value-encode :
    (id n : ℕ) (str : Bytes)
    → Fits (record { id = id; content = str ++ zeros n })
    → EndsNonzero str
    → string_value (encode (record { id = id; content = str ++ zeros n })) ≡ ok str
unfolding string_value
string_value-encode id n str f h =
    let a : Attr = record { id = id; content = str ++ zeros n } in
    let len = nla_len-encode_alone a f in
    let fits : nla_len (encode a) ≤ length (encode a) = omega (arith, len, length-encode a) in
    let k : nla_len (encode a) - nla_hdrlen ≡ length str + n =
      omega (arith, len, length-append str (zeros n), length-replicate {A = ℕ} n 0) in
    rw (leb-true nla_hdrlen (nla_len (encode a)) (omega (arith, len)), leb-true _ _ fits)
      (rw append_assoc (
        rw (trimmed_zeros str (zeros (padding (length a.content))) n n _ (omega arith) k h)
          (ap ok (take-append (length str) str _ refl))))

-- A fixed size array of the content's length is the content.
pub array_value-encode :
    (n : ℕ) (a : Attr) → length a.content ≡ n → array_value n (encode a) ≡ ok a.content
unfolding array_value
array_value-encode n a e =
    let fits : nla_hdrlen + n ≤ length (encode a) = omega (arith, length-encode a) in
    rw (leb-true (nla_hdrlen + n) (length (encode a)) fits)
      (ap ok (take-append n a.content _ (sym e)))

-- After IsValid an integer is read inside the buffer.
pub int_value_safe :
    (w : ℕ) (data_ : Bytes)
    → is_valid_int w data_ ≡ true
    → int_value w data_ ≡ ok (field nla_hdrlen w data_)
unfolding is_valid_int
int_value_safe w data_ h = ground arith

-- After IsValid a raw value goes wrong exactly when the header states less than its own length.
pub raw_value-faults_iff :
    (data_ : Bytes)
    → is_valid data_ ≡ true
    → (raw_value data_ ≡ faults) ↔ (nla_len data_ < nla_hdrlen)
unfolding is_valid raw_value
raw_value-faults_iff data_ h = (λ e. ground arith, λ e. ground arith)
