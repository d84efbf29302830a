-- ===== src/Attribute.antt =====
-- net/nl80211_attribute.{h,cpp}: a netlink attribute is the byte vector `data_`, header included.
-- The header's two fields are read and written in place; the machine is little-endian.
pub mod Layout
pub mod Lookup
pub mod Stalls
pub mod Values
pub mod Nested
pub mod Listed
pub mod Getters
pub mod Indexed
use dumbos_platform_system_c.Base.{
  ℕ, zero, suc, ◌+◌, ◌-◌, ◌*◌, ◌/◌, ◌%◌, ◌≤◌, Bool, true, false, not, ◌&&◌, ◌||◌, List, [], ◌∷◌,
  ◌++◌, ◌==◌, leb, ltb, if◌then◌else◌, length, take, drop, replicate, get_or, Bytes, read_uint,
  field, le_bytes, resize, overwrite, Outcome, ok, fails, hangs, faults, ◌>>=◌,
}
use dumbos_platform_system_c.Uapi.{nla_hdrlen, nla_align}

-- `reinterpret_cast<nlattr*>(data_.data())`: nla_len and nla_type.
abbrev pub nla_len : Bytes → ℕ
nla_len data_ = field 0 2 data_

abbrev pub nla_type : Bytes → ℕ
nla_type data_ = field 2 2 data_

abbrev pub set_nla_len : ℕ → Bytes → Bytes
set_nla_len len data_ = overwrite 0 (le_bytes 2 len) data_

abbrev pub set_nla_type : ℕ → Bytes → Bytes
set_nla_type id data_ = overwrite 2 (le_bytes 2 id) data_

-- BaseNL80211Attr::InitHeaderAndResize, on the empty buffer of a new object.
unfoldable pub init_header_and_resize : ℕ → ℕ → Bytes
init_header_and_resize attribute_id payload_length =
    set_nla_len (nla_hdrlen + payload_length)
      (set_nla_type attribute_id (resize (nla_hdrlen + nla_align payload_length) []))

-- BaseNL80211Attr(id, raw_buffer); also the constructors for raw data and for fixed size arrays.
unfoldable pub new_raw : ℕ → Bytes → Bytes
new_raw id raw_buffer =
    overwrite nla_hdrlen raw_buffer (init_header_and_resize id (length raw_buffer))

-- NL80211Attr<T>(id, value) for an integral T of `w` bytes.
unfoldable pub new_int : ℕ → ℕ → ℕ → Bytes
new_int w id value = overwrite nla_hdrlen (le_bytes w value) (init_header_and_resize id w)

-- NL80211Attr<string>(id, str): the text and one null byte.
unfoldable pub new_string : ℕ → Bytes → Bytes
new_string id str = overwrite nla_hdrlen str (init_header_and_resize id (length str + 1))

-- NL80211NestedAttr(id).
unfoldable pub new_nested : ℕ → Bytes
new_nested id = init_header_and_resize id 0

-- GetAttributeId.
abbrev pub get_attribute_id : Bytes → ℕ
get_attribute_id data_ = nla_type data_

-- BaseNL80211Attr::IsValid.
unfoldable pub is_valid : Bytes → Bool
is_valid data_ =
    if ltb (length data_) nla_hdrlen then false else nla_align (nla_len data_) == length data_

-- NL80211Attr<T>::IsValid for an integral T of `w` bytes.
unfoldable pub is_valid_int : ℕ → Bytes → Bool
unfolding is_valid
is_valid_int w data_ =
    if not (is_valid data_)
    then false
    else if not (nla_align w + nla_hdrlen == length data_) || not (w + nla_hdrlen == nla_len data_)
    then false
    else true

-- The loop of GetAttributeImpl over [ptr, end_ptr), which is the bytes left. The attribute found is
-- its bytes [attr_start, attr_end). An attribute whose nla_len is 0 does not advance `ptr`.
unfoldable pub get_attribute_loop : ℕ → Bytes → ℕ → Outcome Bytes
get_attribute_loop zero buf attr_id = hangs
get_attribute_loop (suc fuel) buf attr_id =
    let rest = get_attribute_loop fuel (drop (nla_align (nla_len buf)) buf) attr_id in
    if leb nla_hdrlen (length buf)
    then (if nla_type buf == attr_id
        then (if leb (nla_align (nla_len buf)) (length buf)
            then ok (take (nla_align (nla_len buf)) buf)
            else fails)
        else rest)
    else fails

-- BaseNL80211Attr::GetAttributeImpl.
unfoldable pub get_attribute_impl : Bytes → ℕ → Outcome Bytes
get_attribute_impl buf attr_id = get_attribute_loop (suc (length buf)) buf attr_id

-- NL80211NestedAttr::HasAttribute, on the payload.
unfoldable pub has_attribute_impl : Bytes → ℕ → Outcome Bool
has_attribute_impl buf id = elim (get_attribute_impl buf id) [
  | ok _ ↦ ok true
  | fails ↦ ok false
  | hangs ↦ hangs
  | faults ↦ faults
]

-- `*attribute = NL80211Attr<T>(...); if (!attribute->IsValid()) return false;`
abbrev pub check : (Bytes → Bool) → Bytes → Outcome Bytes
check valid attribute = if valid attribute then ok attribute else fails

-- The GetAttribute overloads for nested, raw, string and array attributes, on the payload.
unfoldable pub get_valid : (Bytes → Bool) → Bytes → ℕ → Outcome Bytes
get_valid valid buf id = do attribute ← get_attribute_impl buf id; check valid attribute

-- The payload of an attribute object: what `data_.data() + NLA_HDRLEN` to the end holds.
abbrev pub payload : Bytes → Bytes
payload data_ = drop nla_hdrlen data_

-- NL80211Attr<T>::GetValue for an integral T of `w` bytes; a signed T is its bit pattern.
abbrev pub int_value : ℕ → Bytes → Outcome ℕ
int_value w data_ =
    if leb (nla_hdrlen + w) (length data_) then ok (field nla_hdrlen w data_) else faults

-- NL80211Attr<vector<uint8_t>>::GetValue: the bytes from NLA_HDRLEN to nla_len.
unfoldable pub raw_value : Bytes → Outcome Bytes
raw_value data_ =
    if leb nla_hdrlen (nla_len data_) && leb (nla_len data_) (length data_)
    then ok (take (nla_len data_ - nla_hdrlen) (drop nla_hdrlen data_))
    else faults

-- NL80211Attr<array<uint8_t, n>>::GetValue: n bytes, whatever the length of the attribute.
unfoldable pub array_value : ℕ → Bytes → Outcome Bytes
array_value n data_ =
    if leb (nla_hdrlen + n) (length data_) then ok (take n (drop nla_hdrlen data_)) else faults

-- The loop of GetValue that drops trailing zeros, on the first `str_length` bytes.
abbrev pub trimmed_length : ℕ → Bytes → ℕ
trimmed_length zero text = 0
trimmed_length (suc str_length) text =
    let shorter = trimmed_length str_length text in
    if get_or text str_length 0 == 0 then shorter else suc str_length

-- NL80211Attr<string>::GetValue; below NLA_HDRLEN the unsigned length wraps and the loop reads far out.
unfoldable pub string_value : Bytes → Outcome Bytes
string_value data_ =
    if leb nla_hdrlen (nla_len data_) && leb (nla_len data_) (length data_)
    then ok (
        take (trimmed_length (nla_len data_ - nla_hdrlen) (drop nla_hdrlen data_))
          (drop nla_hdrlen data_))
    else faults

-- GetAttribute for a nested attribute, and GetAttributeValue for each T, on a payload.
unfoldable pub get_nested : Bytes → ℕ → Outcome Bytes
get_nested buf id = get_valid is_valid buf id

unfoldable pub get_int : ℕ → Bytes → ℕ → Outcome ℕ
get_int w buf id = do attribute ← get_valid (is_valid_int w) buf id; int_value w attribute

unfoldable pub get_raw : Bytes → ℕ → Outcome Bytes
get_raw buf id = do attribute ← get_valid is_valid buf id; raw_value attribute

unfoldable pub get_string : Bytes → ℕ → Outcome Bytes
get_string buf id = do attribute ← get_valid is_valid buf id; string_value attribute

unfoldable pub get_array : ℕ → Bytes → ℕ → Outcome Bytes
get_array n buf id = do attribute ← get_valid is_valid buf id; array_value n attribute

-- NL80211NestedAttr::AddAttribute: the bytes are appended, then `nla_len += append_data.size()`.
unfoldable pub add_attribute : Bytes → Bytes → Bytes
add_attribute attribute data_ =
    let joined = data_ ++ attribute in set_nla_len (nla_len joined + length attribute) joined

-- The header that AddFlagAttribute writes into the four new bytes.
unfoldable pub flag_header : ℕ → Bytes
flag_header attribute_id = set_nla_len nla_hdrlen (set_nla_type attribute_id (resize nla_hdrlen []))

-- NL80211NestedAttr::AddFlagAttribute.
unfoldable pub add_flag_attribute : ℕ → Bytes → Bytes
unfolding flag_header
add_flag_attribute attribute_id data_ =
    let joined = data_ ++ flag_header attribute_id in
    set_nla_len (nla_len joined + nla_hdrlen) joined

-- The loop of GetListOfNestedAttributes, GetListOfAttributes and GetListOfAttributeValues, over the
-- bytes left: every sub-attribute must fit and pass its IsValid.
unfoldable pub get_list_loop : ℕ → (Bytes → Bool) → Bytes → Outcome (List Bytes)
get_list_loop zero valid buf = hangs
get_list_loop (suc fuel) valid buf =
    let rest = get_list_loop fuel valid (drop (nla_align (nla_len buf)) buf) in
    if leb nla_hdrlen (length buf)
    then (if ltb (length buf) (nla_align (nla_len buf))
        then fails
        else if not (valid (take (nla_align (nla_len buf)) buf))
        then fails
        else (rest >>= λ later. ok (take (nla_align (nla_len buf)) buf ∷ later)))
    else ok []

unfoldable pub get_list_of_attributes : (Bytes → Bool) → Bytes → Outcome (List Bytes)
get_list_of_attributes valid data_ = get_list_loop (suc (length data_)) valid (payload data_)

-- GetListOfAttributeValues, where `value` is GetValue: each value is read before the next sub-attribute is
-- looked at.
unfoldable pub get_values_loop {ℓ} :
    {A : Type ℓ} → ℕ → (Bytes → Bool) → (Bytes → Outcome A) → Bytes → Outcome (List A)
get_values_loop zero valid value buf = hangs
get_values_loop (suc fuel) valid value buf =
    let rest = get_values_loop fuel valid value (drop (nla_align (nla_len buf)) buf) in
    if leb nla_hdrlen (length buf)
    then (if ltb (length buf) (nla_align (nla_len buf))
        then fails
        else if not (valid (take (nla_align (nla_len buf)) buf))
        then fails
        else (value (take (nla_align (nla_len buf)) buf) >>= λ v. rest >>= λ later. ok (v ∷ later)))
    else ok []

unfoldable pub get_list_of_attribute_values {ℓ} :
    {A : Type ℓ} → (Bytes → Bool) → (Bytes → Outcome A) → Bytes → Outcome (List A)
get_list_of_attribute_values valid value data_ =
    get_values_loop (suc (length data_)) valid value (payload data_)

-- BaseNL80211Attr::Merge, of `other_attr` into `data_`, whose header is read although nothing has checked
-- that it is there. A valid attribute may state a length below its header; the range inserted then runs
-- backwards.
unfoldable pub merge : Bytes → Bytes → Outcome Bytes
merge other_attr data_ =
    if not (is_valid other_attr)
    then fails
    else if ltb (length data_) nla_hdrlen
    then faults
    else if not (get_attribute_id data_ == get_attribute_id other_attr)
    then fails
    else if ltb (nla_len other_attr) nla_hdrlen
    then faults
    else (let our_len_without_padding = nla_len data_ in
        let other_len_without_padding = nla_len other_attr in
        let total_len_without_padding =
          our_len_without_padding + other_len_without_padding - nla_hdrlen in
        let cut = resize our_len_without_padding (set_nla_len total_len_without_padding data_) in
        let content = take (other_len_without_padding - nla_hdrlen) (drop nla_hdrlen other_attr) in
        ok (resize (nla_align total_len_without_padding) (cut ++ content)))
