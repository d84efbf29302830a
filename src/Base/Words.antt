-- ===== src/Base/Words.antt =====
-- Byte strings, and unsigned integers of a fixed width in little-endian order.
use Prim.Native.Nat.{ℕ, zero, suc, ◌+◌, ◌-◌, ◌*◌, ◌/◌, ◌%◌, ◌^◌, ◌≤◌, ◌<◌, bit_and}
use mathlib.Core.Path.{◌≡◌, refl, ap}
use mathlib.Core.Bool.{Bool, not}
use mathlib.Core.List.{List, [], ◌∷◌, ◌++◌}
use native.Mathlib.Nat.{pow-suc}
use native.Mathlib.Omega.{arith}
use dumbos_platform_system_c.Base.Lists.{length, drop, replicate}
use dumbos_platform_system_c.Base.Tests.{◌==◌}

abbrev pub Bytes : Type 0
Bytes = List ℕ

abbrev pub zeros : ℕ → Bytes
zeros count = replicate count 0

-- Conversion to the unsigned integers of 32, 16 and 8 bits.
abbrev pub u32 : ℕ → ℕ
u32 value = value % 4294967296

abbrev pub u16 : ℕ → ℕ
u16 value = value % 65536

abbrev pub u8 : ℕ → ℕ
u8 value = value % 256

-- `flags & mask`, read as a truth value.
abbrev pub has_bits : ℕ → ℕ → Bool
has_bits flags mask = not (bit_and flags mask == 0)

-- The first `w` bytes as an integer.
abbrev pub read_uint : ℕ → Bytes → ℕ
read_uint zero bs = 0
read_uint (suc w) [] = 0
read_uint (suc w) (b ∷ bs) = b + 256 * read_uint w bs

-- The integer of `w` bytes at an offset.
abbrev pub field : ℕ → ℕ → Bytes → ℕ
field offset w bs = read_uint w (drop offset bs)

-- The `w` low bytes of an integer.
abbrev pub le_bytes : ℕ → ℕ → Bytes
le_bytes zero v = []
le_bytes (suc w) v = (v % 256) ∷ le_bytes w (v / 256)

-- `std::vector::resize(n, 0)`.
abbrev pub resize : ℕ → Bytes → Bytes
resize zero bs = []
resize (suc n) [] = 0 ∷ resize n []
resize (suc n) (b ∷ bs) = b ∷ resize n bs

-- `memcpy` of `xs` to an offset of the buffer; nothing is written past its end.
abbrev pub overwrite : ℕ → Bytes → Bytes → Bytes
overwrite zero [] bs = bs
overwrite zero (x ∷ xs) [] = []
overwrite zero (x ∷ xs) (b ∷ bs) = x ∷ overwrite zero xs bs
overwrite (suc n) xs [] = []
overwrite (suc n) xs (b ∷ bs) = b ∷ overwrite n xs bs

pub length-le_bytes : (w v : ℕ) → length (le_bytes w v) ≡ w
length-le_bytes zero v = refl
length-le_bytes (suc w) v = ap suc (length-le_bytes w (v / 256))

pub read_uint-le_bytes :
    (w v : ℕ) (rest : Bytes) → v < 256 ^ w → read_uint w (le_bytes w v ++ rest) ≡ v
read_uint-le_bytes zero v rest h = omega arith
read_uint-le_bytes (suc w) v rest h =
    let below : v / 256 < 256 ^ w = omega (arith, pow-suc 256 w) in
    omega (arith, read_uint-le_bytes w (v / 256) rest below)

-- What stands behind the bytes of an integer does not matter.
pub read_uint-append :
    (w : ℕ) (xs ys : Bytes) → w ≤ length xs → read_uint w (xs ++ ys) ≡ read_uint w xs
read_uint-append zero xs ys h = refl
read_uint-append (suc w) [] ys h = absurd (omega arith)
read_uint-append (suc w) (x ∷ xs) ys h =
    ap (λ v. x + 256 * v) (read_uint-append w xs ys (omega arith))

pub resize-nil : (n : ℕ) → resize n [] ≡ replicate n 0
resize-nil zero = refl
resize-nil (suc n) = ap (◌∷◌ 0) (resize-nil n)

pub overwrite-zeros :
    (xs : Bytes) (m : ℕ)
    → length xs ≤ m
    → overwrite zero xs (replicate m 0) ≡ xs ++ replicate (m - length xs) 0
overwrite-zeros [] m h = ap (λ t. replicate t 0) (omega arith)
overwrite-zeros (x ∷ xs) zero h = absurd (omega arith)
overwrite-zeros (x ∷ xs) (suc m) h =
    let e : suc m - suc (length xs) ≡ m - length xs = omega arith in
    rw (e, overwrite-zeros xs m (omega arith))

-- Cutting at `n` bytes inside the first part, and padding out again.
pub resize-append : (n : ℕ) (xs ys : Bytes) → n ≡ length xs → resize n (xs ++ ys) ≡ xs
resize-append zero [] ys e = refl
resize-append zero (x ∷ xs) ys e = absurd (omega arith)
resize-append (suc n) [] ys e = absurd (omega arith)
resize-append (suc n) (x ∷ xs) ys e = ap (◌∷◌ x) (resize-append n xs ys (omega arith))

pub resize_pad :
    (n : ℕ) (xs : Bytes) → length xs ≤ n → resize n xs ≡ xs ++ replicate (n - length xs) 0
resize_pad zero [] h = refl
resize_pad zero (x ∷ xs) h = absurd (omega arith)
resize_pad (suc n) [] h =
    let e : suc n - 0 ≡ suc n = omega arith in rw e (ap (◌∷◌ 0) (resize-nil n))
resize_pad (suc n) (x ∷ xs) h =
    let e : suc n - suc (length xs) ≡ n - length xs = omega arith in
    rw (e, resize_pad n xs (omega arith))
