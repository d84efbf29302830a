-- ===== src/Attribute/Stalls.antt =====
-- GetAttributeImpl on any bytes at all: when its loop ends, and what it may return.
use dumbos_platform_system_c.Base.{
  ℕ, zero, suc, ◌+◌, ◌≤◌, ◌<◌, ◌≡◌, ◌≢◌, ◌↔◌, refl, sym, ap, ◌∙◌, arith, length, take, drop,
  drop-drop, length-drop, Bytes, ok, fails, hangs, faults, leb, if◌then◌else◌, leb-true, leb-false,
  ==_ne, ==_refl,
}
use mathlib.Core.Path.{subst}
use native.Mathlib.Decide.{ℕ_discrete, dec_le}
use dumbos_platform_system_c.Uapi.{nla_hdrlen, nla_align}
use dumbos_platform_system_c.Attribute.{nla_len, nla_type, get_attribute_loop, get_attribute_impl}

-- The loop walks to an attribute with another id whose nla_len is 0.
pub data Stalls (id : ℕ) : Bytes → Type 0 where
  here :
      {buf : Bytes} → nla_hdrlen ≤ length buf → nla_type buf ≢ id → nla_len buf ≡ 0 → Stalls id buf
  next :
      {buf : Bytes}
      → nla_hdrlen ≤ length buf
      → nla_type buf ≢ id
      → Stalls id (drop (nla_align (nla_len buf)) buf)
      → Stalls id buf

-- One round of the loop, for a header that is there and has another id.
loop_next :
    (fuel id : ℕ) (buf : Bytes)
    → nla_hdrlen ≤ length buf
    → nla_type buf ≢ id
    → get_attribute_loop (suc fuel) buf id
      ≡ get_attribute_loop fuel (drop (nla_align (nla_len buf)) buf) id
unfolding get_attribute_loop
loop_next fuel id buf h ne = rw (leb-true _ _ h, ==_ne _ _ ne) refl

drop_none : (buf : Bytes) → nla_len buf ≡ 0 → drop (nla_align (nla_len buf)) buf ≡ buf
drop_none buf e = ap (λ n. drop (nla_align n) buf) e

-- What the loop does next: one of four.
data Head (id : ℕ) (buf : Bytes) : Type 0 where
  short : length buf < nla_hdrlen → Head id buf
  hit : nla_hdrlen ≤ length buf → nla_type buf ≡ id → Head id buf
  stuck : nla_hdrlen ≤ length buf → nla_type buf ≢ id → nla_len buf ≡ 0 → Head id buf
  onward :
      nla_hdrlen ≤ length buf
      → nla_type buf ≢ id
      → length (drop (nla_align (nla_len buf)) buf) < length buf
      → Head id buf

drop_shorter :
    (buf : Bytes)
    → nla_hdrlen ≤ length buf
    → nla_len buf ≢ 0
    → length (drop (nla_align (nla_len buf)) buf) < length buf
drop_shorter buf h ne = omega (arith, length-drop (nla_align (nla_len buf)) buf)

Head-other : (id : ℕ) (buf : Bytes) → nla_hdrlen ≤ length buf → nla_type buf ≢ id → Head id buf
Head-other id buf h ne = elim (ℕ_discrete (nla_len buf) 0) [
  | yes e ↦ stuck h ne e
  | no e ↦ onward h ne (drop_shorter buf h e)
]

Head-cases : (id : ℕ) (buf : Bytes) → Head id buf
Head-cases id buf = elim (dec_le nla_hdrlen (length buf)) [
  | yes h ↦ elim (ℕ_discrete (nla_type buf) id) [ yes e ↦ hit h e | no ne ↦ Head-other id buf h ne ]
  | no h ↦ short (omega arith)
]

loop_short :
    (fuel id : ℕ) (buf : Bytes)
    → length buf < nla_hdrlen
    → get_attribute_loop (suc fuel) buf id ≡ fails
unfolding get_attribute_loop
loop_short fuel id buf h = rw (leb-false _ _ h) refl

-- The attribute with the id is the answer, if it fits.
loop_hit :
    (fuel id : ℕ) (buf : Bytes)
    → nla_hdrlen ≤ length buf
    → nla_type buf ≡ id
    → get_attribute_loop (suc fuel) buf id ≡ (
        if leb (nla_align (nla_len buf)) (length buf)
        then ok (take (nla_align (nla_len buf)) buf)
        else fails)
unfolding get_attribute_loop
loop_hit fuel id buf h e = rw (leb-true _ _ h, e, ==_refl id) refl

hit_ends :
    (fuel id : ℕ) (buf : Bytes)
    → nla_hdrlen ≤ length buf
    → nla_type buf ≡ id
    → get_attribute_loop (suc fuel) buf id ≢ hangs
hit_ends fuel id buf h e w = ground (arith, loop_hit fuel id buf h e)

stall_hangs : (fuel id : ℕ) (buf : Bytes) → Stalls id buf → get_attribute_loop fuel buf id ≡ hangs
stall_hangs zero id buf s = unfold get_attribute_loop in refl
stall_hangs (suc fuel) id buf (here h ne e) =
    loop_next fuel id buf h ne ∙ rw (drop_none buf e) (stall_hangs fuel id buf (here h ne e))
stall_hangs (suc fuel) id buf (next h ne s) = loop_next fuel id buf h ne ∙ stall_hangs fuel id _ s

hang-Stalls :
    (fuel id : ℕ) (buf : Bytes)
    → length buf < fuel
    → get_attribute_loop fuel buf id ≡ hangs
    → Stalls id buf
hang-Stalls zero id buf h e = absurd (omega arith)
hang-Stalls (suc fuel) id buf h e = elim (Head-cases id buf) [
  | short lt ↦ cc (loop_short fuel id buf lt)
  | hit le t ↦ absurd (hit_ends fuel id buf le t e)
  | stuck le ne z ↦ here le ne z
  | onward le ne lt ↦
      next le ne (hang-Stalls fuel id _ (omega arith) (sym (loop_next fuel id buf le ne) ∙ e))
]

-- GetAttributeImpl loops for ever, with any amount of fuel, exactly when its walk meets an attribute
-- of length 0 with another id before it meets the id or the end.
pub get_attribute_impl-hangs_iff :
    (id : ℕ) (buf : Bytes) → (get_attribute_impl buf id ≡ hangs) ↔ Stalls id buf
unfolding get_attribute_impl
get_attribute_impl-hangs_iff id buf =
    (hang-Stalls (suc (length buf)) id buf (omega arith), stall_hangs _ id buf)

loop_fuel :
    (f g id : ℕ) (buf : Bytes)
    → length buf < f
    → length buf < g
    → get_attribute_loop f buf id ≡ get_attribute_loop g buf id
loop_fuel zero g id buf h k = absurd (omega arith)
loop_fuel (suc f) zero id buf h k = absurd (omega arith)
loop_fuel (suc f) (suc g) id buf h k = elim (Head-cases id buf) [
  | short lt ↦ loop_short f id buf lt ∙ sym (loop_short g id buf lt)
  | hit le t ↦ loop_hit f id buf le t ∙ sym (loop_hit g id buf le t)
  | stuck le ne z ↦
      stall_hangs (suc f) id buf (here le ne z) ∙ sym (stall_hangs (suc g) id buf (here le ne z))
  | onward le ne lt ↦
      loop_next f id buf le ne
      ∙ loop_fuel f g id (drop (nla_align (nla_len buf)) buf) (omega arith) (omega arith)
      ∙ sym (loop_next g id buf le ne)
]

-- The fuel does not matter once it exceeds the number of bytes.
pub get_attribute_loop-eq-impl :
    (fuel id : ℕ) (buf : Bytes)
    → length buf < fuel
    → get_attribute_loop fuel buf id ≡ get_attribute_impl buf id
unfolding get_attribute_impl
get_attribute_loop-eq-impl fuel id buf h = loop_fuel fuel _ id buf h (omega arith)

-- `found` is what the loop cuts out at `rest`: the header has the id, and all of it is in the buffer.
pub record IsCut (id : ℕ) (rest found : Bytes) : Type 0 where
  pub room : nla_hdrlen ≤ length rest
  pub has_id : nla_type rest ≡ id
  pub within : nla_align (nla_len rest) ≤ length rest
  pub is_cut : found ≡ take (nla_align (nla_len rest)) rest

abbrev pub IsPiece : ℕ → Bytes → Bytes → Type 0
IsPiece id buf found = (skipped : ℕ) × IsCut id (drop skipped buf) found

later-IsPiece :
    (k id : ℕ) (buf : Bytes) {found : Bytes} → IsPiece id (drop k buf) found → IsPiece id buf found
later-IsPiece k id buf {found} (s, c) = (k + s, subst (λ r. IsCut id r found) (drop-drop k s buf) c)

hit-IsCut :
    (fuel id : ℕ) (buf : Bytes) {found : Bytes}
    → nla_hdrlen ≤ length buf
    → nla_type buf ≡ id
    → get_attribute_loop (suc fuel) buf id ≡ ok found
    → IsCut id buf found
hit-IsCut fuel id buf h t e = ground (arith, loop_hit fuel id buf h t)

loop-IsPiece :
    (fuel id : ℕ) (buf : Bytes) {found : Bytes}
    → get_attribute_loop fuel buf id ≡ ok found
    → IsPiece id buf found
loop-IsPiece zero id buf e = unfold get_attribute_loop in cc
loop-IsPiece (suc fuel) id buf e = elim (Head-cases id buf) [
  | short lt ↦ cc (loop_short fuel id buf lt)
  | hit le t ↦ (0, hit-IsCut fuel id buf le t e)
  | stuck le ne z ↦ cc (stall_hangs (suc fuel) id buf (here le ne z))
  | onward le ne lt ↦
      later-IsPiece (nla_align (nla_len buf)) id buf
        (loop-IsPiece fuel id _ (sym (loop_next fuel id buf le ne) ∙ e))
]

-- Whatever the bytes are, an attribute that GetAttributeImpl returns lies inside the buffer, has the
-- id that was asked for, and is as long as its header says, rounded up.
pub get_attribute_impl-IsPiece :
    (id : ℕ) (buf : Bytes) {found : Bytes}
    → get_attribute_impl buf id ≡ ok found
    → IsPiece id buf found
unfolding get_attribute_impl
get_attribute_impl-IsPiece id buf e = loop-IsPiece _ id buf e

loop-ne-faults : (fuel id : ℕ) (buf : Bytes) → get_attribute_loop fuel buf id ≢ faults
unfolding get_attribute_loop
loop-ne-faults zero id buf e = cc
loop-ne-faults (suc fuel) id buf e =
    ground (arith, loop-ne-faults fuel id (drop (nla_align (nla_len buf)) buf))

-- The search itself reads nothing outside the buffer.
pub get_attribute_impl-ne-faults : (buf : Bytes) (id : ℕ) → get_attribute_impl buf id ≢ faults
unfolding get_attribute_impl
get_attribute_impl-ne-faults buf id = loop-ne-faults _ id buf
