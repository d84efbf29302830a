-- ===== src/Scanner/Ssids.antt =====
-- The ssids of a single scan request.
use dumbos_platform_system_c.Base.{
  ℕ, zero, suc, ◌+◌, ◌-◌, ◌≤◌, ◌≡◌, refl, ap, sym, ◌∙◌, inl, inr, List, [], ◌∷◌, ◌++◌, append_assoc,
  append-nil, arith, length, length-append, length-take, take, Bytes, ltb, if◌then◌else◌,
  Bool-cases, ltb-true, max,
}
use dumbos_platform_system_c.Scanner.Request.{collect_ssids}

-- The ssids of at most 32 bytes.
abbrev pub short_ssids : List Bytes → List Bytes
short_ssids [] = []
short_ssids (ssid ∷ networks) =
    let rest = short_ssids networks in if ltb 32 (length ssid) then rest else ssid ∷ rest

take_nil : (n : ℕ) → take {A = Bytes} n [] ≡ []
take_nil zero = refl
take_nil (suc n) = refl

take_none : (l : List Bytes) (n : ℕ) → n ≡ 0 → take n l ≡ []
take_none l zero e = refl
take_none l (suc n) e = absurd (omega arith)

take_some : (x : Bytes) (l : List Bytes) (n m : ℕ) → n ≡ suc m → take n (x ∷ l) ≡ x ∷ take m l
take_some x l zero m e = absurd (omega arith)
take_some x l (suc n) m e = ap (λ k. x ∷ take k l) (omega arith)

-- When the list is full the loop adds nothing.
collect_full :
    (limit : ℕ) (networks ssids : List Bytes)
    → limit ≤ length ssids
    → collect_ssids limit networks ssids ≡ ssids
unfolding collect_ssids
collect_full limit [] ssids h = refl
collect_full limit (x ∷ networks) ssids h =
    rw (ltb-true limit (length ssids + 1) (omega arith)) (collect_full limit networks ssids h)

-- The loop of scanRequest: the ssids collected so far, then the hidden networks' ssids of at most 32
-- bytes in order, as many as the limit leaves room for.
pub collect_ssids_lem :
    (limit : ℕ) (networks ssids : List Bytes)
    → collect_ssids limit networks ssids
      ≡ ssids ++ take (limit - length ssids) (short_ssids networks)
unfolding collect_ssids
collect_ssids_lem limit [] ssids = rw (take_nil (limit - length ssids)) (sym (append-nil ssids))
collect_ssids_lem limit (x ∷ networks) ssids = elim (Bool-cases (ltb limit (length ssids + 1))) [
  | inl full ↦
      let most : limit ≤ length ssids = ground arith in
      rw full (
        collect_full limit networks ssids most
        ∙ (sym (append-nil ssids)
            ∙ ap (◌++◌ ssids) (sym (take_none _ (limit - length ssids) (omega arith)))))
  | inr room ↦ elim (Bool-cases (ltb 32 (length x))) [
    | inl long ↦ rw (room, long) (collect_ssids_lem limit networks ssids)
    | inr short ↦
        let left : limit - length ssids ≡ suc (limit - length (ssids ++ x ∷ [])) =
          ground (arith, length-append ssids (x ∷ [])) in
        rw (room, short)
          (collect_ssids_lem limit networks (ssids ++ x ∷ [])
            ∙ (append_assoc ssids (x ∷ []) _ ∙ ap (◌++◌ ssids) (sym (take_some x _ _ _ left))))
  ]
]

-- A request holds one ssid at least, and no more than the limit unless the limit is 0.
pub length-collect_ssids :
    (limit : ℕ) (networks : List Bytes)
    → length (collect_ssids limit networks ([] ∷ [])) ≤ max 1 limit
length-collect_ssids limit networks =
    rw collect_ssids_lem (omega (arith, length-take (limit - 1) (short_ssids networks)))
