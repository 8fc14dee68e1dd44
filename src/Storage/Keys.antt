-- ===== src/Storage/Keys.antt =====
-- Keys that `logical_key` accepts.
use agent_bench_x.Prelude.{
  ◌≢◌, ◌⊎◌, inl, inr, Bool-cases, ℕ, ◌≡◌, refl, true, false, List, [], ◌∷◌, ◌++◌, arith, ap, ◌∙◌,
  ◌↔◌,
}
use agent_bench_x.Storage.{
  reverse_onto, split_from, split, same, is_special, any_special, has_char, is_empty, logical_key,
}

pub same_refl : (key : List ℕ) → same key key ≡ true
unfolding same
same_refl [] = refl
same_refl (c ∷ key) = ground (arith, same_refl key)

pub same→≡ : (l m : List ℕ) → same l m ≡ true → l ≡ m
unfolding same
same→≡ [] [] h = refl
same→≡ (a ∷ l) [] h = ground arith
same→≡ [] (b ∷ m) h = ground arith
same→≡ (a ∷ l) (b ∷ m) h =
    let heads : a ≡ b = ground arith in
    let tails : l ≡ m = same→≡ l m (ground arith) in rw (heads, tails) refl

-- A part of a path that stays where it is: it is not empty, "." or "..".
abbrev pub IsPart : List ℕ → Type 0
IsPart p = (p ≢ []) × (p ≢ b'.' ∷ []) × (p ≢ b'.' ∷ b'.' ∷ [])

abbrev pub AreParts : List (List ℕ) → Type 0
AreParts [] = Unit {0}
AreParts (p ∷ parts) = IsPart p × AreParts parts

special_cases :
    (p : List ℕ) → is_special p ≡ true → (p ≡ []) ⊎ ((p ≡ b'.' ∷ []) ⊎ (p ≡ b'.' ∷ b'.' ∷ []))
special_cases p h = elim (Bool-cases (same p [])) [
  | inl none_there ↦ inl (same→≡ p [] none_there)
  | inr filled ↦ elim (Bool-cases (same p (b'.' ∷ []))) [
    | inl dot ↦ inr (inl (same→≡ p (b'.' ∷ []) dot))
    | inr other ↦ inr (inr (same→≡ p (b'.' ∷ b'.' ∷ []) (ground arith)))
  ]
]

special_true : (p q : List ℕ) → is_special q ≡ true → is_special p ≡ false → p ≢ q
special_true p q special plain e = let moved = ap is_special e in absurd (ground arith)

IsPart-plain : (p : List ℕ) → IsPart p → is_special p ≡ false
IsPart-plain p (filled, no_dot, no_dots) = elim (Bool-cases (is_special p)) [
  | inl special ↦ absurd (elim (special_cases p special) [
    | inl e ↦ filled e
    | inr (inl e) ↦ no_dot e
    | inr (inr e) ↦ no_dots e
  ])
  | inr plain ↦ plain
]

plain-IsPart : (p : List ℕ) → is_special p ≡ false → IsPart p
unfolding same
plain-IsPart p h = (
  special_true p [] refl h,
  special_true p (b'.' ∷ []) refl h,
  special_true p (b'.' ∷ b'.' ∷ []) refl h,
)

any_special_iff : (parts : List (List ℕ)) → (any_special parts ≡ false) ↔ AreParts parts
any_special_iff [] = ((λ h. tt), (λ h. refl))
any_special_iff (p ∷ parts) =
    let (to, from) = any_special_iff parts in
    (
      (λ h. (plain-IsPart p (ground arith), to (ground arith))),
      (λ h. let plain = IsPart-plain p h.0 in let rest = from h.1 in ground arith),
    )

-- `"/".join(parts)`
abbrev pub join : List ℕ → List (List ℕ) → List ℕ
join p [] = p
join p (q ∷ parts) = p ++ b'/' ∷ join q parts

-- No part has a slash in it.
abbrev pub AreNames : List (List ℕ) → Type 0
AreNames [] = Unit {0}
AreNames (p ∷ parts) = (has_char b'/' p ≡ false) × AreNames parts

split-last :
    (part p : List ℕ) → has_char b'/' p ≡ false → split_from part p ≡ reverse_onto part p ∷ []
unfolding split_from
split-last part [] h = refl
split-last part (c ∷ p) h = ground (arith, split-last (c ∷ part) p)

split-first :
    (part p key : List ℕ)
    → has_char b'/' p ≡ false
    → split_from part (p ++ b'/' ∷ key) ≡ reverse_onto part p ∷ split_from [] key
unfolding split_from
split-first part [] key h = refl
split-first part (c ∷ p) key h = ground (arith, split-first (c ∷ part) p key)

-- Parts without slashes are what `split` makes of their `join`.
split-join :
    (p : List ℕ) (parts : List (List ℕ)) → AreNames (p ∷ parts) → split (join p parts) ≡ p ∷ parts
unfolding split
split-join p [] (h, _) = split-last [] p h
split-join p (q ∷ parts) (h, hs) =
    split-first [] p (join q parts) h ∙ ap (λ t. p ∷ t) (split-join q parts hs)

join-filled :
    (p : List ℕ) (parts : List (List ℕ))
    → any_special (p ∷ parts) ≡ false
    → is_empty (join p parts) ≡ false
unfolding same
join-filled [] parts h = absurd (ground arith)
join-filled (c ∷ p) [] h = refl
join-filled (c ∷ p) (q ∷ parts) h = refl

-- A key that is joined of parts without slashes is accepted exactly if no part is empty, "." or
-- "..", and there is neither a backslash nor a NUL in it.
pub logical_key_iff :
    (p : List ℕ) (parts : List (List ℕ))
    → AreNames (p ∷ parts)
    → (logical_key (join p parts) ≡ true) ↔ (
        AreParts (p ∷ parts)
        × (has_char b'\\' (join p parts) ≡ false)
        × (has_char 0 (join p parts) ≡ false))
unfolding logical_key same
logical_key_iff p parts h =
    let e = split-join p parts h in
    let (to, from) = any_special_iff (p ∷ parts) in
    (
      (λ k. (to (ground (arith, e)), ground (arith, e), ground (arith, e))),
      (λ k. let plain = from k.0 in rw (e, join-filled p parts plain, plain, k.1, k.2) refl),
    )
