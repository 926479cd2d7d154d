-- ===== src/Inference/Bytes.antt =====
-- Bytes, as numbers below 256: cutting a slice in two, and big-endian numbers.
use orbit_api.Common.{
  ℕ, zero, suc, ◌+◌, ◌*◌, ◌/◌, ◌%◌, ◌≡◌, refl, Option, none, some, List, [], ◌∷◌, ◌++◌, length,
  arith, inl, inr, Option-cases,
}

abbrev pub Bytes : Type 0
Bytes = List ℕ

-- `b[:n]` and `b[n:]`, where `b` is long enough.
unfoldable pub cut : ℕ → Bytes → Option (Bytes × Bytes)
cut zero bs = some ([], bs)
cut (suc n) [] = none
cut (suc n) (b ∷ bs) = elim (cut n bs) [ none ↦ none | some (p, r) ↦ some (b ∷ p, r) ]

pub cut-append : (xs ys : Bytes) → cut (length xs) (xs ++ ys) ≡ some (xs, ys)
unfolding cut
cut-append [] ys = refl
cut-append (x ∷ xs) ys = rw (cut-append xs ys)

pub cut-ok :
    (n : ℕ) (bs : Bytes) {p r : Bytes} → cut n bs ≡ some (p, r) → (bs ≡ p ++ r) × (length p ≡ n)
unfolding cut
cut-ok zero bs e = ground arith
cut-ok (suc n) [] e = ground arith
cut-ok (suc n) (b ∷ bs) e = elim (Option-cases (cut n bs)) [
  | inl short ↦ ground (arith, e, short)
  | inr ((q, t), there) ↦
      let (same, long) = cut-ok n bs there in ground (arith, e, there, same, long)
]

-- binary.BigEndian, from the bytes that are there.
unfoldable pub big_endian : Bytes → ℕ
big_endian bs = go 0 bs
  where
    go : ℕ → Bytes → ℕ
    go n [] = n
    go n (b ∷ bs) = go (n * 256 + b) bs

-- The bytes of a number of two and of four bytes.
abbrev pub be2 : ℕ → Bytes
be2 n = n / 256 ∷ n % 256 ∷ []

abbrev pub be4 : ℕ → Bytes
be4 n = n / 16777216 ∷ n / 65536 % 256 ∷ n / 256 % 256 ∷ n % 256 ∷ []

pub big_endian-be2 : (n : ℕ) → big_endian (be2 n) ≡ n
unfolding big_endian
big_endian-be2 n = omega arith

pub big_endian-be4 : (n : ℕ) → big_endian (be4 n) ≡ n
unfolding big_endian
big_endian-be4 n = omega arith
