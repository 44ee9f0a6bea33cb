-- ===== src/Signature/Reversal.antt =====
-- What reverseBytes makes of a slice.
use odysee_api.Base.{
  ℕ, zero, suc, ◌+◌, ◌-◌, ◌*◌, ◌≤◌, ◌<◌, ◌≡◌, ◌≢◌, ◌⊎◌, inl, inr, List, Bool-cases, ltb, ltb→lt,
  eqb, ap, ◌∙◌, if◌then◌else◌, arith, length, get_or, set, replicate, length-set, length-replicate,
  get_or-set_self, get_or-set_ne, get_or-replicate,
}
use odysee_api.Signature.{reverse_loop, reverse_bytes}

-- Outside the open middle, from `left` to `right`, `r` holds the mirrored bytes, and in it zeros.
pub record Mirrored (b r : List ℕ) (left right : ℕ) : Type 0 where
  pub same_length : length r ≡ length b
  pub near : left ≤ right + 1
  pub opposite : left + right + 1 ≡ length b
  pub outer :
      (i : ℕ)
      → i < length b
      → ((i < left) ⊎ (right < i))
      → get_or r i 0 ≡ get_or b (length b - 1 - i) 0
  pub inner : (i : ℕ) → left ≤ i → i ≤ right → get_or r i 0 ≡ 0

-- A round of the loop.
abbrev swapped : List ℕ → List ℕ → ℕ → ℕ → List ℕ
swapped b r left right = set (set r left (get_or b right 0)) right (get_or b left 0)

length-swapped : (b r : List ℕ) (left right : ℕ) → length (swapped b r left right) ≡ length r
length-swapped b r left right =
    length-set (set r left (get_or b right 0)) right (get_or b left 0)
    ∙ length-set r left (get_or b right 0)

module _ (b r : List ℕ) (left right : ℕ) (m : Mirrored b r left right) (lt : left < right) where
  swapped-right : get_or (swapped b r left right) right 0 ≡ get_or b left 0
  swapped-right =
      get_or-set_self (set r left (get_or b right 0)) right (get_or b left 0) 0
        (omega (arith, m.same_length, m.opposite, length-set r left (get_or b right 0)))

  swapped-left : get_or (swapped b r left right) left 0 ≡ get_or b right 0
  swapped-left =
      get_or-set_ne (set r left (get_or b right 0)) right left (get_or b left 0) 0 (omega arith)
      ∙ get_or-set_self r left (get_or b right 0) 0 (omega (arith, m.same_length, m.opposite))

  swapped-other :
      (i : ℕ) → i ≢ left → i ≢ right → get_or (swapped b r left right) i 0 ≡ get_or r i 0
  swapped-other i h k =
      get_or-set_ne (set r left (get_or b right 0)) right i (get_or b left 0) 0 (omega arith)
      ∙ get_or-set_ne r left i (get_or b right 0) 0 (omega arith)

  swapped-outer :
      (i : ℕ)
      → i < length b
      → ((i < left + 1) ⊎ (right - 1 < i))
      → get_or (swapped b r left right) i 0 ≡ get_or b (length b - 1 - i) 0
  swapped-outer i h side = elim (Bool-cases (eqb i right)) [
    | inl e ↦
        let e' : i ≡ right = ground arith in
        rw e' (swapped-right ∙ ap (λ k. get_or b k 0) (omega (arith, m.opposite)))
    | inr n ↦ elim (Bool-cases (eqb i left)) [
      | inl e ↦
          let e' : i ≡ left = ground arith in
          rw e' (swapped-left ∙ ap (λ k. get_or b k 0) (omega (arith, m.opposite)))
      | inr n' ↦ swapped-other i (ground arith) (ground arith) ∙ m.outer i h (ground arith)
    ]
  ]

  swapped-Mirrored : Mirrored b (swapped b r left right) (left + 1) (right - 1)
  swapped-Mirrored = record {
    same_length = length-swapped b r left right ∙ m.same_length;
    near = omega arith;
    opposite = omega (arith, m.opposite);
    outer = swapped-outer;
    inner = λ i h k.
        swapped-other i (omega arith) (omega arith) ∙ m.inner i (omega arith) (omega arith);
  }

reverse_loop-Mirrored :
    (rounds left right : ℕ) (b r : List ℕ)
    → Mirrored b r left right
    → right < left + rounds + 1
    → (l : ℕ) × (k : ℕ) × (k ≤ l) × Mirrored b (reverse_loop rounds left right b r) l k
unfolding reverse_loop
reverse_loop-Mirrored zero left right b r m h = (left, right, omega arith, m)
reverse_loop-Mirrored (suc rounds) left right b r m h = elim (Bool-cases (ltb left right)) [
  | inl lt ↦ rw lt (
      reverse_loop-Mirrored rounds (left + 1) (right - 1) b (swapped b r left right)
        (swapped-Mirrored b r left right m (ltb→lt left right lt)) (ground arith))
  | inr ge ↦ rw ge (left, right, ground arith, m)
]

start-Mirrored : (b : List ℕ) → 0 < length b → Mirrored b (replicate (length b) 0) 0 (length b - 1)
start-Mirrored b h = record {
  same_length = length-replicate (length b) 0;
  near = omega arith;
  opposite = omega arith;
  outer = λ i lt side. absurd (omega arith);
  inner = λ i lo hi. get_or-replicate (length b) i 0;
}

Mirrored-get_or :
    (b r : List ℕ) (left right i : ℕ)
    → Mirrored b r left right
    → right ≤ left
    → i < length b
    → get_or r i 0 ≡ (if eqb (2 * i + 1) (length b) then 0 else get_or b (length b - 1 - i) 0)
Mirrored-get_or b r left right i m done h = elim (Bool-cases (eqb (2 * i + 1) (length b))) [
  | inl middle ↦
      rw middle
        (m.inner i (ground (arith, m.opposite, m.near)) (ground (arith, m.opposite, m.near)))
  | inr other ↦ rw other (m.outer i h (ground (arith, m.opposite, m.near)))
]

-- The slice that reverseBytes returns is as long as the one given and holds at each index the byte
-- at the mirrored one, except at the middle of an odd length, where it holds a zero.
pub reverse_bytes_lem :
    (b : List ℕ) (i : ℕ)
    → i < length b
    → (length (reverse_bytes b) ≡ length b)
      × (get_or (reverse_bytes b) i 0
          ≡ (if eqb (2 * i + 1) (length b) then 0 else get_or b (length b - 1 - i) 0))
unfolding reverse_bytes
reverse_bytes_lem b i h =
    let (l, k, done, m) =
      reverse_loop-Mirrored (length b) 0 (length b - 1) b (replicate (length b) 0)
        (start-Mirrored b (omega arith)) (omega arith) in
    (m.same_length, Mirrored-get_or b _ l k i m done h)
