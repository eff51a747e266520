-- ===== src/Kitties/Dna.antt =====
-- The DNA of a bred kitty.
use Prim.Native.Nat.{bit_and}
use archer_in_zoo.Prelude.{
  ℕ, zero, suc, ◌+◌, ◌-◌, ◌≤◌, ◌<◌, ◌≡◌, refl, ◌∙◌, none, some, List, ◌==◌, if◌then◌else◌, arith,
  length, get_elem?, set, replicate, length-set, get_elem?-set, ltb, leb, ◌&&◌, get_elem?-ge,
}
use archer_in_zoo.Prelude.Bits.{bit, bit-and, bit-or, bit_bound, bit_complement, and-lt, or-lt}
use archer_in_zoo.Kitties.{at, combine_dna, combine_loop, child_dna}

-- Each bit of the child's byte is the first parent's where the selector has a one, and the second
-- parent's where it has a zero.
pub bit-combine_dna :
    (k dna1 dna2 selector : ℕ)
    → k < 8
    → selector < 256
    → bit k (combine_dna dna1 dna2 selector)
      ≡ (if bit k selector == 1 then bit k dna1 else bit k dna2)
unfolding combine_dna
bit-combine_dna k dna1 dna2 selector h s = ground (
  arith,
  bit-or k (bit_and selector dna1) (bit_and (255 - selector) dna2),
  bit-and k selector dna1,
  bit-and k (255 - selector) dna2,
  bit_complement 8 k selector h s,
  bit_bound k selector,
  bit_bound k dna1,
  bit_bound k dna2,
)

-- The result of combining bytes is a byte.
pub combine_dna-lt :
    (dna1 dna2 selector : ℕ) → selector < 256 → combine_dna dna1 dna2 selector < 256
unfolding combine_dna
combine_dna-lt dna1 dna2 selector h =
    or-lt 8 (bit_and selector dna1) (bit_and (255 - selector) dna2) (and-lt 8 selector dna1 h)
      (and-lt 8 (255 - selector) dna2 (omega arith))

module _ (dna1 dna2 selector : List ℕ) where
  abbrev byte_at : ℕ → ℕ
  byte_at i = combine_dna (at dna1 i) (at dna2 i) (at selector i)

  -- The loop writes the indices from `i` on, as many as there are rounds.
  combine_loop-get :
      (rounds i : ℕ) (new_dna : List ℕ) (j : ℕ)
      → i + rounds ≤ length new_dna
      → get_elem? (combine_loop rounds i dna1 dna2 selector new_dna) j
        ≡ (if leb i j && ltb j (i + rounds) then some (byte_at j) else get_elem? new_dna j)
  unfolding combine_loop
  combine_loop-get zero i new_dna j h = ground arith
  combine_loop-get (suc rounds) i new_dna j h = ground (
    arith,
    combine_loop-get rounds (i + 1) (set new_dna i (byte_at i)) j,
    length-set new_dna i (byte_at i),
    get_elem?-set new_dna i j (byte_at i),
  )

  combine_loop-length :
      (rounds i : ℕ) (new_dna : List ℕ)
      → length (combine_loop rounds i dna1 dna2 selector new_dna) ≡ length new_dna
  unfolding combine_loop
  combine_loop-length zero i new_dna = refl
  combine_loop-length (suc rounds) i new_dna =
      combine_loop-length rounds (i + 1) (set new_dna i (byte_at i))
      ∙ length-set new_dna i (byte_at i)

  -- `do_breed`'s loop fills all 16 bytes of the child, each from the parents' and the selector's
  -- bytes at its index.
  pub child_dna_lem :
      (length (child_dna dna1 dna2 selector) ≡ 16)
      × ((j : ℕ)
          → get_elem? (child_dna dna1 dna2 selector) j
            ≡ (if ltb j 16 then some (byte_at j) else none))
  unfolding child_dna
  child_dna_lem = (
    combine_loop-length 16 0 (replicate 16 0),
    λ j.
        ground (
          arith,
          combine_loop-get 16 0 (replicate 16 0) j,
          get_elem?-ge (replicate {A = ℕ} 16 0) j,
        ),
  )

  -- With a selector of bytes, the child has 16 bytes, and each bit of each of them is the first
  -- parent's where the selector has a one and the second parent's where it has a zero.
  pub child_inherits :
      ((i : ℕ) → at selector i < 256)
      → (j k : ℕ) → j < 16
      → k < 8
      → (length (child_dna dna1 dna2 selector) ≡ 16)
        × (bit k (at (child_dna dna1 dna2 selector) j)
            ≡ (if bit k (at selector j) == 1 then bit k (at dna1 j) else bit k (at dna2 j)))
  child_inherits bytes j k hj hk = (
    child_dna_lem.0,
    ground (
      arith,
      child_dna_lem.1 j,
      bit-combine_dna k (at dna1 j) (at dna2 j) (at selector j) hk (bytes j),
    ),
  )
