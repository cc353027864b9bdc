-- ===== src/Index/Laws.antt =====
-- Which offsets the conversions let through.
use jcontainers_ng.Common.{ℕ, suc, ◌-◌, ◌≤◌, ◌<◌, ◌≡◌, none, some, [], ◌∷◌, arith, ℤ, pos, negsuc}
use jcontainers_ng.Index.{
  sint32_end, to_sint32, convert_read_index, convert_write_index, convert_read_indices,
}

-- A size below 2 ^ 31 is kept.
pub to_sint32-small : (n : ℕ) → n < sint32_end → to_sint32 n ≡ pos n
to_sint32-small n h = ground arith

-- An index from the front is taken as it is, and refused from the size on.
pub convert_read_index-pos :
    (count n : ℕ)
    → count < sint32_end
    → (n < count → convert_read_index count (pos n) ≡ some (pos n))
      × (count ≤ n → convert_read_index count (pos n) ≡ none)
unfolding convert_read_index
convert_read_index-pos count n w = (
  λ h. rw (to_sint32-small count w, convert_read_index) (ground arith),
  λ h. rw (to_sint32-small count w, convert_read_index) (ground arith),
)

pub convert_read_index-neg :
    (count n : ℕ)
    → count < sint32_end
    → n < count
    → convert_read_index count (negsuc n) ≡ some (pos (count - suc n))
unfolding convert_read_index
convert_read_index-neg count n w h = rw (to_sint32-small count w, convert_read_index) (ground arith)

-- Too far from the end, nothing refuses the index.
pub convert_read_index-under :
    (count n : ℕ)
    → count < sint32_end
    → 0 < count
    → count ≤ n
    → convert_read_index count (negsuc n) ≡ some (negsuc (n - count))
unfolding convert_read_index
convert_read_index-under count n w p h =
    rw (to_sint32-small count w, convert_read_index) (ground arith)

pub convert_write_index-pos :
    (count n : ℕ)
    → count < sint32_end
    → (n ≤ count → convert_write_index count (pos n) ≡ some (pos n))
      × (count < n → convert_write_index count (pos n) ≡ none)
unfolding convert_write_index
convert_write_index-pos count n w = (
  λ h. rw (to_sint32-small count w, convert_write_index) (ground arith),
  λ h. rw (to_sint32-small count w, convert_write_index) (ground arith),
)

pub convert_write_index-neg :
    (count n : ℕ)
    → count < sint32_end
    → n ≤ count
    → convert_write_index count (negsuc n) ≡ some (pos (count - n))
unfolding convert_write_index
convert_write_index-neg count n w h =
    rw (to_sint32-small count w, convert_write_index) (ground arith)

pub convert_write_index-under :
    (count n : ℕ)
    → count < sint32_end
    → count < n
    → convert_write_index count (negsuc n) ≡ some (negsuc (n - count - 1))
unfolding convert_write_index
convert_write_index-under count n w h =
    rw (to_sint32-small count w, convert_write_index) (ground arith)

-- When the conversion of two indices succeeds, both offsets are inside the container.
pub convert_read_indices-lt :
    (count : ℕ) (p q : ℤ) (i j : ℕ)
    → convert_read_indices count (p ∷ q ∷ []) ≡ some (i ∷ j ∷ [])
    → (i < count) × (j < count)
unfolding convert_read_indices
convert_read_indices-lt count p q i j h = ground arith
