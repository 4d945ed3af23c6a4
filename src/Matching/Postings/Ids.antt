-- ===== src/Matching/Postings/Ids.antt =====
-- The block and the offset of a subscription id determine it.
use disaster_alert.Prelude.{ℕ, ◌^◌, ◌<◌, ◌≡◌, ◌↔◌, some, arith}
use disaster_alert.Matching.Postings.{posting_block, posting_offset, from_posting}

-- An id of 64 bits is found again from its block and its offset, and from no other pair.
pub from_posting_iff :
    (id block offset : ℕ)
    → id < 2 ^ 64
    → (from_posting block offset ≡ some id)
      ↔ ((block ≡ posting_block id) × (offset ≡ posting_offset id))
unfolding from_posting posting_block posting_offset
from_posting_iff id block offset small = (λ h. ground arith, λ h. ground (arith, h.0, h.1))
