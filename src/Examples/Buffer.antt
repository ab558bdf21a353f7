-- ===== src/Examples/Buffer.antt =====
-- A buffer of 40 bytes that two writers share.
use todb.Prelude.{◌+◌, ◌≡◌, refl, ok, [], ◌∷◌, arith}
use todb.Wal.Buffer.{WalBuffer, new, claim_buffer_range, claim_slot}
use todb.Wal.Buffer.Claims.{
  Claims, fresh, range, refused, AreDisjoint, AllEndBy, AreNumbered, Claims-AreDisjoint,
  claim_slot-claimed,
}

-- after claims of 16 and 20 bytes, and one of 30 that is refused
abbrev shared : WalBuffer
shared = record (new 40 7 1) { write_pos = 66 }

waiting_both : Claims 40 7 1 shared ((16, 20) ∷ (0, 16) ∷ []) [] 2 66
unfolding new claim_buffer_range
waiting_both =
    refused 30 (range 20 16 (range 16 0 fresh (omega arith) refl) (omega arith) refl) refl

Claims-AreDisjoint_example :
    AreDisjoint ((16, 20) ∷ (0, 16) ∷ [])
    × AllEndBy 40 ((16, 20) ∷ (0, 16) ∷ [])
    × AreNumbered shared.entries_allocated []
    × (shared.entries_allocated + 2 ≡ 2)
Claims-AreDisjoint_example = Claims-AreDisjoint 40 7 1 waiting_both (omega arith)

claim_slot-claimed_example :
    (c : WalBuffer) × (claim_slot shared ≡ ok (shared.entries_allocated, c))
claim_slot-claimed_example = claim_slot-claimed 40 7 1 waiting_both (omega arith)
