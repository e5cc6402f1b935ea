-- ===== src/Ring/Tests.antt =====
-- A ring of three numbers.
use wgpilot.Base.{ℕ, ◌≡◌, arith, some, [], ◌∷◌, drop}
use wgpilot.Ring.{RingBuffer, new_ring_buffer, recent, len}
use wgpilot.Ring.Refine.{write_all, recent-write_all}

recent-write_all_example :
    (rb : RingBuffer ℕ) × (write_all 0 (1 ∷ 2 ∷ 3 ∷ 4 ∷ []) (new_ring_buffer 0 3) ≡ some rb)
    × (recent 0 2 rb ≡ drop 2 (1 ∷ 2 ∷ 3 ∷ 4 ∷ []))
    × (len rb ≡ 3)
recent-write_all_example = recent-write_all 0 3 2 (1 ∷ 2 ∷ 3 ∷ 4 ∷ []) (omega arith)
