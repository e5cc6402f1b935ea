-- ===== src/Ring.antt =====
-- internal/logging/ring.go: the ring of the latest log entries. Entries are only moved, so their
-- type is a parameter, with the zero value that fills a new slice. The lock of each method spans
-- it, so a method is one step. `pos` stays below the range of int.
pub mod Refine
mod Tests
use wgpilot.Base.{
  ℕ, zero, suc, ◌+◌, ◌-◌, ◌%◌, Option, none, some, List, [], ◌∷◌, if◌then◌else◌, ltb, ◌==◌, get_or,
  set, replicate,
}

pub record RingBuffer (E : Type 0) : Type 0 where
  pub entries : List E
  pub size : ℕ
  pub pos : ℕ
  pub count : ℕ

module _ {E : Type 0} (blank : E) where
  pub new_ring_buffer : ℕ → RingBuffer E
  new_ring_buffer size = record { entries = replicate size blank; size = size; pos = 0; count = 0 }

  -- The index `start + i` of the loop of `Recent`, for the `n` rounds that are left. The start is
  -- `pos - n` with `n` at most `count`, so the test for a negative index never holds.
  recent_from : ℕ → ℕ → RingBuffer E → List E
  recent_from zero start rb = []
  recent_from (suc n) start rb =
      get_or rb.entries (start % rb.size) blank ∷ recent_from n (start + 1) rb

  -- A negative `n` is left out.
  pub recent : ℕ → RingBuffer E → List E
  unfolding recent_from
  recent n rb =
      let m = if ltb rb.count n then rb.count else n in
      if m == 0 then [] else recent_from m (rb.pos - m) rb

-- `none` is the panic of `pos % 0`.
pub write : {E : Type 0} → E → RingBuffer E → Option (RingBuffer E)
write entry rb =
    if rb.size == 0
    then none
    else some (record rb {
      entries = set rb.entries (rb.pos % rb.size) entry;
      pos = rb.pos + 1;
      count = if ltb rb.count rb.size then rb.count + 1 else rb.count;
    })

pub len : {E : Type 0} → RingBuffer E → ℕ
len rb = rb.count
