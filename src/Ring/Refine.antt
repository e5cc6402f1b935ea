-- ===== src/Ring/Refine.antt =====
-- The ring of internal/logging/ring.go against the list of all entries that were written.
use native.Mathlib.Nat.{mod-lt}
use wgpilot.Base.{
  ℕ, zero, suc, ◌+◌, ◌-◌, ◌%◌, ◌≤◌, ◌<◌, ◌≡◌, refl, sym, ◌∙◌, arith, min, Option, none, some, List,
  [], ◌∷◌, ◌++◌, if◌then◌else◌, ltb, ◌==◌, get_or, set, drop, length, length-set, length-append,
  length-replicate, append-nil, append_assoc, get_or-set_self, get_or-set_ne, get_or-append_left,
  get_or-append_last, subst, Bool-cases, inl, inr,
}
use native.Mathlib.Decide.{dec_lt}
use wgpilot.Base.Arith.{mod_ne}
use wgpilot.Ring.{RingBuffer, new_ring_buffer, recent_from, recent, write, len}

drop-get_or :
    {E : Type 0} (blank : E) (n : ℕ) (xs : List E)
    → n < length xs
    → drop n xs ≡ get_or xs n blank ∷ drop (suc n) xs
drop-get_or blank n [] h = absurd (omega arith)
drop-get_or blank zero (x ∷ xs) h = refl
drop-get_or blank (suc n) (x ∷ xs) h = drop-get_or blank n xs (omega arith)

drop-length : {E : Type 0} (xs : List E) → drop (length xs) xs ≡ []
drop-length [] = refl
drop-length (x ∷ xs) = drop-length xs

module _ {E : Type 0} (blank : E) where
  -- The ring holds the latest `size` entries of the history, each in its slot.
  pub record Holds (rb : RingBuffer E) (size : ℕ) (written : List E) : Type 0 where
    pub sized : rb.size ≡ size
    pub slots : length rb.entries ≡ size
    pub position : rb.pos ≡ length written
    pub counted : rb.count ≡ min (length written) size
    pub latest :
        (i : ℕ)
        → i < length written
        → length written ≤ i + size
        → get_or rb.entries (i % size) blank ≡ get_or written i blank

  new-Holds : (size : ℕ) → Holds (new_ring_buffer blank size) size []
  unfolding new_ring_buffer
  new-Holds size = record {
    sized = refl;
    slots = length-replicate size blank;
    position = refl;
    counted = omega arith;
    latest = λ i h k. absurd (omega arith);
  }

  latest-set :
      (e : E) (rb : RingBuffer E) (size : ℕ) (written : List E)
      → 0 < size
      → Holds rb size written
      → (i : ℕ) → i < length written + 1
      → length written + 1 ≤ i + size
      → get_or (set rb.entries (length written % size) e) (i % size) blank
        ≡ get_or (written ++ e ∷ []) i blank
  latest-set e rb size written pos v i h k = elim (dec_lt i (length written)) [
    | yes lt ↦
        get_or-set_ne rb.entries (length written % size) (i % size) e blank
          (λ same. mod_ne size i (length written) lt (omega arith) (sym same))
        ∙ v.latest i lt (omega arith)
        ∙ sym (get_or-append_left written (e ∷ []) i blank lt)
    | no ge ↦
        let last : length written ≡ i = omega arith in
        let in_range : i % size < length rb.entries = rw v.slots (mod-lt i pos) in
        subst
          (λ m.
            get_or (set rb.entries (m % size) e) (i % size) blank
            ≡ get_or (written ++ e ∷ []) i blank)
          (sym last)
          (get_or-set_self rb.entries (i % size) e blank in_range
            ∙ sym (
                subst (λ m. get_or (written ++ e ∷ []) m blank ≡ e) last
                  (get_or-append_last written e blank)))
  ]

  write-Holds :
      (e : E) (rb : RingBuffer E) (size : ℕ) (written : List E)
      → 0 < size
      → Holds rb size written
      → (rb' : RingBuffer E) × (write e rb ≡ some rb') × Holds rb' size (written ++ e ∷ [])
  unfolding write
  write-Holds e rb size written pos v =
      let slot = rb.pos % rb.size in
      (
        record rb {
          entries = set rb.entries slot e;
          pos = rb.pos + 1;
          count = if ltb rb.count rb.size then rb.count + 1 else rb.count;
        },
        ground (arith, v.sized),
        record {
          sized = v.sized;
          slots = length-set rb.entries slot e ∙ v.slots;
          position = omega (arith, length-append written (e ∷ []), v.position);
          counted = ground (arith, length-append written (e ∷ []), v.counted, v.sized);
          latest = λ i h k.
              let size_eq : length (written ++ e ∷ []) ≡ length written + 1 =
                length-append written (e ∷ []) in
              let same : slot ≡ length written % size = cc (v.position, v.sized) in
              rw same (latest-set e rb size written pos v i (omega arith) (omega arith));
        },
      )

  -- Reading on from a position that still stands in the ring gives the end of the history.
  recent_from-drop :
      (n start : ℕ) (rb : RingBuffer E) (size : ℕ) (written : List E)
      → Holds rb size written
      → start + n ≡ length written
      → length written ≤ start + size
      → recent_from blank n start rb ≡ drop start written
  unfolding recent_from
  recent_from-drop zero start rb size written v h k =
      sym (rw (let same : start ≡ length written = omega arith in same) (drop-length written))
  recent_from-drop (suc n) start rb size written v h k =
      let here = v.latest start (omega arith) k in
      let rest = recent_from-drop n (start + 1) rb size written v (omega arith) (omega arith) in
      let next : start + 1 ≡ suc start = omega arith in
      rw (rest, v.sized, here, next) (sym (drop-get_or blank start written (omega arith)))

  recent_at :
      (k : ℕ) (rb : RingBuffer E) (size : ℕ) (written : List E)
      → Holds rb size written
      → k ≤ length written
      → k ≤ size
      → (if k == 0 then [] else recent_from blank k (rb.pos - k) rb)
        ≡ drop (length written - k) written
  recent_at k rb size written v h g = elim (Bool-cases (k == 0)) [
    | inl none_asked ↦
        let all : length written - k ≡ length written = ground arith in
        rw (none_asked, all) (sym (drop-length written))
    | inr some_asked ↦
        let start : rb.pos - k ≡ length written - k = omega (arith, v.position) in
        rw (some_asked, start)
          (recent_from-drop k (length written - k) rb size written v (omega arith) (omega arith))
  ]

  recent-drop :
      (n : ℕ) (rb : RingBuffer E) (size : ℕ) (written : List E)
      → Holds rb size written
      → recent blank n rb ≡ drop (length written - min n (min (length written) size)) written
  unfolding recent
  recent-drop n rb size written v =
      let m = min n (min (length written) size) in
      let asked : (if ltb rb.count n then rb.count else n) ≡ m = ground (arith, v.counted) in
      rw asked (recent_at m rb size written v (omega arith) (omega arith))

  pub write_all : List E → RingBuffer E → Option (RingBuffer E)
  write_all [] rb = some rb
  write_all (e ∷ es) rb = elim (write e rb) [ none ↦ none | some rb' ↦ write_all es rb' ]

  write_all-Holds :
      (es : List E) (rb : RingBuffer E) (size : ℕ) (written : List E)
      → 0 < size
      → Holds rb size written
      → (rb' : RingBuffer E) × (write_all es rb ≡ some rb') × Holds rb' size (written ++ es)
  unfolding write_all
  write_all-Holds [] rb size written pos v = (rb, refl, rw append-nil v)
  write_all-Holds (e ∷ es) rb size written pos v =
      let (next, done, w) = write-Holds e rb size written pos v in
      let (last, all, x) = write_all-Holds es next size (written ++ e ∷ []) pos w in
      (last, rw (done, write_all) all, rw (← append_assoc written (e ∷ []) es) x)

  -- After any writes into a ring of positive size no write has panicked, `Recent n` is the latest
  -- `n` of the latest `size` entries, oldest first, and `Len` counts the entries that are kept.
  pub recent-write_all :
      (size n : ℕ) (written : List E)
      → 0 < size
      → (rb : RingBuffer E) × (write_all written (new_ring_buffer blank size) ≡ some rb)
        × (recent blank n rb ≡ drop (length written - min n (min (length written) size)) written)
        × (len rb ≡ min (length written) size)
  unfolding len
  recent-write_all size n written pos =
      let (rb, done, v) = write_all-Holds written _ size [] pos (new-Holds size) in
      (rb, done, recent-drop n rb size written v, v.counted)
