-- ===== src/Workflow/Advance/Truncate/Fits.antt =====
-- A truncated output fits into its budget.
use Prim.Native.String.{◌++◌ as ◌<>◌}
use octeam.Prelude.{
  ℕ, zero, suc, ◌+◌, ◌-◌, ◌/◌, ◌≤◌, ◌<◌, ◌≡◌, inl, inr, String, false, some, arith, ltb, Bool-cases,
  Option-cases, lt_of_ltb, le_of_not_ltb,
}
use octeam.Workflow.Advance.Truncate.{
  Texts, sep_overhead, last_complete_tag_end, back_up, move_up, next_start, truncate_head,
  before_unclosed, before_orphan, comes_first, after_fragment, marker_of, truncate_middle,
  truncate_output,
}

-- What is relied on. Two halves of a character take more bytes apart than together; bytes between two
-- starts of characters decode to no more bytes; an index in a text is within its bytes; and a number
-- below 10 to the 15th has at most 15 digits.
pub record TextsLaws (texts : Texts) : Type 0 where
  pub bytes_empty : texts.bytes "" ≡ 0
  pub bytes_before : texts.bytes "\n...[truncated " ≡ 15
  pub bytes_behind : texts.bytes " middle bytes]...\n" ≡ 18
  pub bytes-append : (s t : String) → texts.bytes (s <> t) ≤ texts.bytes s + texts.bytes t
  pub bytes-digits : (n : ℕ) → n < 1000000000000000 → texts.bytes (texts.digits n) ≤ 15
  pub starts_at_zero : (s : String) → texts.continues s 0 ≡ false
  pub ends_outside : (s : String) (i : ℕ) → texts.bytes s ≤ i → texts.continues s i ≡ false
  pub bytes-decode :
      (s : String) (a b : ℕ)
      → texts.continues s a ≡ false
      → texts.continues s b ≡ false
      → texts.bytes (texts.decode s a b) ≤ b - a
  pub open_within : (s : String) (i : ℕ) → texts.last_open s ≡ some i → i ≤ texts.bytes s

module _ (texts : Texts) (laws : TextsLaws texts) where
  -- A start of a character, up to a limit.
  abbrev IsEnd : String → ℕ → ℕ → Type 0
  IsEnd s limit i = (texts.continues s i ≡ false) × (i ≤ limit)

  abbrev IsStart : String → ℕ → ℕ → Type 0
  IsStart s limit i = (texts.continues s i ≡ false) × (limit ≤ i)

  back_up-IsEnd : (s : String) (i : ℕ) → IsEnd s i (back_up texts s i)
  unfolding back_up
  back_up-IsEnd s zero = (laws.starts_at_zero s, omega arith)
  back_up-IsEnd s (suc i) =
      let (lower, less) = back_up-IsEnd s i in
      elim (Bool-cases (texts.continues s (suc i))) [
        | inl inside ↦ rw (back_up, inside) (lower, omega arith)
        | inr start ↦ rw (back_up, start) (start, omega arith)
      ]

  move_up-IsStart :
      (s : String) (n i : ℕ) → texts.bytes s ≤ n + i → IsStart s i (move_up texts s n i)
  unfolding move_up
  move_up-IsStart s zero i h = (laws.ends_outside s i (omega arith), omega arith)
  move_up-IsStart s (suc n) i h =
      let (higher, more) = move_up-IsStart s n (suc i) (omega arith) in
      elim (Bool-cases (texts.continues s i)) [
        | inl inside ↦ rw (move_up, inside) (higher, omega arith)
        | inr start ↦ rw (move_up, start) (start, omega arith)
      ]

  bytes-head :
      (s : String) (limit end : ℕ) → IsEnd s limit end → texts.bytes (texts.decode s 0 end) ≤ limit
  bytes-head s limit end (start, less) =
      let size = laws.bytes-decode s 0 end (laws.starts_at_zero s) start in omega arith

  before_unclosed-IsEnd :
      (s : String) (limit end : ℕ) → IsEnd s limit end → IsEnd s limit (before_unclosed texts s end)
  unfolding before_unclosed
  before_unclosed-IsEnd s limit end h =
      let head = texts.decode s 0 end in
      elim (Option-cases (texts.last_open head)) [
        | inl e ↦ rw (before_unclosed, e) h
        | inr (i, e) ↦ elim (Bool-cases (texts.closes_after head i)) [
          | inl closed ↦ rw (before_unclosed, e, closed) h
          | inr unclosed ↦
              let (start, less) = back_up-IsEnd s i in
              let within = laws.open_within head i e in
              let size = bytes-head s limit end h in
              rw (before_unclosed, e, unclosed) (start, omega arith)
        ]
      ]

  before_orphan-IsEnd :
      (s : String) (limit end : ℕ) → IsEnd s limit end → IsEnd s limit (before_orphan texts s end)
  unfolding before_orphan
  before_orphan-IsEnd s limit end h =
      let head = texts.decode s 0 end in
      let closed = last_complete_tag_end 0 (texts.tag_pairs head) in
      elim (Option-cases (texts.tag_after head closed)) [
        | inl e ↦ rw (before_orphan, e) h
        | inr (i, e) ↦ elim (Bool-cases (ltb (closed + i) end)) [
          | inl inside ↦
              let (start, less) = back_up-IsEnd s (closed + i) in
              let before = lt_of_ltb (closed + i) end inside in
              let small = h.1 in rw (before_orphan, e, inside) (start, omega arith)
          | inr outside ↦ rw (before_orphan, e, outside) h
        ]
      ]

  after_fragment-IsStart :
      (s : String) (limit start : ℕ)
      → IsStart s limit start
      → IsStart s limit (after_fragment texts s start)
  unfolding after_fragment
  after_fragment-IsStart s limit start h =
      let tail = texts.decode s start (texts.bytes s) in
      elim (Option-cases (texts.first_close tail)) [
        | inl e ↦ rw (after_fragment, e) h
        | inr (close, e) ↦ elim (Bool-cases (comes_first texts close (texts.first_open tail))) [
          | inl fragment ↦
              let from = start + close + 1 in
              let (higher, more) = move_up-IsStart s (texts.bytes s - from) from (omega arith) in
              let small = h.1 in rw (after_fragment, e, fragment) (higher, omega arith)
          | inr whole ↦ rw (after_fragment, e, whole) h
        ]
      ]

  marker_of-fits :
      (omitted : ℕ)
      → omitted < 1000000000000000
      → texts.bytes (marker_of texts omitted) ≤ sep_overhead
  marker_of-fits omitted small =
      let number = texts.digits omitted in
      let whole = laws.bytes-append "\n...[truncated " (number <> " middle bytes]...\n") in
      let rest = laws.bytes-append number " middle bytes]...\n" in
      omega (arith, laws.bytes_before, laws.bytes_behind, laws.bytes-digits omitted small)

  truncate_middle-fits :
      (s : String) (n : ℕ)
      → sep_overhead < n
      → texts.bytes s < 1000000000000000
      → texts.bytes (truncate_middle texts s n) ≤ n
  unfolding truncate_middle
  truncate_middle-fits s n room small =
      let total = texts.bytes s in
      let half = (n - sep_overhead) / 2 in
      let end_ok =
        before_orphan-IsEnd s half (before_unclosed texts s (back_up texts s half))
          (before_unclosed-IsEnd s half (back_up texts s half) (back_up-IsEnd s half)) in
      let from = total - half in
      let start_ok =
        after_fragment-IsStart s from (next_start texts s from)
          (move_up-IsStart s (total - from) from (omega arith)) in
      let end = before_orphan texts s (before_unclosed texts s (back_up texts s half)) in
      let start = after_fragment texts s (next_start texts s from) in
      let head = bytes-head s half end end_ok in
      let outside = laws.ends_outside s total (omega arith) in
      let tail = laws.bytes-decode s start total start_ok.0 outside in
      let less = start_ok.1 in
      let marker = marker_of texts (total - end - (total - start)) in
      let middle = marker_of-fits (total - end - (total - start)) (omega arith) in
      let joined = laws.bytes-append marker (texts.decode s start total) in
      let whole = laws.bytes-append (texts.decode s 0 end) (marker <> texts.decode s start total) in
      omega arith

  truncate_head-fits : (s : String) (n : ℕ) → texts.bytes (truncate_head texts s n) ≤ n
  unfolding truncate_head
  truncate_head-fits s n = elim (Bool-cases (ltb n (texts.bytes "…"))) [
    | inl short ↦ rw (truncate_head, short) (bytes-head s n (back_up texts s n) (back_up-IsEnd s n))
    | inr room ↦
        let limit = n - texts.bytes "…" in
        let enough = le_of_not_ltb n (texts.bytes "…") room in
        let head = bytes-head s limit (back_up texts s limit) (back_up-IsEnd s limit) in
        let whole = laws.bytes-append (texts.decode s 0 (back_up texts s limit)) "…" in
        rw (truncate_head, room) (omega arith)
  ]

  pub truncate_output-fits :
      (s : String) (n : ℕ)
      → texts.bytes s < 1000000000000000
      → texts.bytes (truncate_output texts s n) ≤ n
  unfolding truncate_output
  truncate_output-fits s n small = elim (Bool-cases (ltb n (texts.bytes s))) [
    | inr fits ↦
        let under = le_of_not_ltb n (texts.bytes s) fits in rw (truncate_output, fits) (omega arith)
    | inl long ↦ elim (Bool-cases (ltb sep_overhead n)) [
      | inl room ↦
          rw (truncate_output, long, room)
            (truncate_middle-fits s n (lt_of_ltb sep_overhead n room) small)
      | inr tight ↦ rw (truncate_output, long, tight) (truncate_head-fits s n)
    ]
  ]
