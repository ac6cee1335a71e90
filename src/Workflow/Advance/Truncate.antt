-- ===== src/Workflow/Advance/Truncate.antt =====
-- `truncateOutput` of src/orchestration/protocol/output.ts. An index of -1 is `none`. Buffers, the
-- searches in strings and the regular expressions of the runtime are the interface `Texts`.
pub mod Fits
use Prim.Native.String.{◌++◌ as ◌<>◌}
use octeam.Prelude.{
  ℕ, zero, suc, ◌+◌, ◌-◌, ◌/◌, String, Bool, true, not, Option, none, some, List, [], ◌∷◌, ltb,
  if◌then◌else◌,
}

-- Of a text: the bytes in UTF-8 (`Buffer.byteLength`); whether its byte at an index continues a
-- character, which is false of an index outside; `buf.toString("utf8", a, b)`; `lastIndexOf("<")`,
-- `indexOf("<")` and `indexOf(">")`; whether `text.slice(i)` includes ">"; the index and the length of
-- each match of a tag with its end; and the index of the first tag of `text.slice(i)`. Last, the
-- digits of a number.
pub record Texts : Type 0 where
  pub bytes : String → ℕ
  pub continues : String → ℕ → Bool
  pub decode : String → ℕ → ℕ → String
  pub last_open : String → Option ℕ
  pub first_open : String → Option ℕ
  pub first_close : String → Option ℕ
  pub closes_after : String → ℕ → Bool
  pub tag_pairs : String → List (ℕ × ℕ)
  pub tag_after : String → ℕ → Option ℕ
  pub digits : ℕ → String

-- The bytes that are kept for the marker in the middle.
abbrev pub sep_overhead : ℕ
sep_overhead = 48

-- `lastCompleteTagEnd`, over the matches in their order
unfoldable pub last_complete_tag_end : ℕ → List (ℕ × ℕ) → ℕ
last_complete_tag_end end [] = end
last_complete_tag_end end ((index, length) ∷ matches) =
    last_complete_tag_end (index + length) matches

module _ (texts : Texts) where
  -- Down to the start of a character.
  unfoldable pub back_up : String → ℕ → ℕ
  back_up s zero = zero
  back_up s (suc i) = let lower = back_up s i in if texts.continues s (suc i) then lower else suc i

  -- Up to the start of a character, over at most `n` bytes.
  unfoldable pub move_up : String → ℕ → ℕ → ℕ
  move_up s zero i = i
  move_up s (suc n) i =
      let higher = move_up s n (suc i) in if texts.continues s i then higher else i

  abbrev pub next_start : String → ℕ → ℕ
  unfolding move_up
  next_start s i = move_up s (texts.bytes s - i) i

  -- A budget that leaves no room for the marker.
  unfoldable pub truncate_head : String → ℕ → String
  unfolding back_up
  truncate_head s n =
      if ltb n (texts.bytes "…")
      then texts.decode s 0 (back_up s n)
      else texts.decode s 0 (back_up s (n - texts.bytes "…")) <> "…"

  -- The end of the head before `<` that no `>` follows.
  unfoldable pub before_unclosed : String → ℕ → ℕ
  unfolding back_up
  before_unclosed s end =
      let head = texts.decode s 0 end in
      elim (texts.last_open head) [
        | none ↦ end
        | some i ↦ if texts.closes_after head i then end else back_up s i
      ]

  -- The end of the head before a tag that opens after the last one that is closed.
  unfoldable pub before_orphan : String → ℕ → ℕ
  unfolding back_up last_complete_tag_end
  before_orphan s end =
      let head = texts.decode s 0 end in
      let closed = last_complete_tag_end 0 (texts.tag_pairs head) in
      elim (texts.tag_after head closed) [
        | none ↦ end
        | some i ↦ if ltb (closed + i) end then back_up s (closed + i) else end
      ]

  abbrev pub comes_first : ℕ → Option ℕ → Bool
  comes_first close none = true
  comes_first close (some open_at) = ltb close open_at

  -- The start of the tail behind the rest of a tag.
  unfoldable pub after_fragment : String → ℕ → ℕ
  unfolding move_up
  after_fragment s start =
      let tail = texts.decode s start (texts.bytes s) in
      elim (texts.first_close tail) [
        | none ↦ start
        | some close ↦
            if comes_first close (texts.first_open tail)
            then next_start s (start + close + 1)
            else start
      ]

  abbrev pub marker_of : ℕ → String
  marker_of omitted = "\n...[truncated " <> (texts.digits omitted <> " middle bytes]...\n")

  -- The head and the tail, with the marker between them.
  unfoldable pub truncate_middle : String → ℕ → String
  unfolding before_unclosed before_orphan after_fragment back_up move_up
  truncate_middle s n =
      let total = texts.bytes s in
      let half = (n - sep_overhead) / 2 in
      let end = before_orphan s (before_unclosed s (back_up s half)) in
      let start = after_fragment s (next_start s (total - half)) in
      texts.decode s 0 end
      <> (marker_of (total - end - (total - start)) <> texts.decode s start total)

  unfoldable pub truncate_output : String → ℕ → String
  unfolding truncate_head truncate_middle
  truncate_output s n =
      if not (ltb n (texts.bytes s))
      then s
      else (if ltb sep_overhead n then truncate_middle s n else truncate_head s n)
