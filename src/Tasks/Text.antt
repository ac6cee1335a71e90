-- ===== src/Tasks/Text.antt =====
-- The texts of src/state/tasks.ts: the shape of a task id, and the size limit of a result.
use Prim.Native.Char.{code}
use Prim.Native.String.{String}
use octeam.Prelude.{
  ℕ, zero, suc, ◌+◌, ◌-◌, Bool, true, false, ◌&&◌, ◌||◌, Option, none, some, List, [], ◌∷◌, ◌++◌,
  leb, ltb, nat_eq, if◌then◌else◌,
}
use octeam.Tasks.Types.{Units}

abbrev codes : String → List ℕ
codes String.[] = []
codes (String.◌∷◌ c s) = code c ∷ codes s

abbrev is_hex : ℕ → Bool
is_hex c = (leb 48 c && leb c 57) || (leb 97 c && leb c 102) || (leb 65 c && leb c 70)

-- `[0-9a-f]{n}`: what follows it
hex_run : ℕ → List ℕ → Option (List ℕ)
hex_run zero cs = some cs
hex_run (suc n) [] = none
hex_run (suc n) (c ∷ cs) = let rest = hex_run n cs in if is_hex c then rest else none

-- The groups, each but the last with a dash behind it.
hex_groups : List ℕ → List ℕ → Bool
unfolding hex_run
hex_groups [] cs = false
hex_groups (n ∷ []) cs = elim (hex_run n cs) [ some [] ↦ true | _ ↦ false ]
hex_groups (n ∷ m ∷ ns) cs = elim (hex_run n cs) [
  | some (c ∷ rest) ↦ nat_eq c 45 && hex_groups (m ∷ ns) rest
  | _ ↦ false
]

-- `TASK_ID_PATTERN.test(id)`
unfoldable pub is_task_id : String → Bool
unfolding hex_groups
is_task_id id = hex_groups (8 ∷ 4 ∷ 4 ∷ 4 ∷ 12 ∷ []) (codes id)

-- `Buffer.byteLength` of one code unit by itself: a lone surrogate is written as U+FFFD.
unfoldable pub unit_bytes : ℕ → ℕ
unit_bytes u = if ltb u 128 then 1 else if ltb u 2048 then 2 else 3

abbrev is_high : ℕ → Bool
is_high u = leb 55296 u && ltb u 56320

abbrev is_low : ℕ → Bool
is_low u = leb 56320 u && ltb u 57344

-- `Buffer.byteLength(text, "utf8")`: a surrogate pair takes four bytes.
unfoldable pub byte_length : Units → ℕ
unfolding unit_bytes
byte_length [] = 0
byte_length (u ∷ []) = unit_bytes u
byte_length (u ∷ v ∷ us) =
    let single = unit_bytes u + byte_length (v ∷ us) in
    let paired = 4 + byte_length us in if is_high u && is_low v then paired else single

abbrev pub max_result_bytes : ℕ
max_result_bytes = 60000

-- "\n[...result truncated]"
abbrev pub marker : Units
marker = 10 ∷ codes "[...result truncated]"

-- The loop over the code units; `cut` is what is left of the budget.
unfoldable pub take_bytes : ℕ → Units → Units
unfolding unit_bytes
take_bytes cut [] = []
take_bytes cut (u ∷ us) =
    let rest = take_bytes (cut - unit_bytes u) us in
    if ltb 0 cut && leb (unit_bytes u) cut then u ∷ rest else []

unfoldable pub limit_result : Units → Units
unfolding take_bytes byte_length
limit_result text =
    if ltb max_result_bytes (byte_length text)
    then take_bytes (max_result_bytes - byte_length marker) text ++ marker
    else text

-- Each unit by itself: no less than the bytes of the text.
unit_sum : Units → ℕ
unit_sum [] = 0
unit_sum (u ∷ us) = unit_bytes u + unit_sum us
