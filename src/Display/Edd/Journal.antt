-- ===== src/Display/Edd/Journal.antt =====
-- `copy_route_segment` and `parse_journal_route` of PicoDeck-ED-Display/src/edd_state.c.
use pico_deck_eddiscovery.Base.{
  ℕ, zero, suc, ◌-◌, Bool, false, not, ◌&&◌, ◌||◌, none, some, List, [], ◌∷◌, ltb, ◌==◌,
  if◌then◌else◌, length, take, drop, Bytes, codes, equal,
}
use mathlib.Core.List.{reverse}
use pico_deck_eddiscovery.Base.Int.{ℤ, pos, negsuc}
use pico_deck_eddiscovery.Base.Text.{memchr, strtol}
use pico_deck_eddiscovery.Display.Edd.Tokens.{
  Token, is_array, is_string, token_at, slice, token_equals, skip_token, is_inside, array_item,
  find_key, copy_chars, copy_array_text,
}
use pico_deck_eddiscovery.Display.Edd.State.{EddState, edd_text, event_time_size}
use pico_deck_eddiscovery.Display.Edd.Route.{apply_journal_clear, apply_journal_route}

abbrev pub is_blank : ℕ → Bool
is_blank c = c == b' ' || c == b'\t'

unfoldable pub trim_left : Bytes → Bytes
trim_left [] = []
trim_left (c ∷ cs) = if is_blank c then trim_left cs else c ∷ cs

-- Blanks go from the left first, and from the right of what is left.
unfoldable pub copy_route_segment : Bytes → ℕ → Bytes
copy_route_segment segment capacity =
    copy_chars (capacity - 1) (reverse (trim_left (reverse (trim_left segment))))

-- What follows the last comma: `best` is what follows the last one so far.
unfoldable pub last_segment : Bytes → Bytes → Bytes
last_segment best [] = best
last_segment best (c ∷ cs) = last_segment (if c == b',' then cs else best) cs

-- `completed_jumps` times past a comma.
unfoldable pub skip_segments : ℕ → Bytes → Bytes
skip_segments zero route = route
skip_segments (suc n) route =
    skip_segments n (elim (memchr route b',') [ none ↦ [] | some i ↦ drop (suc i) route ])

unfoldable pub first_segment : Bytes → Bytes
first_segment route = elim (memchr route b',') [ none ↦ route | some i ↦ take i route ]

-- The destination, and the next stop after `completed` jumps with `remaining` to go.
unfoldable pub destination_of : Bytes → Bytes
destination_of route = copy_route_segment (last_segment route route) edd_text

unfoldable pub next_stop : ℕ → ℕ → Bytes → Bytes
next_stop completed remaining route =
    let segment = skip_segments completed route in
    let name = copy_route_segment (first_segment segment) edd_text in
    if ltb 0 remaining && ltb 0 (length segment)
    then (if equal name (codes "..") then [] else name)
    else []

unfoldable pub row_time : Bytes → List Token → ℕ → Bytes
row_time json tokens row = copy_array_text json tokens row 1 event_time_size []

-- The route text behind the count of jumps.
unfoldable pub apply_summary : Bytes → List Token → ℕ → ℕ → ℕ → Bytes → EddState → Bool × EddState
apply_summary json tokens row completed jumps route s =
    apply_journal_route (pos (jumps - completed)) (destination_of route)
      (next_stop completed (jumps - completed) route) (row_time json tokens row) s

unfoldable pub route_count : Bytes → List Token → ℕ → ℕ → Bytes → ℤ → EddState → Bool × EddState
route_count json tokens row completed summary (negsuc n) s = (false, s)
route_count json tokens row completed summary (pos jumps) s =
    if ltb 100000 jumps then (false, s) else elim (memchr summary b':') [
      | none ↦ (false, s)
      | some i ↦ apply_summary json tokens row completed jumps (drop (suc i) summary) s
    ]

-- The summary's token has been found.
unfoldable pub nav_summary : Bytes → List Token → ℕ → ℕ → Token → EddState → Bool × EddState
nav_summary json tokens row completed t s =
    if not (is_string t.type) then (false, s) else elim (strtol (drop t.start json)) [
      | none ↦ (false, s)
      | some jumps ↦ route_count json tokens row completed (slice json t) jumps s
    ]

-- The branch for `Journal.NavRoute`.
unfoldable pub nav_route : Bytes → List Token → ℕ → ℕ → EddState → Bool × EddState
nav_route json tokens row completed s = elim (array_item tokens row 3) [
  | none ↦ (false, s)
  | some summary ↦ nav_summary json tokens row completed (token_at tokens summary) s
]

-- What a row of the journal is to the loop.
pub data RowKind : Type 0 where
  fsd_jump_row clear_row route_row other_row : RowKind

abbrev pub kind_of_event : Bytes → Token → RowKind
kind_of_event json t =
    if token_equals json t (codes "Journal.FSDJump")
    then fsd_jump_row
    else if token_equals json t (codes "Journal.NavRouteClear")
        || token_equals json t (codes "Journal.FSDTargetClear")
    then clear_row
    else if token_equals json t (codes "Journal.NavRoute")
    then route_row
    else other_row

unfoldable pub row_kind : Bytes → List Token → ℕ → RowKind
row_kind json tokens row =
    if is_array (token_at tokens row).type
    then elim (array_item tokens row 0) [
      | none ↦ other_row
      | some event ↦ kind_of_event json (token_at tokens event)
    ]
    else other_row

-- The loop over the rows, newest first, on fuel: `out` is the result where it runs out.
unfoldable pub journal_rows :
    Bool × EddState → Bytes → List Token → ℕ → ℕ → ℕ → ℕ → EddState → Bool × EddState
journal_rows out json tokens end zero row completed s = out
journal_rows out json tokens end (suc fuel) row completed s =
    let jumped = journal_rows out json tokens end fuel (skip_token tokens row) (suc completed) s in
    let skipped = journal_rows out json tokens end fuel (skip_token tokens row) completed s in
    if is_inside tokens end row
    then elim (row_kind json tokens row) [
      | fsd_jump_row ↦ jumped
      | clear_row ↦ apply_journal_clear (row_time json tokens row) s
      | route_row ↦ nav_route json tokens row completed s
      | other_row ↦ skipped
    ]
    else (false, s)

-- A row is at least one token, so the fuel does not run out.
unfoldable pub parse_journal_route : Bytes → List Token → EddState → Bool × EddState
parse_journal_route json tokens s = elim (find_key json tokens (some 0) (codes "rows")) [
  | none ↦ (false, s)
  | some rows ↦
      if is_array (token_at tokens rows).type
      then journal_rows (false, s) json tokens (token_at tokens rows).end (suc (length tokens))
          (suc rows) 0 s
      else (false, s)
]
