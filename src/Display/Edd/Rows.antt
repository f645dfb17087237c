-- ===== src/Display/Edd/Rows.antt =====
-- What `parse_journal_route` of PicoDeck-ED-Display/src/edd_state.c can do to the state: nothing, one
-- clear, or one route, with texts that fit their arrays.
use pico_deck_eddiscovery.Base.{
  ℕ, zero, suc, ◌-◌, ◌<◌, ◌≡◌, refl, Bool, false, some, List, [], arith, ltb, length, drop, Bytes,
  codes, Bool-cases, Option-cases, ◌⊎◌, inl, inr,
}
use pico_deck_eddiscovery.Base.Int.{ℤ, pos, negsuc}
use pico_deck_eddiscovery.Base.Text.{strtol, memchr}
use pico_deck_eddiscovery.Display.Edd.Tokens.{
  Token, is_string, is_array, token_at, slice, is_inside, skip_token, find_key, array_item,
}
use pico_deck_eddiscovery.Display.Edd.State.{EddState, edd_text, event_time_size}
use pico_deck_eddiscovery.Display.Edd.Route.{apply_journal_clear, apply_journal_route}
use pico_deck_eddiscovery.Display.Edd.Journal.{
  row_time, apply_summary, route_count, nav_summary, nav_route, RowKind, fsd_jump_row, clear_row,
  route_row, other_row, row_kind, journal_rows, parse_journal_route,
}
use pico_deck_eddiscovery.Display.Edd.Bounds.{
  destination_of-fits, next_stop-fits, copy_array_text-fits,
}

-- The outcomes, as a family over the result.
pub data Outcome (s : EddState) : Bool × EddState → Type 0 where
  ignored : Outcome s (false, s)
  cleared : (time : Bytes) → length time < event_time_size → Outcome s (apply_journal_clear time s)
  routed :
      (jumps : ℕ) (target stop time : Bytes)
      → length target < edd_text
      → length stop < edd_text
      → length time < event_time_size
      → Outcome s (apply_journal_route (pos jumps) target stop time s)

row_time-fits :
    (json : Bytes) (tokens : List Token) (row : ℕ)
    → length (row_time json tokens row) < event_time_size
unfolding row_time
row_time-fits json tokens row = copy_array_text-fits json tokens row 1 [] (omega arith)

route_count-Outcome :
    (json : Bytes) (tokens : List Token) (row completed : ℕ) (summary : Bytes) (jumps : ℤ)
    (s : EddState)
    → Outcome s (route_count json tokens row completed summary jumps s)
unfolding route_count apply_summary
route_count-Outcome json tokens row completed summary (negsuc n) s = ignored
route_count-Outcome json tokens row completed summary (pos jumps) s =
    elim (Bool-cases (ltb 100000 jumps)) [
      | inl big ↦ rw big ignored
      | inr small ↦ elim (Option-cases (memchr summary b':')) [
        | inl e ↦ rw (small, e, route_count) ignored
        | inr (i, e) ↦
            rw (small, e, route_count)
              (routed (jumps - completed) _ _ _ (destination_of-fits (drop (suc i) summary))
                (next_stop-fits completed (jumps - completed) (drop (suc i) summary))
                (row_time-fits json tokens row))
      ]
    ]

nav_summary-Outcome :
    (json : Bytes) (tokens : List Token) (row completed : ℕ) (t : Token) (s : EddState)
    → Outcome s (nav_summary json tokens row completed t s)
unfolding nav_summary
nav_summary-Outcome json tokens row completed t s = elim (Bool-cases (is_string t.type)) [
  | inr e ↦ rw e ignored
  | inl e ↦ elim (Option-cases (strtol (drop t.start json))) [
    | inl unread ↦ rw (e, unread, nav_summary) ignored
    | inr (jumps, read) ↦
        rw (e, read, nav_summary)
          (route_count-Outcome json tokens row completed (slice json t) jumps s)
  ]
]

nav_route-Outcome :
    (json : Bytes) (tokens : List Token) (row completed : ℕ) (s : EddState)
    → Outcome s (nav_route json tokens row completed s)
unfolding nav_route
nav_route-Outcome json tokens row completed s = elim (Option-cases (array_item tokens row 3)) [
  | inl e ↦ rw (e, nav_route) ignored
  | inr (summary, e) ↦
      rw (e, nav_route) (nav_summary-Outcome json tokens row completed (token_at tokens summary) s)
]

pub RowKind-cases :
    (k : RowKind) → (k ≡ fsd_jump_row) ⊎ (k ≡ clear_row) ⊎ (k ≡ route_row) ⊎ (k ≡ other_row)
RowKind-cases fsd_jump_row = inl refl
RowKind-cases clear_row = inr (inl refl)
RowKind-cases route_row = inr (inr (inl refl))
RowKind-cases other_row = inr (inr (inr refl))

journal_rows-Outcome :
    (out : Bool × EddState) (json : Bytes) (tokens : List Token) (end fuel row completed : ℕ)
    (s : EddState)
    → Outcome s out
    → Outcome s (journal_rows out json tokens end fuel row completed s)
unfolding journal_rows
journal_rows-Outcome out json tokens end zero row completed s h = h
journal_rows-Outcome out json tokens end (suc fuel) row completed s h =
    elim (Bool-cases (is_inside tokens end row)) [
      | inr e ↦ rw (e, journal_rows) ignored
      | inl e ↦ elim (RowKind-cases (row_kind json tokens row)) [
        | inl k ↦
            rw (e, k, journal_rows)
              (journal_rows-Outcome out json tokens end fuel (skip_token tokens row) (suc completed)
                s h)
        | inr (inl k) ↦
            rw (e, k, journal_rows)
              (cleared (row_time json tokens row) (row_time-fits json tokens row))
        | inr (inr (inl k)) ↦
            rw (e, k, journal_rows) (nav_route-Outcome json tokens row completed s)
        | inr (inr (inr k)) ↦
            rw (e, k, journal_rows)
              (journal_rows-Outcome out json tokens end fuel (skip_token tokens row) completed s h)
      ]
    ]

pub parse_journal_route-Outcome :
    (json : Bytes) (tokens : List Token) (s : EddState)
    → Outcome s (parse_journal_route json tokens s)
unfolding parse_journal_route
parse_journal_route-Outcome json tokens s =
    elim (Option-cases (find_key json tokens (some 0) (codes "rows"))) [
      | inl e ↦ rw (e, parse_journal_route) ignored
      | inr (rows, e) ↦ elim (Bool-cases (is_array (token_at tokens rows).type)) [
        | inl array ↦
            rw (e, array, parse_journal_route)
              (journal_rows-Outcome (false, s) json tokens (token_at tokens rows).end
                (suc (length tokens)) (suc rows) 0 s ignored)
        | inr other ↦ rw (e, other, parse_journal_route) ignored
      ]
    ]
