-- ===== src/Wire/Runs.antt =====
-- The loop of `decode_content_payload` without fuel: its runs, turn by turn.
use trin.Prelude.{ℕ, zero, suc, ◌+◌, ◌≤◌, ◌<◌, ◌≡◌, refl, List, [], ◌∷◌, arith, length}
use trin.Prelude.Outcome.{Outcome, panic, error, ok}
use trin.Wire.{Leb128, PayloadError, push_item, read_item, decode_items, decode_content_payload}
use trin.Wire.Rounds.{Leaves, read_item-Leaves, turn, decode_items-turn}

module _ (leb128 : Leb128) where
  -- The loop comes to its result from the payload, in the number of turns. It stops at the end of
  -- the payload, or where the reading of an item panics or fails; there is no other end.
  pub data Runs : ℕ → List ℕ → Outcome PayloadError (List (List ℕ)) → Type 0 where
    at_end : Runs 0 [] (ok [])
    panics :
        (payload : List ℕ)
        → 0 < length payload
        → read_item leb128 payload ≡ panic
        → Runs 1 payload panic
    fails :
        (payload : List ℕ) (e : PayloadError)
        → 0 < length payload
        → read_item leb128 payload ≡ error e
        → Runs 1 payload (error e)
    reads :
        (turns : ℕ) (payload item rest : List ℕ) (o : Outcome PayloadError (List (List ℕ)))
        → 0 < length payload
        → read_item leb128 payload ≡ ok (item, rest)
        → Runs turns rest o
        → Runs (turns + 1) payload (push_item leb128 item o)

  -- A finite run, of no more turns than there are bytes.
  abbrev pub Ends : List ℕ → Outcome PayloadError (List (List ℕ)) → Type 0
  Ends payload o = (turns : ℕ) × (turns ≤ length payload) × Runs turns payload o

  turn-Ends :
      (fuel : ℕ) (payload : List ℕ)
      → length payload ≤ suc fuel
      → 0 < length payload
      → ((rest : List ℕ) → length rest ≤ fuel → Ends rest (decode_items leb128 fuel rest))
      → (o : Outcome PayloadError (List ℕ × List ℕ)) → read_item leb128 payload ≡ o
      → Leaves leb128 1 (length payload) o
      → Ends payload (turn leb128 fuel o)
  turn-Ends fuel payload enough some_bytes onwards panic e h =
      (1, omega arith, panics payload some_bytes e)
  turn-Ends fuel payload enough some_bytes onwards (error x) e h =
      (1, omega arith, fails payload x some_bytes e)
  turn-Ends fuel payload enough some_bytes onwards (ok (item, rest)) e h =
      let (turns, few, run) = onwards rest (omega arith) in
      (
        turns + 1,
        omega arith,
        reads turns payload item rest (decode_items leb128 fuel rest) some_bytes e run,
      )

  decode_items-Ends :
      (fuel : ℕ) (payload : List ℕ)
      → length payload ≤ fuel
      → Ends payload (decode_items leb128 fuel payload)
  unfolding decode_items
  decode_items-Ends fuel [] enough = (0, omega arith, at_end)
  decode_items-Ends zero (b ∷ l) enough = absurd (omega arith)
  decode_items-Ends (suc fuel) (b ∷ l) enough = rw (decode_items-turn leb128 fuel b l) (
      turn-Ends fuel (b ∷ l) enough (omega arith)
        (λ rest enough'. decode_items-Ends fuel rest enough') (read_item leb128 (b ∷ l)) refl
        (read_item-Leaves leb128 (b ∷ l)))

  -- At every payload, the loop ends, after no more turns than the payload has bytes. What
  -- `decode_content_payload` gives is the result of this run: a panic or an error of the code's own
  -- reading of an item, where a turn meets one, and the items in their order otherwise.
  pub decode_content_payload-Ends :
      (payload : List ℕ) → Ends payload (decode_content_payload leb128 payload)
  unfolding decode_content_payload
  decode_content_payload-Ends payload = decode_items-Ends (length payload) payload (omega arith)
