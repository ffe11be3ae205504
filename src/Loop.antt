-- ===== src/Loop.antt =====
-- The loop of a connection, which both servers have: what a read returned goes behind the bytes that
-- are kept, and the inner loop takes messages off the front until none is complete.
pub mod Chunks
use medge_net.Prelude.{ℕ, zero, suc, List, [], ◌∷◌, Option, none, some, Bytes}

-- How a connection goes on.
pub data Status : Type 0 where
  running closed crashed : Status

module _ {C : Type 0} (next : C → Option C) where
  -- The inner loop; `next` is one round, `none` where the loop is left for the next read.
  unfoldable pub drain : ℕ → C → C
  drain zero c = c
  drain (suc fuel) c = elim (next c) [ none ↦ c | some c' ↦ drain fuel c' ]

  module _ (size : C → ℕ) (push : Bytes → C → C) where
    -- Bytes that a read returned. A round takes at least one byte, so the fuel is enough.
    unfoldable pub receive_with : Bytes → C → C
    receive_with chunk c = let c' = push chunk c in drain (suc (size c')) c'

    unfoldable pub receive_all_with : List Bytes → C → C
    receive_all_with [] c = c
    receive_all_with (chunk ∷ chunks) c = receive_all_with chunks (receive_with chunk c)
