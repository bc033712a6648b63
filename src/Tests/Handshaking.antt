-- ===== src/Tests/Handshaking.antt =====
-- The handshake of two queue pairs at concrete inputs, with an info of one byte.
use atc2025_poby.Base.{
  ℕ, ◌≡◌, refl, inr, Bool, true, false, Option, none, some, List, [], ◌∷◌, arith,
}
use atc2025_poby.Rdma.Connector.{
  ConnectorState, RdmaConnector, not_init, init, rts, connected, initial_rdma_resource,
  on_tcp_message,
}
use atc2025_poby.Rdma.Connector.Handshake.{connected_agrees, receiving_possible, settled_told}
use atc2025_poby.Rdma.Connector.Sides.{
  Handshake, new_handshake, starting, receiving, mirrored, Reach, new, then_step,
}

abbrev side : ConnectorState → List ℕ → Option (List ℕ) → Bool → RdmaConnector
side state info remote closed = record {
  state = state;
  local_info = info;
  buffer = [];
  tcp_open = closed;
  remote = remote;
  made = elim remote [ none ↦ false | some r ↦ true ];
  told = elim closed [ true ↦ false | false ↦ true ];
}

abbrev fresh : RdmaConnector
fresh = side not_init [] none true

abbrev joined : RdmaConnector → RdmaConnector → List ℕ → List ℕ → Handshake
joined left right to_left to_right = record {
  left = left;
  right = right;
  to_left = to_left;
  to_right = to_right;
}

abbrev left_init : RdmaConnector
left_init = side init (7 ∷ []) none true

abbrev right_init : RdmaConnector
right_init = side init (9 ∷ []) none true

abbrev left_rts : RdmaConnector
left_rts = side rts (7 ∷ []) (some (9 ∷ [])) true

abbrev right_done : RdmaConnector
right_done = side connected (9 ∷ []) (some (7 ∷ [])) false

abbrev left_done : RdmaConnector
left_done = side connected (7 ∷ []) (some (9 ∷ [])) false

both_started : Reach 1 (joined left_init right_init (9 ∷ []) (7 ∷ []))
unfolding new_handshake initial_rdma_resource
both_started =
    then_step (joined left_init fresh [] (7 ∷ [])) _
      (then_step (joined fresh fresh [] []) _ (new (joined fresh fresh [] []) refl)
        (starting (joined fresh fresh [] []) (some (7 ∷ [])) refl refl refl))
      (mirrored (joined left_init fresh [] (7 ∷ [])) (joined right_init left_init (7 ∷ []) (9 ∷ []))
        (starting (joined fresh left_init (7 ∷ []) []) (some (9 ∷ [])) refl refl refl))

left_ready : Reach 1 (joined left_rts right_init [] (7 ∷ 42 ∷ []))
unfolding on_tcp_message
left_ready = then_step (joined left_init right_init (9 ∷ []) (7 ∷ [])) _ both_started (
    receiving (joined left_init right_init (9 ∷ []) (7 ∷ [])) true (9 ∷ []) [] left_rts (42 ∷ [])
      refl refl refl)

-- The right side gets the info and the message in one piece.
all_done : Reach 1 (joined left_done right_done [] [])
unfolding on_tcp_message
all_done =
    then_step (joined left_rts right_done (42 ∷ []) []) _
      (then_step (joined left_rts right_init [] (7 ∷ 42 ∷ [])) _ left_ready (
        mirrored (joined left_rts right_init [] (7 ∷ 42 ∷ []))
          (joined right_done left_rts [] (42 ∷ []))
          (receiving (joined right_init left_rts (7 ∷ 42 ∷ []) []) true (7 ∷ 42 ∷ []) [] right_done
            (42 ∷ []) refl refl refl)))
      (receiving (joined left_rts right_done (42 ∷ []) []) true (42 ∷ []) [] left_done [] refl refl
        refl)

connected_agrees_example :
    (left_done.remote ≡ some (9 ∷ []))
    × (right_done.remote ≡ some (7 ∷ []))
    × (right_done.made ≡ true)
connected_agrees_example =
    connected_agrees 1 (omega arith) (joined left_done right_done [] []) all_done refl

settled_told_example : (left_done.told ≡ true) × (right_done.told ≡ true)
settled_told_example =
    settled_told 1 (omega arith) (joined left_done right_done [] []) all_done (refl, inr refl)
      (refl, inr refl) refl refl

receiving_possible_example :
    (c : RdmaConnector) × (sent : List ℕ) × (on_tcp_message 1 true (9 ∷ []) left_init
      ≡ some (c, sent))
receiving_possible_example =
    receiving_possible 1 (omega arith) (joined left_init right_init (9 ∷ []) (7 ∷ [])) true (9 ∷ [])
      [] both_started refl refl
