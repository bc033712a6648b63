-- ===== src/Rdma/Connector/Sides.antt =====
-- The two sides of the handshake of src/network/rdma/RdmaConnector.cc, and their steps, over a TCP connection
-- that delivers in order, in pieces of any size.
use atc2025_poby.Base.{ℕ, ◌≡◌, Bool, true, Option, none, some, List, [], ◌++◌, length}
use atc2025_poby.Rdma.Connector.{
  not_init, RdmaConnector, new_connector, initial_rdma_resource, on_tcp_message,
}
use atc2025_poby.Rdma.Connector.Halves.{is_init, Half}

-- The two sides, with the bytes on their way to each.
pub record Handshake : Type 0 where
  pub left : RdmaConnector
  pub right : RdmaConnector
  pub to_left : List ℕ
  pub to_right : List ℕ

unfoldable pub new_handshake : Handshake
unfolding new_connector
new_handshake = record { left = new_connector; right = new_connector; to_left = []; to_right = [] }

abbrev pub swapped : Handshake → Handshake
swapped h = record { left = h.right; right = h.left; to_left = h.to_right; to_right = h.to_left }

-- A connection that is made has an info of `size` bytes.
abbrev pub SizedInfo : ℕ → Option (List ℕ) → Type 0
SizedInfo size none = Unit {0}
SizedInfo size (some info) = length info ≡ size

-- The left side is told of its TCP connection, or of bytes that came; and so the right side.
pub data Step (size : ℕ) : Handshake → Handshake → Type 0 where
  starting :
      (h : Handshake) (created : Option (List ℕ))
      → h.left.state ≡ not_init
      → h.left.tcp_open ≡ true
      → SizedInfo size created
      → Step size h (record h {
        left = (initial_rdma_resource created h.left).0;
        to_right = h.to_right ++ (initial_rdma_resource created h.left).1;
      })
  receiving :
      (h : Handshake) (connects : Bool) (front rest : List ℕ) (c : RdmaConnector) (sent : List ℕ)
      → is_init h.left.state ≡ true
      → h.to_left ≡ front ++ rest
      → on_tcp_message size connects front h.left ≡ some (c, sent)
      → Step size h (record h { left = c; to_left = rest; to_right = h.to_right ++ sent })
  mirrored : (h g : Handshake) → Step size (swapped h) g → Step size h (swapped g)

pub data Reach (size : ℕ) : Handshake → Type 0 where
  new : (h : Handshake) → h ≡ new_handshake → Reach size h
  then_step : (h g : Handshake) → Reach size h → Step size h g → Reach size g

-- Both sides are in step.
pub record InStep (size : ℕ) (h : Handshake) : Type 0 where
  pub of_left : Half size h.left h.right h.to_left
  pub of_right : Half size h.right h.left h.to_right
