-- ===== src/Actors.antt =====
-- The actors (actors/): the messages that they exchange with the edge, and how a request is worked off.
pub mod Codec
pub mod Router
pub mod Shield
pub mod Isolation
pub mod Workflow
pub mod Manager
pub mod Listener
mod Tests
use olwsx.Base.{ℕ, Bytes, Option}
use olwsx.Base.Int.{ℤ}

-- The envelope of a request: the type `envelope` of the codec.
pub record Envelope : Type 0 where
  pub path : Bytes
  pub method : Bytes
  pub headers_flat : Bytes
  pub body : Option Bytes
  pub trace_id : ℕ
  pub span_id : ℕ
  pub edge_hints : ℕ
  pub remote : Option Bytes

-- The map that stands for a response.
pub record Response : Type 0 where
  pub status : ℤ
  pub headers_flat : Bytes
  pub body : Option Bytes
  pub meta_flags : ℕ
