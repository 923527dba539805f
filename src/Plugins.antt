-- ===== src/Plugins.antt =====
-- plugins/sdk.rs: the frozen types, the two plugin traits and the helpers on responses.
pub mod Registry
pub mod Guard
pub mod StaticJson
use olwsx.Base.{ℕ, Bytes, List, [], ◌∷◌, ◌++◌, Map, codes}

pub record Request : Type 0 where
  pub method : Bytes
  pub path : Bytes
  pub headers : List (Bytes × Bytes)
  pub body : Bytes
  pub tenant : Bytes

pub record Response : Type 0 where
  pub status : ℕ
  pub headers : List (Bytes × Bytes)
  pub body : Bytes

-- `Response::new`
pub new_response : ℕ → Response
new_response status = record { status = status; headers = []; body = [] }

pub data FilterVerdict : Type 0 where
  continue : FilterVerdict
  short_circuit : Response → FilterVerdict
  mutate : Request → FilterVerdict

pub record HandlerResult : Type 0 where
  pub resp : Response
  pub meta_flags : ℕ

pub record PluginMeta : Type 0 where
  pub name : Bytes
  pub version : Bytes
  pub author : Bytes
  pub flags : ℕ

-- `Result<(), String>`
pub data Outcome : Type 0 where
  ok : Outcome
  err : Bytes → Outcome

abbrev pub Config : Type 0
Config = Map Bytes

-- The traits, over the type `P` of the boxed plugins: a method on `&mut self` returns the new plugin.
pub record FilterPlugin (P : Type 0) : Type 0 where
  pub meta : P → PluginMeta
  pub init : Config → P → P × Outcome
  pub process : P → Request → FilterVerdict
  pub teardown : P → P

pub record HandlerPlugin (P : Type 0) : Type 0 where
  pub meta : P → PluginMeta
  pub init : Config → P → P × Outcome
  pub handle : P → Request → HandlerResult
  pub teardown : P → P

pub add_header : Response → Bytes → Bytes → Response
add_header resp k v = record {
  status = resp.status;
  headers = resp.headers ++ (k, v) ∷ [];
  body = resp.body;
}

-- The body is cleared, and then extended by `bytes`.
pub set_body : Response → Bytes → Response
set_body resp bytes = record { status = resp.status; headers = resp.headers; body = [] ++ bytes }

pub json : Bytes → Response
json bytes =
    set_body (add_header (new_response 200) (codes "Content-Type") (codes "application/json")) bytes
