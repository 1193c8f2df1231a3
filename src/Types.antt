-- ===== src/Types.antt =====
-- The records that the components of src/registry.rs, src/config.rs and src/ipc.rs exchange.
use adbproxy_rs.Base.{Bool, Option, List}
use adbproxy_rs.Text.{Text}
use adbproxy_rs.Addr.{SocketAddr}

pub record BackendConfig : Type 0 where
  pub name : Text
  pub addr : SocketAddr
  pub pair_code : Option Text
  pub enabled : Bool

pub record DeviceEntry : Type 0 where
  pub public_serial : Text
  pub upstream_serial : Text
  pub state : Text
  pub extras : Text
  pub backend_name : Text
  pub backend_addr : SocketAddr
  pub pair_code : Option Text
  pub route_id : Option Text

pub record DeviceSnapshot : Type 0 where
  pub devices : List DeviceEntry
