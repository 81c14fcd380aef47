-- ===== src/Config.antt =====
-- src/config/xps_config.h and src/config/xps_config.c: servers, routes, and the lookup of a request.
pub mod Find
pub mod Resolve
pub mod Listeners
pub mod Parse
pub mod Tests
use nw_lab.Prelude.{ℕ, Bool, Bytes, List, Option}

-- `xps_config_listener_s`.
pub record Listener : Type 0 where
  pub host : Option Bytes
  pub port : ℕ

-- `xps_config_route_s`. The strings `req_path` and `type` are missing where nothing was written to
-- the fields, and so are the two IP lists where they were not made vectors.
pub record Route : Type 0 where
  pub req_path : Option Bytes
  pub type : Option Bytes
  pub dir_path : Option Bytes
  pub index : List Bytes
  pub upstreams : List Bytes
  pub http_status_code : ℕ
  pub redirect_url : Option Bytes
  pub ip_whitelist : Option (List Bytes)
  pub ip_blacklist : Option (List Bytes)

-- `xps_config_server_s`.
pub record Server : Type 0 where
  pub listeners : List Listener
  pub hostnames : List Bytes
  pub routes : List Route

-- `xps_config_s`, the parts that are read after it was created.
pub record Config : Type 0 where
  pub server_name : Option Bytes
  pub servers : List Server
  pub all_listeners : List Listener

-- `xps_req_type_t`.
pub data ReqType : Type 0 where
  file_serve reverse_proxy redirect metrics invalid : ReqType

-- `xps_config_lookup_s`, without the two fields of byte ranges, which nothing writes or reads.
pub record Lookup : Type 0 where
  pub type : ReqType
  pub file_path : Option Bytes
  pub dir_path : Option Bytes
  pub upstream : Option Bytes
  pub http_status_code : ℕ
  pub redirect_url : Option Bytes
  pub keep_alive : Bool
  pub ip_whitelist : List Bytes
  pub ip_blacklist : List Bytes
