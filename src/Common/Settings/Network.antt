-- ===== src/Common/Settings/Network.antt =====
-- src/common/config.c: the configuration of the network. The functions that only accept are left out.
use usched.Base.{ℕ, Bool, false, not, ◌&&◌, List}
use usched.Base.Int.{at_most}
use usched.Common.Files.{Attempt, returns, ◌>>=◌, ◌>>◌, check, setting_file}
use usched.Common.Settings.{Libc, value_init_uint_from_file, value_init_string_from_file}
use usched.Usa.Words.{Category, addr, bind, conn, limit, name, port, sock, timeout}

-- include/config.h, `struct usched_config_network`
pub record NetworkSettings : Type 0 where
  pub bind_addr : List ℕ
  pub bind_port : List ℕ
  pub conn_limit : ℕ
  pub conn_timeout : ℕ
  pub sock_name : List ℕ

module _ {F : Type 0} (c : Libc F) (f : F) where
  config_init_network_bind_addr : Attempt (List ℕ)
  config_init_network_bind_addr =
      value_init_string_from_file c f (setting_file Category.network false bind addr)

  config_init_network_bind_port : Attempt (List ℕ)
  config_init_network_bind_port =
      value_init_string_from_file c f (setting_file Category.network false bind port)

  config_validate_network_bind_port : List ℕ → Bool
  config_validate_network_bind_port v =
      let port = c.atol v in not (at_most 1 port) && at_most 65535 port

  config_init_network_conn_limit : Attempt ℕ
  config_init_network_conn_limit =
      value_init_uint_from_file c f (setting_file Category.network false conn limit)

  config_init_network_conn_timeout : Attempt ℕ
  config_init_network_conn_timeout =
      value_init_uint_from_file c f (setting_file Category.network false conn timeout)

  config_init_network_sock_name : Attempt (List ℕ)
  config_init_network_sock_name =
      value_init_string_from_file c f (setting_file Category.network false sock name)

  unfoldable pub config_init_network : Attempt NetworkSettings
  unfolding config_init_network_bind_addr config_init_network_bind_port
      config_init_network_conn_limit config_init_network_conn_timeout config_init_network_sock_name
      config_validate_network_bind_port
  config_init_network = do
    bind_addr ← config_init_network_bind_addr
    bind_port ← config_init_network_bind_port
    check (config_validate_network_bind_port bind_port)
    conn_limit ← config_init_network_conn_limit
    conn_timeout ← config_init_network_conn_timeout
    sock_name ← config_init_network_sock_name
    returns (record {
      bind_addr = bind_addr;
      bind_port = bind_port;
      conn_limit = conn_limit;
      conn_timeout = conn_timeout;
      sock_name = sock_name;
    })
