-- ===== src/Config.antt =====
-- crates/server/src/config.rs: the configuration, its defaults, and `load`. Paths and strings are
-- texts. Figment is a parameter: what it makes of the defaults and a file, if it makes something,
-- and whether a path exists.
pub mod Laws
use slash.Base.{
  ℕ, ◌⊎◌, inl, inr, ◌+◌, ◌*◌, ◌^◌, Bool, true, false, not, ◌&&◌, Option, none, some, List, [], ◌∷◌,
  ltb, if◌then◌else◌,
}
use slash.Prefix.Cidr.{Text, IpAddr, ip_v4}

-- `config/server.yaml`.
abbrev default_config_path : Text
default_config_path =
    99 ∷ 111 ∷ 110 ∷ 102 ∷ 105 ∷ 103 ∷ 47 ∷ 115 ∷ 101 ∷ 114 ∷ 118 ∷ 101 ∷ 114 ∷ 46 ∷ 121 ∷ 97 ∷ 109
    ∷ 108 ∷ []

-- `crates/client/dist`.
abbrev default_assets_dir : Text
default_assets_dir =
    99 ∷ 114 ∷ 97 ∷ 116 ∷ 101 ∷ 115 ∷ 47 ∷ 99 ∷ 108 ∷ 105 ∷ 101 ∷ 110 ∷ 116 ∷ 47 ∷ 100 ∷ 105 ∷ 115
    ∷ 116 ∷ []

-- `info,slash0=debug,tower_http=debug`.
abbrev default_filter : Text
default_filter =
    105 ∷ 110 ∷ 102 ∷ 111 ∷ 44 ∷ 115 ∷ 108 ∷ 97 ∷ 115 ∷ 104 ∷ 48 ∷ 61 ∷ 100 ∷ 101 ∷ 98 ∷ 117 ∷ 103
    ∷ 44 ∷ 116 ∷ 111 ∷ 119 ∷ 101 ∷ 114 ∷ 95 ∷ 104 ∷ 116 ∷ 116 ∷ 112 ∷ 61 ∷ 100 ∷ 101 ∷ 98 ∷ 117
    ∷ 103 ∷ []

-- `rrc00.ripe.net`.
abbrev default_ris_host : Text
default_ris_host = 114 ∷ 114 ∷ 99 ∷ 48 ∷ 48 ∷ 46 ∷ 114 ∷ 105 ∷ 112 ∷ 101 ∷ 46 ∷ 110 ∷ 101 ∷ 116 ∷ []

-- `slash0`.
abbrev default_log_prefix : Text
default_log_prefix = 115 ∷ 108 ∷ 97 ∷ 115 ∷ 104 ∷ 48 ∷ []

pub record LetsEncryptConfig : Type 0 where
  pub domains : List Text
  pub certs_dir : Text
  pub prod_letsencrypt : Bool

pub record TlsConfig : Type 0 where
  pub https_port : ℕ
  pub lets_encrypt : LetsEncryptConfig

pub record ServerConfig : Type 0 where
  pub host : IpAddr
  pub http_port : ℕ
  pub assets_dir : Text
  pub tls_config : Option TlsConfig

pub data LogFormat : Type 0 where
  compact pretty : LogFormat

pub record FileLoggingConfig : Type 0 where
  pub dir : Text
  pub prefix : Text
  pub max_file_size_mb : ℕ
  pub max_files : ℕ
  pub keep_uncompressed : Option ℕ

pub record LoggingConfig : Type 0 where
  pub filter : Text
  pub format : LogFormat
  pub ansi : Bool
  pub file : Option FileLoggingConfig

pub record MockStreamConfig : Type 0 where
  pub mock_events_file : Text
  pub simulate_message_rate : Bool

pub record RisConfig : Type 0 where
  pub host : Text
  pub seed_file : Option Text
  pub mock_stream_config : Option MockStreamConfig

pub record Config : Type 0 where
  pub server : ServerConfig
  pub logging : LoggingConfig
  pub ris : RisConfig

-- What serde puts where a `file` block leaves all but its directory out.
unfoldable pub default_file_logging : Text → FileLoggingConfig
default_file_logging dir = record {
  dir = dir;
  prefix = default_log_prefix;
  max_file_size_mb = 64;
  max_files = 14;
  keep_uncompressed = some 0;
}

-- 127.0.0.1.
unfoldable pub default_server : ServerConfig
default_server = record {
  host = ip_v4 (127 * 2 ^ 24 + 1);
  http_port = 3000;
  assets_dir = default_assets_dir;
  tls_config = none;
}

unfoldable pub default_logging : LoggingConfig
default_logging = record { filter = default_filter; format = compact; ansi = true; file = none }

unfoldable pub default_ris : RisConfig
default_ris = record { host = default_ris_host; seed_file = none; mock_stream_config = none }

unfoldable pub default_config : Config
unfolding default_server default_logging default_ris
default_config = record { server = default_server; logging = default_logging; ris = default_ris }

-- An address and a port.
abbrev pub SocketAddr : Type 0
SocketAddr = IpAddr × ℕ

unfoldable pub http_socket_addr : ServerConfig → SocketAddr
http_socket_addr c = (c.host, c.http_port)

unfoldable pub https_socket_addr : ServerConfig → Option SocketAddr
https_socket_addr c = elim c.tls_config [ none ↦ none | some tls ↦ some (c.host, tls.https_port) ]

-- Whether `validate` is content.
unfoldable pub validate : Config → Bool
validate c = elim c.logging.file [ none ↦ true | some file ↦ ltb 0 file.max_file_size_mb ]

pub data LoadError : Type 0 where
  not_found failed_to_load : LoadError

module _ (exists : Text → Bool) (figment : Config → Text → Option Config) where
  unfoldable pub extract : Text → Option Config
  extract path = elim (figment default_config path) [
    | none ↦ none
    | some config ↦ if validate config then some config else none
  ]

  abbrev load_from : (path : Text) → (required : Bool) → LoadError ⊎ Config
  load_from path required =
      if required && not (exists path)
      then inl not_found
      else elim (extract path) [ none ↦ inl failed_to_load | some config ↦ inr config ]

  unfoldable pub load : (explicit_path : Option Text) → LoadError ⊎ Config
  load none = load_from default_config_path false
  load (some path) = load_from path true
