-- ===== src/Ssher/App/Tests.antt =====
-- Runs with no network and no files but those of the tests of Cache and Selector.
use mathlib.Core.List.Permᴰ
use sshe.Prelude.{
  ◌↔◌, List, str_eq, err, Bool, if◌then◌else◌, ◌≡◌, false, String, ℕ, ok, [], ◌∷◌, none, some,
}
use sshe.Io.{IoError, ErrorKind}
use sshe.Ssher.Config.{SelectionMode, SsherConfig, FinalConfig, Env}
use sshe.Ssher.Cache.{Files, Toml, CacheFile}
use sshe.Ssher.Selector.{Outside}
use sshe.Ssher.App.{Run, Args, Error}
use sshe.Ssher.Error as SsherError
use sshe.Ssher.Proxy.{Streams}
use sshe.Ssher.Main.{success, main}
use sshe.Ssher.Main.Success.{main-success_iff, Proxied}

-- Every host but "a" refuses, and no cache was written yet; it cannot be written either.
abbrev refused : IoError
refused = record { kind = ErrorKind.connection_refused; inner = none; text = "refused" }

abbrev network : Outside
network = record {
  SocketAddr = String;
  lookup_host = λ host port. ok (host ∷ []);
  connect = λ addr. if str_eq addr "a" then (30, ok tt) else (1, err refused);
  ping = λ timeout host. err refused;
  parse_rounded = λ s. none;
  completed = λ xs. xs;
}

abbrev disk : Files
disk = record {
  World = ℕ;
  now = λ w. some w;
  read_to_string = λ w path.
      if str_eq path "/home/me/.config/ssher.toml"
      then ok "hosts"
      else err (record refused { kind = ErrorKind.not_found });
  parent = λ path. none;
  create_dir_all = λ w path. (ok tt, w);
  write = λ w path content. (err refused, w);
}

abbrev no_cache : Toml CacheFile
no_cache = record { to_string = λ f. none; from_str = λ s. none }

abbrev hosts : Toml SsherConfig
hosts = record {
  to_string = λ c. none;
  from_str = λ s. some (record {
    global = none;
    hosts =
        (
          "pc",
          record { probe_timeout_ms = none; selection_mode = none; endpoints = "b" ∷ "a" ∷ [] },
        )
        ∷ [];
  });
}

abbrev env : Env
env = record { home = some "/home/me"; id_u = ok (some "1000") }

abbrev is_file : String → Bool
is_file path = str_eq path "/home/me/.config/ssher.toml"

-- The host sends 5 bytes for the 3 that it gets, and closes.
abbrev streams : Streams (Run disk no_cache hosts)
streams = record {
  Socket = String;
  connect = λ s address. if str_eq address "a:22" then some (30, ok address) else none;
  copy_stdin = λ s socket. some (100, ok 3);
  shutdown = λ s socket. some (1, ok tt);
  copy_stdout = λ s socket. some (250, ok 5);
  flush = λ s socket. some (2, ok tt);
}

abbrev args : Args
args = record { config_file = none; refresh_cache = false; host = "pc"; port = 22 }

abbrev start : Run disk no_cache hosts
start = record { world = 1000; trace = [] }

abbrev settings : FinalConfig
settings = record {
  host_alias = "pc";
  host = record {
    probe_timeout_ms = 500;
    selection_mode = SelectionMode.lowest_tcp_latency;
    endpoints = "b" ∷ "a" ∷ [];
  };
  cache = record { ttl_sec = 300; path = "/run/user/1000/sshe/ssher_cache.toml" };
}

main-success_iff_example :
    (main disk no_cache hosts network env is_file streams args start ≡ some success)
    ↔ Proxied disk no_cache hosts network env is_file streams args start
main-success_iff_example =
    main-success_iff disk no_cache hosts network env is_file streams args start
