-- ===== src/Registry/Defaults.antt =====
-- info.go: the values that a new server registers, and its sorted list of clients; redeo.go: the
-- handler `Info`. The time since the start of the server is part of the world.
use redeo.Base.{
  ℕ, zero, suc, ◌+◌, ◌*◌, ◌-◌, ◌/◌, ◌%◌, none, some, List, [], ◌∷◌, Bytes, codes, ltb,
  if◌then◌else◌, get_elem?, Option,
}
use redeo.Base.Int.{ℤ}
use redeo.Command
use redeo.Command.{Command}
use redeo.Decimal.{format_nat}
use redeo.Handlers.{Handler, on_writer, arg_string}
use redeo.Info.{ServerInfo, ClientInfo, num_clients}
use redeo.Io.{Runtime}
use redeo.Registry.{
  Registry, static_string, static_int, callback, int_value, register_value, fetch_section,
  find_section, registry_string, section_string,
}
use redeo.Writer.{append_bulk}

-- the counters, and the nanoseconds since `startTime`
pub record World : Type 0 where
  pub server : ServerInfo
  pub elapsed : ℕ

abbrev pub second : ℕ
second = 1000000000

abbrev pub hour : ℕ
hour = 3600 * second

-- `hex.EncodeToString`
abbrev hex_digit : ℕ → ℕ
hex_digit n = if ltb n 10 then b'0' + n else b'a' + (n - 10)

encode_hex : Bytes → Bytes
encode_hex [] = []
encode_hex (c ∷ cs) = hex_digit (c / 16) ∷ hex_digit (c % 16) ∷ encode_hex cs

module _ (to_lower : Bytes → Bytes) where
  -- The three sections, one after the other: `pid` is `os.Getpid()`, `run_id` are random bytes.
  server_defaults : ℤ → Bytes → Registry World → Registry World
  unfolding encode_hex
  server_defaults pid run_id r =
      let (server, r₀) = fetch_section to_lower (codes "Server") r in
      let r₁ = register_value server (codes "process_id") (static_int pid) r₀ in
      let r₂ = register_value server (codes "run_id") (static_string (encode_hex run_id)) r₁ in
      let r₃ =
        register_value server (codes "uptime_in_seconds")
          (callback (λ world. format_nat (world.elapsed / second))) r₂ in
      register_value server (codes "uptime_in_days")
        (callback (λ world. format_nat (world.elapsed / hour / 24))) r₃

  clients_defaults : Registry World → Registry World
  clients_defaults r =
      let (clients, r₀) = fetch_section to_lower (codes "Clients") r in
      register_value clients (codes "connected_clients")
        (callback (λ world. format_nat (num_clients world.server))) r₀

  stats_defaults : Registry World → Registry World
  stats_defaults r =
      let (stats, r₀) = fetch_section to_lower (codes "Stats") r in
      register_value stats (codes "total_commands_processed")
        (int_value (λ world. world.server.commands))
        (register_value stats (codes "total_connections_received")
          (int_value (λ world. world.server.connections)) r₀)

  unfoldable pub init_defaults : ℤ → Bytes → Registry World → Registry World
  unfolding server_defaults clients_defaults stats_defaults
  init_defaults pid run_id r = stats_defaults (clients_defaults (server_defaults pid run_id r))

  section_at : Option ℕ → Registry World → World → Bytes
  section_at none r world = section_string world none
  section_at (some a) r world = section_string world (get_elem? r.store a)

  info_of : ℕ → Bytes → Registry World → World → Bytes
  unfolding section_at
  info_of (suc zero) arg r world = section_at (find_section to_lower arg r) r world
  info_of zero arg r world = registry_string world r
  info_of (suc (suc _)) arg r world = registry_string world r

  -- redeo.go: `Info`
  unfoldable pub info_handler :
      {Ctx Snk : Type 0} → Runtime → Registry World → World → Handler Ctx Snk
  unfolding info_of
  info_handler rt r world c =
      on_writer (append_bulk rt (info_of (Command.arg_n c) (arg_string c 0) r world))

-- `sort.Sort` by `ID`: the ids are the keys of a map, so that every sort gives this order.
insert_client : ClientInfo → List ClientInfo → List ClientInfo
insert_client c [] = c ∷ []
insert_client c (d ∷ ds) =
    let rest = insert_client c ds in if ltb d.id c.id then d ∷ rest else c ∷ d ∷ ds

sort_clients : List ClientInfo → List ClientInfo
unfolding insert_client
sort_clients [] = []
sort_clients (c ∷ cs) = insert_client c (sort_clients cs)

-- `All`, and `ClientInfo` of the server
unfoldable pub all_clients : ServerInfo → List ClientInfo
unfolding sort_clients
all_clients i = sort_clients i.clients
