-- ===== src/Info.antt =====
-- info.go and info/values.go: the counters of the server and the table of its clients. The times of a
-- `ClientInfo` are not modelled: the clock only shows in `String`. The mutexes are held by each
-- operation from its first line to its last.
use redeo.Base.{ℕ, List, [], ◌∷◌, Bytes, ◌==◌, if◌then◌else◌, length}
use redeo.Base.Int.{ℤ, pos, add64}
use redeo.Decimal.{format_int}

-- `IntValue`
pub record IntValue : Type 0 where
  pub n : ℤ

-- `Inc` gives the new value, and leaves it.
unfoldable pub inc : ℤ → IntValue → IntValue
inc delta v = record { n = add64 v.n delta }

abbrev pub set_value : ℤ → IntValue → IntValue
set_value n v = record { n = n }

abbrev pub int_value_string : IntValue → Bytes
int_value_string v = format_int v.n

pub record ClientInfo : Type 0 where
  pub id : ℕ
  pub remote_addr : Bytes
  pub last_cmd : Bytes

-- `clientStats`: a map by id, as an association list with one entry for each key.
abbrev pub ClientStats : Type 0
ClientStats = List ClientInfo

unfoldable pub del : ℕ → ClientStats → ClientStats
del id [] = []
del id (c ∷ cs) = let rest = del id cs in if c.id == id then rest else c ∷ rest

-- `Add`
unfoldable pub add_client : ℕ → Bytes → ClientStats → ClientStats
unfolding del
add_client id addr cs = record { id = id; remote_addr = addr; last_cmd = [] } ∷ del id cs

-- `Cmd`
unfoldable pub set_last_cmd : ℕ → Bytes → ClientStats → ClientStats
set_last_cmd id cmd [] = []
set_last_cmd id cmd (c ∷ cs) =
    let rest = set_last_cmd id cmd cs in
    if c.id == id then record c { last_cmd = cmd } ∷ rest else c ∷ rest

pub record ServerInfo : Type 0 where
  pub clients : ClientStats
  pub connections : IntValue
  pub commands : IntValue

-- `newServerInfo`, without the registry
abbrev pub new_server_info : ServerInfo
new_server_info = record {
  clients = [];
  connections = record { n = pos 0 };
  commands = record { n = pos 0 };
}

abbrev pub num_clients : ServerInfo → ℕ
num_clients i = length i.clients

unfoldable pub register : ℕ → Bytes → ServerInfo → ServerInfo
unfolding add_client inc
register id addr i = record i {
  clients = add_client id addr i.clients;
  connections = inc (pos 1) i.connections;
}

unfoldable pub deregister : ℕ → ServerInfo → ServerInfo
deregister id i = record i { clients = del id i.clients }

unfoldable pub command : ℕ → Bytes → ServerInfo → ServerInfo
unfolding set_last_cmd inc
command id cmd i = record i {
  clients = set_last_cmd id cmd i.clients;
  commands = inc (pos 1) i.commands;
}
