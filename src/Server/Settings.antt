-- ===== src/Server/Settings.antt =====
-- How `Server` of server/cluster.rs and `ClientServer` of server/client.rs are set up, and where they
-- listen. Their channels are in Shutdown, the store in Connection.
use kave.Base.{Bool, true, Option, none, some, List, if◌then◌else◌}
use kave.Base.Bytes.{Bytes}
use kave.Config.{Config, get_cluster_addr, get_client_addr}
use kave.Server.Pem.{Certificate, PrivateKey}

pub record ClientServer : Type 0 where
  pub certs : List Certificate
  pub keys : List PrivateKey
  pub addr : Option Bytes

-- `ClientServer::new`
unfoldable pub new_client_server : List Certificate → List PrivateKey → ClientServer
new_client_server certs keys = record { certs = certs; keys = keys; addr = none }

-- `ClientServer::set_addr`
unfoldable pub set_client_addr : Bytes → ClientServer → ClientServer
set_client_addr addr svr = record svr { addr = some addr }

pub record Server : Type 0 where
  pub certs : List Certificate
  pub keys : List PrivateKey
  pub addr : Option Bytes
  pub client_svr_addr : Option Bytes
  pub start_client_server : Bool

-- `Server::new`
unfoldable pub new : List Certificate → List PrivateKey → Server
new certs keys = record {
  certs = certs;
  keys = keys;
  addr = none;
  client_svr_addr = none;
  start_client_server = true;
}

unfoldable pub set_addr : Bytes → Server → Server
set_addr addr svr = record svr { addr = some addr }

unfoldable pub set_client_server_addr : Bytes → Server → Server
set_client_server_addr addr svr = record svr { client_svr_addr = some addr }

unfoldable pub set_start_client_server : Bool → Server → Server
set_start_client_server start_client_server svr = record svr {
  start_client_server = start_client_server;
}

unfoldable pub or_config : Option Bytes → Bytes → Bytes
or_config none addr = addr
or_config (some own) addr = own

-- Where the server listens.
unfoldable pub cluster_addr : Config → Server → Bytes
unfolding or_config
cluster_addr config svr = or_config svr.addr (get_cluster_addr config)

-- Where a client-server listens.
unfoldable pub client_addr : Config → ClientServer → Bytes
unfolding or_config
client_addr config svr = or_config svr.addr (get_client_addr config)

-- `if let Some(ref client_svr_addr)`
unfoldable pub with_addr : Option Bytes → ClientServer → ClientServer
unfolding set_client_addr
with_addr none svr = svr
with_addr (some addr) svr = set_client_addr addr svr

-- The client-server that `Server::start` spawns.
unfoldable pub spawned : Server → Option ClientServer
unfolding new_client_server with_addr
spawned svr =
    if svr.start_client_server
    then some (with_addr svr.client_svr_addr (new_client_server svr.certs svr.keys))
    else none
