-- ===== src/Api/Listening.antt =====
-- New and ListenAndServe in internal/api/server.go. The requests that are handled before the end
-- come one after the other; which of the two channels is received from first is an argument.
use toy_blockchain.Prelude.{Bool, true, false, Option, none, some, List, Text}
use toy_blockchain.Crypto.{Crypto}
use toy_blockchain.Config.{Config}
use toy_blockchain.Chain.Mine.{Chain}
use toy_blockchain.Store.{Json, Disk}
use toy_blockchain.Wallet.{Keystore}
use toy_blockchain.World.{World}
use toy_blockchain.Api.Server.{Server}
use toy_blockchain.Api.Router.{Request, serve_all}

-- New; the time of the start is left out.
abbrev pub new_server : Config → Chain → Text → Disk → Keystore → Server
new_server cfg chain store disk wallet = record {
  chain = chain;
  store = store;
  disk = disk;
  wallet = wallet;
  cfg = cfg;
}

-- http.Server.ListenAndServe always returns an error, ErrServerClosed after a Shutdown.
pub data ListenError : Type 0 where
  server_closed not_listening : ListenError

-- What the goroutine sends: nil for ErrServerClosed.
unfoldable pub sent : ListenError → Option ListenError
sent server_closed = none
sent not_listening = some not_listening

pub data ServeError : Type 0 where
  from_listening : ListenError → ServeError
  not_shut_down : ServeError

-- What the `select` receives first: the return of the goroutine, or the interruption, after which
-- Shutdown waits at most ten seconds for the requests that are being handled.
pub data Ending : Type 0 where
  returned : ListenError → Ending
  interrupted : (in_time : Bool) → Ending

unfoldable pub end_of : Ending → Option ServeError
end_of (returned e) = elim (sent e) [ none ↦ none | some e' ↦ some (from_listening e') ]
end_of (interrupted true) = none
end_of (interrupted false) = some not_shut_down

unfoldable pub listen_and_serve :
    Crypto → Json → Ending → List (World × Request) → Server → Option ServeError × Server
listen_and_serve c json ending requests s = (end_of ending, (serve_all c json requests s).1)
