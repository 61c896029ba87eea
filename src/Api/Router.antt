-- ===== src/Api/Router.antt =====
-- Routes in internal/api/server.go: the table of net/http patterns, and what the mux makes of it.
-- A path is the list of its parts between slashes, unescaped; the request line `OPTIONS *` is left out.
use toy_blockchain.Prelude.{
  Bool, true, false, ◌&&◌, ◌||◌, Option, none, some, List, [], ◌∷◌, Text, codes, text_eq,
  if◌then◌else◌, ℤ,
}
use toy_blockchain.Crypto.{Crypto}
use toy_blockchain.Store.{Json}
use toy_blockchain.World.{World}
use toy_blockchain.Api.Server.{Server, Reply, reply, moved_to, write_error, no_route, no_method}
use toy_blockchain.Api.Handlers

pub data Segment : Type 0 where
  lit : Text → Segment
  wildcard : Segment

pub data Endpoint : Type 0 where
  health get_chain validate get_block get_balances get_balance get_pending : Endpoint
  list_keys create_key faucet create_transaction mine : Endpoint

pub record Route : Type 0 where
  pub method : Text
  pub pattern : List Segment
  pub endpoint : Endpoint

-- `redirect` is what net/http makes of the path before it looks at the patterns: the cleaned path, where
-- that is another one and the method is not CONNECT. The three bodies are what readJSON makes of the
-- body under each of the three shapes.
pub record Request : Type 0 where
  pub method : Text
  pub path : List Text
  pub redirect : Option Text
  pub key_body : Option Text
  pub faucet_body : Option (Text × ℤ)
  pub transfer_body : Option (Text × Text × ℤ)

abbrev get_route : List Segment → Endpoint → Route
get_route pattern endpoint = record { method = codes "GET"; pattern = pattern; endpoint = endpoint }

abbrev post_route : List Segment → Endpoint → Route
post_route pattern endpoint = record {
  method = codes "POST";
  pattern = pattern;
  endpoint = endpoint;
}

abbrev pub routes : List Route
routes =
    get_route (lit (codes "health") ∷ []) health
    ∷ get_route (lit (codes "chain") ∷ []) get_chain
    ∷ get_route (lit (codes "chain") ∷ lit (codes "validate") ∷ []) validate
    ∷ get_route (lit (codes "blocks") ∷ wildcard ∷ []) get_block
    ∷ get_route (lit (codes "balances") ∷ []) get_balances
    ∷ get_route (lit (codes "balances") ∷ wildcard ∷ []) get_balance
    ∷ get_route (lit (codes "pending") ∷ []) get_pending
    ∷ get_route (lit (codes "keys") ∷ []) list_keys
    ∷ post_route (lit (codes "keys") ∷ []) create_key
    ∷ post_route (lit (codes "faucet") ∷ []) faucet
    ∷ post_route (lit (codes "transactions") ∷ []) create_transaction
    ∷ post_route (lit (codes "mine") ∷ []) mine
    ∷ []

-- The value of the wildcard, `some []` where a pattern without one matches.
unfoldable pub match_path : List Segment → List Text → Option Text
match_path [] [] = some []
match_path [] (part ∷ parts) = none
match_path (seg ∷ segs) [] = none
match_path (lit text ∷ segs) (part ∷ parts) =
    let rest = match_path segs parts in if text_eq text part then rest else none
match_path (wildcard ∷ segs) (part ∷ parts) =
    let rest = match_path segs parts in
    if text_eq part [] then none else elim rest [ none ↦ none | some _ ↦ some part ]

-- A GET pattern answers HEAD too.
unfoldable pub method_allowed : Text → Text → Bool
method_allowed pattern method =
    text_eq pattern method || text_eq pattern (codes "GET") && text_eq method (codes "HEAD")

pub data Routed : Type 0 where
  to : Endpoint → Text → Routed
  not_found not_allowed : Routed
  moved_permanently : Text → Routed

-- `known` says that a pattern with another method has matched.
unfoldable pub select : Text → List Text → List Route → Bool → Routed
select method path [] known = if known then not_allowed else not_found
select method path (r ∷ rs) known = elim (match_path r.pattern path) [
  | none ↦ select method path rs known
  | some value ↦ elim (method_allowed r.method method) [
    | true ↦ to r.endpoint value
    | false ↦ select method path rs true
  ]
]

-- What the mux does with a request: it redirects to a cleaned path whatever pattern takes that path.
unfoldable pub dispatch : Request → List Route → Routed
dispatch req rs = elim req.redirect [
  | some path ↦ moved_permanently path
  | none ↦ select req.method req.path rs false
]

unfoldable pub run_endpoint :
    Crypto → Json → World → Endpoint → Text → Request → Server → Reply × Server
run_endpoint c json w health value req s = (Handlers.health s, s)
run_endpoint c json w get_chain value req s = (Handlers.get_chain s, s)
run_endpoint c json w validate value req s = (Handlers.validate c s, s)
run_endpoint c json w get_block value req s = (Handlers.get_block value s, s)
run_endpoint c json w get_balances value req s = (Handlers.get_balances c s, s)
run_endpoint c json w get_balance value req s = (Handlers.get_balance c value s, s)
run_endpoint c json w get_pending value req s = (Handlers.get_pending c s, s)
run_endpoint c json w list_keys value req s = (Handlers.list_keys c s, s)
run_endpoint c json w create_key value req s = Handlers.create_key c json w req.key_body s
run_endpoint c json w faucet value req s = Handlers.faucet c json w req.faucet_body s
run_endpoint c json w create_transaction value req s =
    Handlers.create_transaction c json w req.transfer_body s
run_endpoint c json w mine value req s = Handlers.mine c json w s

-- A request that no pattern takes is answered by jsonErrors in the shape of every other error.
unfoldable pub answer : Crypto → Json → World → Routed → Request → Server → Reply × Server
answer c json w (to endpoint value) req s = run_endpoint c json w endpoint value req s
answer c json w not_found req s = (write_error 404 no_route, s)
answer c json w not_allowed req s = (write_error 405 no_method, s)
answer c json w (moved_permanently path) req s = (reply 301 (moved_to path), s)

unfoldable pub serve_request : Crypto → Json → World → Request → Server → Reply × Server
serve_request c json w req s = answer c json w (dispatch req routes) req s

-- The requests that a server handles, one after the other.
unfoldable pub serve_all : Crypto → Json → List (World × Request) → Server → List Reply × Server
serve_all c json [] s = ([], s)
serve_all c json ((w, req) ∷ rest) s =
    let (a, s') = serve_request c json w req s in
    let (replies, last) = serve_all c json rest s' in (a ∷ replies, last)
