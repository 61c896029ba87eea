-- ===== src/Api/Lasting.antt =====
-- The chain file under the requests that a server handles: whatever becomes of them, it holds what it
-- held before or a chain that can be opened again.
use toy_blockchain.Prelude.{
  ◌≡◌, ◌≢◌, ◌⊎◌, inl, inr, ap, ◌∙◌, Option, some, List, [], ◌∷◌, Text, Bool-cases,
}
use toy_blockchain.Crypto.{Crypto}
use toy_blockchain.Go.Map.{lookup}
use toy_blockchain.Block.Header.{Block}
use toy_blockchain.Miner.Proofs.{IsMiner}
use toy_blockchain.Chain.Mine.{Chain}
use toy_blockchain.Chain.Reach.{InTime, Moved}
use toy_blockchain.Chain.Storable.{IsStorable, Extends, Extends-trans, Moved-IsStorable}
use toy_blockchain.Store.{Json, Disk, contents}
use toy_blockchain.World.{World}
use toy_blockchain.Api.Server.{Server}
use toy_blockchain.Api.Router.{
  Endpoint, Request, Routed, to, not_found, not_allowed, moved_permanently, routes, dispatch,
  run_endpoint, answer, serve_request, serve_all,
}
use toy_blockchain.Api.Agreement.{
  changes, Served, run_endpoint-Effect, endpoint-Moved, endpoint_paths, answer_agrees,
}

module _ (c : Crypto) (json : Json) (path : Text) (old : Option Text) (blocks : List Block) where
  -- The file at the path is as it was, or holds a chain that goes on from the blocks.
  abbrev pub HasFile : Disk → Type 0
  HasFile disk =
      (lookup path disk ≡ old)
      ⊎ ((ch : Chain) × IsStorable c ch
          × Extends c blocks ch.blocks
          × (lookup path disk ≡ some (contents json ch.blocks ch.pool.pending)))

  -- So does what is in memory.
  pub record Keeps (ch : Chain) (store : Text) (disk : Disk) : Type 0 where
    pub storable : IsStorable c ch
    pub longer : Extends c blocks ch.blocks
    pub at_path : store ≡ path
    pub file : HasFile disk

  pub Moved-Keeps :
      (ch ch' : Chain) (store store' : Text) (disk disk' : Disk)
      → Keeps ch store disk
      → Moved c ch ch'
      → store' ≡ store
      → (lookup store disk' ≡ lookup store disk)
        ⊎ (lookup store disk' ≡ some (contents json ch'.blocks ch'.pool.pending))
      → Keeps ch' store' disk'
  Moved-Keeps ch ch' store store' disk disk' k moved same there =
      let (inv, longer) = Moved-IsStorable c ch ch' k.storable moved in
      let longer' = Extends-trans c blocks ch.blocks ch'.blocks k.longer longer in
      record {
        storable = inv;
        longer = longer';
        at_path = same ∙ k.at_path;
        file = elim there [
          | inl kept ↦ elim k.file [
            | inl h ↦ inl (cc (k.at_path, kept, h))
            | inr (d, inv_d, longer_d, h) ↦ inr (d, inv_d, longer_d, cc (k.at_path, kept, h))
          ]
          | inr saved ↦ inr (ch', inv, longer', cc (k.at_path, saved))
        ];
      }

  module _ (w : World) (law : IsMiner c w.search) (req : Request) (s : Server)
      (k : Keeps s.chain s.store s.disk) (on_time : InTime w.now_unix s.chain)
      (apart : s.store ≢ s.wallet.path) where
    endpoint_file :
        (endpoint : Endpoint) (value : Text)
        → let s' = (run_endpoint c json w endpoint value req s).1 in
          (lookup s.store s'.disk ≡ lookup s.store s.disk)
          ⊎ (lookup s.store s'.disk ≡ some (contents json s'.chain.blocks s'.chain.pool.pending))
    endpoint_file endpoint value =
        let (effect, kept, _) =
          run_endpoint-Effect c json w law req s k.storable.consistent endpoint value in
        elim (Bool-cases (changes endpoint)) [
          | inr reading ↦ inl ((kept reading).1 s.store apart)
          | inl changing ↦ elim (effect changing) [
            | inl (good, saved) ↦ inr (
                cc (
                  (endpoint_paths c json w law req s k.storable.consistent endpoint value).0,
                  saved,
                ))
            | inr (inl (e, r, same)) ↦ inl same
            | inr (inr (bad, ch, d)) ↦ inl (ap (λ m. lookup s.store m) d)
          ]
        ]

    answer-Keeps :
        (routed : Routed)
        → let s' = (answer c json w routed req s).1 in Keeps s'.chain s'.store s'.disk
    unfolding answer
    answer-Keeps not_found = k
    answer-Keeps not_allowed = k
    answer-Keeps (moved_permanently to_path) = k
    answer-Keeps (to endpoint value) =
        let s' = (run_endpoint c json w endpoint value req s).1 in
        Moved-Keeps s.chain s'.chain s.store s'.store s.disk s'.disk k
          (endpoint-Moved c json w law req s k.storable.consistent on_time endpoint value)
          (endpoint_paths c json w law req s k.storable.consistent endpoint value).0
          (endpoint_file endpoint value)

  pub serve_all-Keeps :
      (requests : List (World × Request)) (s : Server)
      → Served c json requests s
      → Keeps s.chain s.store s.disk
      → s.store ≢ s.wallet.path
      → let s' = (serve_all c json requests s).1 in Keeps s'.chain s'.store s'.disk
  unfolding serve_all serve_request
  serve_all-Keeps [] s ready k apart = k
  serve_all-Keeps ((w, req) ∷ rest) s (law, on_time, ready) k apart =
      let (_, apart', _) =
        answer_agrees c json w law req s k.storable.consistent on_time apart
          (dispatch req routes) in
      serve_all-Keeps rest (serve_request c json w req s).1 ready
        (answer-Keeps w law req s k on_time apart (dispatch req routes)) apart'
