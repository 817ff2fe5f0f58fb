-- ===== src/Client/MultiDevice.antt =====
-- `walkGroupChain` of packages/cli/src/multiDevice.ts: back along the documents of a group, each
-- naming the one before it. The walk has at most 1000 hops, which are its fuel, as in the source.
pub mod Chain
use cordn.Prelude.{
  ℕ, zero, suc, String, not, Option, none, some, List, [], ◌∷◌, if◌then◌else◌, ltb, leb, ◌==◌,
  string_eq, nat_eq,
}
use mathlib.Core.Option
use cordn.Prelude.Map
use cordn.Prelude.Map.{Map}

-- The fields of a group document that the walk reads.
pub record GroupDocument : Type 0 where
  pub gid : String
  pub prev : Option String
  pub client_state : String
  pub cursor : ℕ

pub data MultiDeviceDocument : Type 0 where
  group : GroupDocument → MultiDeviceDocument
  meta : MultiDeviceDocument

pub record ChainStep : Type 0 where
  pub epoch : ℕ
  pub client_state : String
  pub cursor : ℕ
  pub address : String

-- `pullDocument`, which fetches, checks the address and opens, and is `none` when it throws; and the
-- epoch of an encoded client state, `none` when it does not decode.
pub record ChainAccess : Type 0 where
  pub pull_document : String → Option MultiDeviceDocument
  pub decode_epoch : String → Option ℕ

abbrev pub max_hops : ℕ
max_hops = 1000

abbrev pub step_of : String → ℕ → GroupDocument → ChainStep
step_of address epoch doc = record {
  epoch = epoch;
  client_state = doc.client_state;
  cursor = doc.cursor;
  address = address;
}

-- The oldest document of an epoch stays.
unfoldable pub keep_oldest : ChainStep → Map ℕ ChainStep → Map ℕ ChainStep
keep_oldest step by_epoch = elim (Map.get step.epoch by_epoch) [
  | none ↦ Map.set step.epoch step by_epoch
  | some existing ↦
      if ltb step.cursor existing.cursor then Map.set step.epoch step by_epoch else by_epoch
]

unfoldable pub place_step : ChainStep → List ChainStep → List ChainStep
place_step s [] = s ∷ []
place_step s (x ∷ xs) = if leb s.cursor x.cursor then s ∷ x ∷ xs else x ∷ place_step s xs

-- `[...byEpoch.values()].sort((a, b) => a.cursor - b.cursor)`
unfoldable pub sorted_steps : Map ℕ ChainStep → List ChainStep
sorted_steps [] = []
sorted_steps ((epoch, step) ∷ m) = place_step step (sorted_steps m)

module _ (access : ChainAccess) (group_id : String) (local_epoch : ℕ) where
  -- The step that a document gives, or `none` where the walk stops.
  unfoldable pub read_step : String → MultiDeviceDocument → Option (ChainStep × Option String)
  read_step address meta = none
  read_step address (group doc) =
      if not (doc.gid == group_id) then none else elim (access.decode_epoch doc.client_state) [
        | none ↦ none
        | some epoch ↦
            if leb epoch local_epoch then none else some (step_of address epoch doc, doc.prev)
      ]

  -- The walk, `none` when a document cannot be pulled. An empty address ends it like a missing one.
  unfoldable pub walk : ℕ → Option String → Map ℕ ChainStep → Option (Map ℕ ChainStep)
  walk zero address by_epoch = some by_epoch
  walk (suc hops) none by_epoch = some by_epoch
  walk (suc hops) (some address) by_epoch =
      if address == "" then some by_epoch else elim (access.pull_document address) [
        | none ↦ none
        | some doc ↦ elim (read_step address doc) [
          | none ↦ some by_epoch
          | some next ↦ walk hops next.1 (keep_oldest next.0 by_epoch)
        ]
      ]

  unfoldable pub walk_group_chain : String → Option (List ChainStep)
  walk_group_chain tip_address = Option.map sorted_steps (walk max_hops (some tip_address) [])
