-- ===== src/Tests/Devices.antt =====
-- A chain of two documents.
use cordn.Prelude.{ℕ, String, Option, none, some, if◌then◌else◌, ◌==◌, string_eq, nat_eq}
use cordn.Client.MultiDevice.{GroupDocument, group, ChainAccess, walk_group_chain}
use cordn.Client.MultiDevice.Chain.{IsChain, walk_group_chain-IsChain}

abbrev document : Option String → String → ℕ → GroupDocument
document prev state cursor = record {
  gid = "g";
  prev = prev;
  client_state = state;
  cursor = cursor;
}

abbrev two_documents : ChainAccess
two_documents = record {
  pull_document = λ address.
      if address == "tip"
      then some (group (document (some "older") "second" 9))
      else if address == "older"
      then some (group (document none "first" 4))
      else none;
  decode_epoch = λ state. if state == "second" then some 2 else some 1;
}

abbrev tip : String
tip = "tip"

walk_group_chain-IsChain_example :
    IsChain two_documents "g" 0 (walk_group_chain two_documents "g" 0 tip)
walk_group_chain-IsChain_example = walk_group_chain-IsChain two_documents "g" 0 tip
