-- ===== src/Presence.antt =====
-- maintain/cell_presence_client.go: the presences of the cells in consul. Consul's key-value store, the
-- JSON encoding of a presence, locket.LockSchemaPath, path.Base and models.ConvertError are parameters.
-- Logging is left out.
pub mod Found
pub mod Events
use rep.Base.{String, ◌==◌, Bool, true, false, List, [], ◌∷◌, Option, none, some}
use rep.Base.Tests.{if◌then◌else◌}
use rep.Base.Int.{ℤ}
use rep.Base.GoMap.{GoMap, put}
use rep.Base.Result.{Result, ok, err}
use rep.Maintainer.{CellPresence}

-- The errors of consuladapter, with their messages.
pub data ConsulError : Type 0 where
  key_not_found prefix_not_found other_consul_error : String → ConsulError

-- models.Error, by its type and message.
pub data ModelError : Type 0 where
  resource_not_found unknown_error invalid_json : String → ModelError

pub record KvPair : Type 0 where
  pub value : String
  pub session : String

-- What the client uses of the outside; `none` is a nil pair or slice. `list` returns its pairs with its
-- error, as the code looks at both.
pub record Consul : Type 0 where
  pub get : String → Result ConsulError (Option KvPair)
  pub list : String → Option (List KvPair) × Option ConsulError
  pub to_json : CellPresence → Option String
  pub from_json : String → Result String CellPresence
  pub lock_schema_path : List String → String
  pub new_key_not_found : String → ConsulError
  pub new_prefix_not_found : String → ConsulError
  pub convert_error : ModelError → ModelError
  pub base : String → String

abbrev pub cell_schema_key : String
cell_schema_key = "cell"

unfoldable pub convert_consul_error : ConsulError → ModelError
convert_consul_error (key_not_found message) = resource_not_found message
convert_consul_error (prefix_not_found message) = resource_not_found message
convert_consul_error (other_consul_error message) = unknown_error message

-- bbsErr.Type != models.Error_ResourceNotFound: the error that is returned.
abbrev pub unless_not_found : ModelError → Option ModelError
unless_not_found (resource_not_found _) = none
unless_not_found (unknown_error message) = some (unknown_error message)
unless_not_found (invalid_json message) = some (invalid_json message)

module _ (consul : Consul) where
  unfoldable pub cell_schema_path : String → String
  cell_schema_path cell_id = consul.lock_schema_path (cell_schema_key ∷ cell_id ∷ [])

  unfoldable pub cell_schema_root : String
  cell_schema_root = consul.lock_schema_path (cell_schema_key ∷ [])

  -- NewCellPresenceRunner, as the key and payload that it gives to locket.NewPresence; `none` is a panic.
  unfoldable pub new_cell_presence_runner : CellPresence → Option (String × String)
  unfolding cell_schema_path
  new_cell_presence_runner presence = elim (consul.to_json presence) [
    | none ↦ none
    | some payload ↦ some (cell_schema_path presence.cell_id, payload)
  ]

  -- kvPair == nil || kvPair.Session == ""
  unfoldable pub acquired : String → Option KvPair → Result ConsulError String
  acquired key none = err (consul.new_key_not_found key)
  acquired key (some pair) =
      if pair.session == "" then err (consul.new_key_not_found key) else ok pair.value

  unfoldable pub get_acquired_value : String → Result ConsulError String
  unfolding acquired
  get_acquired_value key = elim (consul.get key) [ err e ↦ err e | ok pair ↦ acquired key pair ]

  unfoldable pub decoded_presence : String → Result ModelError CellPresence
  decoded_presence value = elim (consul.from_json value) [
    | err message ↦ err (invalid_json message)
    | ok presence ↦ ok presence
  ]

  unfoldable pub cell_by_id : String → Result ModelError CellPresence
  unfolding get_acquired_value cell_schema_path convert_consul_error decoded_presence
  cell_by_id cell_id = elim (get_acquired_value (cell_schema_path cell_id)) [
    | err e ↦ err (convert_consul_error e)
    | ok value ↦ decoded_presence value
  ]

  -- cellPresences.Add(presence), unless the value does not decode.
  unfoldable pub add_decoded : Result String CellPresence → GoMap CellPresence → GoMap CellPresence
  add_decoded (err _) cells = cells
  add_decoded (ok presence) cells = put presence.cell_id presence cells

  -- The loop of Cells over the pairs.
  unfoldable pub add_cells : GoMap CellPresence → List KvPair → GoMap CellPresence
  unfolding add_decoded
  add_cells cells [] = cells
  add_cells cells (pair ∷ pairs) =
      add_cells
        (if pair.session == "" then cells else add_decoded (consul.from_json pair.value) cells)
        pairs

  -- The first check of Cells: what it returns for the error of List.
  unfoldable pub list_error : Option ConsulError → Option ModelError
  unfolding convert_consul_error
  list_error none = none
  list_error (some e) = unless_not_found (consul.convert_error (convert_consul_error e))

  -- The second check and the loop.
  unfoldable pub listed_cells : Option (List KvPair) → Result ModelError (GoMap CellPresence)
  unfolding add_cells list_error cell_schema_root
  listed_cells (some pairs) = ok (add_cells [] pairs)
  listed_cells none = elim (list_error (some (consul.new_prefix_not_found cell_schema_root))) [
    | some e ↦ err e
    | none ↦ ok (add_cells [] [])
  ]

  unfoldable pub cells : Result ModelError (GoMap CellPresence)
  unfolding list_error listed_cells cell_schema_root
  cells = elim (list_error (consul.list cell_schema_root).1) [
    | some e ↦ err e
    | none ↦ listed_cells (consul.list cell_schema_root).0
  ]

  -- The ids of a CellDisappearedEvent of CellEvents, for the keys that the watcher sends.
  unfoldable pub disappeared_cells : List String → List String
  disappeared_cells [] = []
  disappeared_cells (key ∷ keys) = consul.base key ∷ disappeared_cells keys
