-- ===== src/Examples/Http.antt =====
-- The theorems on the client, the routes and the addresses, applied: a client whose requests reach a rep.
use rep.Rootfs.{Url}
use rep.Base.Tests.{if◌then◌else◌}
use rep.Base.{String, ◌==◌, Bool, true, false, ◌≡◌, refl, ◌↔◌, [], Option, none, some}
use rep.Base.Int.{pos}
use rep.Base.Result.{ok}
use rep.Cell.{CellState, Work}
use rep.AuctionRep.State.{state}
use rep.AuctionRep.Perform.{perform}
use rep.Client.{TlsConfig, pick_url}
use rep.Client.Requests.{Request, Http, client_state, client_perform}
use rep.Client.Address.{Picks, pick_url_iff}
use rep.Client.Served.{Json, respond, Delivers, client_state_iff, client_perform_served}
use rep.Examples.{env, steady}
use rep.Examples.Auction.{rep_of_cell}

-- What is sent: a state, work or nothing.
data Wire : Type 0 where
  state_wire : Option CellState → Wire
  work_wire : Option Work → Wire
  empty_wire : Wire

abbrev wire_state : Wire → Option CellState
wire_state (state_wire s) = s
wire_state (work_wire work) = none
wire_state empty_wire = none

abbrev wire_work : Wire → Option Work
wire_work (state_wire s) = none
wire_work (work_wire work) = work
wire_work empty_wire = none

abbrev json : Json Wire
json = record {
  state_body = state_wire;
  work_body = work_wire;
  no_body = empty_wire;
  read_work = wire_work;
}

abbrev http : Http Bool (Request Wire) Wire
http = record {
  create_request = some;
  send = λ r w. let (response, w') = respond json env rep_of_cell r w in (some response, w');
  send_state = λ r w. let (response, w') = respond json env rep_of_cell r w in (some response, w');
  encode_work = λ work. some (work_wire (some work));
  decode_work = wire_work;
  decode_state = wire_state;
  itoa = λ z. "1";
}

delivers : Delivers http json env rep_of_cell
delivers = record {
  made = λ r. (r, refl, (λ w. refl), (λ w. refl));
  state_read = λ s. refl;
  work_read = λ work. refl;
  work_sent = λ work. (work_wire (some work), refl, refl);
}

abbrev some_state : CellState
some_state = record {
  root_fs_providers = [];
  available_resources = record { memory_mb = pos 1; disk_mb = pos 1; containers = pos 1 };
  total_resources = record { memory_mb = pos 1; disk_mb = pos 1; containers = pos 1 };
  lrps = [];
  tasks = [];
  starting_container_count = pos 0;
  zone = "";
  evacuating = false;
  volume_drivers = [];
  placement_tags = [];
  optional_placement_tags = [];
}

client_state_iff_example :
    ((client_state http steady).0 ≡ ok some_state)
    ↔ ((state env rep_of_cell steady).0 ≡ ok (some_state, true))
client_state_iff_example = client_state_iff http json env rep_of_cell delivers steady some_state

abbrev no_work : Work
no_work = record { lrps = []; tasks = [] }

client_perform_served_example :
    (client_perform http no_work steady).0 ≡ ok (perform env rep_of_cell no_work steady).0
client_perform_served_example =
    client_perform_served http json env rep_of_cell delivers no_work steady

abbrev with_tls : TlsConfig
with_tls = record {
  require_tls = true;
  cert_file = "cert";
  key_file = "key";
  ca_cert_file = "ca";
  client_cache_size = pos 0;
}

abbrev parse_cell_url : String → Option Url
parse_cell_url s =
    if s == "https://cell"
    then some (record { scheme = "https"; path_opaque = ""; raw_query = "" })
    else none

pick_url_iff_example :
    (pick_url parse_cell_url with_tls "http://cell" "https://cell" ≡ ok "https://cell")
    ↔ Picks parse_cell_url with_tls "http://cell" "https://cell" "https://cell"
pick_url_iff_example =
    pick_url_iff parse_cell_url with_tls "http://cell" "https://cell" "https://cell"
