-- ===== src/Export/Split/Tests.antt =====
-- Splitting three entries of two applications.
use httshark.Base.{refl, true, List, [], ◌∷◌, codes, Bytes, pos, bytes_eq}
use httshark.Har.{Entry}
use httshark.Export.Split.{Groups, get_har_files}
use httshark.Export.Split.Group.{WalksGroups, IsSplit, get_har_files-IsSplit}

abbrev pub entry_to : Bytes → Bytes → Entry
entry_to ip method = record {
  started = [];
  time = pos 0;
  request = record {
    method = method;
    url = [];
    http_version = [];
    headers = [];
    query_string = [];
    cookies = [];
    headers_size = pos 0;
    body_size = pos 0;
    content = record { size = pos 0; mime_type = []; text = [] };
    app_id = record { dst_ip = ip; dst_port = pos 80 };
  };
  response = record {
    exists = true;
    status = pos 200;
    status_text = [];
    http_version = [];
    redirect_url = [];
    headers = [];
    headers_size = pos 0;
    body_size = pos 0;
    cookies = [];
    content = record { size = pos 0; mime_type = []; text = [] };
  };
  timings = record { send = pos 0; wait = pos 0; receive = pos 0 };
  cache = record { send = pos 0; wait = pos 0; receive = pos 0 };
}

abbrev pub three : List Entry
three =
    entry_to (codes "a") (codes "GET")
    ∷ entry_to (codes "b") (codes "GET")
    ∷ entry_to (codes "a") (codes "PUT")
    ∷ []

-- a walk in the order of the list
abbrev pub in_list_order : Groups → Groups
in_list_order m = m

pub in_list_order-WalksGroups : WalksGroups in_list_order
in_list_order-WalksGroups m d = (d, λ k. refl)

get_har_files-IsSplit_example : IsSplit three (get_har_files true in_list_order three)
get_har_files-IsSplit_example = get_har_files-IsSplit in_list_order in_list_order-WalksGroups three
