-- ===== src/Screens/Tests.antt =====
-- Runs of the screen of hosts, and the theorems about it at concrete inputs.
use connexia.Common.{
  ℕ, ◌≡◌, refl, Option, none, some, List, [], ◌∷◌, Text, codes, map, filter, same, trim, length,
  IsSorted, sort_by, insert_by, starts_with, parse_int,
}
use connexia.Screens.Hosts.{
  Host, sorted_hosts, selected_host_ids, connect_selection, host_key, group_key,
}
use connexia.Screens.Hosts.Order.{is_newer, at_time, sorted_hosts-IsSorted}
use connexia.Screens.Forms.{
  HostForm, new_host, new_form, host_fields, save_host, delete_group, keep, assign_host,
  password_to_store,
}
use connexia.Common.{false, decimal, parse_int, trim, suc}
use connexia.Screens.Tunnels.{Tunnel, tunnel_fields, rule_text, port_label}

-- The times of the runs: a text counts by its length.
abbrev time : Option Text → Option ℕ
time none = none
time (some text) = some (length text)

abbrev host : Text → Option Text → Option Text → Host
host id group_id last_connected = record (new_host id) {
  group_id = group_id;
  last_connected = last_connected;
}

abbrev three_hosts : List Host
three_hosts =
    host (codes "a") (some (codes "g")) none
    ∷ host (codes "b") none (some (codes "x"))
    ∷ host (codes "c") (some (codes "g")) (some (codes "xx"))
    ∷ []

sorted_hosts_runs :
    map (λ h. h.id) (sorted_hosts time three_hosts) ≡ codes "c" ∷ codes "b" ∷ codes "a" ∷ []
unfolding sorted_hosts sort_by insert_by
sorted_hosts_runs = refl

sorted_hosts-IsSorted_example :
    IsSorted (is_newer time) (sorted_hosts time three_hosts)
    × (filter (at_time time none) (sorted_hosts time three_hosts)
        ≡ filter (at_time time none) three_hosts)
sorted_hosts-IsSorted_example = sorted_hosts-IsSorted time three_hosts none

connect_selection_runs :
    map
      (λ h. h.id)
      (connect_selection three_hosts (group_key (codes "g") ∷ host_key (codes "b") ∷ []))
    ≡ codes "a" ∷ codes "b" ∷ codes "c" ∷ []
unfolding connect_selection selected_host_ids starts_with same
connect_selection_runs = refl

-- A group is deleted without its hosts, and they still name it.
delete_group_keeps :
    map
      (λ h. h.group_id)
      (delete_group keep (codes "g") (record { hosts = three_hosts; groups = [] })).hosts
    ≡ some (codes "g") ∷ none ∷ some (codes "g") ∷ []
unfolding delete_group
delete_group_keeps = refl

abbrev form : HostForm
form = record (new_form (codes "b") none []) { address = codes " b.org "; password = codes "p" }

save_host_runs :
    save_host (λ text writes. (text, suc writes)) form three_hosts 0
    ≡ some (
      host (codes "a") (some (codes "g")) none
          ∷ record (host (codes "b") none (some (codes "x"))) {
            name = codes "b.org";
            address = codes "b.org";
            username = some [];
            auth_type = some (codes "password");
            encrypted_password = some (codes "p");
            tags = some [];
          }
          ∷ host (codes "c") (some (codes "g")) (some (codes "xx"))
          ∷ [],
      1,
    )
unfolding save_host trim new_form assign_host same host_fields parse_int password_to_store
save_host_runs = refl

abbrev web_tunnel : Tunnel
web_tunnel =
    tunnel_fields (λ text. text)
      (record {
        type = codes "local";
        host_id = none;
        auth_type = codes "password";
        key_id = none;
        name = codes " web ";
        auto_start = false;
        server_address = codes "s";
        server_port = [];
        username = codes "u";
        password = codes "p";
        bind_address = [];
        bind_port = codes "8080";
        target_host = codes "db";
        target_port = codes "80";
        notes = [];
      })
      (codes "t") (codes "now") none

rule_text_runs : rule_text web_tunnel ≡ codes "127.0.0.1:8080 → db:80"
unfolding rule_text tunnel_fields port_label same trim parse_int decimal
rule_text_runs = refl
