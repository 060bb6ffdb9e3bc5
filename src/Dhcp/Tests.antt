-- ===== src/Dhcp/Tests.antt =====
-- Runs of the options of DHCP, and the theorems at them.
use experiment.Base.{◌≡◌, some, List, [], ◌∷◌, ◌++◌, refl, arith, replicate}
use experiment.Dhcp.{
  opt_dns, opt_end, opt_requested_ip_addr, opt_server_id, ip_value, dns_value, get_ip_option,
  get_dns_servers, set_request_options, find_option, servers,
}
use experiment.Dhcp.Options.{
  Item, pad, option, encode, encode_item, first_data, ItemsAreValid, AreServers, address_number,
  get_ip_option-encode,
}
use experiment.Dhcp.Request.{get_ip_option-set_request_options}

-- The answer of a server with a subnet mask and two DNS servers.
abbrev answer_items : List Item
answer_items =
    option 53 (5 ∷ [])
    ∷ pad
    ∷ option 1 (255 ∷ 255 ∷ 255 ∷ 0 ∷ [])
    ∷ option opt_dns (10 ∷ 0 ∷ 2 ∷ 3 ∷ 8 ∷ 8 ∷ 8 ∷ 8 ∷ [])
    ∷ []

get_ip_option-encode_example :
    let options = encode answer_items ++ opt_end ∷ replicate 107 0 in
    (get_ip_option options 1 ≡ address_number (first_data 1 answer_items))
    × AreServers (first_data opt_dns answer_items) (get_dns_servers options)
unfolding ItemsAreValid encode encode_item
get_ip_option-encode_example =
    get_ip_option-encode answer_items (replicate 107 0) 1 (ground arith) refl

get_ip_option-set_request_options_example :
    let stored =
      set_request_options (10 ∷ 0 ∷ 2 ∷ 15 ∷ []) (10 ∷ 0 ∷ 2 ∷ 2 ∷ []) (replicate 128 0) in
    (get_ip_option stored opt_requested_ip_addr ≡ address_number (some (10 ∷ 0 ∷ 2 ∷ 15 ∷ [])))
    × (get_ip_option stored opt_server_id ≡ address_number (some (10 ∷ 0 ∷ 2 ∷ 2 ∷ [])))
get_ip_option-set_request_options_example =
    get_ip_option-set_request_options (10 ∷ 0 ∷ 2 ∷ 15 ∷ []) (10 ∷ 0 ∷ 2 ∷ 2 ∷ []) (replicate 128 0)
      refl refl refl

mask_runs : get_ip_option (encode answer_items ++ opt_end ∷ replicate 107 0) 1 ≡ 4294967040
unfolding get_ip_option find_option ip_value encode encode_item
mask_runs = refl

-- Seven servers are all taken, into an array of five.
seven_servers_run :
    get_dns_servers (6 ∷ 28 ∷ replicate 28 8 ++ opt_end ∷ replicate 97 0)
    ≡ some (replicate 7 (replicate 4 8))
unfolding get_dns_servers find_option dns_value servers
seven_servers_run = refl
