-- ===== src/Dhcp/Request.antt =====
-- The options of a request: the readers find the addresses that were put in.
use experiment.Base.{ℕ, ◌≡◌, some, List, [], ◌∷◌, length, drop, length-drop, arith, refl, ap, ◌∙◌}
use experiment.Dhcp.{
  options_len, opt_message_type, opt_requested_ip_addr, opt_server_id, opt_host_name,
  message_type_request, address_bytes, get_ip_option, set_request_options,
}
use experiment.Dhcp.Options.{
  Item, option, encode, encode_item, first_data, address_number, ItemsAreValid,
  get_ip_option-encode,
}

-- The options that a request has.
abbrev pub request_items : (ip server_ip : List ℕ) → List Item
request_items ip server_ip =
    option opt_message_type (message_type_request ∷ [])
    ∷ option opt_requested_ip_addr (address_bytes ip)
    ∷ option opt_server_id (address_bytes server_ip)
    ∷ option opt_host_name (111 ∷ 115 ∷ 100 ∷ 101 ∷ 118 ∷ [])
    ∷ []

address_bytes-four : (ip : List ℕ) → length ip ≡ 4 → address_bytes ip ≡ ip
unfolding address_bytes
address_bytes-four [] h = absurd (omega arith)
address_bytes-four (a ∷ []) h = absurd (omega arith)
address_bytes-four (a ∷ b ∷ []) h = absurd (omega arith)
address_bytes-four (a ∷ b ∷ c ∷ []) h = absurd (omega arith)
address_bytes-four (a ∷ b ∷ c ∷ d ∷ []) h = refl
address_bytes-four (a ∷ b ∷ c ∷ d ∷ e ∷ rest) h = absurd (omega arith)

-- The options that set_request_dhcp_options stores in 128 bytes for two addresses of four bytes are
-- read as what was asked for: the requested address, and the identifier of the server, each as the
-- number that has its bytes as digits to the base 256.
pub get_ip_option-set_request_options :
    (ip server_ip options : List ℕ)
    → length ip ≡ 4
    → length server_ip ≡ 4
    → length options ≡ options_len
    → let stored = set_request_options ip server_ip options in
      (get_ip_option stored opt_requested_ip_addr ≡ address_number (some ip))
      × (get_ip_option stored opt_server_id ≡ address_number (some server_ip))
unfolding set_request_options encode encode_item first_data ItemsAreValid address_bytes
get_ip_option-set_request_options ip server_ip options four server_four full =
    let items = request_items ip server_ip in
    let valid : ItemsAreValid items = ground arith in
    let size : length (set_request_options ip server_ip options) ≡ options_len =
      omega (arith, length-drop 23 options, full) in
    (
      (get_ip_option-encode items (drop 23 options) opt_requested_ip_addr valid size).0
          ∙ ap (λ b. address_number (some b)) (address_bytes-four ip four),
      (get_ip_option-encode items (drop 23 options) opt_server_id valid size).0
          ∙ ap (λ b. address_number (some b)) (address_bytes-four server_ip server_four),
    )
