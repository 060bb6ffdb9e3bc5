-- ===== src/Dhcp/Options.antt =====
-- Reading the options: what the readers find is what was encoded.
use experiment.Base.{
  ℕ, zero, suc, ◌<◌, ◌≤◌, ◌≡◌, ◌≢◌, refl, false, inl, inr, Option, none, some, List, [], ◌∷◌, ◌++◌,
  length, take, drop, ltb, ◌==◌, if◌then◌else◌, Bool-cases, append_assoc, length-append, arith, ap,
  ◌*◌, ◌/◌, ◌%◌, ◌^◌, ◌+◌, All, subst, sym, ◌∙◌, take-append-drop, length-take, length-drop,
}
use experiment.Dhcp.{
  opt_pad, opt_end, options_len, find_option, ip_value, get_ip_option, dns_value, get_dns_servers,
  opt_dns, servers,
}

-- A byte of padding, or an option with its code and data.
pub data Item : Type 0 where
  pad : Item
  option : (code : ℕ) (bytes : List ℕ) → Item

unfoldable pub encode_item : Item → List ℕ
encode_item pad = opt_pad ∷ []
encode_item (option code bytes) = code ∷ length bytes ∷ bytes

unfoldable pub encode : List Item → List ℕ
unfolding encode_item
encode [] = []
encode (i ∷ items) = encode_item i ++ encode items

-- The code of an option is not that of padding or of the end.
unfoldable pub ItemsAreValid : List Item → Type 0
ItemsAreValid [] = Unit
ItemsAreValid (pad ∷ items) = ItemsAreValid items
ItemsAreValid (option code bytes ∷ items) =
    (code ≢ opt_pad) × (code ≢ opt_end) × ItemsAreValid items

-- The data of the first option with a code.
unfoldable pub first_data : (code : ℕ) → List Item → Option (List ℕ)
first_data code [] = none
first_data code (pad ∷ items) = first_data code items
first_data code (option c bytes ∷ items) = if c == code then some bytes else first_data code items

module _ {ℓ} {A : Type ℓ} where
  pub take_append : (xs ys : List A) → take (length xs) (xs ++ ys) ≡ xs
  take_append [] ys = refl
  take_append (x ∷ xs) ys = ap (λ r. x ∷ r) (take_append xs ys)

  pub drop_append : (xs ys : List A) → drop (length xs) (xs ++ ys) ≡ ys
  drop_append [] ys = refl
  drop_append (x ∷ xs) ys = drop_append xs ys

-- One round of the loop: padding is skipped, an option is taken or skipped.
pub find_option_pad :
    (fuel code : ℕ) (xs : List ℕ)
    → find_option (suc fuel) code (opt_pad ∷ xs) ≡ find_option fuel code xs
unfolding find_option
find_option_pad zero code [] = refl
find_option_pad (suc fuel) code [] = refl
find_option_pad fuel code (x ∷ xs) = refl

pub find_option_option :
    (fuel code c : ℕ) (bytes xs : List ℕ)
    → c ≢ opt_pad
    → c ≢ opt_end
    → find_option (suc fuel) code (c ∷ length bytes ∷ bytes ++ xs)
      ≡ (if c == code then some bytes else find_option fuel code xs)
unfolding find_option
find_option_option fuel code c bytes xs no_pad no_end =
    let enough : ltb (length (bytes ++ xs)) (length bytes) ≡ false =
      ground (arith, length-append bytes xs) in
    let at_end : (c == opt_end) ≡ false = ground (arith, no_end) in
    let at_pad : (c == opt_pad) ≡ false = ground (arith, no_pad) in
    elim (Bool-cases (c == code)) [
      | inl t ↦ rw (find_option, at_end, at_pad, enough, t, take_append bytes xs) refl
      | inr t ↦ rw (find_option, at_end, at_pad, enough, t, drop_append bytes xs) refl
    ]

-- With one round of fuel more than there are items, the loop finds the first option with the code.
pub find_option-encode :
    (fuel code : ℕ) (items : List Item) (rest : List ℕ)
    → ItemsAreValid items
    → length items < fuel
    → find_option fuel code (encode items ++ opt_end ∷ rest) ≡ first_data code items
unfolding find_option encode encode_item first_data ItemsAreValid
find_option-encode zero code items rest valid h = ground (arith, h)
find_option-encode (suc fuel) code [] [] valid h = refl
find_option-encode (suc fuel) code [] (r ∷ rest) valid h = refl
find_option-encode (suc fuel) code (pad ∷ items) rest valid h =
    rw (find_option_pad fuel code (encode items ++ opt_end ∷ rest))
      (find_option-encode fuel code items rest valid (omega (arith, h)))
find_option-encode (suc fuel) code (option c bytes ∷ items) rest valid h =
    let round =
      find_option_option fuel code c bytes (encode items ++ opt_end ∷ rest) valid.0 valid.1 in
    let after = find_option-encode fuel code items rest valid.2 (omega (arith, h)) in
    rw (append_assoc bytes (encode items) (opt_end ∷ rest), round, after) refl

pub length-encode : (items : List Item) → length items ≤ length (encode items)
unfolding encode encode_item
length-encode [] = omega arith
length-encode (pad ∷ items) = omega (arith, length-encode items)
length-encode (option c bytes ∷ items) =
    omega (arith, length-encode items, length-append bytes (encode items))

-- The number whose digits to the base 256 are the four bytes of an address, and 0 for another number
-- of bytes or without an option.
pub address_number : Option (List ℕ) → ℕ
address_number none = 0
address_number (some []) = 0
address_number (some (a ∷ [])) = 0
address_number (some (a ∷ b ∷ [])) = 0
address_number (some (a ∷ b ∷ c ∷ [])) = 0
address_number (some (a ∷ b ∷ c ∷ d ∷ [])) = (((a * 256 + b) * 256 + c) * 256 + d) % 2 ^ 32
address_number (some (a ∷ b ∷ c ∷ d ∷ e ∷ rest)) = 0

ip_value-address_number : (bytes : Option (List ℕ)) → ip_value bytes ≡ address_number bytes
unfolding ip_value address_number
ip_value-address_number none = refl
ip_value-address_number (some []) = refl
ip_value-address_number (some (a ∷ [])) = refl
ip_value-address_number (some (a ∷ b ∷ [])) = refl
ip_value-address_number (some (a ∷ b ∷ c ∷ [])) = refl
ip_value-address_number (some (a ∷ b ∷ c ∷ d ∷ [])) = omega arith
ip_value-address_number (some (a ∷ b ∷ c ∷ d ∷ e ∷ rest)) =
    let more : (length (a ∷ b ∷ c ∷ d ∷ e ∷ rest) == 4) ≡ false = ground arith in rw more refl

abbrev pub joined : List (List ℕ) → List ℕ
joined [] = []
joined (s ∷ ss) = s ++ joined ss

-- What the DNS servers of an option are: groups of four bytes that make up its data; none if there is no
-- option, or if its length is no multiple of four.
pub AreServers : Option (List ℕ) → Option (List (List ℕ)) → Type 0
AreServers none ss = ss ≡ none
AreServers (some bytes) none = length bytes % 4 ≢ 0
AreServers (some bytes) (some ss) = (joined ss ≡ bytes) × All (λ s. length s ≡ 4) ss

servers-joined :
    (n : ℕ) (bytes : List ℕ)
    → length bytes ≡ n * 4
    → (joined (servers n bytes) ≡ bytes) × All (λ s. length s ≡ 4) (servers n bytes)
unfolding servers
servers-joined zero [] h = (refl, tt)
servers-joined zero (b ∷ bytes) h = absurd (omega arith)
servers-joined (suc n) bytes h =
    let rest = servers-joined n (drop 4 bytes) (omega (arith, h, length-drop 4 bytes)) in
    (
      ap (λ r. take 4 bytes ++ r) rest.0 ∙ take-append-drop 4 bytes,
      (omega (arith, h, length-take 4 bytes), rest.1),
    )

dns_value-AreServers : (bytes : Option (List ℕ)) → AreServers bytes (dns_value bytes)
unfolding dns_value AreServers
dns_value-AreServers none = refl
dns_value-AreServers (some bytes) = elim (Bool-cases (length bytes % 4 == 0)) [
  | inl fours ↦
      let whole : length bytes ≡ length bytes / 4 * 4 = ground (arith, fours) in
      rw fours (servers-joined (length bytes / 4) bytes whole)
  | inr odd ↦ rw odd (ground (arith, odd))
]

-- On 128 bytes that start with encoded items and the end mark, whatever stands behind it, each reader
-- takes the first option with its code: the four bytes of an address as the number that has them as
-- its digits to the base 256, most significant first, or 0 if there is no such option or it has
-- another length; the DNS servers as the groups of four bytes that the data consists of, or -1 if
-- there is no such option or its length is no multiple of four.
pub get_ip_option-encode :
    (items : List Item) (rest : List ℕ) (code : ℕ)
    → let options = encode items ++ opt_end ∷ rest in
      ItemsAreValid items
      → length options ≡ options_len
      → (get_ip_option options code ≡ address_number (first_data code items))
        × AreServers (first_data opt_dns items) (get_dns_servers options)
unfolding get_ip_option get_dns_servers
get_ip_option-encode items rest code valid full =
    let fuel : length items < options_len =
      omega (arith, length-encode items, length-append (encode items) (opt_end ∷ rest), full) in
    (
      ap ip_value (find_option-encode options_len code items rest valid fuel)
          ∙ ip_value-address_number (first_data code items),
      subst (λ b. AreServers (first_data opt_dns items) (dns_value b))
          (sym (find_option-encode options_len opt_dns items rest valid fuel))
          (dns_value-AreServers (first_data opt_dns items)),
    )
