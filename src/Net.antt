-- ===== src/Net.antt =====
-- The address functions of kernel/lib/inet.c and the checksum of kernel/net/helpers.c. Shifts and
-- masks are written as products, quotients and remainders; a union of disjoint fields is their sum.
pub mod Order
pub mod Address
pub mod Checksum
mod Tests
use experiment.Base.{
  ℕ, zero, suc, ◌+◌, ◌-◌, ◌*◌, ◌/◌, ◌%◌, ◌^◌, Bool, true, false, ◌&&◌, ◌||◌, not, Option, none,
  some, List, [], ◌∷◌, ◌++◌, ltb, leb, ◌==◌, if◌then◌else◌,
}
use experiment.Str.{Chars}

pub ntohl : ℕ → ℕ
ntohl n = n % 256 * 2 ^ 24 + n / 256 % 256 * 2 ^ 16 + n / 2 ^ 16 % 256 * 256 + n / 2 ^ 24 % 256

pub htonl : ℕ → ℕ
htonl n = n % 256 * 2 ^ 24 + n / 256 % 256 * 2 ^ 16 + n / 2 ^ 16 % 256 * 256 + n / 2 ^ 24 % 256

pub ntohs : ℕ → ℕ
ntohs n = n % 256 * 256 + n / 256 % 256

pub htons : ℕ → ℕ
htons n = n % 256 * 256 + n / 256 % 256

abbrev pub point : ℕ
point = b'.'

abbrev pub is_digit : ℕ → Bool
is_digit c = leb b'0' c && leb c b'9'

-- The inner loop of inet_addr: `n` is an int, kept modulo 2^32, and what follows the end of the octet
-- is left; `none` is the return of INVALID.
pub octet_loop : (i n : ℕ) → Chars → Option (ℕ × Chars)
octet_loop i n [] = if i == 3 then some (n, []) else none
octet_loop i n (c ∷ s) =
    let more = octet_loop i ((n * 10 + (c - b'0')) % 2 ^ 32) s in
    if is_digit c then more else if (ltb i 3 && c == point) || i == 3 then some (n, s) else none

-- n >= 256, for an int
abbrev pub too_big : ℕ → Bool
too_big n = leb 256 n && ltb n (2 ^ 31)

-- for (i = ...; i < 4; i++) with `rounds` rounds left
pub addr_loop : (rounds i v : ℕ) → Chars → ℕ
unfolding octet_loop
addr_loop zero i v s = v
addr_loop (suc rounds) i v s = elim (octet_loop i 0 s) [
  | none ↦ 0
  | some r ↦ if too_big r.0 then 0 else addr_loop rounds (i + 1) ((v * 256 + r.0) % 2 ^ 32) r.1
]

pub inet_addr : Chars → ℕ
unfolding addr_loop
inet_addr s = addr_loop 4 0 0 s

pub octet_chars : ℕ → Chars
octet_chars o =
    if leb 100 o
    then (b'0' + o / 100) ∷ (b'0' + o % 100 / 10) ∷ (b'0' + o % 100 % 10) ∷ []
    else if leb 10 o
    then (b'0' + o / 10) ∷ (b'0' + o % 10) ∷ []
    else (b'0' + o) ∷ []

-- The string that inet_ntoa_r leaves in the caller's buffer.
pub inet_ntoa_r : ℕ → Chars
unfolding ntohl octet_chars
inet_ntoa_r addr =
    let ip = ntohl addr in
    octet_chars (ip / 2 ^ 24 % 256)
    ++ (point
        ∷ (octet_chars (ip / 2 ^ 16 % 256)
            ++ (point ∷ (octet_chars (ip / 256 % 256) ++ (point ∷ octet_chars (ip % 256))))))

-- The loop of checksum over the words, low byte first, and the odd byte behind them; the sum is a
-- uint32_t.
pub sum_words : List ℕ → (sum : ℕ) → ℕ
sum_words [] sum = sum
sum_words (x ∷ []) sum = (sum + x) % 2 ^ 32
sum_words (x ∷ y ∷ rest) sum = sum_words rest ((sum + (x + y * 256)) % 2 ^ 32)

-- while (sum >> 16) sum = (sum & 0xffff) + (sum >> 16)
pub fold_sum : (fuel sum : ℕ) → ℕ
fold_sum zero sum = sum
fold_sum (suc fuel) sum =
    let again = fold_sum fuel (sum % 2 ^ 16 + sum / 2 ^ 16) in
    if sum / 2 ^ 16 == 0 then sum else again

-- The bytes of the caller's memory, `count` of them. Two rounds of folding are enough for 32 bits; the
-- third sees the sum below 2^16.
pub checksum : List ℕ → (start_sum : ℕ) → ℕ
unfolding sum_words fold_sum
checksum bytes start_sum = 2 ^ 16 - 1 - fold_sum 3 (sum_words bytes start_sum) % 2 ^ 16
