-- ===== src/Dns.antt =====
-- internal/dnsfallback/resolver.go: the list of servers, the failover of one exchange, and the framing of
-- DNS messages. A byte is a number below 256. The network is an argument: what each connection answers.
mod Servers
mod Frames
mod Failover
mod Examples
use tiller_router.Prelude.{
  ℕ, zero, suc, ◌+◌, ◌-◌, ◌*◌, ◌/◌, ◌%◌, String, str_eq, Bool, true, false, not, ◌&&◌, ◌||◌, Option,
  none, some, List, [], ◌∷◌, ◌++◌, ltb, leb, ◌==◌, if◌then◌else◌, length,
}

abbrev pub Bytes : Type 0
Bytes = List ℕ

-- What the package uses of strings and net/netip: TrimSpace, EqualFold with "off", Split at commas, lines
-- and Fields; and the text of the address and port of a value, where it is an address (port 53), or the
-- text and the port where it is an address with a port.
pub record DnsText : Type 0 where
  pub trim_space : String → String
  pub is_off : String → Bool
  pub split_commas : String → List String
  pub split_lines : String → List String
  pub fields : String → List String
  pub address_at_53 : String → Option String
  pub address_port : String → Option (String × ℕ)

abbrev pub default_servers : String
default_servers = "1.1.1.1,1.0.0.1,8.8.8.8,8.8.4.4"

unfoldable pub has_server : List String → String → Bool
has_server [] server = false
has_server (existing ∷ rest) server = str_eq existing server || has_server rest server

unfoldable pub append_unique : List String → String → List String
unfolding has_server
append_unique servers server =
    if has_server servers server then servers else servers ++ (server ∷ [])

module _ (text : DnsText) where
  open text use {trim_space, is_off, split_commas, split_lines, fields, address_at_53, address_port}

  -- An address with a port, which must not be 0.
  abbrev pub nonzero_port : Option (String × ℕ) → Option String
  nonzero_port none = none
  nonzero_port (some (address, port)) = if port == 0 then none else some address

  -- The address of one value of the list; `none` is the error.
  unfoldable pub server_address : String → Option String
  server_address value = elim (address_at_53 value) [
    | some address ↦ some address
    | none ↦ nonzero_port (address_port value)
  ]

  unfoldable pub parse_from : List String → List String → Option (List String)
  parse_from servers [] = some servers
  parse_from servers (value ∷ values) = elim (server_address (trim_space value)) [
    | none ↦ none
    | some address ↦ parse_from (append_unique servers address) values
  ]

  unfoldable pub parse_servers : String → Option (List String)
  parse_servers raw =
      let chosen = if str_eq (trim_space raw) "" then default_servers else trim_space raw in
      let parsed = parse_from [] (split_commas chosen) in
      if is_off (trim_space raw) then some [] else parsed

  -- The address of a nameserver line of /etc/resolv.conf.
  abbrev pub nameserver : List String → Option String
  nameserver [] = none
  nameserver (name ∷ []) = none
  nameserver (name ∷ value ∷ rest) = if str_eq name "nameserver" then address_at_53 value else none

  unfoldable pub add_nameservers : List String → List String → List String
  add_nameservers servers [] = servers
  add_nameservers servers (line ∷ lines) = elim (nameserver (fields line)) [
    | none ↦ add_nameservers servers lines
    | some address ↦ add_nameservers (append_unique servers address) lines
  ]

  -- `file` is none where /etc/resolv.conf cannot be read.
  unfoldable pub system_servers : String → Option String → List String
  system_servers primary none = primary ∷ []
  system_servers primary (some file) = add_nameservers (primary ∷ []) (split_lines file)

-- The servers that Dial tries: the supplied ones, then the fallbacks.
unfoldable pub add_fallbacks : List String → List String → List String
add_fallbacks servers [] = servers
add_fallbacks servers (fallback ∷ fallbacks) =
    add_fallbacks (append_unique servers fallback) fallbacks

-- b[i]; `none` is the panic out of range.
unfoldable pub byte_at : Bytes → ℕ → Option ℕ
byte_at [] i = none
byte_at (b ∷ bytes) zero = some b
byte_at (b ∷ bytes) (suc i) = byte_at bytes i

-- Bit k of a byte, 2^k given.
abbrev pub bit : ℕ → ℕ → Bool
bit power b = (b / power) % 2 == 1

-- `none` is the panic of an index out of range.
abbrev pub same_byte : Option ℕ → Option ℕ → Option Bool
same_byte none y = none
same_byte (some a) none = none
same_byte (some a) (some b) = some (a == b)

abbrev pub has_bit : ℕ → Option ℕ → Option Bool
has_bit power none = none
has_bit power (some b) = some (bit power b)

-- Go's `&&`: the right side is not looked at where the left one is false.
abbrev pub and_then : Option Bool → Option Bool → Option Bool
and_then none right = none
and_then (some true) right = right
and_then (some false) right = some false

unfoldable pub matching_response : Bytes → Bytes → Option Bool
unfolding byte_at
matching_response query response = and_then (some (leb 12 (length response))) (
    and_then (has_bit 128 (byte_at response 2)) (
      and_then (same_byte (byte_at response 0) (byte_at query 0))
        (same_byte (byte_at response 1) (byte_at query 1))))

-- What one connection gives: no connection or a failed write, what is read of a TCP frame (`none` is an
-- error), or the datagrams that arrive before the deadline.
pub data Wire : Type 0 where
  unreachable : Wire
  tcp_frame : Option Bytes → Wire
  udp_datagrams : List Bytes → Wire

-- What `roundTrip` gives: a response, an error, or the panic of an index out of range.
pub data Received : Type 0 where
  received : Bytes → Received
  errored index_panic : Received

abbrev pub taken_or : Received → Bytes → Option Bool → Received
taken_or otherwise response none = index_panic
taken_or otherwise response (some true) = received response
taken_or otherwise response (some false) = otherwise

-- The read loop: unrelated datagrams are skipped until the deadline.
unfoldable pub first_matching : Bytes → List Bytes → Received
unfolding matching_response
first_matching query [] = errored
first_matching query (datagram ∷ rest) =
    taken_or (first_matching query rest) datagram (matching_response query datagram)

unfoldable pub answer_of : Bytes → Wire → Received
unfolding first_matching matching_response
answer_of query unreachable = errored
answer_of query (tcp_frame none) = errored
answer_of query (tcp_frame (some response)) =
    taken_or errored response (matching_response query response)
answer_of query (udp_datagrams datagrams) = first_matching query datagrams

unfoldable pub round_trip : Bytes → Wire → Received
unfolding answer_of
round_trip query wire = if ltb (length query) 12 then errored else answer_of query wire

-- response[3]&0x0f is 0 or 3, or response[2]&0x02 is set; `none` is the panic out of range.
unfoldable pub authoritative_at : Option ℕ → Option ℕ → Option Bool
authoritative_at none rcode_byte = none
authoritative_at (some flags) none = none
authoritative_at (some flags) (some rcode_byte) =
    some (rcode_byte % 16 == 0 || rcode_byte % 16 == 3 || bit 2 flags)

unfoldable pub authoritative : Bytes → Option Bool
unfolding byte_at authoritative_at
authoritative response = authoritative_at (byte_at response 2) (byte_at response 3)

pub data Exchange : Type 0 where
  answered : Bytes → Exchange
  context_ended all_failed no_servers panicked : Exchange

-- After the loop.
abbrev pub exhausted : Bool → Option Bytes → Bool → Exchange
exhausted ended last_response failed = if ended then context_ended else elim last_response [
  | some response ↦ answered response
  | none ↦ if failed then all_failed else no_servers
]

abbrev pub after_response : Exchange → Bytes → Option Bool → Exchange
after_response after_answer response none = panicked
after_response after_answer response (some true) = answered response
after_response after_answer response (some false) = after_answer

-- The end of one turn of the loop: how it goes on after an error, and after an answer.
abbrev pub after_attempt : Exchange → Exchange → Received → Exchange
after_attempt after_error after_answer errored = after_error
after_attempt after_error after_answer index_panic = panicked
after_attempt after_error after_answer (received response) =
    after_response after_answer response (authoritative response)

abbrev pub response_of : Received → Option Bytes
response_of (received response) = some response
response_of errored = none
response_of index_panic = none

-- min(timeout, remaining / servers left), where there is a deadline
unfoldable pub attempt_budget : ℕ → Option ℕ → ℕ → ℕ
attempt_budget timeout none left = timeout
attempt_budget timeout (some remaining) left =
    if ltb (remaining / left) timeout then remaining / left else timeout

-- `ended left` is ctx.Err and `remaining left` time.Until(deadline), with so many servers left;
-- `wires server budget` is what the server gives within its budget.
module _ (ended : ℕ → Bool) (remaining : ℕ → Option ℕ) (wires : String → ℕ → Wire) (query : Bytes)
    (timeout : ℕ) where
  abbrev pub attempt : String → ℕ → Received
  attempt server left =
      round_trip query (wires server (attempt_budget timeout (remaining left) left))

  unfoldable pub exchange_from : List String → Option Bytes → Bool → Exchange
  exchange_from [] last_response failed = exhausted (ended 0) last_response failed
  exchange_from (server ∷ servers) last_response failed =
      let response = attempt server (suc (length servers)) in
      let after_error = exchange_from servers last_response true in
      let after_answer = exchange_from servers (response_of response) failed in
      if ended (suc (length servers))
      then context_ended
      else after_attempt after_error after_answer response

  unfoldable pub exchange : List String → Exchange
  exchange servers = exchange_from servers none false

-- io.ReadFull of n bytes: they and the rest, or an error.
unfoldable pub read_full : ℕ → Bytes → Option (Bytes × Bytes)
read_full zero input = some ([], input)
read_full (suc n) [] = none
read_full (suc n) (b ∷ input) = elim (read_full n input) [
  | none ↦ none
  | some (bytes, rest) ↦ some (b ∷ bytes, rest)
]

abbrev pub read_sized : Bytes → Option (Bytes × Bytes)
read_sized [] = none
read_sized (high ∷ []) = none
read_sized (high ∷ low ∷ input) = read_full (high * 256 + low) input

unfoldable pub read_frame : Bytes → Option (Bytes × Bytes)
read_frame input = read_sized input

-- The frame that is written: uint16 of the length, high byte first, then the message.
unfoldable pub write_frame : Bytes → Bytes
write_frame message = (length message % 65536) / 256 ∷ (length message % 65536) % 256 ∷ message
