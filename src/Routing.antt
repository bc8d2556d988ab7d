-- ===== src/Routing.antt =====
-- common/ChatServerSelector.cpp and StatusServiceImpl::getChatServer of
-- servers/status/rpc/StatusServiceImpl.cpp: the choice of a chat server for a login.
pub mod Selection
pub mod Served
pub mod Candidates
use distributed_chat_system.Prelude.{
  ℕ, zero, suc, ◌+◌, ◌-◌, ◌*◌, ◌^◌, ◌%◌, min, ℤ, pos, negsuc, String, Bool, true, false, not, ◌||◌,
  ◌&&◌, Option, none, some, List, [], ◌∷◌, ◌==◌, leb, ltb, length, get_elem?, if◌then◌else◌, lookup,
  string_eq,
}

pub record ServerLoad : Type 0 where
  pub name : String
  pub connection_count : ℕ

-- std::numeric_limits<int>::max()
abbrev pub int_max : ℕ
int_max = 2147483647

unfoldable pub minimum : ℕ → List ServerLoad → ℕ
minimum acc [] = acc
minimum acc (s ∷ ss) = minimum (min acc s.connection_count) ss

-- The names of the servers that carry this load, in the order of the list.
unfoldable pub candidates : ℕ → List ServerLoad → List String
candidates least [] = []
candidates least (s ∷ ss) =
    if s.connection_count == least then s.name ∷ candidates least ss else candidates least ss

-- std::sort, for an order on names.
module _ (before : String → String → Bool) where
  unfoldable pub insert_sorted : String → List String → List String
  insert_sorted n [] = n ∷ []
  insert_sorted n (m ∷ ms) = if before m n then m ∷ insert_sorted n ms else n ∷ m ∷ ms

  unfoldable pub sort : List String → List String
  unfolding insert_sorted
  sort [] = []
  sort (n ∷ ns) = insert_sorted n (sort ns)

  unfoldable pub select_least_loaded : List ServerLoad → ℕ → Option String
  unfolding minimum candidates sort
  select_least_loaded [] cursor = none
  select_least_loaded (s ∷ ss) cursor =
      let names = sort (candidates (minimum int_max (s ∷ ss)) (s ∷ ss)) in
      get_elem? names (cursor % length names)

-- std::from_chars into an int: an optional minus, then digits; the rest of the text is handed back.
-- `none` stands for an error code: no digit, or a value out of range.
abbrev pub is_digit : ℕ → Bool
is_digit c = leb b'0' c && leb c b'9'

unfoldable pub parse_digits : ℕ → List ℕ → ℕ × List ℕ
parse_digits acc [] = (acc, [])
parse_digits acc (c ∷ cs) = elim (is_digit c) [
  | true ↦ parse_digits (acc * 10 + (c - b'0')) cs
  | false ↦ (acc, c ∷ cs)
]

-- The value that is read of a whole text, if it is an int that is not negative.
unfoldable pub whole_count : ℕ × List ℕ → Option ℕ
whole_count (n, []) = if ltb int_max n then none else some n
whole_count (n, c ∷ cs) = none

abbrev pub starts_with_digit : List ℕ → Bool
starts_with_digit [] = false
starts_with_digit (c ∷ cs) = is_digit c

-- A minus is accepted only before a zero: any other negative count is skipped by the caller.
unfoldable pub parse_count : List ℕ → Option ℕ
unfolding whole_count parse_digits
parse_count [] = none
parse_count (c ∷ cs) =
    if c == b'-'
    then (if starts_with_digit cs
        then elim (whole_count (parse_digits 0 cs)) [
          | none ↦ none
          | some n ↦ if n == 0 then some 0 else none
        ]
        else none)
    else (if is_digit c then whole_count (parse_digits 0 (c ∷ cs)) else none)

pub record ChatServer : Type 0 where
  pub host : String
  pub port : String
  pub name : String
  pub transport : String
  pub tls_server_name : String
  pub con_count : ℕ

-- The health keys of Redis, by server name: what PublishHealth wrote and has not expired.
abbrev pub Health : Type 0
Health = String → Option (List ℕ)

-- What the loop reads for one server: its count, unless the loop goes on to the next server.
unfoldable pub healthy_count : Health → String → Option ℕ
unfolding parse_count
healthy_count health name = elim (health name) [ none ↦ none | some text ↦ parse_count text ]

-- The loop over the configured servers.
unfoldable pub healthy_servers : Health → List (String × ChatServer) → List ServerLoad
unfolding healthy_count
healthy_servers health [] = []
healthy_servers health ((key, server) ∷ servers) = elim (healthy_count health key) [
  | none ↦ healthy_servers health servers
  | some n ↦ record { name = server.name; connection_count = n } ∷ healthy_servers health servers
]

-- std::find_if over the healthy servers, by name.
unfoldable pub load_of : String → List ServerLoad → Option ℕ
load_of name [] = none
load_of name (s ∷ ss) =
    if string_eq.beq s.name name then some s.connection_count else load_of name ss

-- What getChatServer returns, or the exception of `at` for a name that is not configured. The last
-- two stand for what the source does not meet: its iterator is dereferenced without a test.
pub data Choice : Type 0 where
  no_server : Choice
  chosen : ChatServer → Choice
  out_of_range : Choice
  no_load : Choice

unfoldable pub with_load : List ServerLoad → List (String × ChatServer) → String → Choice
unfolding load_of
with_load healthy servers name = elim (lookup name servers) [
  | none ↦ out_of_range
  | some server ↦ elim (load_of name healthy) [
    | none ↦ no_load
    | some n ↦ chosen (record server { con_count = n })
  ]
]

-- getChatServer, with the cursor before and after; the cursor is a 64-bit size_t.
unfoldable pub get_chat_server :
    (String → String → Bool) → Health → List (String × ChatServer) → ℕ → Choice × ℕ
unfolding healthy_servers select_least_loaded with_load
get_chat_server before health [] cursor = (no_server, cursor)
get_chat_server before health (entry ∷ entries) cursor =
    let healthy = healthy_servers health (entry ∷ entries) in
    elim (select_least_loaded before healthy cursor) [
      | none ↦ (no_server, cursor)
      | some name ↦ (with_load healthy (entry ∷ entries) name, (cursor + 1) % 2 ^ 64)
    ]
