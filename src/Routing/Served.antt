-- ===== src/Routing/Served.antt =====
-- StatusServiceImpl::getChatServer: when a configured server is healthy, one is chosen.
use distributed_chat_system.Prelude.{
  ℕ, zero, suc, ◌≤◌, ◌≡◌, inl, inr, refl, ap, sym, subst, ◌∙◌, String, Bool, false, none, some,
  List, [], ◌∷◌, get_elem?, All, arith, lookup, string_eq, Bool-cases, Option-cases,
}
use distributed_chat_system.Routing.{
  ServerLoad, ChatServer, Health, chosen, whole_count, parse_count, parse_digits, healthy_servers,
  healthy_count, load_of, with_load, get_chat_server, select_least_loaded, int_max,
}
use distributed_chat_system.Routing.Candidates.{InRange, Has-cons, some-inj}
use distributed_chat_system.Routing.Selection.{IsLeastLoaded, select_least_loaded-IsLeast}

-- Every server is stored under its own name, as the constructor of StatusServiceImpl does.
abbrev pub IsConfigured : List (String × ChatServer) → Type 0
IsConfigured = All (λ entry. entry.0 ≡ entry.1.name)

whole_count_le : (p : ℕ × List ℕ) (n : ℕ) → whole_count p ≡ some n → n ≤ int_max
unfolding whole_count
whole_count_le (m, []) n e = ground arith
whole_count_le (m, c ∷ cs) n e = ground arith

parse_count_le : (t : List ℕ) (n : ℕ) → parse_count t ≡ some n → n ≤ int_max
unfolding parse_count
parse_count_le [] n e = ground arith
parse_count_le (c ∷ cs) n e = ground (arith, whole_count_le (parse_digits 0 (c ∷ cs)) n)

healthy_count_le :
    (health : Health) (name : String) (n : ℕ) → healthy_count health name ≡ some n → n ≤ int_max
unfolding healthy_count
healthy_count_le health name n e = elim (Option-cases (health name)) [
  | inl h ↦ ground (arith, h)
  | inr (t, h) ↦ parse_count_le t n (sym (rw (h, healthy_count) refl) ∙ e)
]

healthy_skipped :
    (health : Health) (key : String) (server : ChatServer) (servers : List (String × ChatServer))
    → healthy_count health key ≡ none
    → healthy_servers health ((key, server) ∷ servers) ≡ healthy_servers health servers
unfolding healthy_servers
healthy_skipped health key server servers e = rw (e, healthy_servers) refl

healthy_listed :
    (health : Health) (key : String) (server : ChatServer) (servers : List (String × ChatServer))
    (n : ℕ)
    → healthy_count health key ≡ some n
    → healthy_servers health ((key, server) ∷ servers)
      ≡ record { name = server.name; connection_count = n } ∷ healthy_servers health servers
unfolding healthy_servers
healthy_listed health key server servers n e = rw (e, healthy_servers) refl

healthy-InRange :
    (health : Health) (servers : List (String × ChatServer))
    → InRange (healthy_servers health servers)
unfolding healthy_servers
healthy-InRange health [] = tt
healthy-InRange health ((key, server) ∷ servers) = elim (Option-cases (healthy_count health key)) [
  | inl e ↦
      subst InRange (sym (healthy_skipped health key server servers e))
        (healthy-InRange health servers)
  | inr (n, e) ↦
      subst InRange (sym (healthy_listed health key server servers n e))
        (healthy_count_le health key n e, healthy-InRange health servers)
]

lookup_here :
    (name key : String) (server : ChatServer) (servers : List (String × ChatServer))
    → key ≡ name
    → lookup name ((key, server) ∷ servers) ≡ some server
unfolding lookup
lookup_here name key server servers e = rw ((string_eq.beq_iff key name).1 e, lookup) refl

lookup_there :
    (name key : String) (server : ChatServer) (servers : List (String × ChatServer))
    → string_eq.beq key name ≡ false
    → lookup name ((key, server) ∷ servers) ≡ lookup name servers
unfolding lookup
lookup_there name key server servers e = rw (e, lookup) refl

-- The name is configured, for a server of that name.
abbrev IsKnown : List (String × ChatServer) → String → Type 0
IsKnown servers name =
    (server : ChatServer) × (lookup name servers ≡ some server) × (server.name ≡ name)

IsKnown-there :
    (name key : String) (server : ChatServer) (servers : List (String × ChatServer))
    → key ≡ server.name
    → IsKnown servers name
    → IsKnown ((key, server) ∷ servers) name
IsKnown-there name key server servers stored (found, e, named) =
    elim (Bool-cases (string_eq.beq key name)) [
      | inl h ↦ (
        server,
        lookup_here name key server servers ((string_eq.beq_iff key name).0 h),
        sym stored ∙ (string_eq.beq_iff key name).0 h,
      )
      | inr h ↦ (found, lookup_there name key server servers h ∙ e, named)
    ]

-- The name of a healthy server is configured.
healthy-IsKnown :
    (health : Health) (servers : List (String × ChatServer))
    → IsConfigured servers
    → (t : ServerLoad) (i : ℕ) → get_elem? (healthy_servers health servers) i ≡ some t
    → IsKnown servers t.name
unfolding healthy_servers
healthy-IsKnown health [] configured t i e = ground arith
healthy-IsKnown health ((key, server) ∷ servers) configured t i e =
    elim (Option-cases (healthy_count health key)) [
      | inl h ↦ IsKnown-there t.name key server servers configured.0 (
          healthy-IsKnown health servers configured.1 t i
            (subst (λ ss. get_elem? ss i ≡ some t) (healthy_skipped health key server servers h) e))
      | inr (n, h) ↦
          elim (Has-cons (record { name = server.name; connection_count = n })
            (healthy_servers health servers) t
            (
              i,
              subst (λ ss. get_elem? ss i ≡ some t) (healthy_listed health key server servers n h)
                  e,
            )) [
              | inl here ↦ (
                server,
                lookup_here t.name key server servers (configured.0 ∙ ap (λ v. v.name) here),
                ap (λ v. v.name) here,
              )
              | inr (j, rest) ↦
                  IsKnown-there t.name key server servers configured.0
                    (healthy-IsKnown health servers configured.1 t j rest)
            ]
    ]

load_skip :
    (ss : List ServerLoad) (s : ServerLoad) (name : String)
    → ((n : ℕ) × (load_of name ss ≡ some n))
    → (n : ℕ) × (load_of name (s ∷ ss) ≡ some n)
unfolding load_of
load_skip ss s name (n, e) = elim (Bool-cases (string_eq.beq s.name name)) [
  | inl h ↦ (s.connection_count, rw h refl)
  | inr h ↦ (n, rw h e)
]

load_of-listed :
    (ss : List ServerLoad) (t : ServerLoad) (i : ℕ)
    → get_elem? ss i ≡ some t
    → (n : ℕ) × (load_of t.name ss ≡ some n)
unfolding load_of
load_of-listed [] t i e = ground arith
load_of-listed (s ∷ ss) t zero e = (
  s.connection_count,
  rw ((string_eq.beq_iff s.name t.name).1 (ap (λ v. v.name) (some-inj e))) refl,
)
load_of-listed (s ∷ ss) t (suc i) e = load_skip ss s t.name (load_of-listed ss t i e)

with_load-is :
    (healthy : List ServerLoad) (servers : List (String × ChatServer)) (name : String)
    (server : ChatServer) (n : ℕ)
    → lookup name servers ≡ some server
    → load_of name healthy ≡ some n
    → with_load healthy servers name ≡ chosen (record server { con_count = n })
unfolding with_load
with_load-is healthy servers name server n e h = rw (e, h, with_load) refl

get_chat_server-is :
    (before : String → String → Bool) (health : Health) (servers : List (String × ChatServer))
    (cursor : ℕ) (name : String)
    → select_least_loaded before (healthy_servers health servers) cursor ≡ some name
    → (get_chat_server before health servers cursor).0
      ≡ with_load (healthy_servers health servers) servers name
unfolding get_chat_server healthy_servers select_least_loaded
get_chat_server-is before health [] cursor name e = ground arith
get_chat_server-is before health (entry ∷ entries) cursor name e = rw (e, get_chat_server) refl

-- A server with the address of a configured one, and the connection count that was read for it.
pub record IsServed (healthy : List ServerLoad) (servers : List (String × ChatServer))
    (server : ChatServer) : Type 0 where
  pub entry : ChatServer
  pub configured : lookup server.name servers ≡ some entry
  pub host : server.host ≡ entry.host
  pub port : server.port ≡ entry.port
  pub transport : server.transport ≡ entry.transport
  pub tls_server_name : server.tls_server_name ≡ entry.tls_server_name
  pub load : load_of server.name healthy ≡ some server.con_count
  pub least : IsLeastLoaded healthy server.name

-- When the servers are stored under their names and one of them is healthy, getChatServer returns a
-- server: the configured one of its name, with its host, port, transport and TLS name and with the
-- connection count that was read for it, and no healthy server's count is below that of its name.
pub get_chat_server-IsServed :
    (before : String → String → Bool) (health : Health) (servers : List (String × ChatServer))
    (cursor : ℕ)
    → IsConfigured servers
    → (s : ServerLoad) (ss : List ServerLoad) → healthy_servers health servers ≡ s ∷ ss
    → (server : ChatServer) × ((get_chat_server before health servers cursor).0 ≡ chosen server)
      × IsServed (healthy_servers health servers) servers server
get_chat_server-IsServed before health servers cursor configured s ss e =
    let (name, selected, least) =
      select_least_loaded-IsLeast before s ss cursor
        (subst InRange e (healthy-InRange health servers)) in
    let listed = subst (λ v. get_elem? v least.index ≡ some least.server) (sym e) least.listed in
    let (server, known, named) =
      healthy-IsKnown health servers configured least.server least.index listed in
    let (n, load) =
      load_of-listed (healthy_servers health servers) least.server least.index listed in
    let same_name : name ≡ server.name = sym (named ∙ least.named) in
    let found = subst (λ v. lookup v servers ≡ some server) least.named known in
    let read = subst (λ v. load_of v (healthy_servers health servers) ≡ some n) least.named load in
    (
      record server { con_count = n },
      get_chat_server-is before health servers cursor name
            (subst (λ v. select_least_loaded before v cursor ≡ some name) (sym e) selected)
          ∙ with_load-is (healthy_servers health servers) servers name server n found read,
      record {
        entry = server;
        configured = subst (λ v. lookup v servers ≡ some server) same_name found;
        host = refl;
        port = refl;
        transport = refl;
        tls_server_name = refl;
        load = subst (λ v. load_of v (healthy_servers health servers) ≡ some n) same_name read;
        least =
            subst (λ v. IsLeastLoaded v server.name) (sym e)
              (subst (IsLeastLoaded (s ∷ ss)) same_name least);
      },
    )
