-- ===== src/Scanner/Ports.antt =====
-- Ports_Scanner.c, lines 15 to 107: the service tables, the classification of an open port, and
-- the scan of one range by one thread.
pub mod Laws
use antibawirus.Common.{
  ℕ, zero, suc, ◌+◌, ◌-◌, Bool, true, false, String, List, [], ◌∷◌, ◌++◌, Option, none, some, ◌==◌,
  if◌then◌else◌,
}

-- `Service`; `none` is the null pointer that closes a table.
pub record Service : Type 0 where
  pub port : ℕ
  pub service : Option String

abbrev entry : ℕ → String → Service
entry p name = record { port = p; service = some name }

abbrev sentinel : Service
sentinel = record { port = 0; service = none }

abbrev pub common_services : List Service
common_services =
    entry 20 "FTP-DATA"
    ∷ entry 21 "FTP"
    ∷ entry 22 "SSH"
    ∷ entry 23 "TELNET"
    ∷ entry 25 "SMTP"
    ∷ entry 53 "DNS"
    ∷ entry 80 "HTTP"
    ∷ entry 110 "POP3"
    ∷ entry 143 "IMAP"
    ∷ entry 443 "HTTPS"
    ∷ entry 445 "SMB"
    ∷ entry 3306 "MySQL"
    ∷ entry 3389 "RDP"
    ∷ sentinel
    ∷ []

abbrev pub risk_ports : List Service
risk_ports =
    entry 4444 "Metasploit/Reverse Shell"
    ∷ entry 31337 "Backdoor Elite"
    ∷ entry 6667 "IRC (Usado por bots)"
    ∷ entry 8080 "Proxy HTTP"
    ∷ entry 9999 "Servicios no estándar"
    ∷ sentinel
    ∷ []

-- The loop over a table, up to the null service.
search_table : List Service → ℕ → Option String
search_table [] p = none
search_table (s ∷ rest) p = elim s.service [
  | none ↦ none
  | some name ↦ if s.port == p then some name else search_table rest p
]

-- The name, and what is left in `*is_risk`.
unfoldable pub get_service_name : ℕ → String × Bool
unfolding search_table
get_service_name p = elim (search_table common_services p) [
  | some name ↦ (name, false)
  | none ↦ elim (search_table risk_ports p) [
    | some name ↦ (name, true)
    | none ↦ ("Desconocido", false)
  ]
]

unfoldable pub is_common_port : ℕ → Bool
unfolding search_table
is_common_port p = elim (search_table common_services p) [ none ↦ false | some _ ↦ true ]

-- The three lines that `port_scanner` prints.
pub data Line : Type 0 where
  alert_risk : ℕ → String → Line
  alert_nonstandard : ℕ → String → Line
  fine : ℕ → String → Line

unfoldable pub report : ℕ → Line
unfolding get_service_name is_common_port
report p =
    let (service, is_risk) = get_service_name p in
    if is_risk
    then alert_risk p service
    else if is_common_port p
    then fine p service
    else alert_nonstandard p service

-- What the kernel answers at each port: whether `socket` gives a descriptor, and whether `connect`
-- succeeds.
pub record Net : Type 0 where
  pub socket : ℕ → Bool
  pub connect : ℕ → Bool

-- The lines printed for one port.
probe : Net → ℕ → List Line
unfolding report
probe net p = if net.socket p then (if net.connect p then report p ∷ [] else []) else []

-- `n` rounds of the loop from `port`.
unfoldable pub scan_ports : Net → ℕ → ℕ → List Line
unfolding probe
scan_ports net port zero = []
scan_ports net port (suc n) = probe net port ++ scan_ports net (port + 1) n

unfoldable pub port_scanner : Net → ℕ → ℕ → List Line
unfolding scan_ports
port_scanner net start_port end_port = scan_ports net start_port (end_port + 1 - start_port)
