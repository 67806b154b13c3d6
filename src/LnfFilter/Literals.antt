-- ===== src/LnfFilter/Literals.antt =====
-- src/literals.c: names of protocols and ports with their numbers, without the terminators.
use Prim.Native.String.{String}
use libnf.Base.{ℕ, List, [], ◌∷◌}
use libnf.Base.Bytes.{codes}

-- `nff_literal_s`
pub record Literal : Type 0 where
  pub name : List ℕ
  pub value : ℕ

abbrev literal : String → ℕ → Literal
literal name value = record { name = codes name; value = value }

abbrev pub nff_proto_id_map : List Literal
nff_proto_id_map =
    literal "ICMP" 1
    ∷ literal "IGMP" 2
    ∷ literal "IPv4" 4
    ∷ literal "TCP" 6
    ∷ literal "UDP" 17
    ∷ literal "RDP" 27
    ∷ literal "IPv6" 41
    ∷ literal "RSVP" 46
    ∷ literal "IPv6-ICMP" 58
    ∷ literal "ICMP6" 58
    ∷ literal "EIGRP" 88
    ∷ literal "ETHERIP" 97
    ∷ literal "IPX-in-IP" 111
    ∷ literal "L2TP" 115
    ∷ literal "ISIS-over-IPv4" 124
    ∷ literal "SPS" 130
    ∷ literal "SCTP" 132
    ∷ literal "UDPLite" 136
    ∷ []

abbrev pub nff_port_map : List Literal
nff_port_map =
    literal "tcpmux" 1
    ∷ literal "echo" 7
    ∷ literal "discard" 9
    ∷ literal "systat" 11
    ∷ literal "daytime" 13
    ∷ literal "msp" 18
    ∷ literal "ftp-data" 20
    ∷ literal "ftp" 21
    ∷ literal "ssh" 22
    ∷ literal "telnet" 23
    ∷ literal "smtp" 25
    ∷ literal "time" 37
    ∷ literal "rap" 38
    ∷ literal "rlp" 39
    ∷ literal "graphics" 41
    ∷ literal "name" 42
    ∷ literal "nameserver" 42
    ∷ literal "nicname" 43
    ∷ literal "http" 80
    ∷ literal "https" 443
    ∷ []
