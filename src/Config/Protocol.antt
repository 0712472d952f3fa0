-- ===== src/Config/Protocol.antt =====
-- pkg/config/protocol.go. A Protocol is a uint8.
use proxygw.Prelude.{
  Bool, Option, Text, arith, bool_eq, codes, if◌then◌else◌, nat_eq, none, not, some, text_beq_iff,
  text_eq, ℕ, ◌==◌, ◌↔◌, ◌≡◌, ◌⊎◌,
}

abbrev pub Protocol : Type 0
Protocol = ℕ

abbrev pub tcp : Protocol
tcp = 6

abbrev pub udp : Protocol
udp = 17

unfoldable pub to_string : Protocol → Text
to_string p = if p == tcp then codes "tcp" else if p == udp then codes "udp" else codes "invalid"

unfoldable pub is_valid : Protocol → Bool
is_valid p = not (to_string p == codes "invalid")

pub parse : Text → Option Protocol
parse s = if s == codes "tcp" then some tcp else if s == codes "udp" then some udp else none

pub is_valid_iff : (p : Protocol) → (is_valid p ≡ Bool.true) ↔ ((p ≡ tcp) ⊎ (p ≡ udp))
unfolding is_valid to_string
is_valid_iff p = ground arith

-- A text parses to a protocol exactly when the protocol is valid and prints that text.
pub parse-to_string :
    (p : Protocol) (s : Text) → (parse s ≡ some p) ↔ ((is_valid p ≡ Bool.true) × (to_string p ≡ s))
unfolding is_valid to_string parse
parse-to_string p s = ground (
  arith,
  text_beq_iff s (codes "tcp"),
  text_beq_iff s (codes "udp"),
  text_beq_iff (codes "tcp") s,
  text_beq_iff (codes "udp") s,
)
