-- ===== src/Repository/Refs/Lines.antt =====
-- Bodies made of pkt-lines.
use sekai_master_api.Prelude.{
  ℕ, zero, suc, true, false, ◌+◌, ◌-◌, ◌*◌, ◌/◌, ◌%◌, ◌≤◌, ◌<◌, Option, none, some, List, [], ◌∷◌,
  ◌++◌, All, length, length-append, ltb, leb, ◌==◌, take-length_append, drop-length_append,
  if◌then◌else◌, ◌≡◌, refl, ◌∙◌, ap, inl, inr, arith, Bool-cases,
}
use sekai_master_api.Prelude.Text.{Bytes, codes}
use sekai_master_api.Repository.Refs.{
  hex_value, packet_length, Packet, flush, response_end, delimiter, packet_of, read, Refs,
  take_packet, refs_from, some_refs, parse_upload_pack_refs,
}

-- A digit in base 16.
hex_digit : ℕ → ℕ
hex_digit d = if ltb d 10 then 48 + d else 87 + d

-- The pkt-line of a payload, as the protocol of git defines it: the length of the whole in four
-- digits of base 16, and the payload.
pub pkt_line : Bytes → Bytes
unfolding hex_digit
pkt_line payload =
    let n = length payload + 4 in
    hex_digit (n / 4096)
    ∷ hex_digit (n / 256 % 16)
    ∷ hex_digit (n / 16 % 16)
    ∷ hex_digit (n % 16)
    ∷ payload

hex_value-digit : (d : ℕ) → d < 16 → hex_value (hex_digit d) ≡ some d
unfolding hex_value hex_digit
hex_value-digit d h = elim (Bool-cases (ltb d 10)) [
  | inl e ↦
      let above : leb 48 (48 + d) ≡ true = ground arith in
      let below : leb (48 + d) 57 ≡ true = ground arith in
      let back : 48 + d - 48 ≡ d = omega arith in rw (e, above, below, back) refl
  | inr e ↦
      let high : leb 48 (87 + d) ≡ true = ground arith in
      let letter : leb (87 + d) 57 ≡ false = ground arith in
      let above : leb 97 (87 + d) ≡ true = ground arith in
      let below : leb (87 + d) 102 ≡ true = ground arith in
      let back : 87 + d - 87 ≡ d = omega arith in rw (e, high, letter, above, below, back) refl
]

packet_length-digits :
    (n : ℕ)
    → n < 65536
    → packet_length
        (hex_digit (n / 4096))
        (hex_digit (n / 256 % 16))
        (hex_digit (n / 16 % 16))
        (hex_digit (n % 16))
      ≡ some n
unfolding packet_length
packet_length-digits n h =
    let value : ((n / 4096 * 16 + n / 256 % 16) * 16 + n / 16 % 16) * 16 + n % 16 ≡ n =
      omega arith in
    rw
      (
        hex_value-digit (n / 4096) (omega arith),
        hex_value-digit (n / 256 % 16) (omega arith),
        hex_value-digit (n / 16 % 16) (omega arith),
        hex_value-digit (n % 16) (omega arith),
      )
      (ap some value)

packet_of-payload :
    (payload rest : Bytes)
    → packet_of (payload ++ rest) (some (length payload + 4)) ≡ some (Packet.line payload, rest)
packet_of-payload payload rest =
    let not_0 : length payload + 4 == 0 ≡ false = ground arith in
    let not_1 : length payload + 4 == 1 ≡ false = ground arith in
    let not_2 : length payload + 4 == 2 ≡ false = ground arith in
    let not_3 : length payload + 4 == 3 ≡ false = ground arith in
    let back : length payload + 4 - 4 ≡ length payload = omega arith in
    let whole : ltb (length (payload ++ rest)) (length payload) ≡ false =
      ground (arith, length-append payload rest) in
    rw
      (
        not_0,
        not_1,
        not_2,
        not_3,
        back,
        whole,
        take-length_append payload rest,
        drop-length_append payload rest,
      )
      refl

read-pkt_line :
    (payload rest : Bytes)
    → length payload < 65532
    → read (pkt_line payload ++ rest) ≡ some (Packet.line payload, rest)
unfolding read pkt_line
read-pkt_line payload rest h =
    let size : packet_length (hex_digit ((length payload + 4) / 4096))
          (hex_digit ((length payload + 4) / 256 % 16)) (hex_digit ((length payload + 4) / 16 % 16))
          (hex_digit ((length payload + 4) % 16))
        ≡ some (length payload + 4) =
      packet_length-digits (length payload + 4) (omega arith) in
    ap (packet_of (payload ++ rest)) size ∙ packet_of-payload payload rest

-- A packet in a body; the three without a payload have the lengths 0, 1 and 2.
pub packet_text : Packet → Bytes
unfolding pkt_line
packet_text (Packet.line payload) = pkt_line payload
packet_text flush = codes "0000"
packet_text response_end = codes "0001"
packet_text delimiter = codes "0002"

-- The length of a packet has four digits.
abbrev pub IsShort : Packet → Type 0
IsShort (Packet.line payload) = length payload < 65532
IsShort flush = Unit
IsShort response_end = Unit
IsShort delimiter = Unit

read-packet_text :
    (packet : Packet) (rest : Bytes)
    → IsShort packet
    → read (packet_text packet ++ rest) ≡ some (packet, rest)
unfolding packet_text read packet_length hex_value
read-packet_text (Packet.line payload) rest h = read-pkt_line payload rest h
read-packet_text flush rest h = refl
read-packet_text response_end rest h = refl
read-packet_text delimiter rest h = refl

packet_text-length : (packet : Packet) → 4 ≤ length (packet_text packet)
unfolding packet_text pkt_line
packet_text-length (Packet.line payload) = omega arith
packet_text-length flush = omega arith
packet_text-length response_end = omega arith
packet_text-length delimiter = omega arith

pub body_of : List Packet → Bytes
body_of [] = []
body_of (packet ∷ packets) = packet_text packet ++ body_of packets

-- What the loop makes of the packets of a body, one after the other.
unfoldable pub take_packets : List Packet → Refs → Option Refs
take_packets [] refs = some refs
take_packets (packet ∷ packets) refs = elim (take_packet packet refs) [
  | none ↦ none
  | some more ↦ take_packets packets more
]

behind_packet : ℕ → Bytes → Option Refs → Option Refs
unfolding refs_from
behind_packet fuel rest none = none
behind_packet fuel rest (some more) = refs_from fuel rest more

first_packet :
    (fuel : ℕ) (packet : Packet) (rest : Bytes) (refs : Refs)
    → IsShort packet
    → refs_from (suc fuel) (packet_text packet ++ rest) refs
      ≡ behind_packet fuel rest (take_packet packet refs)
unfolding refs_from behind_packet
first_packet fuel packet rest refs h =
    go (packet_text packet) (packet_text-length packet) (read-packet_text packet rest h)
  where
    cases :
        (taken : Option Refs)
        → elim taken [ none ↦ none | some more ↦ refs_from fuel rest more ]
          ≡ behind_packet fuel rest taken
    cases none = refl
    cases (some more) = refl

    go :
        (text : Bytes)
        → 4 ≤ length text
        → read (text ++ rest) ≡ some (packet, rest)
        → refs_from (suc fuel) (text ++ rest) refs
          ≡ behind_packet fuel rest (take_packet packet refs)
    go [] l e = absurd (omega arith)
    go (c ∷ text) l e = rw (e, refs_from) (cases (take_packet packet refs))

refs_from-body :
    (packets : List Packet) (fuel : ℕ) (refs : Refs)
    → All IsShort packets
    → length (body_of packets) ≤ fuel
    → refs_from fuel (body_of packets) refs ≡ take_packets packets refs
unfolding refs_from take_packets body_of behind_packet
refs_from-body [] fuel refs a h = refl
refs_from-body (packet ∷ packets) zero refs a h = absurd (
    omega
      (arith, h, length-append (packet_text packet) (body_of packets), packet_text-length packet))
refs_from-body (packet ∷ packets) (suc fuel) refs a h =
    let fits : length (body_of packets) ≤ fuel =
      omega (
        arith,
        h,
        length-append (packet_text packet) (body_of packets),
        packet_text-length packet,
      ) in
    first_packet fuel packet (body_of packets) refs a.0
    ∙ cases (λ more. refs_from-body packets fuel more a.1 fits) (take_packet packet refs)
  where
    cases :
        ((more : Refs) → refs_from fuel (body_of packets) more ≡ take_packets packets more)
        → (taken : Option Refs)
        → behind_packet fuel (body_of packets) taken
          ≡ elim taken [ none ↦ none | some more ↦ take_packets packets more ]
    cases next none = refl
    cases next (some more) = next more

-- Of a body made of pkt-lines, flushes, delimiters and ends, the parser takes the packets one by
-- one, in their order: the fuel, the length of the body, is enough. No packet is longer than git
-- allows, which is 65,535 bytes with its length.
pub parse_upload_pack_refs-body :
    (packets : List Packet)
    → All IsShort packets
    → parse_upload_pack_refs (body_of packets) ≡ some_refs (take_packets packets [])
unfolding parse_upload_pack_refs
parse_upload_pack_refs-body packets a =
    ap some_refs (refs_from-body packets (length (body_of packets)) [] a (omega arith))
