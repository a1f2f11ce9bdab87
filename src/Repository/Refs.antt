-- ===== src/Repository/Refs.antt =====
-- The git smart HTTP part of internal/repository/master_data_github_repository.go: pkt-lines, the
-- refs that a repository advertises, and the one that is chosen.
pub mod Lines
mod Examples
use sekai_master_api.Prelude.{
  ℕ, zero, suc, Bool, true, false, ◌+◌, ◌-◌, ◌*◌, ◌&&◌, ◌||◌, not, Option, none, some, List, [],
  ◌∷◌, ◌++◌, length, ltb, leb, ◌==◌, take, drop, if◌then◌else◌,
}
use sekai_master_api.Prelude.Split.{cut_before, cut_after}
use sekai_master_api.Prelude.Text.{Bytes, codes, same, trim_space}

-- A digit of `strconv.ParseUint(s, 16, 16)`.
unfoldable pub hex_value : ℕ → Option ℕ
hex_value c =
    if leb 48 c && leb c 57
    then some (c - 48)
    else if leb 97 c && leb c 102
    then some (c - 87)
    else if leb 65 c && leb c 70
    then some (c - 55)
    else none

abbrev pub hex_join : Option ℕ → Option ℕ → Option ℕ
hex_join (some high) (some low) = some (high * 16 + low)
hex_join none _ = none
hex_join (some high) none = none

-- The length in front of a packet.
unfoldable pub packet_length : ℕ → ℕ → ℕ → ℕ → Option ℕ
unfolding hex_value
packet_length a b c d =
    hex_join (hex_join (hex_join (hex_value a) (hex_value b)) (hex_value c)) (hex_value d)

-- `gitPktLineKind` with the payload.
pub data Packet : Type 0 where
  line : Bytes → Packet
  flush response_end delimiter : Packet

abbrev pub payload_of : ℕ → Bytes → Option (Packet × Bytes)
payload_of size rest =
    if ltb (length rest) size then none else some (Packet.line (take size rest), drop size rest)

abbrev pub packet_of : Bytes → Option ℕ → Option (Packet × Bytes)
packet_of rest none = none
packet_of rest (some n) =
    if n == 0
    then some (flush, rest)
    else if n == 1
    then some (response_end, rest)
    else if n == 2
    then some (delimiter, rest)
    else if n == 3
    then none
    else payload_of (n - 4) rest

-- `read`: the packet at the begin of a body and what is behind it; `none` is an error.
unfoldable pub read : Bytes → Option (Packet × Bytes)
unfolding packet_length
read (a ∷ b ∷ c ∷ d ∷ rest) = packet_of rest (packet_length a b c d)
read _ = none

-- `strings.TrimSuffix(s, "\n")`.
unfoldable pub trim_newline : Bytes → Bytes
trim_newline [] = []
trim_newline (c ∷ s) =
    let rest = trim_newline s in if c == 10 && length s == 0 then [] else c ∷ rest

unfoldable pub starts_with : Bytes → Bytes → Bool
starts_with [] s = true
starts_with (c ∷ prefix) [] = false
starts_with (c ∷ prefix) (d ∷ s) = c == d && starts_with prefix s

abbrev or_whole : Bytes → Option Bytes → Bytes
or_whole name none = name
or_whole name (some before) = before

abbrev unless_blank : Bytes → Bytes → Option (Bytes × Bytes)
unless_blank sha name = if length sha == 0 || length name == 0 then none else some (sha, name)

abbrev ref_of : Option Bytes → Option Bytes → Option (Bytes × Bytes)
ref_of none _ = none
ref_of (some sha) none = none
ref_of (some sha) (some name) =
    if length sha == 0
    then none
    else unless_blank (trim_space sha) (trim_space (or_whole name (cut_before 0 name)))

-- `parseGitRefAdvertisementPacket`: the hash and the name.
unfoldable pub parse_ref_packet : Bytes → Option (Bytes × Bytes)
unfolding cut_before cut_after trim_space
parse_ref_packet packet = ref_of (cut_before 32 packet) (cut_after 32 packet)

-- `refs`: the entry written last is the first.
abbrev pub Refs : Type 0
Refs = List (Bytes × Bytes)

abbrev pub put_ref : Refs → Option (Bytes × Bytes) → Option Refs
put_ref refs none = none
put_ref refs (some (sha, name)) = some ((name, sha) ∷ refs)

-- The body of the loop for a packet.
unfoldable pub take_packet : Packet → Refs → Option Refs
unfolding parse_ref_packet trim_newline starts_with
take_packet flush refs = some refs
take_packet response_end refs = some refs
take_packet delimiter refs = some refs
take_packet (Packet.line payload) refs =
    let packet = trim_newline payload in
    if starts_with (codes "# service=") packet || same packet (codes "version 2")
    then some refs
    else put_ref refs (parse_ref_packet packet)

-- The loop of `parseGitUploadPackRefs` on fuel; `none` is an error or the end of the fuel.
unfoldable pub refs_from : ℕ → Bytes → Refs → Option Refs
unfolding read take_packet
refs_from fuel [] refs = some refs
refs_from zero (c ∷ body) refs = none
refs_from (suc fuel) (c ∷ body) refs = elim (read (c ∷ body)) [
  | none ↦ none
  | some found ↦ elim (take_packet found.0 refs) [
    | none ↦ none
    | some more ↦ refs_from fuel found.1 more
  ]
]

abbrev pub some_refs : Option Refs → Option Refs
some_refs none = none
some_refs (some []) = none
some_refs (some (ref ∷ refs)) = some (ref ∷ refs)

-- `parseGitUploadPackRefs`; `none` is an error.
unfoldable pub parse_upload_pack_refs : Bytes → Option Refs
unfolding refs_from
parse_upload_pack_refs body = some_refs (refs_from (length body) body [])

find_ref : Bytes → Refs → Option Bytes
find_ref name [] = none
find_ref name ((other, sha) ∷ refs) =
    let rest = find_ref name refs in if same other name then some sha else rest

-- The candidates without repetitions: a name differs from the longer ones.
candidates_of : Bytes → List Bytes
candidates_of requested =
    if length requested == 0 || same requested (codes "HEAD")
    then codes "HEAD" ∷ []
    else if starts_with (codes "refs/") requested
    then requested ∷ []
    else requested ∷ (codes "refs/heads/" ++ requested) ∷ (codes "refs/tags/" ++ requested) ∷ []

first_ref : List Bytes → Refs → Option Bytes
unfolding find_ref trim_space
first_ref [] refs = none
first_ref (name ∷ names) refs = elim (find_ref name refs) [
  | none ↦ first_ref names refs
  | some sha ↦ some (trim_space sha)
]

-- `selectGitUploadPackRef`; `none` is an error.
unfoldable pub select_upload_pack_ref : Refs → Bytes → Option Bytes
unfolding candidates_of first_ref trim_space
select_upload_pack_ref refs requested = first_ref (candidates_of (trim_space requested)) refs
