-- ===== src/Http/ResponseCache.antt =====
-- internal/transport/http/responsecache: entry.go, and handle, fill and the recorder of
-- middleware.go, for the requests of one cache key, one behind the other.
pub mod Entries
pub mod Recording
pub mod Transparent
mod Examples
use sekai_master_api.Prelude.{
  ℕ, Bool, true, false, ◌+◌, ◌-◌, ◌*◌, ◌/◌, ◌%◌, ◌^◌, ◌||◌, not, Option, none, some, List, [], ◌∷◌,
  ◌++◌, length, ltb, leb, ◌==◌, take, drop, if◌then◌else◌,
}
use sekai_master_api.Prelude.Text.{Bytes}
use sekai_master_api.Http.Spoilers.{Hint}

-- The encoder and the decoder of package zstd.
pub record Zstd : Type 0 where
  pub compress : Bytes → Bytes
  pub decompress : Bytes → Option Bytes

-- `entry`.
pub record Entry : Type 0 where
  pub status : ℕ
  pub content_type : Bytes
  pub body : Bytes

module _ (zstd : Zstd) where
  abbrev pub is_large : Bytes → Bool
  is_large body = leb 1024 (length body)

  abbrev pub packed : Bytes → Bytes
  packed body = if is_large body then zstd.compress body else body

  -- The bytes of `binary.BigEndian.AppendUint16(nil, uint16(n))`.
  abbrev pub high_byte : ℕ → ℕ
  high_byte n = n % 65536 / 256

  abbrev pub low_byte : ℕ → ℕ
  low_byte n = n % 65536 % 256

  abbrev pub short_type : Bytes → Bytes
  short_type content_type =
      if ltb 65535 (length content_type) then take 65535 content_type else content_type

  -- `encodeEntry`.
  unfoldable pub encode_entry : Entry → Bytes
  encode_entry value =
      let content_type = short_type value.content_type in
      1
      ∷ (if is_large value.body then 1 else 0)
      ∷ high_byte value.status
      ∷ low_byte value.status
      ∷ high_byte (length content_type)
      ∷ low_byte (length content_type)
      ∷ (content_type ++ packed value.body)

  abbrev pub unpacked : ℕ → Bytes → Option Bytes
  unpacked flags body = if flags % 2 == 1 then zstd.decompress body else some body

  abbrev pub with_body : ℕ → Bytes → Option Bytes → Option Entry
  with_body status content_type none = none
  with_body status content_type (some body) =
      some (record { status = status; content_type = content_type; body = body })

  -- `decodeEntry`; `none` is its error.
  unfoldable pub decode_entry : Bytes → Option Entry
  decode_entry (version ∷ flags ∷ s1 ∷ s0 ∷ t1 ∷ t0 ∷ rest) =
      let type_length = t1 * 256 + t0 in
      if not (version == 1)
      then none
      else if ltb (length rest) type_length
      then none
      else with_body (s1 * 256 + s0) (take type_length rest)
          (unpacked flags (drop type_length rest))
  decode_entry _ = none

-- `recorder`, without the writer that it passes everything on to.
pub record Recorder : Type 0 where
  pub body : Bytes
  pub limit : ℕ
  pub overflow : Bool

-- `capture`, of a write.
unfoldable pub capture : Bytes → Recorder → Recorder
capture chunk recorder =
    if recorder.overflow
    then recorder
    else if ltb recorder.limit (length recorder.body + length chunk)
    then record recorder { overflow = true; body = [] }
    else record recorder { body = recorder.body ++ chunk }

-- What a handler answers to a request: the writes of its body, in order, and its hint.
pub record Answer : Type 0 where
  pub status : ℕ
  pub content_type : Bytes
  pub writes : List Bytes
  pub hint : Hint

unfoldable pub capture_all : List Bytes → Recorder → Recorder
unfolding capture
capture_all [] recorder = recorder
capture_all (chunk ∷ writes) recorder = capture_all writes (capture chunk recorder)

unfoldable pub joined : List Bytes → Bytes
joined [] = []
joined (chunk ∷ writes) = chunk ++ joined writes

-- The response that the client gets of an answer.
unfoldable pub response_of : Answer → Entry
unfolding joined
response_of answer = record {
  status = answer.status;
  content_type = answer.content_type;
  body = joined answer.writes;
}

-- A store of the interface `Store`, behind which Redis keeps what is set: the state, what it gives
-- at a moment, and what is set at a moment, for so many milliseconds.
pub record Store (S : Type 0) : Type 0 where
  pub get : ℕ → Bytes → S → Option Bytes
  pub set : ℕ → Bytes → Bytes → ℕ → S → S

-- `Options` with a key: its milliseconds and bytes.
pub record Options : Type 0 where
  pub ttl : ℕ
  pub max_entry_bytes : ℕ
  pub key : Bytes

-- How long an answer given at `now` may be stored; 0 if it changed already.
unfoldable pub time_left : ℕ → Hint → ℕ → ℕ
time_left now none ttl = ttl
time_left now (some until) ttl = if ltb (until - now) ttl then until - now else ttl

module _ {S : Type 0} (zstd : Zstd) (store : Store S) (options : Options) where
  -- What `fill` does with what it recorded, for a time to live.
  abbrev pub stored : Answer → Recorder → ℕ → ℕ → S → S
  stored answer recorder ttl now state =
      if not (answer.status == 200) || recorder.overflow
      then state
      else if ltb ttl 1000
      then state
      else store.set now options.key
          (encode_entry zstd
            (record { status = 200; content_type = answer.content_type; body = recorder.body }))
          ttl state

  -- `fill` of an answer, the store behind it.
  unfoldable pub fill : Answer → ℕ → S → S
  unfolding capture_all time_left
  fill answer now state =
      stored answer
        (capture_all answer.writes
          (record { body = []; limit = options.max_entry_bytes; overflow = false }))
        (time_left now answer.hint options.ttl) now state

  abbrev pub found_or : Option Entry → Entry × S → S → Entry × S
  found_or none filled state = filled
  found_or (some value) filled state = (value, state)

  abbrev pub decoded : Option Bytes → Option Entry
  decoded none = none
  decoded (some raw) = decode_entry zstd raw

  -- `handle` of a request at `now` that the cache allows, for a region with a revision: the response
  -- and the store behind it. The handler's answer is a function of the moment.
  unfoldable pub handle : (ℕ → Answer) → ℕ → S → Entry × S
  unfolding fill response_of
  handle handler now state =
      found_or (decoded (store.get now options.key state))
        (response_of (handler now), fill (handler now) now state) state

  -- Requests at the moments given, and their responses.
  unfoldable pub handle_all : (ℕ → Answer) → List ℕ → S → List Entry
  unfolding handle
  handle_all handler [] state = []
  handle_all handler (now ∷ moments) state =
      let result = handle handler now state in result.0 ∷ handle_all handler moments result.1
