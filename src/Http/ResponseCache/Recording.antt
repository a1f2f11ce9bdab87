-- ===== src/Http/ResponseCache/Recording.antt =====
-- What the recorder holds behind the writes of a body.
use sekai_master_api.Prelude.{
  ℕ, Bool, true, false, ◌+◌, ◌≤◌, List, [], ◌∷◌, ◌++◌, append_assoc, append-nil, length,
  length-append, ltb, if◌then◌else◌, ◌≡◌, refl, sym, ◌∙◌, ap, inl, inr, arith, Bool-cases,
}
use sekai_master_api.Prelude.Text.{Bytes}
use sekai_master_api.Http.ResponseCache.{Recorder, capture, capture_all, joined}

abbrev recorder_of : Bytes → ℕ → Bool → Recorder
recorder_of body limit overflow = record { body = body; limit = limit; overflow = overflow }

overflowed :
    (writes : List Bytes) (body : Bytes) (limit : ℕ)
    → capture_all writes (recorder_of body limit true) ≡ recorder_of body limit true
unfolding capture_all capture
overflowed [] body limit = refl
overflowed (chunk ∷ writes) body limit = overflowed writes body limit

-- A whole body, or an overflow, whatever the writes are that it comes in.
abbrev pub recorded : Bytes → ℕ → Recorder
recorded body limit =
    if ltb limit (length body) then recorder_of [] limit true else recorder_of body limit false

capture_all-from :
    (writes : List Bytes) (body : Bytes) (limit : ℕ)
    → length body ≤ limit
    → capture_all writes (recorder_of body limit false) ≡ recorded (body ++ joined writes) limit
unfolding capture_all capture joined
capture_all-from [] body limit h =
    let fits : ltb limit (length (body ++ [])) ≡ false = ground (arith, length-append body []) in
    rw fits (ap (λ b. recorder_of b limit false) (sym (append-nil body)))
capture_all-from (chunk ∷ writes) body limit h =
    elim (Bool-cases (ltb limit (length body + length chunk))) [
      | inl e ↦
          let large : ltb limit (length (body ++ (chunk ++ joined writes))) ≡ true = ground (
            arith,
            length-append body (chunk ++ joined writes),
            length-append chunk (joined writes),
            e,
          ) in
          rw (e, large) (overflowed writes [] limit)
      | inr e ↦ rw e (
          capture_all-from writes (body ++ chunk) limit
            (ground (arith, length-append body chunk, e))
          ∙ ap (λ b. recorded b limit) (append_assoc body chunk (joined writes)))
    ]

-- The recorder holds the whole body when it is within the limit and nothing, but its overflow, when
-- it is larger, however the handler splits it into writes.
pub capture_all-recorded :
    (writes : List Bytes) (limit : ℕ)
    → capture_all writes (record { body = []; limit = limit; overflow = false })
      ≡ recorded (joined writes) limit
capture_all-recorded writes limit = capture_all-from writes [] limit (omega arith)
