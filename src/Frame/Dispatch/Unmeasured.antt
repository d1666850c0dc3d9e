-- ===== src/Frame/Dispatch/Unmeasured.antt =====
-- What the loop over a payload does with a frame that the walk cannot measure.
use quic_vibe.Common.{
  ℕ, zero, suc, ◌≡◌, refl, Bool, true, false, none, some, List, arith, if◌then◌else◌, length,
}
use quic_vibe.Varint.{decode}
use quic_vibe.Frame.Kinds.{Kind, classify}
use quic_vibe.Frame.Walk.{single_byte, has_body, decoded_len, frame_len, measure, next}
use quic_vibe.Frame.Dispatch.{DispatchState, dispatch_loop, dispatch_all}

-- The kinds that the walk measures.
abbrev pub is_measured : Kind → Bool
is_measured Kind.padding = true
is_measured Kind.ping = true
is_measured Kind.handshake_done = true
is_measured Kind.ack = true
is_measured Kind.crypto = true
is_measured Kind.stream = true
is_measured Kind.connection_close = true
is_measured _ = false

no_length :
    (k : Kind) (buf : List ℕ)
    → is_measured k ≡ false
    → (if single_byte k then 1 else decoded_len k buf) ≡ 0
unfolding single_byte decoded_len has_body
no_length Kind.padding buf h = absurd (cc)
no_length Kind.ping buf h = absurd (cc)
no_length Kind.handshake_done buf h = absurd (cc)
no_length Kind.ack buf h = absurd (cc)
no_length Kind.crypto buf h = absurd (cc)
no_length Kind.stream buf h = absurd (cc)
no_length Kind.connection_close buf h = absurd (cc)
no_length _ buf h = refl

measure-unmeasured :
    (it : List ℕ) (type used : ℕ)
    → decode it ≡ some (type, used)
    → is_measured (classify type) ≡ false
    → (measure it).1 ≡ 0
unfolding frame_len measure
measure-unmeasured it type used d h =
    rw (measure, d) (ground (arith, no_length (classify type) it h))

next-unmeasured :
    (it : List ℕ) (type used : ℕ)
    → decode it ≡ some (type, used)
    → is_measured (classify type) ≡ false
    → next it ≡ none
unfolding next
next-unmeasured it type used d h = ground (arith, measure-unmeasured it type used d h)

loop-unmeasured :
    (reasm_cap fuel : ℕ) (st : DispatchState) (it : List ℕ)
    → next it ≡ none
    → dispatch_loop reasm_cap fuel st it ≡ (st, true)
unfolding dispatch_loop
loop-unmeasured reasm_cap zero st it h = refl
loop-unmeasured reasm_cap (suc fuel) st it h = rw (dispatch_loop, h) refl

-- A payload whose next frame is of a kind that the walk cannot measure (a MAX_DATA frame is one) is
-- left there: neither that frame nor any behind it changes the state, and the result is success.
pub unmeasured_ignored :
    (reasm_cap : ℕ) (st : DispatchState) (it : List ℕ) (type used : ℕ)
    → decode it ≡ some (type, used)
    → is_measured (classify type) ≡ false
    → dispatch_all reasm_cap st it ≡ (st, true)
unfolding dispatch_all
unmeasured_ignored reasm_cap st it type used d h =
    loop-unmeasured reasm_cap (length it) st it (next-unmeasured it type used d h)
