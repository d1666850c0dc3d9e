-- ===== src/Conn/Path.antt =====
-- Path validation and its limits (src/transport/conn/cid/path/path.c, antiamp.c). The paths are a
-- list, and the flags are Booleans; a path is only named by an index that is in range.
use quic_vibe.Common.{
  ℕ, zero, suc, ◌+◌, ◌*◌, ◌^◌, ◌≤◌, ◌<◌, ◌≡◌, refl, ◌↔◌, inl, inr, Bool, true, false, not, ◌&&◌,
  ◌||◌, List, [], ◌∷◌, arith, leb, ◌==◌, if◌then◌else◌, Bool-cases, to_bit, get_or, set, replicate,
}
use quic_vibe.Common.Word.{◌+ᵤ◌, ◌-ᵤ◌, ◌*ᵤ◌}

-- quic_path_state
pub record PathState : Type 0 where
  pub challenge : ℕ
  pub bytes_sent : ℕ
  pub bytes_received : ℕ
  pub validated : Bool
  pub confirmed : Bool

-- quic_path
pub record Paths : Type 0 where
  pub paths : List PathState
  pub active : ℕ

abbrev pub path_count : ℕ
path_count = 2

abbrev pub fresh_path : PathState
fresh_path = record {
  challenge = 0;
  bytes_sent = 0;
  bytes_received = 0;
  validated = false;
  confirmed = false;
}

unfoldable pub path_init : Paths
path_init = record { paths = replicate path_count fresh_path; active = 0 }

abbrev pub path_at : Paths → ℕ → PathState
path_at p path = get_or p.paths path fresh_path

unfoldable pub send_challenge : Paths → ℕ → ℕ → Paths
send_challenge p path value = record p {
  paths = set p.paths path (record (path_at p path) { challenge = value });
}

unfoldable pub response_matches : PathState → ℕ → Bool
response_matches s value = not (s.challenge == 0) && (s.challenge == value)

unfoldable pub recv_response : Paths → ℕ → ℕ → Paths × Bool
recv_response p path value = if not (response_matches (path_at p path) value) then (p, false) else (
  record p { paths = set p.paths path (record (path_at p path) { validated = true }) },
  true,
)

unfoldable pub can_send : PathState → ℕ → Bool
can_send s n = if s.validated then true else leb (s.bytes_sent +ᵤ n) (3 *ᵤ s.bytes_received)

unfoldable pub clear_confirmed : List PathState → List PathState
clear_confirmed [] = []
clear_confirmed (s ∷ ps) = (record s { confirmed = false }) ∷ clear_confirmed ps

unfoldable pub confirm : Paths → ℕ → Paths × Bool
confirm p path =
    if not (path_at p path).validated
    then (p, false)
    else let cleared = clear_confirmed p.paths in
      (
        record {
          paths = set cleared path (record (get_or cleared path fresh_path) { confirmed = true });
          active = path;
        },
        true,
      )

unfoldable pub antiamp_budget : ℕ → ℕ → ℕ
antiamp_budget received sent = let cap = 3 *ᵤ received in if leb cap sent then 0 else cap -ᵤ sent

unfoldable pub antiamp_can_send : ℕ → ℕ → ℕ → Bool
unfolding antiamp_budget
antiamp_can_send received sent want = leb want (antiamp_budget received sent)

-- The two limits agree on a path that has not sent too much: an endpoint may send to an unvalidated
-- path exactly what keeps it at three times the bytes received, while nothing wraps.
pub limits_agree :
    (s : PathState) (n : ℕ)
    → s.validated ≡ false
    → s.bytes_sent ≤ 3 * s.bytes_received
    → s.bytes_received < 2 ^ 62
    → n < 2 ^ 62
    → (can_send s n ≡ antiamp_can_send s.bytes_received s.bytes_sent n)
      × ((can_send s n ≡ true) ↔ (s.bytes_sent + n ≤ 3 * s.bytes_received))
unfolding can_send antiamp_can_send
limits_agree s n v h r m = (ground arith, ((λ e. ground arith), (λ e. ground arith)))

-- What happens to the paths.
pub data Call : Type 0 where
  challenge : (path value : ℕ) → Call
  response : (path value : ℕ) → Call
  migrate : ℕ → Call

abbrev pub handle : Paths → Call → Paths
handle p (challenge path value) = send_challenge p path value
handle p (response path value) = (recv_response p path value).0
handle p (migrate path) = (confirm p path).0

unfoldable pub run : Paths → List Call → Paths
run p [] = p
run p (c ∷ cs) = run (handle p c) cs

unfoldable pub confirmed_count : List PathState → ℕ
confirmed_count [] = 0
confirmed_count (s ∷ ps) = to_bit s.confirmed + confirmed_count ps

-- Every confirmed path is validated.
unfoldable pub all_sound : List PathState → Bool
all_sound [] = true
all_sound (s ∷ ps) = (not s.confirmed || s.validated) && all_sound ps

clear_lem :
    (ps : List PathState)
    → (confirmed_count (clear_confirmed ps) ≡ 0) × (all_sound (clear_confirmed ps) ≡ true)
unfolding confirmed_count all_sound clear_confirmed
clear_lem [] = (refl, refl)
clear_lem (s ∷ ps) = ground (arith, clear_lem ps)

-- An update of one path that keeps its confirmation and does not take its validation away.
same_flags_lem :
    (ps : List PathState) (i : ℕ) (s : PathState)
    → s.confirmed ≡ (get_or ps i fresh_path).confirmed
    → ((get_or ps i fresh_path).validated ≡ true → s.validated ≡ true)
    → (confirmed_count (set ps i s) ≡ confirmed_count ps)
      × (all_sound ps ≡ true → all_sound (set ps i s) ≡ true)
unfolding confirmed_count all_sound
same_flags_lem [] i s c v = (refl, λ h. h)
same_flags_lem (x ∷ ps) zero s c v = (ground arith, λ h. ground arith)
same_flags_lem (x ∷ ps) (suc i) s c v =
    let (a, b) = same_flags_lem ps i s c v in (omega (arith, a), λ h. ground (arith, b))

confirm_lem :
    (ps : List PathState) (i : ℕ)
    → (get_or ps i fresh_path).validated ≡ true
    → let cleared = clear_confirmed ps in
      let after = set cleared i (record (get_or cleared i fresh_path) { confirmed = true }) in
      (confirmed_count after ≤ 1) × (all_sound after ≡ true)
unfolding confirmed_count all_sound clear_confirmed
confirm_lem [] i v = (omega arith, refl)
confirm_lem (s ∷ ps) zero v = (ground (arith, clear_lem ps), ground (arith, clear_lem ps))
confirm_lem (s ∷ ps) (suc i) v = ground (arith, confirm_lem ps i v)

-- At most one path is confirmed, and every confirmed path is validated.
pub record IsSound (p : Paths) : Type 0 where
  pub at_most_one : confirmed_count p.paths ≤ 1
  pub validated_first : all_sound p.paths ≡ true

handle-IsSound : (p : Paths) (c : Call) → IsSound p → IsSound (handle p c)
unfolding send_challenge recv_response confirm
handle-IsSound p (challenge path value) v =
    let (a, b) =
      same_flags_lem p.paths path (record (path_at p path) { challenge = value }) refl (λ h. h) in
    record { at_most_one = omega (arith, a, v.at_most_one); validated_first = b v.validated_first }
handle-IsSound p (response path value) v =
    elim (Bool-cases (response_matches (path_at p path) value)) [
      | inr other ↦ rw (handle, recv_response, other) v
      | inl match ↦
          let (a, b) =
            same_flags_lem p.paths path (record (path_at p path) { validated = true }) refl
              (λ h. refl) in
          rw (handle, recv_response, match)
            (record {
              at_most_one = omega (arith, a, v.at_most_one);
              validated_first = b v.validated_first;
            })
    ]
handle-IsSound p (migrate path) v = elim (Bool-cases (path_at p path).validated) [
  | inr refused ↦ rw (handle, confirm, refused) v
  | inl valid ↦
      let (a, b) = confirm_lem p.paths path valid in
      rw (handle, confirm, valid) (record { at_most_one = a; validated_first = b })
]

run-IsSound : (cs : List Call) (p : Paths) → IsSound p → IsSound (run p cs)
unfolding run
run-IsSound [] p v = v
run-IsSound (c ∷ cs) p v = run-IsSound cs (handle p c) (handle-IsSound p c v)

-- From the start, over any challenges, responses and migrations in any order, at most one path is
-- confirmed and it is validated.
pub confirmed_is_validated : (cs : List Call) → IsSound (run path_init cs)
unfolding path_init
confirmed_is_validated cs =
    run-IsSound cs (record { paths = replicate path_count fresh_path; active = 0 })
      (record {
        at_most_one = unfold confirmed_count in omega arith;
        validated_first = unfold all_sound in refl;
      })
