-- ===== src/Stream/Reassembly/Buffer.antt =====
-- The buffer holds bytes of the stream at their offsets, and the watermark is the first gap.
use quic_vibe.Common.{
  ℕ, zero, suc, ◌+◌, ◌≤◌, ◌<◌, ◌≡◌, refl, sym, ap₂, ◌∙◌, ◌⊎◌, inl, inr, Bool, true, false, ◌&&◌,
  List, [], ◌∷◌, arith, ltb, Bool-cases, length, get_or, set, length-set, get_or-set_self,
  get_or-set_ne,
}
use native.Mathlib.Decide.{ℕ_discrete}
use quic_vibe.Stream.Reassembly.{Reasm, insert_loop, copy_out, deliver_loop}

-- Every offset below the watermark is there.
abbrev pub Full : List Bool → ℕ → Type 0
Full have d = (j : ℕ) → j < d → get_or have j false ≡ true

module _ (stream : ℕ → ℕ) where
  -- The bytes are those of the stream from `offset` on.
  abbrev pub IsPart : ℕ → List ℕ → Type 0
  IsPart offset [] = Unit
  IsPart offset (b ∷ bs) = (b ≡ stream offset) × IsPart (offset + 1) bs

  -- The bytes of the stream from `i` on.
  abbrev pub segment : ℕ → ℕ → List ℕ
  segment i zero = []
  segment i (suc n) = stream i ∷ segment (i + 1) n

  module _ (cap : ℕ) where
    pub record Holds (buf : List ℕ) (have : List Bool) : Type 0 where
      pub buf_size : length buf ≡ cap
      pub have_size : length have ≡ cap
      pub right : (i : ℕ) → get_or have i false ≡ true → get_or buf i 0 ≡ stream i

    store-Holds :
        (buf : List ℕ) (have : List Bool) (i : ℕ)
        → i < cap
        → Holds buf have
        → Holds (set buf i (stream i)) (set have i true)
    store-Holds buf have i lt h = record {
      buf_size = length-set buf i (stream i) ∙ h.buf_size;
      have_size = length-set have i true ∙ h.have_size;
      right = λ j e. elim (ℕ_discrete i j) [
        | yes p ↦ rw (← p) (get_or-set_self buf i (stream i) 0 (omega (arith, h.buf_size)))
        | no q ↦
            get_or-set_ne buf i j (stream i) 0 q
            ∙ h.right j (sym (get_or-set_ne have i j true false q) ∙ e)
      ];
    }

    -- What `insert_loop` leaves behind: the new bytes are there, and nothing that was there is lost.
    pub record Inserted (r : Reasm) (i n : ℕ) (r' : Reasm) : Type 0 where
      pub holds : Holds r'.buf r'.have
      pub kept : (j : ℕ) → get_or r.have j false ≡ true → get_or r'.have j false ≡ true
      pub added : (j : ℕ) → i ≤ j → j < i + n → get_or r'.have j false ≡ true
      pub nothing_else :
          (j : ℕ)
          → get_or r'.have j false ≡ true
          → (get_or r.have j false ≡ true) ⊎ ((i ≤ j) × (j < i + n))
      pub watermark : r'.delivered ≡ r.delivered

    have_stays :
        (have : List Bool) (i j : ℕ)
        → get_or have j false ≡ true
        → i < length have
        → get_or (set have i true) j false ≡ true
    have_stays have i j e lt = elim (ℕ_discrete i j) [
      | yes p ↦ rw (← p) (get_or-set_self have i true false lt)
      | no q ↦ get_or-set_ne have i j true false q ∙ e
    ]

    have_new :
        (have : List Bool) (i j : ℕ)
        → get_or (set have i true) j false ≡ true
        → (get_or have j false ≡ true) ⊎ (i ≡ j)
    have_new have i j e = elim (ℕ_discrete i j) [
      | yes p ↦ inr p
      | no q ↦ inl (sym (get_or-set_ne have i j true false q) ∙ e)
    ]

    pub insert_loop-Inserted :
        (bytes : List ℕ) (r : Reasm) (i : ℕ)
        → Holds r.buf r.have
        → IsPart i bytes
        → i + length bytes ≤ cap
        → Inserted r i (length bytes) (insert_loop r i bytes)
    unfolding insert_loop
    insert_loop-Inserted [] r i h part fits = record {
      holds = h;
      kept = λ j e. e;
      added = λ j p q. absurd (omega arith);
      nothing_else = λ j e. inl e;
      watermark = refl;
    }
    insert_loop-Inserted (b ∷ bs) r i h (e, part) fits =
        let r₁ : Reasm = record r { buf = set r.buf i b; have = set r.have i true } in
        let h₁ : Holds r₁.buf r₁.have = rw e (store-Holds r.buf r.have i (omega arith) h) in
        let rest = insert_loop-Inserted bs r₁ (i + 1) h₁ part (omega arith) in
        record {
          holds = rest.holds;
          kept = λ j old. rest.kept j (have_stays r.have i j old (omega (arith, h.have_size)));
          added = λ j p q. elim (ℕ_discrete i j) [
            | yes same ↦
                rest.kept j
                  (rw (← same) (get_or-set_self r.have i true false (omega (arith, h.have_size))))
            | no differs ↦ rest.added j (omega arith) (omega arith)
          ];
          nothing_else = λ j new. elim (rest.nothing_else j new) [
            | inl before ↦ elim (have_new r.have i j before) [
              | inl old ↦ inl old
              | inr same ↦ inr (omega arith, omega arith)
            ]
            | inr (p, q) ↦ inr (omega arith, omega arith)
          ];
          watermark = rest.watermark;
        }

    -- The watermark stops at the first gap, or at the end of the buffer.
    pub deliver_loop_lem :
        (fuel : ℕ) (have : List Bool) (d : ℕ)
        → Full have d
        → d ≤ cap
        → cap ≤ d + fuel
        → let d' = deliver_loop cap fuel have d in
          Full have d' × (d ≤ d') × (d' ≤ cap) × ((d' ≡ cap) ⊎ (get_or have d' false ≡ false))
    unfolding deliver_loop
    deliver_loop_lem zero have d full lo hi = (full, omega arith, omega arith, inl (omega arith))
    deliver_loop_lem (suc fuel) have d full lo hi =
        elim (Bool-cases (ltb d cap && get_or have d false)) [
          | inl more ↦
              let here : get_or have d false ≡ true = ground arith in
              let room : d < cap = ground arith in
              let full' : Full have (d + 1) = λ j p. elim (ℕ_discrete d j) [
                | yes e ↦ rw (← e) here
                | no q ↦ full j (omega arith)
              ] in
              let (f, a, b, c) =
                deliver_loop_lem fuel have (d + 1) full' (omega arith) (omega arith) in
              rw more (f, omega arith, b, c)
          | inr stop ↦ rw stop (full, omega arith, lo, ground arith)
        ]

    pub copy_out-segment :
        (n i d : ℕ) (buf : List ℕ) (have : List Bool)
        → Holds buf have
        → Full have d
        → i + n ≤ d
        → copy_out buf i n ≡ segment i n
    unfolding copy_out
    copy_out-segment zero i d buf have h full p = refl
    copy_out-segment (suc n) i d buf have h full p =
        ap₂ ◌∷◌ (h.right i (full i (omega arith)))
          (copy_out-segment n (i + 1) d buf have h full (omega arith))
