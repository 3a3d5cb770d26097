-- ===== src/Jobs/Gate.antt =====
-- jobs.rs: `ProgressGate`, which limits how often the progress is sent. An `Instant` is a count of
-- milliseconds; `duration_since` stops at zero.
use zip_mania.Prelude.{
  ℕ, ◌+◌, ◌-◌, ◌≤◌, ◌≡◌, refl, arith, Bool, true, false, ◌||◌, Option, none, some, List, [], ◌∷◌,
  if◌then◌else◌, leb, leb→le, ◌⊎◌, inl, inr, Bool-cases, or_true,
}

pub record ProgressGate : Type 0 where
  pub last : Option ℕ

abbrev pub min_interval : ℕ
min_interval = 50

abbrev pub new : ProgressGate
new = record { last = none }

abbrev pub due : Option ℕ → ℕ → Bool
due none now = true
due (some t) now = leb min_interval (now - t)

unfoldable pub allow_at : ℕ → ℕ → ProgressGate → Bool × ProgressGate
allow_at percent now g =
    let pass = leb 100 percent || due g.last now in
    (pass, if pass then record { last = some now } else g)

-- One progress event: its percent and its time.
abbrev pub Event : Type 0
Event = ℕ × ℕ

-- What the emitter sends of a sequence of events.
unfoldable pub sent : List Event → ProgressGate → List Event
unfolding allow_at
sent [] g = []
sent ((percent, now) ∷ es) g =
    let (pass, g') = allow_at percent now g in
    let rest = sent es g' in if pass then (percent, now) ∷ rest else rest

-- Each event is final, or the least interval behind the one before it; `last` is the time of that.
abbrev pub Spaced : Option ℕ → List Event → Type 0
Spaced last [] = Unit {0}
Spaced none ((percent, now) ∷ es) = Spaced (some now) es
Spaced (some t) ((percent, now) ∷ es) =
    ((100 ≤ percent) ⊎ (t + min_interval ≤ now)) × Spaced (some now) es

due-spaced :
    (t percent now : ℕ)
    → leb 100 percent || due (some t) now ≡ true
    → (100 ≤ percent) ⊎ (t + min_interval ≤ now)
due-spaced t percent now h = elim (Bool-cases (leb 100 percent)) [
  | inl e ↦ inl (leb→le 100 percent e)
  | inr e ↦ inr (omega (arith, leb→le min_interval (now - t) (rw e at h)))
]

-- The emitter by cases.
module _ (percent now : ℕ) (es : List Event) (g : ProgressGate) where
  sent_pass :
      leb 100 percent || due g.last now ≡ true
      → sent ((percent, now) ∷ es) g ≡ (percent, now) ∷ sent es (record { last = some now })
  unfolding sent allow_at
  sent_pass h = rw h refl

  sent_hold : leb 100 percent || due g.last now ≡ false → sent ((percent, now) ∷ es) g ≡ sent es g
  unfolding sent allow_at
  sent_hold h = rw h refl

sent_from-Spaced :
    (es : List Event) (last : Option ℕ) → Spaced last (sent es (record { last = last }))
unfolding sent
sent_from-Spaced [] last = tt
sent_from-Spaced ((percent, now) ∷ es) none =
    rw (sent_pass percent now es (record { last = none }) (or_true (leb 100 percent)))
      (sent_from-Spaced es (some now))
sent_from-Spaced ((percent, now) ∷ es) (some t) =
    elim (Bool-cases (leb 100 percent || due (some t) now)) [
      | inl e ↦
          rw (sent_pass percent now es (record { last = some t }) e)
            (due-spaced t percent now e, sent_from-Spaced es (some now))
      | inr e ↦
          rw (sent_hold percent now es (record { last = some t }) e) (sent_from-Spaced es (some t))
    ]

-- The events at 100 percent or more.
abbrev pub finals : List Event → List Event
finals [] = []
finals ((percent, now) ∷ es) =
    let rest = finals es in if leb 100 percent then (percent, now) ∷ rest else rest

hold-not_final : (percent : ℕ) (b : Bool) → leb 100 percent || b ≡ false → leb 100 percent ≡ false
hold-not_final percent b h = ground arith

finals-sent : (es : List Event) (g : ProgressGate) → finals (sent es g) ≡ finals es
unfolding sent
finals-sent [] g = refl
finals-sent ((percent, now) ∷ es) g = elim (Bool-cases (leb 100 percent || due g.last now)) [
  | inl e ↦ rw (sent_pass percent now es g e, finals-sent es (record { last = some now })) refl
  | inr e ↦
      rw (sent_hold percent now es g e, finals-sent es g, hold-not_final percent (due g.last now) e)
        refl
]

-- Of any sequence of events, what is sent keeps the least interval, from the last event that was
-- sent before on, except for events at 100 percent or more, and none of those is held back.
pub sent-Spaced :
    (es : List Event) (g : ProgressGate)
    → Spaced g.last (sent es g) × (finals (sent es g) ≡ finals es)
sent-Spaced es g = (sent_from-Spaced es g.last, finals-sent es g)
