-- ===== src/Engine/Meter.antt =====
-- src/audio_engine.rs, `AudioLevelMeter`, with instants in ms. `Levels` is its arithmetic in f64: the
-- sum of the squares of samples, and the level between 0 and 1 of a sum over a number of samples
-- (root mean square and decibels), with 0 where there is no sample.
use larmindon_core.Base.{
  ℕ, ◌+◌, ◌-◌, ◌≤◌, Option, none, some, List, [], ◌∷◌, arith, ltb, if◌then◌else◌, length, if_holds,
}

abbrev pub audio_level_emit_interval : ℕ
audio_level_emit_interval = 50

pub record Levels (F Q : Type 0) : Type 0 where
  pub zero_sum : Q
  pub add : Q → Q → Q
  pub sum_of_squares : List F → Q
  pub level_of : Q → ℕ → F

pub record AudioLevelMeter (Q : Type 0) : Type 0 where
  pub sum_squares : Q
  pub sample_count : ℕ
  pub last_emit : ℕ

module _ {F Q : Type 0} (levels : Levels F Q) where
  unfoldable pub new : ℕ → AudioLevelMeter Q
  new now = record { sum_squares = levels.zero_sum; sample_count = 0; last_emit = now }

  unfoldable pub observe : List F → AudioLevelMeter Q → AudioLevelMeter Q
  observe samples m = record m {
    sum_squares = levels.add m.sum_squares (levels.sum_of_squares samples);
    sample_count = m.sample_count + length samples;
  }

  -- `duration_since` gives 0 where `now` is earlier.
  unfoldable pub take_level_if_due : ℕ → AudioLevelMeter Q → Option F × AudioLevelMeter Q
  take_level_if_due now m =
      if ltb (now - m.last_emit) audio_level_emit_interval then (none, m) else (
        some (levels.level_of m.sum_squares m.sample_count),
        record { sum_squares = levels.zero_sum; sample_count = 0; last_emit = now },
      )

  abbrev with_instant : Option F → ℕ → List ℕ → List ℕ
  with_instant none now ts = ts
  with_instant (some _) now ts = now ∷ ts

  -- The instants at which levels come out, over rounds of the loop with the samples of each.
  unfoldable pub emitted_at : List (ℕ × List F) → AudioLevelMeter Q → List ℕ
  unfolding observe take_level_if_due
  emitted_at [] m = []
  emitted_at ((now, samples) ∷ rounds) m =
      let (level, m') = take_level_if_due now (observe samples m) in
      with_instant level now (emitted_at rounds m')

-- Each instant is `gap` or more after the one before, the first after `from`.
abbrev pub Spaced : ℕ → ℕ → List ℕ → Type 0
Spaced gap from [] = Unit
Spaced gap from (t ∷ ts) = (from + gap ≤ t) × Spaced gap t ts

module _ {F Q : Type 0} (levels : Levels F Q) where
  -- Whatever the instants of the rounds and their samples, two levels are 50 ms apart or more, and
  -- the first is 50 ms or more after the meter is made: at most 20 in a second.
  pub emitted_at-Spaced :
      (rounds : List (ℕ × List F)) (m : AudioLevelMeter Q)
      → Spaced audio_level_emit_interval m.last_emit (emitted_at levels rounds m)
  unfolding emitted_at observe take_level_if_due
  emitted_at-Spaced [] m = tt
  emitted_at-Spaced ((now, samples) ∷ rounds) m =
      let m₁ = observe levels samples m in
      let after : Option F × AudioLevelMeter Q → Type 0 = λ (level, m').
        Spaced audio_level_emit_interval m.last_emit
          (with_instant levels level now (emitted_at levels rounds m')) in
      if_holds after (ltb (now - m.last_emit) audio_level_emit_interval) (none, m₁) _
        (λ e. emitted_at-Spaced rounds m₁) (λ e. (ground (arith, e), emitted_at-Spaced rounds _))
